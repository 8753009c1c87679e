-- ===== src/Matroska/Refines/Recording.antt =====
-- A recording of internal/matroska/writer.go from its opening to its close.
use mathlib.Core.List.{append-nil}
use fragata.Base.{
  ℕ, ◌≡◌, refl, sym, ap, subst, inl, inr, Bool, false, not, ℤ, List, [], ◌++◌, Bytes, Option, none,
  Option-cases,
}
use fragata.Hub.{Info, AudioInfo, is_nil}
use fragata.Matroska.Ebml.{Outcome, ok, err, WriterError, element}
use fragata.Matroska.Header.{
  id_ebml, id_segment, id_info, id_tracks, unknown_size, ebml_head, segment_info, tracks,
  normalize_audio_info,
}
use fragata.Matroska.Writer.{
  Writer, M, after, lift, write_bytes, write_element, close, check_info, new_with_audio, new_writer,
  write_header,
}
use fragata.Matroska.Frames.{Clusters, ReadsClusters}
use fragata.Matroska.Events.{Event, frames_of}
use fragata.Matroska.Refines.Run.{write_all, Follows, Origin, write_all-Holds, close-reads}
use fragata.Matroska.Refines.{
  Ensures, Ensures-after, Ensures-weaken, Ensures-lift, Current, Holds, Wrote, write_bytes-Wrote,
  write_element-Wrote,
}

-- A writer with a head and nothing else.
Unstarted : AudioInfo → Writer → Type 0
Unstarted info w =
    (w.origin_set ≡ false)
    × (w.cluster_set ≡ false)
    × (w.cluster ≡ [])
    × (w.closed ≡ false)
    × (w.audio_info ≡ info)

Wrote-Unstarted :
    (info : AudioInfo) (p : Bytes) (w w' : Writer)
    → Unstarted info w
    → Wrote p w w'
    → Unstarted info w'
unfolding Wrote Unstarted
Wrote-Unstarted info p w w' h (answers, e) = rw e h

bytes-Unstarted :
    (info : AudioInfo) (p : Bytes) (w : Writer)
    → Unstarted info w
    → Ensures (λ _ w'. Unstarted info w') (write_bytes p w)
bytes-Unstarted info p w h =
    Ensures-weaken (λ _ w'. Wrote p w w') (λ _ w'. Unstarted info w') (write_bytes p w)
      (write_bytes-Wrote p w) (λ _ w' wrote. Wrote-Unstarted info p w w' h wrote)

element-Unstarted :
    (info : AudioInfo) (id content : Bytes) (w : Writer)
    → Unstarted info w
    → Ensures (λ _ w'. Unstarted info w') (write_element id content w)
element-Unstarted info id content w h =
    Ensures-weaken (λ _ w'. (e : Bytes) × (element id content ≡ ok e) × Wrote e w w')
      (λ _ w'. Unstarted info w') (write_element id content w) (write_element-Wrote id content w)
      (λ _ w' (e, _, wrote). Wrote-Unstarted info e w w' h wrote)

lift-Unstarted :
    (info : AudioInfo) (o : Outcome Bytes) (w : Writer)
    → Unstarted info w
    → Ensures (λ _ w'. Unstarted info w') (lift o w)
lift-Unstarted info o w h =
    Ensures-weaken (λ a w'. (o ≡ ok a) × (w' ≡ w)) (λ _ w'. Unstarted info w') (lift o w)
      (Ensures-lift o w) (λ _ w' (_, same). subst (Unstarted info) (sym same) h)

module _ (float64_bits : ℤ → ℕ) where
  write_header-Unstarted :
      (info : AudioInfo) (w : Writer)
      → Unstarted info w
      → Ensures (λ _ w'. Unstarted info w') (write_header float64_bits w)
  unfolding write_header
  write_header-Unstarted info w h =
      let U = λ (A : Type 0) (_ : A) (v : Writer). Unstarted info v in
      let V : Unit {0} → Writer → Type 0 = λ _ v. Unstarted info v in
      let B : Bytes → Writer → Type 0 = λ _ v. Unstarted info v in
      Ensures-after B V (lift ebml_head w) _ (lift-Unstarted info ebml_head w h) (λ head w₁ h₁.
        Ensures-after V V (write_element id_ebml head w₁) _
          (element-Unstarted info id_ebml head w₁ h₁)
          (λ _ w₂ h₂.
            Ensures-after V V (write_bytes id_segment w₂) _ (bytes-Unstarted info id_segment w₂ h₂)
              (λ _ w₃ h₃.
                Ensures-after V V (write_bytes unknown_size w₃) _
                  (bytes-Unstarted info unknown_size w₃ h₃)
                  (λ _ w₄ h₄.
                    Ensures-after B V (lift segment_info w₄) _
                      (lift-Unstarted info segment_info w₄ h₄)
                      (λ about w₅ h₅.
                        Ensures-after V V (write_element id_info about w₅) _
                          (element-Unstarted info id_info about w₅ h₅)
                          (λ _ w₆ h₆.
                            let list = tracks float64_bits w.info w.audio_info in
                            Ensures-after B V (lift list w₆) _ (lift-Unstarted info list w₆ h₆)
                              (λ content w₇ h₇.
                                element-Unstarted info id_tracks content w₇ h₇)))))))

Ensures-err :
    {A : Type 0} (P : A → Writer → Type 0) (e : WriterError) (w : Writer) → Ensures P (err e, w)
unfolding Ensures
Ensures-err P e w = tt

-- Whether sound is recorded.
abbrev pub hears : AudioInfo → Bool
hears info = not (is_nil (normalize_audio_info info).codec)

new_with_audio-Unstarted :
    (float64_bits : ℤ → ℕ) (answers : List (Option ℕ)) (info : Info) (audio : AudioInfo)
    → Ensures
        (λ _ w. Unstarted (normalize_audio_info audio) w)
        (new_with_audio float64_bits answers info audio)
unfolding new_with_audio Unstarted
new_with_audio-Unstarted float64_bits answers info audio =
    let P : Unit {0} → Writer → Type 0 = λ _ w. Unstarted (normalize_audio_info audio) w in
    let w = new_writer float64_bits answers info audio in
    elim (Option-cases (check_info info)) [
      | inl checked ↦
          rw (new_with_audio, checked)
            (write_header-Unstarted float64_bits (normalize_audio_info audio) w
              (refl, refl, refl, refl, refl))
      | inr (e, refused) ↦ rw (new_with_audio, refused) (Ensures-err P e w)
    ]

Unstarted-Follows :
    (info : AudioInfo) (w : Writer)
    → Unstarted info w
    → Follows w.content (not (is_nil info.codec)) none [] w
unfolding Unstarted Current Origin
Unstarted-Follows info w (no_origin, no_cluster_set, empty, open_, same) = record {
  holds = record {
    body = [];
    finished = [];
    current = [];
    in_file = sym (append-nil w.content);
    are_clusters = Clusters.no_cluster;
    is_current =
        subst (λ set. Current set w.cluster_start w.cluster []) (sym no_cluster_set) (empty, refl);
    all_frames = refl;
  };
  at_origin = no_origin;
  hears = ap (λ (a : AudioInfo). not (is_nil a.codec)) same;
  is_open = open_;
}

Ensures-returned :
    {A : Type 0} (P : A → Writer → Type 0) (r : Outcome A × Writer) (a : A) (w : Writer)
    → Ensures P r
    → r ≡ (ok a, w)
    → P a w
unfolding Ensures
Ensures-returned P r a w h e = subst (Ensures P) e h

-- A recording: the head, whatever the recorder writes, and the close.
unfoldable pub record_all : {P : Type 0} → List (Event P) → M (Unit {0})
record_all events w = after (write_all events w) (λ _. close)

-- A recording that ends without an error is, behind its head, what a reader of Matroska reads as
-- exactly these frames, each once, in the order in which they were handed over, with its track,
-- flags and bytes: every picture with media, and the sound that is not empty, has a codec the writer
-- knows, comes after the first picture with media and is not from a time before it. Other sound is
-- left out. A frame's time is in milliseconds since the first picture with media; a picture from a
-- time before that one has the time 0.
pub record_all-reads :
    {P : Type 0} (float64_bits : ℤ → ℕ) (answers : List (Option ℕ)) (info : Info)
    (audio : AudioInfo) (events : List (Event P)) (w w' : Writer)
    → new_with_audio float64_bits answers info audio ≡ (ok tt, w)
    → record_all events w ≡ (ok tt, w')
    → (body : Bytes) × (w'.content ≡ w.content ++ body)
      × ReadsClusters body (frames_of (hears audio) none events)
unfolding record_all
record_all-reads float64_bits answers info audio events w w' opened recorded =
    let Read : Unit {0} → Writer → Type 0 = λ _ v.
      (body : Bytes) × (v.content ≡ w.content ++ body)
      × ReadsClusters body (frames_of (hears audio) none events) in
    let fresh =
      Ensures-returned (λ _ v. Unstarted (normalize_audio_info audio) v) _ tt w
        (new_with_audio-Unstarted float64_bits answers info audio) opened in
    let follows = Unstarted-Follows (normalize_audio_info audio) w fresh in
    Ensures-returned Read (record_all events w) tt w'
      (Ensures-after
        (λ _ v. Holds w.content (frames_of (hears audio) none events) v × (v.closed ≡ false)) Read
        (write_all events w) (λ _. close)
        (write_all-Holds w.content (hears audio) none [] events w follows)
        (λ _ v (holds, open_).
          close-reads w.content (frames_of (hears audio) none events) v holds open_))
      recorded
