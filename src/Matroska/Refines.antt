-- ===== src/Matroska/Refines.antt =====
-- The writer of internal/matroska/writer.go against the frames that it is given.
mod Adding
pub mod Run
pub mod Recording
use mathlib.Core.List.{append-nil, append_assoc}
use fragata.Base.{
  ℕ, zero, suc, ◌+◌, ◌-◌, ◌*◌, ◌/◌, ◌%◌, ◌≤◌, ◌<◌, ◌≡◌, refl, sym, ap, subst, ◌∙◌, inl, inr, Bool,
  true, false, not, ◌&&◌, ◌||◌, ℤ, pos, negsuc, pos_part, lt_int, List, [], ◌∷◌, ◌++◌, Bytes,
  Option, none, some, ltb, length, if◌then◌else◌, Bool-cases, arith, ltb→le, ltb→lt, take,
}
use fragata.Hub.{AccessUnit, AudioPacket, is_nil}
use fragata.Matroska.Ebml.{
  Outcome, ok, err, panicked, WriterError, encode_size, element, uint_element, unsigned,
}
use fragata.Matroska.Header.{id_cluster, id_timestamp, id_simple_block}
use fragata.Matroska.Writer.{
  Writer, M, after, ◌>>=◌, ◌>>◌, lift, write_bytes, write_element, flush_cluster, add_to_cluster,
  needs_cluster, start_cluster, block_bytes, write_block, write_at, frame, with_origin,
  write_access_unit, write_audio, close, milliseconds, sub64, signed64, negated,
}
use fragata.Matroska.Elements.{element-ok}
use fragata.Matroska.Frames.{
  Frame, Blocks, Clusters, ReadsCluster, ReadsClusters, read_block-block_bytes, Blocks-snoc,
  Clusters-snoc, Clusters-read, cluster-read, no_block, put, no_cluster,
}

-- What holds of the value and the writer if a call returns without an error.
pub Ensures : {A : Type 0} → (A → Writer → Type 0) → Outcome A × Writer → Type 0
Ensures P (ok a, w) = P a w
Ensures P (err e, w) = Unit
Ensures P (panicked, w) = Unit

Ensures-after :
    {A B : Type 0} (Q : A → Writer → Type 0) (P : B → Writer → Type 0) (r : Outcome A × Writer)
    (f : A → M B)
    → Ensures Q r
    → ((a : A) (w : Writer) → Q a w → Ensures P (f a w))
    → Ensures P (after r f)
unfolding Ensures
Ensures-after Q P (ok a, w) f h next = next a w h
Ensures-after Q P (err e, w) f h next = tt
Ensures-after Q P (panicked, w) f h next = tt

Ensures-lift :
    {A : Type 0} (o : Outcome A) (w : Writer) → Ensures (λ a w'. (o ≡ ok a) × (w' ≡ w)) (lift o w)
unfolding Ensures
Ensures-lift (ok a) w = (refl, refl)
Ensures-lift (err e) w = tt
Ensures-lift panicked w = tt

Ensures-weaken :
    {A : Type 0} (Q P : A → Writer → Type 0) (r : Outcome A × Writer)
    → Ensures Q r
    → ((a : A) (w : Writer) → Q a w → P a w)
    → Ensures P r
unfolding Ensures
Ensures-weaken Q P (ok a, w) h weaker = weaker a w h
Ensures-weaken Q P (err e, w) h weaker = tt
Ensures-weaken Q P (panicked, w) h weaker = tt

-- All but the file is as it was.
pub Wrote : Bytes → Writer → Writer → Type 0
Wrote p w w' =
    (answers : List (Option ℕ)) × (w' ≡ record w { content = w.content ++ p; answers = answers })

write_bytes-Wrote : (p : Bytes) (w : Writer) → Ensures (λ _ w'. Wrote p w w') (write_bytes p w)
unfolding Ensures Wrote write_bytes
write_bytes-Wrote p w = by_answers w.answers
  where
    by_answers :
        (answers : List (Option ℕ))
        → Ensures
            (λ _ w'.
              (later : List (Option ℕ)) × (w'
                ≡ record w { content = w.content ++ p; answers = later }))
            (write_bytes p (record w { answers = answers }))
    by_answers [] = ([], refl)
    by_answers (none ∷ rest) = (rest, refl)
    by_answers (some kept ∷ rest) = tt

Wrote-append :
    (w w' w'' : Writer) (p q : Bytes) → Wrote p w w' → Wrote q w' w'' → Wrote (p ++ q) w w''
unfolding Wrote
Wrote-append w w' w'' p q (a, e) (b, e') = (
  b,
  e'
      ∙ ap (λ (v : Writer). record v { content = v.content ++ q; answers = b }) e
      ∙ ap (λ content. record w { content = content; answers = b }) (append_assoc w.content p q),
)

element-made :
    (id size content : Bytes)
    → encode_size (length content) ≡ ok size
    → element id content ≡ ok (id ++ size ++ content)
unfolding element
element-made id size content e = rw e refl

write_element-Wrote :
    (id content : Bytes) (w : Writer)
    → Ensures
        (λ _ w'. (e : Bytes) × (element id content ≡ ok e) × Wrote e w w')
        (write_element id content w)
unfolding write_element
write_element-Wrote id content w =
    let Whole : Unit {0} → Writer → Type 0 =
      λ _ w'. (e : Bytes) × (element id content ≡ ok e) × Wrote e w w' in
    Ensures-after (λ _ w'. Wrote id w w') Whole (write_bytes id w) _ (write_bytes-Wrote id w)
      (λ _ w₁ h₁.
        Ensures-after (λ size v. (encode_size (length content) ≡ ok size) × (v ≡ w₁)) Whole
          (lift (encode_size (length content)) w₁) _
          (Ensures-lift (encode_size (length content)) w₁)
          (λ size w₂ h₂.
            Ensures-after (λ _ v. Wrote size w₂ v) Whole (write_bytes size w₂) _
              (write_bytes-Wrote size w₂)
              (λ _ w₃ h₃.
                Ensures-weaken (λ _ v. Wrote content w₃ v) Whole (write_bytes content w₃)
                  (write_bytes-Wrote content w₃)
                  (λ _ w₄ h₄.
                    let first =
                      Wrote-append w w₁ w₃ id size h₁ (subst (λ v. Wrote size v w₃) h₂.1 h₃) in
                    (
                      id ++ size ++ content,
                      element-made id size content h₂.0,
                      Wrote-append w w₃ w₄ (id ++ size) content first h₄,
                    )))))

-- What an operation leaves alone, from `WriteAccessUnit`'s setting of the origin on.
pub record Kept (w w' : Writer) : Type 0 where
  pub origin_kept : w'.origin ≡ w.origin
  pub origin_set_kept : w'.origin_set ≡ w.origin_set
  pub audio_kept : w'.audio_info ≡ w.audio_info
  pub closed_kept : w'.closed ≡ w.closed

-- The cluster in the making, with its frames.
pub Current : Bool → ℕ → Bytes → List Frame → Type 0
Current false start cluster fs = (cluster ≡ []) × (fs ≡ [])
Current true start cluster fs =
    (start < 18_446_744_073_709_551_616)
    × (timestamp : Bytes) × (bytes : Bytes) × (uint_element id_timestamp start ≡ ok timestamp)
    × (cluster ≡ timestamp ++ bytes)
    × Blocks start bytes fs

-- The file behind its head holds the finished clusters, and these frames are in both.
pub record Holds (head : Bytes) (fs : List Frame) (w : Writer) : Type 0 where
  pub body : Bytes
  pub finished : List Frame
  pub current : List Frame
  pub in_file : w.content ≡ head ++ body
  pub are_clusters : Clusters body finished
  pub is_current : Current w.cluster_set w.cluster_start w.cluster current
  pub all_frames : finished ++ current ≡ fs

-- The same with no cluster in the making.
pub record Flushed (head : Bytes) (fs : List Frame) (w : Writer) : Type 0 where
  pub body : Bytes
  pub in_file : w.content ≡ head ++ body
  pub are_clusters : Clusters body fs
  pub emptied : w.cluster ≡ []

timestamp-ne-nil :
    (start : ℕ) (timestamp bytes : Bytes)
    → uint_element id_timestamp start ≡ ok timestamp
    → is_nil (timestamp ++ bytes) ≡ false
unfolding uint_element
timestamp-ne-nil start timestamp bytes e =
    let (size, _, form) = element-ok id_timestamp _ timestamp e in rw form refl

-- An empty buffer has no frames, and any other is a cluster.
Current-nil :
    (set : Bool) (start : ℕ) (cluster : Bytes) (fs : List Frame)
    → Current set start cluster fs
    → is_nil cluster ≡ true
    → (cluster ≡ []) × (fs ≡ [])
unfolding Current
Current-nil false start cluster fs h e = h
Current-nil true start cluster fs (small, timestamp, bytes, made, form, blocks) e =
    absurd (cc (timestamp-ne-nil start timestamp bytes made))

Current-cluster :
    (set : Bool) (start : ℕ) (cluster : Bytes) (fs : List Frame)
    → Current set start cluster fs
    → is_nil cluster ≡ false
    → ReadsCluster cluster fs
unfolding Current
Current-cluster false start cluster fs h e = absurd (cc)
Current-cluster true start cluster fs (small, timestamp, bytes, made, form, blocks) e =
    rw form (cluster-read start timestamp bytes fs small made blocks)

flush_cluster-Flushed :
    (head : Bytes) (fs : List Frame) (w : Writer)
    → Holds head fs w
    → Ensures (λ _ w'. Flushed head fs w' × Kept w w') (flush_cluster w)
unfolding flush_cluster Ensures Wrote
flush_cluster-Flushed head fs w h =
    let Done : Unit {0} → Writer → Type 0 = λ _ w'. Flushed head fs w' × Kept w w' in
    elim (Bool-cases (is_nil w.cluster)) [
      | inl empty ↦
          let (cleared, no_frames) =
            Current-nil w.cluster_set w.cluster_start w.cluster h.current h.is_current empty in
          let all : h.finished ≡ fs =
            sym (append-nil h.finished) ∙ ap (h.finished ++◌) (sym no_frames) ∙ h.all_frames in
          rw (flush_cluster, empty)
            (
              record {
                body = h.body;
                in_file = h.in_file;
                are_clusters = subst (Clusters h.body) all h.are_clusters;
                emptied = cleared;
              },
              record {
                origin_kept = refl;
                origin_set_kept = refl;
                audio_kept = refl;
                closed_kept = refl;
              },
            )
      | inr full ↦
          let reads =
            Current-cluster w.cluster_set w.cluster_start w.cluster h.current h.is_current full in
          let written = write_element-Wrote id_cluster w.cluster w in
          let clusters = λ (e : Bytes) (made : element id_cluster w.cluster ≡ ok e).
            subst (Clusters (h.body ++ e)) h.all_frames
              (Clusters-snoc w.cluster e h.current made reads h.are_clusters) in
          rw (flush_cluster, full)
            (Ensures-after
              (λ _ w'. (e : Bytes) × (element id_cluster w.cluster ≡ ok e) × Wrote e w w') Done
              (write_element id_cluster w.cluster w) _ written
              (λ _ w' (e, made, (answers, form)). (
                record {
                  body = h.body ++ e;
                  in_file = rw (form, h.in_file) (append_assoc head h.body e);
                  are_clusters = clusters e made;
                  emptied = refl;
                },
                rw form (record {
                  origin_kept = refl;
                  origin_set_kept = refl;
                  audio_kept = refl;
                  closed_kept = refl;
                }),
              )))
    ]
