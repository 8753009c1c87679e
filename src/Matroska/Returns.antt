-- ===== src/Matroska/Returns.antt =====
-- When the operations of internal/matroska/writer.go succeed, and when they panic.
use fragata.Base.{
  ℕ, zero, suc, ◌+◌, ◌-◌, ◌^◌, ◌≤◌, ◌<◌, ◌≡◌, refl, ap, ◌∙◌, inl, inr, Bool, true, false, ◌||◌, ℤ,
  pos_part, [], ◌∷◌, ◌++◌, Bytes, none, some, ltb, length, length-append, if◌then◌else◌, Bool-cases,
  arith,
}
use fragata.Hub.{Info, AudioInfo, AccessUnit, is_nil}
use fragata.Matroska.Ebml.{
  Outcome, ok, panicked, encode_size, element, uint_element, be_bytes, uint_size_from, elements,
  encode_size_from,
}
use fragata.Matroska.Header.{
  id_cluster, id_timestamp, id_simple_block, avc_decoder_configuration_record, video_track, tracks,
  ebml_head, normalize_audio_info, segment_info,
}
use fragata.Matroska.Writer.{
  Writer, M, after, write_bytes, write_element, flush_cluster, needs_cluster, start_cluster,
  block_bytes, write_block, write_at, frame, with_origin, write_access_unit, milliseconds, sub64,
  new_writer, check_info, new_with_audio, write_header,
}
use fragata.Matroska.Sizes.{read_size-encode_size, length-be_bytes}
use fragata.Matroska.Frames.{Frame, read_block, read_block-block_bytes}
use fragata.Matroska.Events.{frame_at}

-- Elements that can be encoded.
unfoldable pub IsSmall : ℕ → Type 0
IsSmall n = n ≤ 2 ^ 56 - 2

-- A call that returns, and how the writer is after it.
unfoldable pub Returns : (Writer → Type 0) → Outcome (Unit {0}) × Writer → Type 0
Returns P r = (w : Writer) × (r ≡ (ok tt, w)) × P w

Returns-after :
    {A : Type 0} (P : Writer → Type 0) (r : Outcome A × Writer) (f : A → M (Unit {0})) (a : A)
    (w : Writer)
    → r ≡ (ok a, w)
    → Returns P (f a w)
    → Returns P (after r f)
unfolding Returns
Returns-after P r f a w e h = rw e h

encode_size-returns : (n : ℕ) → IsSmall n → (size : Bytes) × (encode_size n ≡ ok size)
unfolding IsSmall
encode_size-returns n h = let (size, e, _) = read_size-encode_size n [] h in (size, e)

element-returns :
    (id content : Bytes) → IsSmall (length content) → (e : Bytes) × (element id content ≡ ok e)
unfolding element
element-returns id content h =
    let (size, e) = encode_size-returns (length content) h in (id ++ size ++ content, rw e refl)

uint_size-le : (rounds size value : ℕ) → uint_size_from rounds size value ≤ size + rounds
unfolding uint_size_from
uint_size-le zero size value = omega arith
uint_size-le (suc rounds) size value = ground (arith, uint_size-le rounds (size + 1) value)

uint_element-returns : (id : Bytes) (value : ℕ) → (e : Bytes) × (uint_element id value ≡ ok e)
unfolding uint_element IsSmall
uint_element-returns id value =
    element-returns id (be_bytes (uint_size_from 7 1 value) value)
      (omega (arith, length-be_bytes (uint_size_from 7 1 value) value, uint_size-le 7 1 value))

-- A file that takes every write.
abbrev pub Takes : Writer → Type 0
Takes w = w.answers ≡ []

write_bytes-Takes :
    (p : Bytes) (w : Writer)
    → Takes w
    → write_bytes p w ≡ (ok tt, record w { content = w.content ++ p })
unfolding write_bytes
write_bytes-Takes p w h = ground (arith)

write_element-Returns :
    (id content : Bytes) (w : Writer)
    → Takes w
    → IsSmall (length content)
    → Returns
        (λ w'. (answers : Bytes) × (w' ≡ record w { content = answers }))
        (write_element id content w)
unfolding write_element Returns
write_element-Returns id content w t h =
    let (size, e) = encode_size-returns (length content) h in
    let w₁ = record w { content = w.content ++ id } in
    let w₂ = record w { content = w.content ++ id ++ size } in
    let w₃ = record w { content = w.content ++ id ++ size ++ content } in
    (
      w₃,
      rw (write_bytes-Takes id w t, e, write_bytes-Takes size w₁ t)
          (write_bytes-Takes content w₂ t),
      (w.content ++ id ++ size ++ content, refl),
    )

Returns-now : (P : Writer → Type 0) (w : Writer) → P w → Returns P (ok tt, w)
unfolding Returns
Returns-now P w h = (w, refl, h)

Returns-elim :
    (P : Writer → Type 0) (r : Outcome (Unit {0}) × Writer)
    → Returns P r
    → (w : Writer) × (r ≡ (ok tt, w)) × P w
unfolding Returns
Returns-elim P r h = h

is_nil-nil : (bytes : Bytes) → is_nil bytes ≡ true → bytes ≡ []
is_nil-nil [] h = refl
is_nil-nil (b ∷ bytes) h = grind (arith)

flush_cluster-Returns :
    (w : Writer)
    → Takes w
    → IsSmall (length w.cluster)
    → Returns (λ w'. Takes w' × (w'.cluster ≡ []) × (w'.closed ≡ w.closed)) (flush_cluster w)
unfolding flush_cluster
flush_cluster-Returns w t h =
    let P : Writer → Type 0 = λ w'. Takes w' × (w'.cluster ≡ []) × (w'.closed ≡ w.closed) in
    let (w₁, e, (content, same)) =
      Returns-elim _ _ (write_element-Returns id_cluster w.cluster w t h) in
    elim (Bool-cases (is_nil w.cluster)) [
      | inl empty ↦ rw empty (Returns-now P w (t, is_nil-nil w.cluster empty, refl))
      | inr full ↦
          rw (full, e)
            (Returns-now P (record w₁ { cluster = [] })
              (ap (λ v. v.answers) same ∙ t, refl, ap (λ v. v.closed) same))
    ]

start_cluster-Returns :
    (absolute : ℕ) (w : Writer)
    → Takes w
    → IsSmall (length w.cluster)
    → Returns (λ w'. Takes w' × (w'.cluster_start ≡ absolute)) (start_cluster absolute w)
unfolding start_cluster
start_cluster-Returns absolute w t h =
    let P : Writer → Type 0 = λ w'. Takes w' × (w'.cluster_start ≡ absolute) in
    let (w₁, e, (takes, _, _)) = Returns-elim _ _ (flush_cluster-Returns w t h) in
    let (timestamp, made) = uint_element-returns id_timestamp absolute in
    rw (e, made)
      (Returns-now P
        (record w₁ {
          cluster_start = absolute;
          cluster_set = true;
          cluster = w₁.cluster ++ timestamp;
        })
        (takes, refl))

-- The cluster ends with a block that a reader takes for this frame.
unfoldable pub Ends : Frame → Writer → Type 0
Ends f w =
    (front : Bytes) × (content : Bytes) × (e : Bytes) × (element id_simple_block content ≡ ok e)
    × (read_block w.cluster_start content ≡ some f)
    × (w.cluster ≡ front ++ e)

-- The same on a file that still takes every write.
abbrev pub Records : Frame → Writer → Type 0
Records f w = Takes w × Ends f w

write_block-Returns :
    (track absolute flags : ℕ) (payload : Bytes) (w : Writer)
    → Takes w
    → w.cluster_start ≤ absolute + 32768
    → absolute ≤ w.cluster_start + 32767
    → IsSmall (length payload + 4)
    → Returns
        (Records (frame_at track absolute flags payload))
        (write_block track absolute flags payload w)
unfolding write_block IsSmall Ends
write_block-Returns track absolute flags payload w t lo hi h =
    let block = block_bytes w.cluster_start track absolute flags payload in
    let (e, made) = element-returns id_simple_block block (
      omega (
        arith,
        h,
        length-append (be_bytes 2 (absolute + 65536 - w.cluster_start)) (flags ∷ payload),
        length-be_bytes 2 (absolute + 65536 - w.cluster_start),
      )) in
    let in_range : (ltb (absolute + 32768) w.cluster_start
          || ltb (w.cluster_start + 32767) absolute)
        ≡ false =
      ground (arith, lo, hi) in
    rw (in_range, made)
      (Returns-now (Records (frame_at track absolute flags payload))
        (record w { cluster = w.cluster ++ e })
        (
          t,
          (
            w.cluster,
            block,
            e,
            made,
            read_block-block_bytes w.cluster_start track absolute flags payload lo hi,
            refl,
          ),
        ))

needs_cluster-within :
    (absolute : ℕ) (w : Writer)
    → needs_cluster absolute w ≡ false
    → absolute ≤ w.cluster_start + 32767
unfolding needs_cluster
needs_cluster-within absolute w h = elim (Bool-cases (ltb (w.cluster_start + 32767) absolute)) [
  | inl late ↦ ground (arith, h, late)
  | inr early ↦ ground (arith, early)
]

write_at-Returns :
    (track absolute flags : ℕ) (payload : Bytes) (w : Writer)
    → Takes w
    → IsSmall (length w.cluster)
    → w.cluster_start ≤ absolute + 32768
    → IsSmall (length payload + 4)
    → Returns
        (Records (frame_at track absolute flags payload))
        (write_at track absolute flags payload w)
unfolding write_at needs_cluster
write_at-Returns track absolute flags payload w t small lo h =
    let (w₁, e, (takes, starts)) = Returns-elim _ _ (start_cluster-Returns absolute w t small) in
    let fresh =
      write_block-Returns track absolute flags payload w₁ takes (omega (arith, starts))
        (omega (arith, starts)) h in
    elim (Bool-cases (needs_cluster absolute w)) [
      | inl new ↦ rw (new, e) fresh
      | inr same ↦ rw same (
          write_block-Returns track absolute flags payload w t lo
            (needs_cluster-within absolute w same) h)
    ]

-- The milliseconds since the origin at which a picture is recorded.
unfoldable pub time_of : AccessUnit → Writer → ℕ
time_of au w = pos_part (milliseconds (sub64 au.pts (with_origin au.pts w).origin))

if-false :
    {A : Type 0} (P : A → Type 0) (b : Bool) (x y : A) → b ≡ false → P y → P (if b then x else y)
if-false P b x y h p = rw h p

with_origin-Returns :
    (pts : ℤ) (w : Writer) (track absolute flags : ℕ) (payload : Bytes)
    → Takes w
    → IsSmall (length w.cluster)
    → w.cluster_start ≤ absolute + 32768
    → IsSmall (length payload + 4)
    → Returns
        (Records (frame_at track absolute flags payload))
        (write_at track absolute flags payload (with_origin pts w))
with_origin-Returns pts w track absolute flags payload t small lo h =
    elim (Bool-cases w.origin_set) [
      | inl before ↦ simp before (write_at-Returns track absolute flags payload w t small lo h)
      | inr unset ↦ simp unset (
          write_at-Returns track absolute flags payload
            (record w { origin = pts; origin_set = true }) t small lo h)
    ]

-- The frame of a picture: all its units, its flags, and its time.
abbrev pub picture_frame : AccessUnit → Writer → Frame
picture_frame au w =
    frame_at 0x81 (time_of au w) (if au.key_frame then 0x80 else 0) (frame au.nalus)

-- A picture with media is recorded without an error when the writer is open, the file takes every
-- write, the picture is at most 32,768 milliseconds before the current cluster, and the picture and
-- the cluster are small enough to be encoded: the current cluster then ends with a block in which a
-- reader of Matroska finds the picture with all its bytes, its flags and its time, and the file
-- still takes every write.
pub write_access_unit-Returns :
    (au : AccessUnit) (w : Writer)
    → w.closed ≡ false
    → is_nil au.nalus ≡ false
    → Takes w
    → IsSmall (length w.cluster)
    → IsSmall (length (frame au.nalus) + 4)
    → w.cluster_start ≤ time_of au w + 32768
    → Returns (Records (picture_frame au w)) (write_access_unit au w)
unfolding write_access_unit time_of
write_access_unit-Returns au w open_ media t small h lo =
    if-false (Returns (Records (picture_frame au w))) w.closed _ _ open_ (
      if-false (Returns (Records (picture_frame au w))) (is_nil au.nalus) _ _ media (
        with_origin-Returns au.pts w 0x81 (time_of au w) (if au.key_frame then 0x80 else 0)
          (frame au.nalus) t small lo h))

avc-panics :
    (sps pps : Bytes) → length sps < 4 → avc_decoder_configuration_record sps pps ≡ panicked
unfolding avc_decoder_configuration_record
avc-panics [] pps h = refl
avc-panics (a ∷ []) pps h = refl
avc-panics (a ∷ b ∷ []) pps h = refl
avc-panics (a ∷ b ∷ c ∷ []) pps h = refl
avc-panics (a ∷ b ∷ c ∷ d ∷ sps) pps h = ground (arith, h)

tracks-panics :
    (float64_bits : ℤ → ℕ) (info : Info) (audio : AudioInfo)
    → length info.sps < 4
    → tracks float64_bits info audio ≡ panicked
unfolding tracks video_track
tracks-panics float64_bits info audio h = simp (avc-panics info.sps info.pps h)

write_header-panics :
    (float64_bits : ℤ → ℕ) (info : Info) (audio : AudioInfo)
    → length info.sps < 4
    → (write_header float64_bits (new_writer float64_bits [] info audio)).0 ≡ panicked
unfolding write_header write_element write_bytes ebml_head segment_info encode_size encode_size_from
    element uint_element uint_size_from elements
write_header-panics float64_bits info audio short =
    rw (tracks-panics float64_bits info (normalize_audio_info audio) short) refl

-- Opening a writer panics for a stream that passes the checks with a sequence parameter set of less
-- than four bytes, on a file that takes every write; the checks let H.265 have one.
pub new_with_audio-panics :
    (float64_bits : ℤ → ℕ) (info : Info) (audio : AudioInfo)
    → check_info info ≡ none
    → length info.sps < 4
    → (new_with_audio float64_bits [] info audio).0 ≡ panicked
unfolding new_with_audio
new_with_audio-panics float64_bits info audio checked short =
    rw (new_with_audio, checked) (write_header-panics float64_bits info audio short)
