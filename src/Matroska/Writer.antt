-- ===== src/Matroska/Writer.antt =====
-- internal/matroska/writer.go: the writer's state and operations. The file behind the writer answers
-- each write: whole, or failed after some bytes.
use fragata.Base.{
  ℕ, zero, suc, ◌+◌, ◌-◌, ◌/◌, ◌%◌, ℤ, pos, negsuc, pos_part, lt_int, Bool, true, false, not, ◌||◌,
  List, [], ◌∷◌, ◌++◌, Bytes, bytes_eq, codes, length, take, Option, none, some, ltb, ◌==◌,
  if◌then◌else◌,
}
use fragata.Hub.{Info, AudioInfo, AccessUnit, AudioPacket, is_nil}
use fragata.Matroska.Ebml.{
  Outcome, ok, err, panicked, WriterError, closed_writer, no_resolution, no_parameter_sets,
  unknown_codec, cluster_range, write_failed, encode_size, element, uint_element, be_bytes,
  unsigned,
}
use fragata.Matroska.Header.{
  id_ebml, id_segment, id_info, id_tracks, id_cluster, id_timestamp, id_simple_block, unknown_size,
  ebml_head, segment_info, tracks, normalize_audio_info,
}

-- `answers` are the file's to the writes to come: a failure keeps so many bytes. Behind them every
-- write succeeds.
pub record Writer : Type 0 where
  pub content : Bytes
  pub answers : List (Option ℕ)
  pub info : Info
  pub audio_info : AudioInfo
  pub origin : ℤ
  pub origin_set : Bool
  pub cluster : Bytes
  pub cluster_start : ℕ
  pub cluster_set : Bool
  pub closed : Bool

-- A function of the writer keeps what it changed before an error.
abbrev pub M : Type 0 → Type 0
M A = Writer → Outcome A × Writer

abbrev pub after : {A B : Type 0} → Outcome A × Writer → (A → M B) → Outcome B × Writer
after (ok a, w) f = f a w
after (err e, w) f = (err e, w)
after (panicked, w) f = (panicked, w)

infixl 5 ◌>>=◌ ◌>>◌
abbrev pub ◌>>=◌ : {A B : Type 0} → M A → (A → M B) → M B
◌>>=◌ m f w = after (m w) f

abbrev pub ◌>>◌ : {B : Type 0} → M (Unit {0}) → M B → M B
m >> k = m >>= λ _. k

abbrev pub lift : {A : Type 0} → Outcome A → M A
lift o w = (o, w)

abbrev pub done : M (Unit {0})
done w = (ok tt, w)

abbrev pub fail : WriterError → M (Unit {0})
fail e w = (err e, w)

-- `w.out.Write`.
unfoldable pub write_bytes : Bytes → M (Unit {0})
write_bytes p w = elim w.answers [
  | [] ↦ (ok tt, record w { content = w.content ++ p })
  | answer ∷ rest ↦ elim answer [
    | none ↦ (ok tt, record w { content = w.content ++ p; answers = rest })
    | some kept ↦
        (err write_failed, record w { content = w.content ++ take kept p; answers = rest })
  ]
]

-- `writeElement` to the file.
unfoldable pub write_element : Bytes → Bytes → M (Unit {0})
write_element id content = do
  write_bytes id
  size ← lift (encode_size (length content))
  write_bytes size
  write_bytes content

abbrev pub is_h264 : Info → Bool
is_h264 info = bytes_eq info.codec (codes "H264")

abbrev pub is_h265 : Info → Bool
is_h265 info = bytes_eq info.codec (codes "H265")

-- What `NewWithAudio` asks of the stream.
unfoldable pub check_info : Info → Option WriterError
check_info info =
    if lt_int info.width (pos 1) || lt_int info.height (pos 1)
    then some no_resolution
    else if is_h264 info
    then if ltb (length info.sps) 4 || length info.pps == 0 then some no_parameter_sets else none
    else if is_h265 info
    then if length info.vps == 0 || (length info.sps == 0 || length info.pps == 0)
      then some no_parameter_sets
      else none
    else some unknown_codec

module _ (float64_bits : ℤ → ℕ) where
  unfoldable pub write_header : M (Unit {0})
  write_header w =
      (do
        head ← lift ebml_head
        write_element id_ebml head
        write_bytes id_segment
        write_bytes unknown_size
        info ← lift segment_info
        write_element id_info info
        list ← lift (tracks float64_bits w.info w.audio_info)
        write_element id_tracks list)
        w

  abbrev pub new_writer : List (Option ℕ) → Info → AudioInfo → Writer
  new_writer answers info audio_info = record {
    content = [];
    answers = answers;
    info = info;
    audio_info = normalize_audio_info audio_info;
    origin = pos 0;
    origin_set = false;
    cluster = [];
    cluster_start = 0;
    cluster_set = false;
    closed = false;
  }

  -- `NewWithAudio`, with a writer that is not nil.
  unfoldable pub new_with_audio : List (Option ℕ) → Info → AudioInfo → Outcome (Unit {0}) × Writer
  new_with_audio answers info audio_info =
      let w = new_writer answers info audio_info in
      elim (check_info info) [ none ↦ write_header w | some e ↦ (err e, w) ]

-- The integer that a 64-bit pattern stands for, and `int64` subtraction.
abbrev pub signed64 : ℕ → ℤ
signed64 n =
    if ltb n 9_223_372_036_854_775_808 then pos n else negsuc (18_446_744_073_709_551_615 - n)

unfoldable pub sub64 : ℤ → ℤ → ℤ
sub64 a b =
    let values : ℕ = 18_446_744_073_709_551_616 in
    signed64 ((unsigned values a + values - unsigned values b) % values)

abbrev pub negated : ℕ → ℤ
negated zero = pos 0
negated (suc n) = negsuc n

-- `Duration.Milliseconds`, which cuts towards zero.
unfoldable pub milliseconds : ℤ → ℤ
milliseconds (pos n) = pos (n / 1_000_000)
milliseconds (negsuc n) = negated (suc n / 1_000_000)

unfoldable pub flush_cluster : M (Unit {0})
flush_cluster w =
    let flushed = write_element id_cluster w.cluster w in
    if is_nil w.cluster
    then (ok tt, w)
    else after flushed (λ _ w'. (ok tt, record w' { cluster = [] }))

abbrev pub add_to_cluster : Bytes → M (Unit {0})
add_to_cluster bytes w = (ok tt, record w { cluster = w.cluster ++ bytes })

-- A new cluster, where the time is not within the one at hand.
unfoldable pub needs_cluster : ℕ → Writer → Bool
needs_cluster absolute w =
    not w.cluster_set
    || (ltb (w.cluster_start + 5000) absolute || ltb (w.cluster_start + 32767) absolute)

unfoldable pub start_cluster : ℕ → M (Unit {0})
start_cluster absolute = do
  flush_cluster
  (λ w. (ok tt, record w { cluster_start = absolute; cluster_set = true }))
  timestamp ← lift (uint_element id_timestamp absolute)
  add_to_cluster timestamp

-- The block's track, its time relative to the cluster's in 16 bits, its flags and its payload.
abbrev pub block_bytes : ℕ → ℕ → ℕ → ℕ → Bytes → Bytes
block_bytes start track absolute flags payload =
    track ∷ be_bytes 2 (absolute + 65536 - start) ++ flags ∷ payload

-- The end of `WriteAccessUnit` and of `WriteAudio`.
unfoldable pub write_block : ℕ → ℕ → ℕ → Bytes → M (Unit {0})
write_block track absolute flags payload w =
    let start = w.cluster_start in
    let added =
      (do
        block ← lift (element id_simple_block (block_bytes start track absolute flags payload))
        add_to_cluster block)
        w in
    if ltb (absolute + 32768) start || ltb (start + 32767) absolute
    then (err cluster_range, w)
    else added

unfoldable pub write_at : ℕ → ℕ → ℕ → Bytes → M (Unit {0})
write_at track absolute flags payload w =
    let fresh = (do start_cluster absolute; write_block track absolute flags payload) w in
    let same = write_block track absolute flags payload w in
    if needs_cluster absolute w then fresh else same

-- Each unit that is not empty behind its length in four bytes.
unfoldable pub frame : List Bytes → Bytes
frame [] = []
frame (nalu ∷ nalus) =
    let rest = frame nalus in if is_nil nalu then rest else be_bytes 4 (length nalu) ++ nalu ++ rest

abbrev pub with_origin : ℤ → Writer → Writer
with_origin pts w = if w.origin_set then w else record w { origin = pts; origin_set = true }

unfoldable pub write_access_unit : AccessUnit → M (Unit {0})
write_access_unit au w =
    let w' = with_origin au.pts w in
    let absolute = pos_part (milliseconds (sub64 au.pts w'.origin)) in
    let written = write_at 0x81 absolute (if au.key_frame then 0x80 else 0) (frame au.nalus) w' in
    if w.closed then (err closed_writer, w) else if is_nil au.nalus then (ok tt, w) else written

unfoldable pub write_audio : {P : Type 0} → AudioPacket P → M (Unit {0})
write_audio packet w =
    let since = milliseconds (sub64 packet.pts w.origin) in
    let written = write_at 0x82 (pos_part since) 0x80 packet.payload w in
    if w.closed
    then (err closed_writer, w)
    else if is_nil w.audio_info.codec || (is_nil packet.payload || not w.origin_set)
    then (ok tt, w)
    else if lt_int since (pos 0)
    then (ok tt, w)
    else written

unfoldable pub close : M (Unit {0})
close w =
    let flushed = flush_cluster (record w { closed = true }) in
    if w.closed then (ok tt, w) else flushed
