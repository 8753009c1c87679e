-- ===== src/Livestream.antt =====
-- internal/livestream/manager.go: the boxes of the MP4 stream that FFmpeg writes, and the tail of its
-- messages; the modules below have the streams and their viewers. The reader is the bytes that are
-- still to come.
pub mod Boxes
pub mod Tail
pub mod Reader
pub mod Manager
pub mod Sessions
pub mod Subscribers
pub mod Counted
pub mod Viewers
pub mod Empty
pub mod Flow
pub mod Held
pub mod Active
pub mod Limits
pub mod Fragments
pub mod Redacted
use fragata.Base.{
  ℤ, pos, lt_int, pos_part, ℕ, zero, suc, ◌+◌, ◌-◌, ◌*◌, ◌||◌, Bool, true, false, List, [], ◌∷◌,
  ◌++◌, Option, none, some, Bytes, length, drop, take, ltb, leb, ◌==◌, if◌then◌else◌,
}

abbrev pub max_mp4_box_size : ℕ
max_mp4_box_size = 67_108_864

pub data BoxError : Type 0 where
  end_of_stream : BoxError
  no_size : BoxError
  bad_size : ℕ → BoxError

-- The type of a box, all its bytes, and the reader behind it.
pub record Box : Type 0 where
  pub kind : Bytes
  pub content : Bytes
  pub rest : Bytes

pub data BoxResult : Type 0 where
  read : Box → BoxResult
  failed : BoxError → BoxResult

-- `binary.BigEndian` on the bytes of a number.
unfoldable pub big_endian : ℕ → Bytes → ℕ
big_endian value [] = value
big_endian value (b ∷ bytes) = big_endian (value * 256 + b) bytes

-- `io.ReadFull`: the bytes read, and the rest.
unfoldable pub read_full : ℕ → Bytes → Option (Bytes × Bytes)
read_full n stream = if ltb (length stream) n then none else some (take n stream, drop n stream)

-- The part behind the header.
unfoldable pub read_payload : ℕ → Bytes → Bytes → BoxResult
read_payload size header stream =
    if size == 0
    then failed no_size
    else if ltb size (length header) || ltb max_mp4_box_size size
    then failed (bad_size size)
    else elim (read_full (size - length header) stream) [
      | none ↦ failed end_of_stream
      | some (payload, rest) ↦
          read (record { kind = take 4 (drop 4 header); content = header ++ payload; rest = rest })
    ]

-- A size of 1 stands for one in the next eight bytes.
unfoldable pub read_size : Bytes → Bytes → BoxResult
read_size header stream =
    let size = big_endian 0 (take 4 header) in
    if size == 1
    then elim (read_full 8 stream) [
      | none ↦ failed end_of_stream
      | some (extended, rest) ↦ read_payload (big_endian 0 extended) (header ++ extended) rest
    ]
    else read_payload size header stream

unfoldable pub read_mp4_box : Bytes → BoxResult
read_mp4_box stream = elim (read_full 8 stream) [
  | none ↦ failed end_of_stream
  | some (header, rest) ↦ read_size header rest
]

-- `tailBuffer.Write`: the buffer after it. It returns the length of the text and no error.
unfoldable pub tail_write : ℤ → Bytes → Bytes → Bytes
tail_write limit buffer p =
    let keep = pos_part limit - length p in
    if lt_int limit (pos 1)
    then buffer
    else if leb (pos_part limit) (length p)
    then drop (length p - pos_part limit) p
    else if ltb (pos_part limit) (length buffer + length p)
    then drop (length buffer - keep) buffer ++ p
    else buffer ++ p
