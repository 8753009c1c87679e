-- ===== src/Livestream/Boxes.antt =====
-- How internal/livestream/manager.go cuts a stream into boxes.
use mathlib.Core.List.{append_assoc}
use fragata.Base.{
  ℕ, ◌+◌, ◌-◌, ◌/◌, ◌%◌, ◌≤◌, ◌<◌, ◌≡◌, refl, ap, subst, ◌∙◌, ◌||◌, inl, inr, true, false, [], ◌∷◌,
  ◌++◌, none, some, Bytes, length, length-append, length-take, take-append-drop, drop-append,
  take-append, drop, take, ltb, ◌==◌, arith, Bool-cases, ltb→le,
}
use fragata.Livestream.{
  BoxResult, read, failed, big_endian, read_full, read_payload, read_size, read_mp4_box,
  max_mp4_box_size,
}

-- The big-endian number of four bytes.
pub be32 : ℕ → Bytes
be32 n = n / 16_777_216 % 256 ∷ n / 65536 % 256 ∷ n / 256 % 256 ∷ n % 256 ∷ []

big_endian-be32 : (n : ℕ) → n < 4_294_967_296 → big_endian 0 (be32 n) ≡ n
unfolding big_endian be32
big_endian-be32 n h = omega arith

read_full-append :
    (first rest : Bytes) → read_full (length first) (first ++ rest) ≡ some (first, rest)
unfolding read_full
read_full-append first rest =
    let enough : ltb (length (first ++ rest)) (length first) ≡ false =
      ground (arith, length-append first rest) in
    rw (read_full, enough, take-append first rest, drop-append first rest) refl

-- A payload of at most 64 MiB less the header behind a header of eight bytes.
read_payload-append :
    (header payload rest : Bytes)
    → 1 ≤ length header
    → length header + length payload ≤ max_mp4_box_size
    → read_payload (length header + length payload) header (payload ++ rest)
      ≡ read (record { kind = take 4 (drop 4 header); content = header ++ payload; rest = rest })
unfolding read_payload
read_payload-append header payload rest some_ small =
    let size = length header + length payload in
    let not_zero : (size == 0) ≡ false = ground arith in
    let in_range : ltb size (length header) || ltb max_mp4_box_size size ≡ false = ground arith in
    let left : size - length header ≡ length payload = omega arith in
    rw (read_payload, not_zero, in_range, left, read_full-append payload rest) refl

read_mp4_box-header :
    (header more : Bytes)
    → length header ≡ 8
    → read_mp4_box (header ++ more) ≡ read_size header more
unfolding read_mp4_box
read_mp4_box-header header more eight =
    let whole =
      subst (λ n. read_full n (header ++ more) ≡ some (header, more)) eight
        (read_full-append header more) in
    rw (read_mp4_box, whole) refl

read_size-plain :
    (header stream : Bytes) (size : ℕ)
    → big_endian 0 (take 4 header) ≡ size
    → (size == 1) ≡ false
    → read_size header stream ≡ read_payload size header stream
unfolding read_size
read_size-plain header stream size e h = rw (read_size, e, h) refl

-- Every box is read back from its bytes, whatever follows it in the stream: a box is its size in
-- four bytes, its type in four more, and a payload, 64 MiB at most in all.
pub read_mp4_box-append :
    (a b c d : ℕ) (payload rest : Bytes)
    → 8 + length payload ≤ max_mp4_box_size
    → let kind = a ∷ b ∷ c ∷ d ∷ [] in
      let box = be32 (8 + length payload) ++ kind ++ payload in
      read_mp4_box (box ++ rest) ≡ read (record { kind = kind; content = box; rest = rest })
unfolding be32
read_mp4_box-append a b c d payload rest small =
    let size = 8 + length payload in
    let header = be32 size ++ a ∷ b ∷ c ∷ d ∷ [] in
    let not_one : (size == 1) ≡ false = ground arith in
    read_mp4_box-header header (payload ++ rest) refl
    ∙ read_size-plain header (payload ++ rest) size (big_endian-be32 size (omega (arith, small)))
        not_one
    ∙ read_payload-append header payload rest (omega arith) small

-- A box that is read is the beginning of the stream, which goes on behind it, and has from 8 to
-- 64 Mi bytes. Nothing is said of a failure.
pub IsFrame : Bytes → BoxResult → Type 0
IsFrame stream (failed e) = Unit
IsFrame stream (read box) =
    (box.content ++ box.rest ≡ stream)
    × (8 ≤ length box.content)
    × (length box.content ≤ max_mp4_box_size)

read_full-some :
    (n : ℕ) (stream : Bytes)
    → ltb (length stream) n ≡ false
    → read_full n stream ≡ some (take n stream, drop n stream)
unfolding read_full
read_full-some n stream h = rw (read_full, h) refl

read_full-none : (n : ℕ) (stream : Bytes) → ltb (length stream) n ≡ true → read_full n stream ≡ none
unfolding read_full
read_full-none n stream h = rw (read_full, h) refl

in_bounds :
    (size least : ℕ)
    → ltb size least || ltb max_mp4_box_size size ≡ false
    → (least ≤ size) × (size ≤ max_mp4_box_size)
in_bounds size least h = ground arith

read_payload-IsFrame :
    (size : ℕ) (header stream : Bytes)
    → 8 ≤ length header
    → IsFrame (header ++ stream) (read_payload size header stream)
unfolding IsFrame read_payload
read_payload-IsFrame size header stream long =
    let left = size - length header in
    elim (Bool-cases (size == 0)) [
      | inl z ↦ rw (read_payload, z) tt
      | inr z ↦ elim (Bool-cases (ltb size (length header) || ltb max_mp4_box_size size)) [
        | inl out ↦ rw (read_payload, z, out) tt
        | inr in_range ↦ elim (Bool-cases (ltb (length stream) left)) [
          | inl short ↦ rw (read_payload, z, in_range, read_full-none left stream short) tt
          | inr enough ↦
              let total = length-append header (take left stream) in
              let taken = length-take left stream in
              rw (read_payload, z, in_range, read_full-some left stream enough)
                (
                  append_assoc header _ _ ∙ ap (header ++◌) (take-append-drop left stream),
                  omega (arith, total, long),
                  omega (arith, total, taken, in_bounds size (length header) in_range),
                )
        ]
      ]
    ]

read_size-IsFrame :
    (header stream : Bytes)
    → 8 ≤ length header
    → IsFrame (header ++ stream) (read_size header stream)
unfolding read_size IsFrame
read_size-IsFrame header stream long = elim (Bool-cases (big_endian 0 (take 4 header) == 1)) [
  | inr plain ↦ rw (read_size, plain) (read_payload-IsFrame _ header stream long)
  | inl one ↦ elim (Bool-cases (ltb (length stream) 8)) [
    | inl short ↦ rw (read_size, one, read_full-none 8 stream short) tt
    | inr enough ↦
        let extended = take 8 stream in
        let more =
          read_payload-IsFrame (big_endian 0 extended) (header ++ extended) (drop 8 stream)
            (omega (arith, length-append header extended, long)) in
        rw (read_size, one, read_full-some 8 stream enough)
          (subst
            (λ s.
              IsFrame s (read_payload (big_endian 0 extended) (header ++ extended) (drop 8 stream)))
            (append_assoc header extended (drop 8 stream)
              ∙ ap (header ++◌) (take-append-drop 8 stream))
            more)
  ]
]

-- Whatever the stream holds, a box that is read from it is its beginning, and nothing between the
-- box and the rest is lost; the box has from 8 to 64 Mi bytes, its header included.
pub read_mp4_box-IsFrame : (stream : Bytes) → IsFrame stream (read_mp4_box stream)
unfolding read_mp4_box IsFrame
read_mp4_box-IsFrame stream = elim (Bool-cases (ltb (length stream) 8)) [
  | inl short ↦ rw (read_mp4_box, read_full-none 8 stream short) tt
  | inr enough ↦
      let eight : 8 ≤ length (take 8 stream) =
        omega (arith, length-take 8 stream, ltb→le _ _ enough) in
      rw (read_mp4_box, read_full-some 8 stream enough)
        (subst (λ s. IsFrame s (read_size (take 8 stream) (drop 8 stream)))
          (take-append-drop 8 stream) (read_size-IsFrame (take 8 stream) (drop 8 stream) eight))
]
