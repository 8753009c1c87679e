-- ===== src/Sps/Bounds.antt =====
-- The sizes that internal/rtsp/dimensions.go returns.
use fragata.Base.{ℕ, ◌≤◌, ◌≡◌, true, inl, inr, Bytes, arith, bytes_eq, codes, Bool-cases}
use fragata.Sps.Reader.{
  SpsError, Result, ok, err, Parser, BitReader, ◌>>=◌, continue, pure, fail, Size, new_bit_reader,
}
use fragata.Sps.H264.{
  checked_size, is_valid_side, h264_size, parse_h264, from_reader, value_of, h264_dimensions,
}
use fragata.Sps.H265.{h265_size, parse_h265, h265_dimensions}
use fragata.Sps.{video_dimensions}

-- A side of a picture that the recorder accepts.
abbrev pub IsSide : ℕ → Type 0
IsSide n = (1 ≤ n) × (n ≤ 32768)

abbrev pub IsPicture : Size → Type 0
IsPicture s = IsSide s.width × IsSide s.height

abbrev PictureOr : Result (Size × BitReader) → Type 0
PictureOr (ok (s, r)) = IsPicture s
PictureOr (err e) = Unit

record YieldsPicture (m : Parser Size) : Type 0 where
  run : (r : BitReader) → PictureOr (m r)

YieldsPicture-bind :
    {A : Type 0} (m : Parser A) (f : A → Parser Size)
    → ((a : A) → YieldsPicture (f a))
    → YieldsPicture (m >>= f)
unfolding ◌>>=◌
YieldsPicture-bind {A = A} m f p = record { run = λ r. after (m r) }
  where
    after : (x : Result (A × BitReader)) → PictureOr (continue f x)
    after (ok (a, r)) = (p a).run r
    after (err e) = tt

is_valid_side-IsSide : (n : ℕ) → is_valid_side n ≡ true → IsSide n
unfolding is_valid_side
is_valid_side-IsSide n h = (ground arith, ground arith)

checked_size-YieldsPicture : (e : SpsError) (w h : ℕ) → YieldsPicture (checked_size e w h)
unfolding checked_size pure fail
checked_size-YieldsPicture e w h = elim (Bool-cases (is_valid_side w)) [
  | inl p ↦ rw p (elim (Bool-cases (is_valid_side h)) [
    | inl q ↦ rw q (record { run = λ r. (is_valid_side-IsSide w p, is_valid_side-IsSide h q) })
    | inr q ↦ rw q (record { run = λ r. tt })
  ])
  | inr p ↦ rw p (record { run = λ r. tt })
]

parse_h264-YieldsPicture : YieldsPicture parse_h264
unfolding parse_h264 h264_size
parse_h264-YieldsPicture = search (YieldsPicture-bind, checked_size-YieldsPicture) depth 40

parse_h265-YieldsPicture : YieldsPicture parse_h265
unfolding parse_h265 h265_size
parse_h265-YieldsPicture = search (YieldsPicture-bind, checked_size-YieldsPicture) depth 40

from_reader-IsPicture :
    (m : Parser Size) (x : Result BitReader) (s : Size)
    → YieldsPicture m
    → from_reader m x ≡ ok s
    → IsPicture s
from_reader-IsPicture m (err e) s y h = absurd (cc)
from_reader-IsPicture m (ok r) s y h = picture (m r) (y.run r) h
  where
    picture : (x : Result (Size × BitReader)) → PictureOr x → value_of x ≡ ok s → IsPicture s
    picture (ok (t, r')) p e = ground arith
    picture (err e') p e = absurd (cc)

-- Every size that the parser returns, for either codec and whatever the parameter set holds, has
-- both sides between 1 and 32768.
pub video_dimensions-IsPicture :
    (codec sps : Bytes) (size : Size) → video_dimensions codec sps ≡ ok size → IsPicture size
unfolding video_dimensions h264_dimensions h265_dimensions
video_dimensions-IsPicture codec sps size h = elim (Bool-cases (bytes_eq codec (codes "H264"))) [
  | inl e ↦
      from_reader-IsPicture parse_h264 (new_bit_reader sps 1) size parse_h264-YieldsPicture
        (rw e at h)
  | inr e ↦ elim (Bool-cases (bytes_eq codec (codes "H265"))) [
    | inl k ↦
        from_reader-IsPicture parse_h265 (new_bit_reader sps 2) size parse_h265-YieldsPicture
          (rw k at (rw e at h))
    | inr k ↦ absurd (cc (rw k at (rw e at h)))
  ]
]
