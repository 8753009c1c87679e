-- ===== src/Sps/Faultless.antt =====
-- How the parsers of internal/rtsp/dimensions.go can end.
use fragata.Base.{
  ℕ, zero, suc, ◌+◌, inl, inr, List, [], ◌∷◌, Bytes, length, arith, if◌then◌else◌, leb, ◌==◌,
  Bool-cases, bytes_eq, codes,
}
use fragata.Sps.Reader.{
  SpsError, bad_h264_size, bad_h265_chroma, bad_h265_size, Result, ok, err, Parser, BitReader,
  read_bit, read_se, new_bit_reader,
}
use fragata.Sps.H264.{
  Crop, skip_scaling_from, skip_h264_scaling_list, skip_scaling_lists, skip_scaling_matrix,
  read_high_profile, skip_pic_order_cycles, skip_pic_order, read_rectangle, read_crop, checked_size,
  h264_size, parse_h264, from_reader, value_of, h264_dimensions,
}
use fragata.Sps.H265.{
  Layer, read_layers, skip_when, skip_layers, skip_h265_profile_tier_level, check_chroma, h265_size,
  parse_h265, h265_dimensions,
}
use fragata.Sps.{video_dimensions}
use fragata.Sps.Safety.{
  IsMessage, Advances, IsSafe, IsSafe-pure, IsSafe-fail, IsSafe-bind, IsSafe-if, read_bit-IsSafe,
  read_se-IsSafe, skip_se-IsSafe, readers,
}

skip_scaling_from-IsSafe : (left last next : ℕ) → IsSafe (skip_scaling_from left last next)
unfolding skip_scaling_from
skip_scaling_from-IsSafe zero last next = IsSafe-pure tt
skip_scaling_from-IsSafe (suc left) last next = elim (Bool-cases (next == 0)) [
  | inl e ↦ rw (e, skip_scaling_from) (skip_scaling_from-IsSafe left last next)
  | inr e ↦
      rw (e, skip_scaling_from)
        (IsSafe-bind read_se _ read_se-IsSafe λ delta. skip_scaling_from-IsSafe left _ _)
]

skip_scaling_lists-IsSafe : (left index : ℕ) → IsSafe (skip_scaling_lists left index)
unfolding skip_scaling_lists skip_h264_scaling_list
skip_scaling_lists-IsSafe zero index = IsSafe-pure tt
skip_scaling_lists-IsSafe (suc left) index = IsSafe-bind read_bit _ read_bit-IsSafe λ present.
    let rest = skip_scaling_lists-IsSafe left (index + 1) in
    IsSafe-if (present == 1) _ _
      (IsSafe-bind _ _ (skip_scaling_from-IsSafe (if leb 6 index then 64 else 16) 8 8) λ _. rest)
      rest

read_high_profile-IsSafe : IsSafe read_high_profile
unfolding read_high_profile skip_scaling_matrix
read_high_profile-IsSafe = search (readers, skip_scaling_lists-IsSafe) depth 20

skip_pic_order-IsSafe : (kind : ℕ) → IsSafe (skip_pic_order kind)
unfolding skip_pic_order skip_pic_order_cycles
skip_pic_order-IsSafe kind = search (readers, skip_se-IsSafe) depth 20

read_crop-IsSafe : IsSafe read_crop
unfolding read_crop read_rectangle
read_crop-IsSafe = search readers depth 20

checked_size-IsSafe : (e : SpsError) (w h : ℕ) → IsMessage e → IsSafe (checked_size e w h)
unfolding checked_size
checked_size-IsSafe e w h m =
    IsSafe-if _ _ _ (IsSafe-if _ _ _ (IsSafe-pure _) (IsSafe-fail e m)) (IsSafe-fail e m)

h264_size-IsSafe : (chroma w h frame : ℕ) (crop : Crop) → IsSafe (h264_size chroma w h frame crop)
unfolding h264_size
h264_size-IsSafe chroma w h frame crop = checked_size-IsSafe bad_h264_size _ _ tt

parse_h264-IsSafe : IsSafe parse_h264
unfolding parse_h264
parse_h264-IsSafe =
    search
      (readers, read_high_profile-IsSafe, skip_pic_order-IsSafe, read_crop-IsSafe, h264_size-IsSafe)
      depth 40

read_layers-IsSafe : (left : ℕ) → IsSafe (read_layers left)
unfolding read_layers
read_layers-IsSafe zero = IsSafe-pure []
read_layers-IsSafe (suc left) =
    let rest = read_layers-IsSafe left in
    IsSafe-bind read_bit _ read_bit-IsSafe λ profile.
      IsSafe-bind read_bit _ read_bit-IsSafe
        λ level. IsSafe-bind (read_layers left) _ rest λ layers. IsSafe-pure _

skip_when-IsSafe : (flag count : ℕ) → IsSafe (skip_when flag count)
unfolding skip_when
skip_when-IsSafe flag count = search readers

skip_layers-IsSafe : (layers : List Layer) → IsSafe (skip_layers layers)
unfolding skip_layers
skip_layers-IsSafe [] = IsSafe-pure tt
skip_layers-IsSafe (layer ∷ layers) =
    IsSafe-bind (skip_when layer.profile_present 88) _ (skip_when-IsSafe _ _) λ _.
      IsSafe-bind (skip_when layer.level_present 8) _ (skip_when-IsSafe _ _)
        λ _. skip_layers-IsSafe layers

skip_profile-IsSafe : (count : ℕ) → IsSafe (skip_h265_profile_tier_level count)
unfolding skip_h265_profile_tier_level
skip_profile-IsSafe count = search (readers, read_layers-IsSafe, skip_layers-IsSafe) depth 20

check_chroma-IsSafe : (chroma : ℕ) → IsSafe (check_chroma chroma)
unfolding check_chroma
check_chroma-IsSafe chroma = IsSafe-if _ _ _ (IsSafe-fail bad_h265_chroma tt) (IsSafe-pure tt)

h265_size-IsSafe : (chroma w h : ℕ) (window : Crop) → IsSafe (h265_size chroma w h window)
unfolding h265_size
h265_size-IsSafe chroma w h window = checked_size-IsSafe bad_h265_size _ _ tt

parse_h265-IsSafe : IsSafe parse_h265
unfolding parse_h265
parse_h265-IsSafe =
    search (readers, skip_profile-IsSafe, check_chroma-IsSafe, read_crop-IsSafe, h265_size-IsSafe)
      depth 40

-- A result that is a value or one of the messages of the source.
abbrev pub Returns : {A : Type 0} → Result A → Type 0
Returns (ok a) = Unit
Returns (err e) = IsMessage e

from_reader-Returns :
    {A : Type 0} (m : Parser A) (nalu : Bytes) (header_bytes : ℕ)
    → IsSafe m
    → Returns (from_reader m (new_bit_reader nalu header_bytes))
unfolding new_bit_reader
from_reader-Returns {A = A} m nalu header_bytes s =
    elim (Bool-cases (leb (length nalu) header_bytes)) [
      | inl e ↦ rw e tt
      | inr e ↦ rw e (answer _ (m _) (s.run (record { content = _; pos = 0 }) (omega arith)))
    ]
  where
    answer : (r : BitReader) (x : Result (A × BitReader)) → Advances r x → Returns (value_of x)
    answer r (ok (a, r')) h = tt
    answer r (err e) h = h

-- For every codec name and every byte string, the parser of picture sizes ends with a size or with
-- one of the errors of the source: it never indexes past the content, and none of its loops
-- outlives its bound.
pub video_dimensions-Returns : (codec sps : Bytes) → Returns (video_dimensions codec sps)
unfolding video_dimensions h264_dimensions h265_dimensions
video_dimensions-Returns codec sps = elim (Bool-cases (bytes_eq codec (codes "H264"))) [
  | inl e ↦ rw e (from_reader-Returns parse_h264 sps 1 parse_h264-IsSafe)
  | inr e ↦ rw e (elim (Bool-cases (bytes_eq codec (codes "H265"))) [
    | inl k ↦ rw k (from_reader-Returns parse_h265 sps 2 parse_h265-IsSafe)
    | inr k ↦ rw k tt
  ])
]
