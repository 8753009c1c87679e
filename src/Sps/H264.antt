-- ===== src/Sps/H264.antt =====
-- The H.264 half of internal/rtsp/dimensions.go.
use fragata.Base.{
  ℕ, zero, suc, ◌+◌, ◌-◌, ◌*◌, ◌%◌, ◌^◌, Bool, true, false, ◌||◌, List, [], ◌∷◌, Bytes,
  if◌then◌else◌, ltb, leb, ◌==◌,
}
use fragata.Sps.Reader.{
  Result, ok, err, Parser, ◌>>=◌, ◌>>◌, pure, fail, Size, BitReader, SpsError, bad_h264_size,
  u64_mod, u64, sub64, new_bit_reader, read_bit, read_bits, skip_bits, read_ue, read_se, skip_se,
}

unfoldable pub is_one_of : ℕ → List ℕ → Bool
is_one_of n [] = false
is_one_of n (m ∷ ms) = n == m || is_one_of n ms

unfoldable pub is_h264_high_profile : ℕ → Bool
unfolding is_one_of
is_h264_high_profile profile =
    is_one_of profile
      (44 ∷ 83 ∷ 86 ∷ 100 ∷ 110 ∷ 118 ∷ 122 ∷ 128 ∷ 134 ∷ 135 ∷ 138 ∷ 139 ∷ 144 ∷ 244 ∷ [])

-- x % 256 on an int64: the remainder takes the sign of x.
unfoldable pub rem256 : ℕ → ℕ
rem256 x = if ltb x (2 ^ 63) then x % 256 else sub64 0 ((u64_mod - x) % 256)

-- The loop of `skipH264ScalingList`, over the rounds left; the scales are int64 patterns.
unfoldable pub skip_scaling_from : ℕ → ℕ → ℕ → Parser (Unit {0})
skip_scaling_from zero last next = pure tt
skip_scaling_from (suc left) last next = elim (next == 0) [
  | true ↦ skip_scaling_from left last next
  | false ↦ read_se >>= λ delta.
      let scale = rem256 (u64 (last + delta + 256)) in
      skip_scaling_from left (if scale == 0 then last else scale) scale
]

unfoldable pub skip_h264_scaling_list : ℕ → Parser (Unit {0})
skip_h264_scaling_list size = skip_scaling_from size 8 8

-- The scaling matrices of `h264Dimensions`: `left` lists from number `index` on.
unfoldable pub skip_scaling_lists : ℕ → ℕ → Parser (Unit {0})
skip_scaling_lists zero index = pure tt
skip_scaling_lists (suc left) index = read_bit >>= λ present.
    let rest = skip_scaling_lists left (index + 1) in
    if present == 1
    then (skip_h264_scaling_list (if leb 6 index then 64 else 16) >>= λ _. rest)
    else rest

unfoldable pub skip_scaling_matrix : ℕ → ℕ → Parser (Unit {0})
skip_scaling_matrix present count = if present == 1 then skip_scaling_lists count 0 else pure tt

-- What a high profile adds; the result is chroma_format_idc.
unfoldable pub read_high_profile : Parser ℕ
read_high_profile = do
  chroma_format_idc ← read_ue
  separate_colour_plane ← (if chroma_format_idc == 3 then read_bit else pure 0)
  bit_depth_luma ← read_ue
  bit_depth_chroma ← read_ue
  qpprime_y_zero ← read_bit
  scaling_present ← read_bit
  skip_scaling_matrix scaling_present (if chroma_format_idc == 3 then 12 else 8)
  pure chroma_format_idc

-- pic_order_cnt_type 1.
unfoldable pub skip_pic_order_cycles : Parser (Unit {0})
skip_pic_order_cycles = do
  delta_always_zero ← read_bit
  offset_non_ref ← read_se
  offset_top_bottom ← read_se
  cycles ← read_ue
  skip_se cycles

-- The switch on pic_order_cnt_type.
unfoldable pub skip_pic_order : ℕ → Parser (Unit {0})
skip_pic_order kind =
    if kind == 0
    then (read_ue >>= λ _. pure tt)
    else if kind == 1
    then skip_pic_order_cycles
    else pure tt

pub record Crop : Type 0 where
  pub left : ℕ
  pub right : ℕ
  pub top : ℕ
  pub bottom : ℕ

abbrev pub no_crop : Crop
no_crop = record { left = 0; right = 0; top = 0; bottom = 0 }

unfoldable pub read_rectangle : Parser Crop
read_rectangle = do
  left ← read_ue
  right ← read_ue
  top ← read_ue
  bottom ← read_ue
  pure (record { left = left; right = right; top = top; bottom = bottom })

-- The optional cropping rectangle, behind its flag.
unfoldable pub read_crop : Parser Crop
read_crop = read_bit >>= λ cropping. if cropping == 1 then read_rectangle else pure no_crop

unfoldable pub h264_crop_units : ℕ → ℕ → ℕ × ℕ
h264_crop_units chroma_format_idc frame_mbs_only =
    if chroma_format_idc == 0
    then (1, 2 - frame_mbs_only)
    else if chroma_format_idc == 1
    then (2, 2 * (2 - frame_mbs_only))
    else if chroma_format_idc == 2
    then (2, 1 * (2 - frame_mbs_only))
    else (1, 1 * (2 - frame_mbs_only))

-- `value <= 0 || value > 32768` is false, for an int64 pattern.
unfoldable pub is_valid_side : ℕ → Bool
is_valid_side value = elim (value == 0) [ true ↦ false | false ↦ leb value 32768 ]

unfoldable pub checked_size : SpsError → ℕ → ℕ → Parser Size
checked_size e width height =
    if is_valid_side width
    then if is_valid_side height then pure (record { width = width; height = height }) else fail e
    else fail e

-- The arithmetic that ends `h264Dimensions`.
unfoldable pub h264_size : ℕ → ℕ → ℕ → ℕ → Crop → Parser Size
h264_size chroma_format_idc width_mbs height_map_units frame_mbs_only crop =
    let (unit_x, unit_y) = h264_crop_units chroma_format_idc frame_mbs_only in
    checked_size bad_h264_size
      (sub64 (u64 (u64 (width_mbs + 1) * 16)) (u64 (u64 (crop.left + crop.right) * unit_x)))
      (sub64 (u64 (u64 (u64 (height_map_units + 1) * 16) * (2 - frame_mbs_only)))
        (u64 (u64 (crop.top + crop.bottom) * unit_y)))

unfoldable pub parse_h264 : Parser Size
parse_h264 = do
  profile ← read_bits 8
  skip_bits 16
  seq_parameter_set_id ← read_ue
  chroma_format_idc ← (if is_h264_high_profile profile then read_high_profile else pure 1)
  log2_max_frame_num ← read_ue
  pic_order_cnt_type ← read_ue
  skip_pic_order pic_order_cnt_type
  max_num_ref_frames ← read_ue
  gaps_allowed ← read_bit
  width_mbs ← read_ue
  height_map_units ← read_ue
  frame_mbs_only ← read_bit
  mb_adaptive ← (if frame_mbs_only == 0 then read_bit else pure 0)
  direct_8x8_inference ← read_bit
  crop ← read_crop
  h264_size chroma_format_idc width_mbs height_map_units frame_mbs_only crop

abbrev pub value_of : {A : Type 0} → Result (A × BitReader) → Result A
value_of (ok (a, r)) = ok a
value_of (err e) = err e

abbrev pub from_reader : {A : Type 0} → Parser A → Result BitReader → Result A
from_reader m (ok r) = value_of (m r)
from_reader m (err e) = err e

unfoldable pub h264_dimensions : Bytes → Result Size
h264_dimensions sps = from_reader parse_h264 (new_bit_reader sps 1)
