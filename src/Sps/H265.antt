-- ===== src/Sps/H265.antt =====
-- The H.265 half of internal/rtsp/dimensions.go.
use fragata.Base.{ℕ, zero, suc, ◌+◌, ◌-◌, ◌*◌, List, [], ◌∷◌, Bytes, if◌then◌else◌, ltb, ◌==◌}
use fragata.Sps.Reader.{
  Result, Parser, ◌>>=◌, ◌>>◌, pure, fail, Size, bad_h265_chroma, bad_h265_size, u64, sub64,
  new_bit_reader, read_bit, read_bits, skip_bits, read_ue,
}
use fragata.Sps.H264.{Crop, read_crop, checked_size, from_reader}

-- The flags of one sub-layer.
pub record Layer : Type 0 where
  pub profile_present : ℕ
  pub level_present : ℕ

-- The first loop of `skipH265ProfileTierLevel`.
unfoldable pub read_layers : ℕ → Parser (List Layer)
read_layers zero = pure []
read_layers (suc left) = do
  profile ← read_bit
  level ← read_bit
  rest ← read_layers left
  pure (record { profile_present = profile; level_present = level } ∷ rest)

unfoldable pub skip_when : ℕ → ℕ → Parser (Unit {0})
skip_when flag count = if flag == 1 then skip_bits count else pure tt

-- The second loop.
unfoldable pub skip_layers : List Layer → Parser (Unit {0})
skip_layers [] = pure tt
skip_layers (layer ∷ layers) = skip_when layer.profile_present 88 >>= λ _.
    skip_when layer.level_present 8 >>= λ _. skip_layers layers

unfoldable pub skip_h265_profile_tier_level : ℕ → Parser (Unit {0})
skip_h265_profile_tier_level max_sub_layers = do
  skip_bits 96
  layers ← read_layers max_sub_layers
  (if ltb 0 max_sub_layers then skip_bits ((8 - max_sub_layers) * 2) else pure tt)
  skip_layers layers

unfoldable pub h265_crop_units : ℕ → ℕ × ℕ
h265_crop_units chroma_format_idc =
    if chroma_format_idc == 1 then (2, 2) else if chroma_format_idc == 2 then (2, 1) else (1, 1)

unfoldable pub check_chroma : ℕ → Parser (Unit {0})
check_chroma chroma_format_idc = if ltb 3 chroma_format_idc then fail bad_h265_chroma else pure tt

unfoldable pub h265_size : ℕ → ℕ → ℕ → Crop → Parser Size
h265_size chroma_format_idc width height window =
    let (unit_x, unit_y) = h265_crop_units chroma_format_idc in
    checked_size bad_h265_size (sub64 width (u64 (u64 (window.left + window.right) * unit_x)))
      (sub64 height (u64 (u64 (window.top + window.bottom) * unit_y)))

unfoldable pub parse_h265 : Parser Size
parse_h265 = do
  skip_bits 4
  max_sub_layers ← read_bits 3
  skip_bits 1
  skip_h265_profile_tier_level max_sub_layers
  seq_parameter_set_id ← read_ue
  chroma_format_idc ← read_ue
  check_chroma chroma_format_idc
  separate_colour_plane ← (if chroma_format_idc == 3 then read_bit else pure 0)
  width ← read_ue
  height ← read_ue
  window ← read_crop
  h265_size chroma_format_idc width height window

unfoldable pub h265_dimensions : Bytes → Result Size
h265_dimensions sps = from_reader parse_h265 (new_bit_reader sps 2)
