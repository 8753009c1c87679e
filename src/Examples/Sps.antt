-- ===== src/Examples/Sps.antt =====
-- internal/rtsp/dimensions_test.go and its neighbours.
use fragata.Base.{◌≡◌, refl, [], ◌∷◌, ◌++◌, Bytes, bytes_eq, codes, arith}
use fragata.Sps.H264.{
  h264_dimensions, parse_h264, h264_size, h264_crop_units, checked_size, is_valid_side, read_crop,
  skip_pic_order, is_h264_high_profile,
}
use fragata.Sps.H265.{
  h265_dimensions, parse_h265, h265_size, h265_crop_units, check_chroma,
  skip_h265_profile_tier_level, read_layers, skip_layers,
}
use fragata.Sps.Reader.{
  read_bit, bit_at, read_bits_from, skip_bits, golomb_zeros, golomb_value, ok, new_bit_reader,
  strip, read_ue, read_bits, pure, ◌>>=◌,
}
use fragata.Sps.{video_dimensions}
use fragata.Sps.Golomb.{Reads, golomb_code, read_ue-golomb_code, tail_bits}
use fragata.Sps.Emulation.{protect, new_bit_reader-protect}
use fragata.Sps.Faultless.{Returns, video_dimensions-Returns}
use fragata.Sps.Bounds.{IsPicture, video_dimensions-IsPicture}

-- The baseline set of `TestH264Dimensions`: 1280x720.
abbrev baseline : Bytes
baseline = 103 ∷ 66 ∷ 0 ∷ 30 ∷ 244 ∷ 2 ∷ 128 ∷ 45 ∷ 192 ∷ []

-- The set of `TestH265Dimensions`: 2304x1296.
abbrev main_profile : Bytes
main_profile =
    66 ∷ 1 ∷ 1 ∷ 0 ∷ 0 ∷ 0 ∷ 0 ∷ 0 ∷ 0 ∷ 0 ∷ 0 ∷ 0 ∷ 0 ∷ 0 ∷ 0 ∷ 160 ∷ 1 ∷ 32 ∷ 32 ∷ 5 ∷ 17 ∷ 0 ∷ []

baseline_size :
    video_dimensions (codes "H264") baseline ≡ ok (record { width = 1280; height = 720 })
unfolding video_dimensions h264_dimensions parse_h264 h264_size h264_crop_units checked_size
    is_valid_side read_crop skip_pic_order is_h264_high_profile new_bit_reader strip read_bit bit_at
    read_bits read_bits_from skip_bits golomb_zeros golomb_value read_ue ◌>>=◌ pure bytes_eq
baseline_size = refl

main_profile_size :
    video_dimensions (codes "H265") main_profile ≡ ok (record { width = 2304; height = 1296 })
unfolding video_dimensions h265_dimensions parse_h265 h265_size h265_crop_units checked_size
    is_valid_side check_chroma skip_h265_profile_tier_level read_layers skip_layers read_crop
    new_bit_reader strip read_bit bit_at read_bits read_bits_from skip_bits golomb_zeros
    golomb_value read_ue ◌>>=◌ pure bytes_eq
main_profile_size = refl

video_dimensions-IsPicture_example : IsPicture (record { width = 1280; height = 720 })
video_dimensions-IsPicture_example =
    video_dimensions-IsPicture (codes "H264") baseline (record { width = 1280; height = 720 })
      baseline_size

video_dimensions-Returns_example : Returns (video_dimensions (codes "H264") (0x67 ∷ 66 ∷ []))
video_dimensions-Returns_example = video_dimensions-Returns (codes "H264") (0x67 ∷ 66 ∷ [])

read_ue-golomb_code_example : Reads read_ue (golomb_code 79) 79
read_ue-golomb_code_example = read_ue-golomb_code 79 (omega arith)

code_of_79 : golomb_code 79 ≡ 0 ∷ 0 ∷ 0 ∷ 0 ∷ 0 ∷ 0 ∷ 1 ∷ 0 ∷ 1 ∷ 0 ∷ 0 ∷ 0 ∷ 0 ∷ []
unfolding golomb_code tail_bits
code_of_79 = refl

new_bit_reader-protect_example :
    new_bit_reader ((0x67 ∷ []) ++ protect 0 (0 ∷ 0 ∷ 1 ∷ [])) 1
    ≡ ok (record { content = 0 ∷ 0 ∷ 1 ∷ []; pos = 0 })
new_bit_reader-protect_example = new_bit_reader-protect (0x67 ∷ []) 0 (0 ∷ 1 ∷ [])
