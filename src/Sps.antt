-- ===== src/Sps.antt =====
-- internal/rtsp/dimensions.go: the picture size of an H.264 or H.265 sequence parameter set (SPS).
-- A parser is a function of the bit reader; `uint64` and `int64` values are 64-bit patterns, with
-- their wrap-around written out.
pub mod Reader
pub mod H264
pub mod H265
pub mod Bits
pub mod Golomb
pub mod Emulation
pub mod Safety
pub mod Faultless
pub mod Bounds
use fragata.Base.{Bytes, Bool, true, false, if◌then◌else◌, bytes_eq, codes}
use Reader.{Result, err, no_parser, Size}
use H264.{h264_dimensions}
use H265.{h265_dimensions}

-- The switch of `videoDimensions`.
unfoldable pub video_dimensions : Bytes → Bytes → Result Size
video_dimensions codec sps =
    if bytes_eq codec (codes "H264")
    then h264_dimensions sps
    else if bytes_eq codec (codes "H265")
    then h265_dimensions sps
    else err no_parser
