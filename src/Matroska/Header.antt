-- ===== src/Matroska/Header.antt =====
-- internal/matroska/writer.go: the head of a file. `math.Float64bits` of a sample rate is a parameter.
use fragata.Base.{
  ℕ, ◌+◌, ℤ, pos, lt_int, ◌||◌, [], ◌∷◌, ◌++◌, Bytes, bytes_eq, codes, length, none, some,
  get_elem?, ◌==◌, if◌then◌else◌,
}
use fragata.Hub.{Info, AudioInfo, no_audio}
use fragata.Matroska.Ebml.{
  Outcome, ok, panicked, ◌>>=◌, element, uint_element, elements, append_uint16, unsigned, be_bytes,
  le_bytes,
}

abbrev pub id_ebml : Bytes
id_ebml = 0x1a ∷ 0x45 ∷ 0xdf ∷ 0xa3 ∷ []

abbrev pub id_segment : Bytes
id_segment = 0x18 ∷ 0x53 ∷ 0x80 ∷ 0x67 ∷ []

abbrev pub id_info : Bytes
id_info = 0x15 ∷ 0x49 ∷ 0xa9 ∷ 0x66 ∷ []

abbrev pub id_tracks : Bytes
id_tracks = 0x16 ∷ 0x54 ∷ 0xae ∷ 0x6b ∷ []

abbrev pub id_cluster : Bytes
id_cluster = 0x1f ∷ 0x43 ∷ 0xb6 ∷ 0x75 ∷ []

abbrev pub id_timestamp : Bytes
id_timestamp = 0xe7 ∷ []

abbrev pub id_simple_block : Bytes
id_simple_block = 0xa3 ∷ []

-- The size of a segment whose end is not known.
abbrev pub unknown_size : Bytes
unknown_size = 0x01 ∷ 0xff ∷ 0xff ∷ 0xff ∷ 0xff ∷ 0xff ∷ 0xff ∷ 0xff ∷ []

-- `sps[i]`.
abbrev pub byte_at : Bytes → ℕ → Outcome Bytes
byte_at bytes i = elim (get_elem? bytes i) [ none ↦ panicked | some b ↦ ok (b ∷ []) ]

unfoldable pub avc_decoder_configuration_record : Bytes → Bytes → Outcome Bytes
avc_decoder_configuration_record sps pps = do
  profile ← byte_at sps 1
  compatibility ← byte_at sps 2
  level ← byte_at sps 3
  ok (
      (1 ∷ [])
      ++ profile
      ++ compatibility
      ++ level
      ++ (0xff ∷ 0xe1 ∷ [])
      ++ append_uint16 (length sps)
      ++ sps
      ++ (1 ∷ [])
      ++ append_uint16 (length pps)
      ++ pps)

-- One parameter array; `0x80|item.typ` of a type below 64.
abbrev pub parameter_array : ℕ → Bytes → Bytes
parameter_array type_ nalu = (0x80 + type_) ∷ 0 ∷ 1 ∷ append_uint16 (length nalu) ++ nalu

unfoldable pub hevc_decoder_configuration_record : Bytes → Bytes → Bytes → Bytes
hevc_decoder_configuration_record vps sps pps =
    (1 ∷ 1 ∷ 0 ∷ 0 ∷ 0 ∷ 0 ∷ 0 ∷ 0 ∷ 0 ∷ 0 ∷ 0 ∷ 0 ∷ 120 ∷ 0xf0 ∷ 0 ∷ 0xfc ∷ 0xfd ∷ 0xf8 ∷ 0xf8 ∷ 0
      ∷ 0 ∷ 0x0f ∷ 3 ∷ [])
    ++ parameter_array 32 vps
    ++ parameter_array 33 sps
    ++ parameter_array 34 pps

unfoldable pub normalize_audio_info : AudioInfo → AudioInfo
unfolding bytes_eq
normalize_audio_info info =
    if bytes_eq info.codec (codes "PCMA") || bytes_eq info.codec (codes "PCMU")
    then record info {
      sample_rate = if lt_int info.sample_rate (pos 1) then pos 8000 else info.sample_rate;
      channels = pos 1;
    }
    else if bytes_eq info.codec (codes "OPUS")
    then record info {
      sample_rate = pos 48000;
      channels =
          if lt_int info.channels (pos 1) || lt_int (pos 2) info.channels
          then pos 2
          else info.channels;
    }
    else if bytes_eq info.codec (codes "AAC")
    then if lt_int info.sample_rate (pos 1)
        || lt_int info.channels (pos 1)
        || length info.codec_private == 0
      then no_audio
      else info
    else no_audio

-- The codec's name and its private bytes.
unfoldable pub audio_codec_data : AudioInfo → Bytes × Bytes
unfolding bytes_eq
audio_codec_data info =
    let channels = unsigned 256 info.channels in
    let rate = unsigned 4_294_967_296 info.sample_rate in
    let sample_rate = if rate == 0 then 8000 else rate in
    if bytes_eq info.codec (codes "AAC")
    then (codes "A_AAC", info.codec_private)
    else if bytes_eq info.codec (codes "OPUS")
    then (
      codes "A_OPUS",
      codes "OpusHead"
          ++ 1
            ∷ (if channels == 0 then 2 else channels)
            ∷ 0
            ∷ 0
            ∷ 0x80
            ∷ 0xbb
            ∷ 0
            ∷ 0
            ∷ 0
            ∷ 0
            ∷ 0
            ∷ [],
    )
    else (
      codes "A_MS/ACM",
      le_bytes 2 (if bytes_eq info.codec (codes "PCMU") then 7 else 6)
          ++ le_bytes 2 1
          ++ le_bytes 4 sample_rate
          ++ le_bytes 4 sample_rate
          ++ le_bytes 2 1
          ++ le_bytes 2 8
          ++ 0 ∷ 0 ∷ [],
    )

unfoldable pub ebml_head : Outcome Bytes
ebml_head = elements (
    uint_element (0x42 ∷ 0x86 ∷ []) 1
    ∷ uint_element (0x42 ∷ 0xf7 ∷ []) 1
    ∷ uint_element (0x42 ∷ 0xf2 ∷ []) 4
    ∷ uint_element (0x42 ∷ 0xf3 ∷ []) 8
    ∷ element (0x42 ∷ 0x82 ∷ []) (codes "matroska")
    ∷ uint_element (0x42 ∷ 0x87 ∷ []) 4
    ∷ uint_element (0x42 ∷ 0x85 ∷ []) 2
    ∷ [])

unfoldable pub segment_info : Outcome Bytes
segment_info = elements (
    uint_element (0x2a ∷ 0xd7 ∷ 0xb1 ∷ []) 1_000_000
    ∷ element (0x4d ∷ 0x80 ∷ []) (codes "Fragata")
    ∷ element (0x57 ∷ 0x41 ∷ []) (codes "Fragata")
    ∷ [])

abbrev pub codec_private : Info → Outcome Bytes
codec_private info =
    if bytes_eq info.codec (codes "H265")
    then ok (hevc_decoder_configuration_record info.vps info.sps info.pps)
    else avc_decoder_configuration_record info.sps info.pps

-- The source makes the H.264 record first, for either codec, and its panic is that of both.
unfoldable pub video_track : Info → Outcome Bytes
unfolding bytes_eq
video_track info = do
  avc ← avc_decoder_configuration_record info.sps info.pps
  private ← codec_private info
  video ← elements (
      uint_element (0xb0 ∷ []) (unsigned (18_446_744_073_709_551_616) info.width)
      ∷ uint_element (0xba ∷ []) (unsigned (18_446_744_073_709_551_616) info.height)
      ∷ [])
  elements (
      uint_element (0xd7 ∷ []) 1
      ∷ uint_element (0x73 ∷ 0xc5 ∷ []) 1
      ∷ uint_element (0x83 ∷ []) 1
      ∷ uint_element (0x9c ∷ []) 0
      ∷ element (0x86 ∷ []) (
          if bytes_eq info.codec (codes "H265")
          then codes "V_MPEGH/ISO/HEVC"
          else codes "V_MPEG4/ISO/AVC")
      ∷ element (0x63 ∷ 0xa2 ∷ []) private
      ∷ element (0xe0 ∷ []) video
      ∷ [])

module _ (float64_bits : ℤ → ℕ) where
  unfoldable pub audio_track : AudioInfo → Outcome Bytes
  audio_track info = do
    audio ← elements (
        element (0xb5 ∷ []) (be_bytes 8 (float64_bits info.sample_rate))
        ∷ uint_element (0x9f ∷ []) (unsigned (18_446_744_073_709_551_616) info.channels)
        ∷ uint_element (0x62 ∷ 0x64 ∷ []) 8
        ∷ [])
    elements (
        uint_element (0xd7 ∷ []) 2
        ∷ uint_element (0x73 ∷ 0xc5 ∷ []) 2
        ∷ uint_element (0x83 ∷ []) 2
        ∷ uint_element (0x9c ∷ []) 0
        ∷ element (0x86 ∷ []) (audio_codec_data info).0
        ∷ (if length (audio_codec_data info).1 == 0
            then ok []
            else element (0x63 ∷ 0xa2 ∷ []) (audio_codec_data info).1)
        ∷ element (0xe1 ∷ []) audio
        ∷ [])

  -- The content of the element of tracks.
  unfoldable pub tracks : Info → AudioInfo → Outcome Bytes
  tracks info audio_info = do
    video ← video_track info
    audio ← (if length audio_info.codec == 0 then ok [] else audio_track audio_info)
    elements (
        element (0xae ∷ []) video
        ∷ (if length audio_info.codec == 0 then ok [] else element (0xae ∷ []) audio)
        ∷ [])
