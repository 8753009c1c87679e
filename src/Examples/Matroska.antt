-- ===== src/Examples/Matroska.antt =====
-- internal/matroska/writer_test.go: a small recording with sound.
use fragata.Base.{
  ℕ, ℤ, pos, ◌≡◌, refl, true, false, List, [], ◌∷◌, ◌++◌, Bytes, codes, length, arith, bytes_eq,
  none, ◌+◌, ◌≤◌,
}
use fragata.Hub.{Info, AudioInfo, AccessUnit, AudioPacket}
use fragata.Matroska.Ebml.{
  ok, panicked, encode_size, encode_size_from, element, uint_element, uint_size_from, elements,
}
use fragata.Matroska.Header.{
  tracks, video_track, audio_track, audio_codec_data, avc_decoder_configuration_record,
  hevc_decoder_configuration_record, normalize_audio_info, ebml_head, segment_info,
}
use fragata.Matroska.Writer.{
  Writer, new_with_audio, write_access_unit, check_info, write_at, frame, write_header,
  write_element, write_bytes, write_audio, write_block, needs_cluster, start_cluster, flush_cluster,
  milliseconds, sub64, close,
}
use fragata.Matroska.Events.{
  Event, video, audio, frames_of, frame_at, frames_of_event, audio_frames, video_frames,
  origin_after,
}
use fragata.Matroska.Frames.{ReadsClusters}
use fragata.Matroska.Elements.{IsId}
use fragata.Matroska.Refines.Run.{write_all, write_event}
use fragata.Matroska.Refines.Recording.{hears, record_all, record_all-reads}
use fragata.Matroska.Returns.{
  Returns, Records, picture_frame, IsSmall, time_of, write_access_unit-Returns,
  new_with_audio-panics,
}

abbrev no_bits : ℤ → ℕ
no_bits rate = 0

abbrev stream_info : Info
stream_info = record {
  codec = codes "H264";
  width = pos 640;
  height = pos 480;
  vps = [];
  sps = 103 ∷ 66 ∷ 0 ∷ 30 ∷ [];
  pps = 104 ∷ [];
}

abbrev sound : AudioInfo
sound = record {
  codec = codes "PCMU";
  sample_rate = pos 8000;
  channels = pos 1;
  codec_private = [];
}

abbrev picture : ℕ → AccessUnit
picture at = record {
  pts = pos at;
  nalus = (101 ∷ 1 ∷ []) ∷ [];
  key_frame = true;
  generation = 1;
  discontinuity = false;
}

abbrev heard_at : ℕ → AudioPacket ℕ
heard_at at = record {
  pts = pos at;
  payload = 213 ∷ [];
  rtp = none;
  generation = 1;
  discontinuity = false;
}

-- Sound before the first picture is dropped, and the last picture opens a second cluster.
abbrev events : List (Event ℕ)
events =
    audio (heard_at 0)
    ∷ video (picture 1_000_000_000)
    ∷ audio (heard_at 1_020_000_000)
    ∷ video (picture 7_000_000_000)
    ∷ []

abbrev opened : Writer
opened = (new_with_audio no_bits [] stream_info sound).1

abbrev recorded : Writer
recorded = (record_all events opened).1

frames-expected :
    frames_of true none events
    ≡ frame_at 0x81 0 0x80 (0 ∷ 0 ∷ 0 ∷ 2 ∷ 101 ∷ 1 ∷ [])
      ∷ frame_at 0x82 20 0x80 (213 ∷ [])
      ∷ frame_at 0x81 6000 0x80 (0 ∷ 0 ∷ 0 ∷ 2 ∷ 101 ∷ 1 ∷ [])
      ∷ []
unfolding frames_of frames_of_event audio_frames video_frames origin_after frame milliseconds sub64
frames-expected = refl

is_opened : new_with_audio no_bits [] stream_info sound ≡ (ok tt, opened)
unfolding new_with_audio check_info write_header write_element write_bytes ebml_head segment_info
    tracks video_track audio_track audio_codec_data avc_decoder_configuration_record
    hevc_decoder_configuration_record normalize_audio_info elements element uint_element
    uint_size_from encode_size encode_size_from bytes_eq
is_opened = refl

is_recorded : record_all events opened ≡ (ok tt, recorded)
unfolding new_with_audio check_info write_header write_element write_bytes ebml_head segment_info
    tracks video_track audio_track audio_codec_data avc_decoder_configuration_record
    hevc_decoder_configuration_record normalize_audio_info elements element uint_element
    uint_size_from encode_size encode_size_from bytes_eq record_all write_all write_event
    write_access_unit write_audio write_at write_block needs_cluster start_cluster flush_cluster
    frame milliseconds sub64 close
is_recorded = refl

record_all-reads_example :
    (body : Bytes) × (recorded.content ≡ opened.content ++ body)
    × ReadsClusters body (frames_of (hears sound) none events)
record_all-reads_example =
    record_all-reads no_bits [] stream_info sound events opened recorded is_opened is_recorded

abbrev app_name : Bytes
app_name = 0x4d ∷ 0x80 ∷ 0x87 ∷ codes "Fragata"

two_bytes : IsId (0x4d ∷ 0x80 ∷ [])
unfolding IsId
two_bytes = refl

app_name_written : element (0x4d ∷ 0x80 ∷ []) (codes "Fragata") ≡ ok app_name
unfolding element encode_size encode_size_from
app_name_written = refl

one_byte : IsId (0xe7 ∷ [])
unfolding IsId
one_byte = refl

time_written : uint_element (0xe7 ∷ []) 300 ≡ ok (0xe7 ∷ 0x82 ∷ 1 ∷ 44 ∷ [])
unfolding uint_element uint_size_from element encode_size encode_size_from
time_written = refl

abbrev short_h265 : Info
short_h265 = record stream_info { codec = codes "H265"; vps = 64 ∷ []; sps = 66 ∷ 1 ∷ [] }

short_h265-checked : check_info short_h265 ≡ none
unfolding check_info bytes_eq
short_h265-checked = refl

new_with_audio-panics_example : (new_with_audio no_bits [] short_h265 sound).0 ≡ panicked
new_with_audio-panics_example =
    new_with_audio-panics no_bits short_h265 sound short_h265-checked (omega arith)

-- The writer at its opening, with a head only.
abbrev fresh : Writer
fresh = record opened {
  content = [];
  answers = [];
  origin_set = false;
  cluster = [];
  cluster_start = 0;
  closed = false;
}

picture-IsSmall : IsSmall (length (frame (picture 5).nalus) + 4)
unfolding IsSmall frame
picture-IsSmall = omega arith

no_cluster : IsSmall 0
unfolding IsSmall
no_cluster = omega arith

in_time : fresh.cluster_start ≤ time_of (picture 5) fresh + 32768
in_time = omega arith

write_access_unit-Returns_example :
    Returns (Records (picture_frame (picture 5) fresh)) (write_access_unit (picture 5) fresh)
write_access_unit-Returns_example =
    write_access_unit-Returns (picture 5) fresh refl refl refl no_cluster picture-IsSmall in_time
