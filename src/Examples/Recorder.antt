-- ===== src/Examples/Recorder.antt =====
-- internal/recording/recorder_test.go: a short recording with sound.
use fragata.Base.{
  ℕ, ℤ, pos, ◌≡◌, refl, true, false, List, [], ◌∷◌, ◌++◌, Bytes, codes, none, some, Option,
  bytes_eq, All, Bool,
}
use fragata.Hub.{Info, AudioInfo, AccessUnit, AudioPacket, is_nil}
use fragata.Matroska.Ebml.{
  Outcome, ok, err, panicked, encode_size, encode_size_from, element, uint_element, uint_size_from,
  elements,
}
use fragata.Matroska.Header.{
  tracks, video_track, audio_track, audio_codec_data, avc_decoder_configuration_record,
  hevc_decoder_configuration_record, normalize_audio_info, ebml_head, segment_info,
}
use fragata.Matroska.Writer.{
  Writer, new_with_audio, write_access_unit, check_info, write_at, frame, write_header,
  write_element, write_bytes, write_audio, write_block, needs_cluster, start_cluster, flush_cluster,
  milliseconds, sub64, close,
}
use fragata.Matroska.Events.{frames_of}
use fragata.Matroska.Frames.{ReadsClusters}
use fragata.Matroska.Refines.Recording.{hears}
use fragata.Recorder.Segments.{
  Segment, Texts, Settings, Moment, created, with_first, begun, safe_part, safe_runes, find_name,
  opened_file, start_named, start, announce, FinishAnswers, CompletedFile, Report, on_completed,
  not_finished, no_size, nothing, crashed_finalizer, report_completed, report_finish, finalize,
  sealed, finish,
}
use fragata.Recorder.Steps.{
  Recorder, is_other, new_recorder, Input, cancelled, unit_in, sound_in, cut, finish_all, ready,
  begin_with, after_write, write_unit, rotate_with, is_rotation, current_duration, after_sound,
  take_sound, on_sound, open_with, take_unit, on_unit, step, run_all,
}
use fragata.Recorder.Takes.{inputs_of, taken_from, StartsWithKey, IsFrom}
use fragata.Recorder.Sound.{IsHarmless}
use fragata.Recorder.Files.{finalize-reads}
use fragata.Recorder.Rotation.{IsKept, on_unit-IsKept}

abbrev no_bits : ℤ → ℕ
no_bits rate = 0

abbrev texts : Texts
texts = record {
  trim_space = λ s. s;
  runes = λ s. s;
  join = λ parts. [];
  format = λ layout at. layout;
}

abbrev settings : Settings
settings = record {
  camera_id = codes "c1";
  storage_folder = [];
  base_dir = codes "rec";
  segment_duration = pos 60_000_000_000;
}

abbrev moment : ℕ → Moment
moment at = record {
  checked_at = at;
  opened_at = at;
  cut_at = at;
  info = record {
    codec = codes "H264";
    width = pos 640;
    height = pos 480;
    vps = [];
    sps = 103 ∷ 66 ∷ 0 ∷ 30 ∷ [];
    pps = 104 ∷ [];
  };
  audio_info = record {
    codec = codes "PCMU";
    sample_rate = pos 8000;
    channels = pos 1;
    codec_private = [];
  };
  provided = none;
  makes_dir = true;
  opens = λ name. created;
  writes = [];
}

abbrev unit_at : ℕ → AccessUnit
unit_at at = record {
  pts = pos at;
  nalus = (101 ∷ 1 ∷ []) ∷ [];
  key_frame = true;
  generation = 1;
  discontinuity = false;
}

abbrev sound_at : ℕ → AudioPacket ℕ
sound_at at = record {
  pts = pos at;
  payload = 213 ∷ [];
  rtp = none;
  generation = 1;
  discontinuity = false;
}

-- The second key frame comes after the length of a segment, and rotates the file.
abbrev inputs : List (Moment × Input ℕ)
inputs =
    (moment 0, unit_in (some (unit_at 0)))
    ∷ (moment 20_000_000, sound_in (some (sound_at 20_000_000)))
    ∷ (moment 60_000_000_000, unit_in (some (unit_at 60_000_000_000)))
    ∷ (moment 60_000_000_001, cancelled)
    ∷ []

abbrev value_of : Option Recorder → Recorder
value_of none = new_recorder
value_of (some r) = r

abbrev result : Recorder
result = value_of (run_all texts no_bits settings inputs new_recorder)

abbrev first_of : List (Segment × ℕ) → Segment → Segment
first_of [] seg = seg
first_of (request ∷ requests) seg = request.0

abbrev rest_of : List (Segment × ℕ) → List (Segment × ℕ)
rest_of [] = []
rest_of (request ∷ requests) = requests

abbrev no_segment : Segment
no_segment = record {
  partial_path = [];
  final_path = [];
  writer = (new_with_audio no_bits [] (moment 0).info (moment 0).audio_info).1;
  started_at = 0;
  ended_at = 0;
  generation = 0;
  announced = false;
  finished = false;
}

abbrev time_of : List (Segment × ℕ) → ℕ
time_of [] = 0
time_of (request ∷ requests) = request.1

abbrev handed : Segment
handed = first_of result.requests no_segment

abbrev answers : FinishAnswers
answers = record { syncs = true; closes = true; renames = true }

abbrev over : Segment
over = (finalize answers (some 99) (handed, time_of result.requests)).1

abbrev file_of : Report → CompletedFile
file_of (on_completed reported) = reported
file_of other = record { path = []; started_at = 0; ended_at = 0; size = 0 }

abbrev file : CompletedFile
file = file_of (finalize answers (some 99) (handed, time_of result.requests)).0

is_run : run_all texts no_bits settings inputs new_recorder ≡ some result
unfolding run_all step on_unit on_sound take_unit take_sound open_with with_first begun start
    start_named opened_file find_name safe_part safe_runes announce cut finish_all ready begin_with
    after_write write_unit rotate_with is_rotation current_duration after_sound new_with_audio
    check_info write_header write_element write_bytes ebml_head segment_info tracks video_track
    audio_track audio_codec_data avc_decoder_configuration_record hevc_decoder_configuration_record
    normalize_audio_info elements element uint_element uint_size_from encode_size encode_size_from
    bytes_eq write_access_unit write_audio write_at write_block needs_cluster start_cluster
    flush_cluster frame milliseconds sub64 close
is_run = refl

handed_first :
    (requests : List (Segment × ℕ)) (seg : Segment)
    → is_nil requests ≡ false
    → requests ≡ [] ++ (first_of requests seg, time_of requests) ∷ rest_of requests
handed_first [] seg h = absurd cc
handed_first (request ∷ requests) seg h = refl

is_handed : is_nil result.requests ≡ false
unfolding run_all step on_unit on_sound take_unit take_sound open_with with_first begun start
    start_named opened_file find_name safe_part safe_runes announce cut finish_all ready begin_with
    after_write write_unit rotate_with is_rotation current_duration after_sound new_with_audio
    check_info write_header write_element write_bytes ebml_head segment_info tracks video_track
    audio_track audio_codec_data avc_decoder_configuration_record hevc_decoder_configuration_record
    normalize_audio_info elements element uint_element uint_size_from encode_size encode_size_from
    bytes_eq write_access_unit write_audio write_at write_block needs_cluster start_cluster
    flush_cluster frame milliseconds sub64 close
is_handed = refl

All-IsHarmless : All IsHarmless result.effects
unfolding run_all step on_unit on_sound take_unit take_sound open_with with_first begun start
    start_named opened_file find_name safe_part safe_runes announce cut finish_all ready begin_with
    after_write write_unit rotate_with is_rotation current_duration after_sound new_with_audio
    check_info write_header write_element write_bytes ebml_head segment_info tracks video_track
    audio_track audio_codec_data avc_decoder_configuration_record hevc_decoder_configuration_record
    normalize_audio_info elements element uint_element uint_size_from encode_size encode_size_from
    bytes_eq write_access_unit write_audio write_at write_block needs_cluster start_cluster
    flush_cluster frame milliseconds sub64 close IsHarmless
All-IsHarmless = (tt, (tt, tt))

abbrev is_report : Report → Bool
is_report (on_completed reported) = true
is_report other = false

reported_file :
    (p : Report × Segment) → is_report p.0 ≡ true → p ≡ (on_completed (file_of p.0), p.1)
reported_file (on_completed reported, seg) h = refl
reported_file (not_finished, seg) h = absurd (cc)
reported_file (no_size, seg) h = absurd (cc)
reported_file (nothing, seg) h = absurd (cc)
reported_file (crashed_finalizer, seg) h = absurd (cc)

is_completed : is_report (finalize answers (some 99) (handed, time_of result.requests)).0 ≡ true
unfolding run_all step on_unit on_sound take_unit take_sound open_with with_first begun start
    start_named opened_file find_name safe_part safe_runes announce cut finish_all ready begin_with
    after_write write_unit rotate_with is_rotation current_duration after_sound new_with_audio
    check_info write_header write_element write_bytes ebml_head segment_info tracks video_track
    audio_track audio_codec_data avc_decoder_configuration_record hevc_decoder_configuration_record
    normalize_audio_info elements element uint_element uint_size_from encode_size encode_size_from
    bytes_eq write_access_unit write_audio write_at write_block needs_cluster start_cluster
    flush_cluster frame milliseconds sub64 close finish sealed finalize report_finish
    report_completed
is_completed = refl

finalize-reads_example :
    (file.path ≡ over.final_path)
    × ((earlier : List (Input ℕ)) × (during : List (Input ℕ)) × (later : List (Input ℕ))
        × (inputs_of inputs ≡ earlier ++ (during ++ later))
        × StartsWithKey (taken_from handed.generation during)
        × All (IsFrom handed.generation) (taken_from handed.generation during)
        × ((writes : List (Option ℕ)) × (info : Info) × (sound : AudioInfo) × (head : Writer)
            × (body : Bytes) × (new_with_audio no_bits writes info sound ≡ (ok tt, head))
            × (over.writer.content ≡ head.content ++ body)
            × ReadsClusters body
                (frames_of (hears sound) none (taken_from handed.generation during))))
finalize-reads_example =
    finalize-reads ℕ no_bits texts settings inputs result [] (rest_of result.requests) handed over
      (time_of result.requests) answers (some 99) file is_run All-IsHarmless
      (handed_first result.requests no_segment is_handed)
      (reported_file (finalize answers (some 99) (handed, time_of result.requests)) is_completed)

abbrev first_step : Option Recorder
first_step = on_unit texts no_bits settings (moment 0) (unit_at 0) new_recorder

abbrev recording : Recorder
recording = value_of first_step

abbrev current_of : Option Segment → Segment
current_of none = no_segment
current_of (some seg) = seg

abbrev is_some : {A : Type 0} → Option A → Bool
is_some none = false
is_some (some a) = true

abbrev is_ok : Outcome (Unit {0}) × Writer → Bool
is_ok (ok _, w) = true
is_ok (err e, w) = false
is_ok (panicked, w) = false

current-some : (o : Option Segment) → is_some o ≡ true → o ≡ some (current_of o)
current-some none h = absurd (cc)
current-some (some seg) h = refl

value-some : (o : Option Recorder) → is_some o ≡ true → o ≡ some (value_of o)
value-some none h = absurd (cc)
value-some (some r) h = refl

written_ok : (o : Outcome (Unit {0}) × Writer) → is_ok o ≡ true → o ≡ (ok tt, o.1)
written_ok (ok _, w) h = refl
written_ok (err e, w) h = absurd (cc)
written_ok (panicked, w) h = absurd (cc)

is_current : is_some recording.current ≡ true
unfolding run_all step on_unit on_sound take_unit take_sound open_with with_first begun start
    start_named opened_file find_name safe_part safe_runes announce cut finish_all ready begin_with
    after_write write_unit rotate_with is_rotation current_duration after_sound new_with_audio
    check_info write_header write_element write_bytes ebml_head segment_info tracks video_track
    audio_track audio_codec_data avc_decoder_configuration_record hevc_decoder_configuration_record
    normalize_audio_info elements element uint_element uint_size_from encode_size encode_size_from
    bytes_eq write_access_unit write_audio write_at write_block needs_cluster start_cluster
    flush_cluster frame milliseconds sub64 close
is_current = refl

is_same : is_other 1 (some (current_of recording.current)) ≡ false
unfolding run_all step on_unit on_sound take_unit take_sound open_with with_first begun start
    start_named opened_file find_name safe_part safe_runes announce cut finish_all ready begin_with
    after_write write_unit rotate_with is_rotation current_duration after_sound new_with_audio
    check_info write_header write_element write_bytes ebml_head segment_info tracks video_track
    audio_track audio_codec_data avc_decoder_configuration_record hevc_decoder_configuration_record
    normalize_audio_info elements element uint_element uint_size_from encode_size encode_size_from
    bytes_eq write_access_unit write_audio write_at write_block needs_cluster start_cluster
    flush_cluster frame milliseconds sub64 close
is_same = refl

is_written :
    is_ok (write_access_unit (unit_at 60_000_000_000) (current_of recording.current).writer) ≡ true
unfolding run_all step on_unit on_sound take_unit take_sound open_with with_first begun start
    start_named opened_file find_name safe_part safe_runes announce cut finish_all ready begin_with
    after_write write_unit rotate_with is_rotation current_duration after_sound new_with_audio
    check_info write_header write_element write_bytes ebml_head segment_info tracks video_track
    audio_track audio_codec_data avc_decoder_configuration_record hevc_decoder_configuration_record
    normalize_audio_info elements element uint_element uint_size_from encode_size encode_size_from
    bytes_eq write_access_unit write_audio write_at write_block needs_cluster start_cluster
    flush_cluster frame milliseconds sub64 close
is_written = refl

abbrev rotated : Option Recorder
rotated = on_unit texts no_bits settings (moment 60_000_000_000) (unit_at 60_000_000_000) recording

is_rotated : is_some rotated ≡ true
unfolding run_all step on_unit on_sound take_unit take_sound open_with with_first begun start
    start_named opened_file find_name safe_part safe_runes announce cut finish_all ready begin_with
    after_write write_unit rotate_with is_rotation current_duration after_sound new_with_audio
    check_info write_header write_element write_bytes ebml_head segment_info tracks video_track
    audio_track audio_codec_data avc_decoder_configuration_record hevc_decoder_configuration_record
    normalize_audio_info elements element uint_element uint_size_from encode_size encode_size_from
    bytes_eq write_access_unit write_audio write_at write_block needs_cluster start_cluster
    flush_cluster frame milliseconds sub64 close
is_rotated = refl

on_unit-IsKept_example :
    IsKept
      (moment 60_000_000_000)
      (unit_at 60_000_000_000)
      (current_of recording.current)
      (write_access_unit (unit_at 60_000_000_000) (current_of recording.current).writer).1
      recording
      (value_of rotated)
on_unit-IsKept_example =
    on_unit-IsKept texts no_bits settings (moment 60_000_000_000) (unit_at 60_000_000_000)
      (current_of recording.current)
      (write_access_unit (unit_at 60_000_000_000) (current_of recording.current).writer).1 recording
      (value_of rotated) refl (current-some recording.current is_current) is_same
      (written_ok (write_access_unit (unit_at 60_000_000_000) (current_of recording.current).writer)
        is_written)
      (value-some rotated is_rotated)
