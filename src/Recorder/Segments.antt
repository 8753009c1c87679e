-- ===== src/Recorder/Segments.antt =====
-- internal/recording/recorder.go: a segment, its names and its end. The file system answers each call,
-- and the functions of the library on texts, paths and times are a parameter.
use fragata.Base.{
  ℕ, zero, suc, ◌+◌, ◌/◌, ◌%◌, Bool, true, false, ◌&&◌, ◌||◌, List, [], ◌∷◌, ◌++◌, Bytes, Option,
  none, some, codes, leb, ◌==◌, if◌then◌else◌,
}
use fragata.Hub.{Info, AudioInfo, AccessUnit, is_nil}
use fragata.Matroska.Ebml.{Outcome, ok, err, panicked, WriterError}
use fragata.Matroska.Writer.{Writer, new_with_audio, write_access_unit, close}
use fragata.Base.{ℤ}

pub record Segment : Type 0 where
  pub partial_path : Bytes
  pub final_path : Bytes
  pub writer : Writer
  pub started_at : ℕ
  pub ended_at : ℕ
  pub generation : ℕ
  pub announced : Bool
  pub finished : Bool

pub data Failure : Type 0 where
  no_directory : Failure
  not_created : Failure
  no_unique_name : Failure
  not_opened : WriterError → Failure
  not_begun : WriterError → Failure
  not_rotated : Failure → Failure
  not_written : WriterError → Failure
  sound_not_written : WriterError → Failure

-- What the recorder does to the outside: its callbacks, and the partial files it removes or leaves.
pub data Effect : Type 0 where
  started : Bytes → ℕ → Effect
  reported : Failure → Effect
  removed : Bytes → Effect
  preserved : Segment → Effect

-- An `OpenFile` of a name that must be new.
pub data OpenAnswer : Type 0 where
  created : OpenAnswer
  exists : OpenAnswer
  refused_open : OpenAnswer

-- `strings.TrimSpace`, the runes of a string, `filepath.Join` and `Time.Format`.
pub record Texts : Type 0 where
  pub trim_space : Bytes → Bytes
  pub runes : Bytes → List ℕ
  pub join : List Bytes → Bytes
  pub format : Bytes → ℕ → Bytes

pub record Settings : Type 0 where
  pub camera_id : Bytes
  pub storage_folder : Bytes
  pub base_dir : Bytes
  pub segment_duration : ℤ

-- What a step of `Run` reads: the clock where it is read, the hub, the length of a segment where it is provided, and the
-- answers of the file system to `MkdirAll`, `OpenFile` and the writes to the new file.
pub record Moment : Type 0 where
  pub checked_at : ℕ
  pub opened_at : ℕ
  pub cut_at : ℕ
  pub info : Info
  pub audio_info : AudioInfo
  pub provided : Option ℤ
  pub makes_dir : Bool
  pub opens : Bytes → OpenAnswer
  pub writes : List (Option ℕ)

abbrev pub is_safe_rune : ℕ → Bool
is_safe_rune r =
    (leb 97 r && leb r 122)
    || ((leb 65 r && leb r 90) || ((leb 48 r && leb r 57) || (r == 45 || r == 95)))

unfoldable pub safe_runes : List ℕ → Bytes
safe_runes [] = []
safe_runes (r ∷ runes) = (if is_safe_rune r then r else 95) ∷ safe_runes runes

-- The attempt of `%02d`, which is below 100.
abbrev pub attempt_name : Bytes → ℕ → Bytes
attempt_name base zero = base
attempt_name base (suc n) = base ++ 45 ∷ (48 + suc n / 10) ∷ (48 + suc n % 10) ∷ []

-- A name found, or why there is none.
pub data Named : Type 0 where
  named : Bytes → Bytes → Named
  unnamed : Failure → Named

-- A segment with its first unit, or what was done about its failure; or the writer's panic.
pub data Opening : Type 0 where
  opened : Segment → Opening
  refused : List Effect → Failure → Opening
  crashed : Opening

-- The end of the first write.
unfoldable pub begun : Segment → Outcome (Unit {0}) × Writer → Opening
begun seg (ok _, w) = opened (record seg { writer = w })
begun seg (err e, w) = refused (removed seg.partial_path ∷ []) (not_begun e)
begun seg (panicked, w) = crashed

-- `start`, and the first write behind it.
unfoldable pub with_first : AccessUnit → Opening → Opening
with_first au (opened seg) = begun seg (write_access_unit au seg.writer)
with_first au (refused effects e) = refused effects e
with_first au crashed = crashed

module _ (texts : Texts) where
  unfoldable pub safe_part : Bytes → Bytes
  safe_part value =
      let trimmed = texts.trim_space value in
      if is_nil trimmed then codes "camera" else safe_runes (texts.runes trimmed)

  -- The loop over `attempt`, with so many rounds left.
  unfoldable pub find_name : (Bytes → OpenAnswer) → Bytes → Bytes → ℕ → ℕ → Named
  find_name opens dir base zero attempt = unnamed no_unique_name
  find_name opens dir base (suc rounds) attempt =
      let name = attempt_name base attempt in
      let partial = texts.join (dir ∷ (name ++ codes ".mkv.partial") ∷ []) in
      let others = find_name opens dir base rounds (attempt + 1) in
      elim (opens partial) [
        | created ↦ named partial (texts.join (dir ∷ (name ++ codes ".mkv") ∷ []))
        | exists ↦ others
        | refused_open ↦ unnamed not_created
      ]

  module _ (float64_bits : ℤ → ℕ) where
    -- The end of `start`, on a new file.
    unfoldable pub opened_file : Moment → ℕ → Bytes → Bytes → Outcome (Unit {0}) × Writer → Opening
    opened_file m generation partial final (ok _, w) = opened (record {
      partial_path = partial;
      final_path = final;
      writer = w;
      started_at = m.opened_at;
      ended_at = 0;
      generation = generation;
      announced = false;
      finished = false;
    })
    opened_file m generation partial final (err e, w) =
        refused (removed partial ∷ []) (not_opened e)
    opened_file m generation partial final (panicked, w) = crashed

    unfoldable pub start_named : Moment → ℕ → Named → Opening
    start_named m generation (named partial final) =
        opened_file m generation partial final
          (new_with_audio float64_bits m.writes m.info m.audio_info)
    start_named m generation (unnamed e) = refused [] e

    unfoldable pub start : Settings → Moment → ℕ → Opening
    start settings m generation =
        let at = m.opened_at in
        let folder =
          if is_nil (texts.trim_space settings.storage_folder)
          then settings.camera_id
          else settings.storage_folder in
        let dir = texts.join (
          settings.base_dir
          ∷ safe_part folder
          ∷ texts.format (codes "2006") at
          ∷ texts.format (codes "01") at
          ∷ texts.format (codes "02") at
          ∷ []) in
        if m.makes_dir
        then start_named m generation
            (find_name m.opens dir (texts.format (codes "15-04-05.000") at) 100 0)
        else refused [] no_directory

-- `announce`, with its callback set.
unfoldable pub announce : Segment → Segment × List Effect
announce seg =
    if seg.announced
    then (seg, [])
    else (record seg { announced = true }, started seg.partial_path seg.started_at ∷ [])

-- The answers to `Sync`, `Close` and `Rename`.
pub record FinishAnswers : Type 0 where
  pub syncs : Bool
  pub closes : Bool
  pub renames : Bool

pub data Finish : Type 0 where
  completed : Finish
  unfinished : Finish
  crashed_finish : Finish

-- The end of `finish`, behind the writer's close.
unfoldable pub sealed : FinishAnswers → ℕ → Segment → Outcome (Unit {0}) × Writer → Finish × Segment
sealed answers ended seg (ok _, w) =
    if answers.syncs && (answers.closes && answers.renames)
    then (completed, record seg { writer = w; ended_at = ended; finished = true })
    else (unfinished, record seg { writer = w })
sealed answers ended seg (err e, w) = (unfinished, record seg { writer = w })
sealed answers ended seg (panicked, w) = (crashed_finish, record seg { writer = w })

unfoldable pub finish : FinishAnswers → ℕ → Segment → Finish × Segment
finish answers ended seg =
    let ending = sealed answers ended seg (close seg.writer) in
    if seg.finished then (completed, seg) else ending

pub record CompletedFile : Type 0 where
  pub path : Bytes
  pub started_at : ℕ
  pub ended_at : ℕ
  pub size : ℕ

-- What the finalizer reports of a segment.
pub data Report : Type 0 where
  on_completed : CompletedFile → Report
  not_finished : Report
  no_size : Report
  nothing : Report
  crashed_finalizer : Report

-- `completed`, with the size that `Stat` gives.
unfoldable pub report_completed : Option ℕ → Segment → Report
report_completed size seg =
    let report : Report = elim size [
      | none ↦ no_size
      | some n ↦ on_completed (record {
        path = seg.final_path;
        started_at = seg.started_at;
        ended_at = seg.ended_at;
        size = n;
      })
    ] in
    if seg.finished then report else nothing

unfoldable pub report_finish : Option ℕ → Finish × Segment → Report × Segment
report_finish size (completed, seg) = (report_completed size seg, seg)
report_finish size (unfinished, seg) = (not_finished, seg)
report_finish size (crashed_finish, seg) = (crashed_finalizer, seg)

-- The finalizer's work on one request.
unfoldable pub finalize : FinishAnswers → Option ℕ → Segment × ℕ → Report × Segment
finalize answers size (seg, ended) = report_finish size (finish answers ended seg)
