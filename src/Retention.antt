-- ===== src/Retention.antt =====
-- internal/retention/cleaner.go: the removal of old recordings. The disk is a map from paths to sizes
-- and times; what `WalkDir` visits is a list, and the functions of the library are a parameter.
pub mod Keeps
pub mod Counts
pub mod Events
pub mod Prunes
use mathlib.Core.Option
use fragata.Base.{
  ℕ, ◌+◌, ◌-◌, zero, suc, Bool, true, false, not, ◌&&◌, ◌||◌, ℤ, pos, negsuc, lt_int, List, [], ◌∷◌,
  Bytes, codes, bytes_eq, Option, none, some, Table, lookup, delete, ltb, if◌then◌else◌,
}
use fragata.Hub.{is_nil}
use fragata.Model.{RetentionPolicy, UploadJob, State}
use fragata.Recorder.Recover.{has_suffix}

-- `strings.TrimSpace` and `strings.ToLower`, `filepath.Abs` and `filepath.Clean`, and `AddDate` with
-- years, months and days.
pub record Tools : Type 0 where
  pub trim_space : Bytes → Bytes
  pub to_lower : Bytes → Bytes
  pub absolute : Bytes → Option Bytes
  pub clean : Bytes → Bytes
  pub add_date : ℤ → ℤ → ℤ → ℕ → ℕ

pub record FileInfo : Type 0 where
  pub size : ℕ
  pub modified : ℕ

pub data Visit : Type 0 where
  unread : Visit
  found : Bytes → Bytes → Bool → Visit

-- The disk, and the first fields of `Result`.
pub record Cleaned : Type 0 where
  pub disk : Table FileInfo
  pub deleted : ℕ
  pub freed : ℕ

abbrev pub negative : ℤ → ℤ
negative (pos zero) = pos 0
negative (pos (suc n)) = negsuc n
negative (negsuc n) = pos (n + 1)

abbrev pub is_among : Bytes → List Bytes → Bool
is_among path [] = false
is_among path (p ∷ paths) = bytes_eq p path || is_among path paths

module _ (tools : Tools) where
  unfoldable pub cutoff : RetentionPolicy → ℕ → Option ℕ
  cutoff p now =
      let back = negative p.value in
      if not p.enabled || lt_int p.value (pos 1)
      then none
      else if bytes_eq p.unit (codes "days")
      then some (tools.add_date (pos 0) (pos 0) back now)
      else if bytes_eq p.unit (codes "months")
      then some (tools.add_date (pos 0) back (pos 0) now)
      else if bytes_eq p.unit (codes "years")
      then some (tools.add_date back (pos 0) (pos 0) now)
      else none

  -- The cleaned path of a file, where it has one.
  abbrev pub clean_path : Bytes → Option Bytes
  clean_path path = Option.map tools.clean (tools.absolute path)

  -- The files that wait for their upload.
  unfoldable pub pending : Table UploadJob → List Bytes
  pending [] = []
  pending ((id, job) ∷ jobs) =
      let others = pending jobs in
      elim (clean_path job.local_path) [ none ↦ others | some path ↦ path ∷ others ]

  unfoldable pub is_pending : List Bytes → Bytes → Bool
  is_pending queued path = elim (clean_path path) [ none ↦ false | some p ↦ is_among p queued ]

  unfoldable pub is_recording : Bytes → Bool
  is_recording name = has_suffix (tools.to_lower name) (codes ".mkv")

  module _ (refuses : Bytes → Bool) (queued : List Bytes) (before : ℕ) where
    -- A recording that is not pending: its time is checked, and it is removed.
    unfoldable pub remove_old : Bytes → FileInfo → Cleaned → Cleaned
    remove_old path info c =
        if not (ltb info.modified before) then c else if refuses path then c else record {
          disk = delete path c.disk;
          deleted = c.deleted + 1;
          freed = c.freed + info.size;
        }

    unfoldable pub clean_visit : Visit → Cleaned → Cleaned
    clean_visit unread c = c
    clean_visit (found path name is_dir) c =
        let checked : Cleaned = elim (lookup path c.disk) [
          | none ↦ c
          | some info ↦ remove_old path info c
        ] in
        if is_dir || not (is_recording name)
        then c
        else if is_pending queued path
        then c
        else checked

    unfoldable pub clean_all : List Visit → Cleaned → Cleaned
    clean_all [] c = c
    clean_all (v ∷ visits) c = clean_all visits (clean_visit v c)

  -- The recordings' part of `Cleanup`.
  unfoldable pub clean_recordings :
      Bytes → (Bytes → Bool) → State → ℕ → List Visit → Table FileInfo → Cleaned
  clean_recordings base_dir refuses s now visits disk =
      let nothing : Cleaned = record { disk = disk; deleted = 0; freed = 0 } in
      let cleaned : Cleaned = elim (cutoff s.retention now) [
        | none ↦ nothing
        | some before ↦ clean_all refuses (pending s.upload_queue) before visits nothing
      ] in
      if is_nil (tools.trim_space base_dir) then nothing else cleaned
