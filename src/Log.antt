-- ===== src/Log.antt =====
-- internal/logging/rolling.go: the log file that drops its oldest lines. The file is its bytes; each
-- call of the system has an answer.
pub mod Bounded
pub mod Newest
use fragata.Base.{
  ℕ, zero, suc, ◌+◌, ◌-◌, ◌/◌, Bool, true, false, not, ◌&&◌, ℤ, pos, lt_int, pos_part, List, [],
  ◌∷◌, ◌++◌, Option, none, some, Bytes, length, drop, take, ltb, leb, ◌==◌, if◌then◌else◌,
}

abbrev pub default_max_size : ℕ
default_max_size = 1_048_576

-- The field `file`: nil, a file that is open, or one that was closed and not replaced.
pub data Handle : Type 0 where
  no_file : Handle
  opened : Handle
  stale : Handle

pub record RollingWriter : Type 0 where
  pub max_size : ℕ
  pub file : Handle
  pub size : ℕ
  -- What is in the file itself.
  pub content : Bytes

-- What `os.ReadFile` answers.
pub data ReadAnswer : Type 0 where
  whole : ReadAnswer
  missing : ReadAnswer
  unreadable : ReadAnswer

-- The system's answers to the calls of one operation. An append that fails may have written a part.
pub record Answers : Type 0 where
  pub sync_ok : Bool
  pub close_ok : Bool
  pub read : ReadAnswer
  pub write_ok : Bool
  pub rename_ok : Bool
  pub reopen_ok : Bool
  pub append_ok : Bool
  pub part : ℕ

pub data LogError : Type 0 where
  err_closed : LogError
  sync_failed : LogError
  close_failed : LogError
  read_failed : LogError
  write_failed : LogError
  rename_failed : LogError
  open_failed : LogError

-- `p[len(p)-n:]`, where n is at most the length.
abbrev pub last : ℕ → Bytes → Bytes
last n p = drop (length p - n) p

-- `bytes.IndexByte(p, '\n')`.
abbrev pub newline_index : Bytes → Option ℕ
newline_index [] = none
newline_index (b ∷ p) = elim (b == 10) [
  | true ↦ some 0
  | false ↦ elim (newline_index p) [ none ↦ none | some i ↦ some (suc i) ]
]

-- The cut behind the first newline, unless nothing would be left.
unfoldable pub after_line : Bytes → Bytes
after_line p = elim (newline_index p) [
  | none ↦ p
  | some index ↦ if ltb (index + 1) (length p) then drop (index + 1) p else p
]

-- Both operations cut in this way what is longer than a limit.
unfoldable pub newest : ℕ → Bytes → Bytes
newest limit p = if ltb limit (length p) then after_line (last limit p) else p

unfoldable pub keep_limit : ℕ → Bytes → ℕ
keep_limit max pending =
    if leb max (length pending)
    then max / 2
    else if ltb (max / 2) (length pending)
    then max - length pending
    else max / 2

-- The new content of the file.
unfoldable pub compacted : ℕ → Bytes → Bytes → Bytes
compacted max raw pending =
    let old = if leb max (length pending) then [] else raw in
    let content = newest (keep_limit max pending) old ++ pending in
    if ltb max (length content) then last max content else content

abbrev pub read_file : ReadAnswer → Bytes → Option Bytes
read_file whole content = some content
read_file missing content = some []
read_file unreadable content = none

-- The part of `compactLocked` behind the close of the old file.
unfoldable pub replace_file : Answers → Bytes → RollingWriter → RollingWriter × Option LogError
replace_file os pending w = elim (read_file os.read w.content) [
  | none ↦ (w, some read_failed)
  | some raw ↦
      let content = compacted w.max_size raw pending in
      if not os.write_ok
      then (w, some write_failed)
      else if not os.rename_ok
      then (w, some rename_failed)
      else if not os.reopen_ok
      then (record w { content = content }, some open_failed)
      else (record w { file = opened; content = content; size = length content }, none)
]

-- A `Sync` of a closed file fails.
unfoldable pub compact_locked : Answers → Bytes → RollingWriter → RollingWriter × Option LogError
compact_locked os pending w = elim w.file [
  | no_file ↦ (w, some err_closed)
  | stale ↦ (w, some sync_failed)
  | opened ↦
      if not os.sync_ok
      then (w, some sync_failed)
      else if not os.close_ok
      then (record w { file = stale }, some close_failed)
      else replace_file os pending (record w { file = stale })
]

-- `w.file.Write(p)` and what follows it.
unfoldable pub append_file : Answers → Bytes → RollingWriter → RollingWriter × (ℕ × Option LogError)
append_file os p w = elim w.file [
  | opened ↦
      let written = if os.append_ok then p else take os.part p in
      (
        record w { content = w.content ++ written; size = w.size + length written },
        (length written, if os.append_ok then none else some write_failed),
      )
  | no_file ↦ (w, (0, some err_closed))
  | stale ↦ (w, (0, some err_closed))
]

abbrev pub is_nil_file : Handle → Bool
is_nil_file no_file = true
is_nil_file opened = false
is_nil_file stale = false

-- Returns the number of bytes and the error.
unfoldable pub write : Answers → Bytes → RollingWriter → RollingWriter × (ℕ × Option LogError)
write os given w =
    let p = newest w.max_size given in
    let after = compact_locked os p w in
    let appended = append_file os p w in
    if is_nil_file w.file
    then (w, (0, some err_closed))
    else if ltb w.max_size (w.size + length p)
    then elim after.1 [ none ↦ (after.0, (length given, none)) | some e ↦ (after.0, (0, some e)) ]
    else (
      appended.0,
      (elim appended.1.1 [ none ↦ length given | some e ↦ appended.1.0 ], appended.1.1),
    )

abbrev pub limit_of : ℤ → ℕ
limit_of max = if lt_int max (pos 1) then default_max_size else pos_part max

-- `Open` on a file with this content, once it is open; the answers are those of its compaction.
unfoldable pub open_writer : Answers → ℤ → Bytes → RollingWriter × Option LogError
open_writer os max content =
    let w : RollingWriter = record {
      max_size = limit_of max;
      file = opened;
      size = length content;
      content = content;
    } in
    if ltb (limit_of max) (length content) then compact_locked os [] w else (w, none)

unfoldable pub close : Answers → RollingWriter → RollingWriter × Option LogError
close os w = elim w.file [
  | no_file ↦ (w, none)
  | stale ↦ (record w { file = no_file }, some close_failed)
  | opened ↦ (record w { file = no_file }, if os.close_ok then none else some close_failed)
]
