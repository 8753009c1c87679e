-- ===== src/Examples/Upload.antt =====
-- internal/upload/uploader_test.go: a recording on its way to a server.
use mathlib.Core.Option
use fragata.Base.{
  ℤ, pos, ◌≡◌, refl, inl, inr, true, false, List, [], ◌∷◌, ◌++◌, Option, none, some, Bytes,
  bytes_eq, codes, lookup, insert, delete, arith, ◌≤◌, ◌*◌,
}
use fragata.Model.{State, UploadJob}
use fragata.Store.Disk.{
  Library, Answers, replace_file, encode_state, encrypt_cameras, encrypt_profiles, persist,
  default_retention,
}
use fragata.Store.Commands.{
  is_idle, run, change, delete_upload_job_change, save_upload_job_change, delete_upload_job,
}
use fragata.Upload.{SftpConfig, Tools, validate_config, profile_config, backoff, truncate}
use fragata.Upload.Transfer.{
  World, Replies, is_size, remove_file, rename_file, put_file, put_checksum, remote_matches,
  delete_job, complete, transfer, upload, process,
}
use fragata.Upload.Attempts.{Ends, IsKept, process-Ends}
use fragata.Upload.Series.{Turn, attempt, turns, IsApart, turns-IsKept}
use fragata.Upload.Workers.{
  next_job, release, add_one, failed_job, fail, System, Step, taking, ending, saving, end_work,
  work, work_all,
}
use fragata.Upload.Claims.{IsOrderly, work_all-IsOrderly}
use fragata.Upload.Waits.{backoff-bounds}
use fragata.Upload.Succeeds.{smooth, process-Done}

-- A library whose JSON is empty, and whose cipher is never used.
abbrev pub toy : Library
toy = record {
  new_gcm = λ key. true;
  nonce_size = 1;
  seal = λ key nonce plain. plain;
  open_sealed = λ key nonce sealed. some sealed;
  encode_base64 = λ raw. raw;
  decode_base64 = λ text. some text;
  marshal = λ d. some [];
  unmarshal = λ b. none;
  is_text = λ d. true;
}

abbrev pub os : Answers
os = record {
  random = λ n. some (7 ∷ []);
  read_ok = true;
  write_ok = true;
  partial = [];
  open_ok = true;
  sync_ok = true;
  close_ok = true;
  rename_ok = true;
}

-- A hash that is its text.
abbrev tools : Tools
tools = record {
  sha256 = λ content. content;
  trim = λ text. text;
  fields = λ text. text ∷ [];
  equal_fold = λ a b. bytes_eq a b;
  base = λ path. path;
  join = λ folder name. folder ++ name;
}

abbrev legacy : SftpConfig
legacy = record {
  enabled = true;
  host = codes "nas";
  port = pos 22;
  user = codes "cam";
  password = codes "pw";
  private_key_path = [];
  known_hosts_path = codes "known";
  remote_base_dir = codes "video";
  workers = pos 2;
  timeout = pos 0;
  delete_local = true;
}

abbrev content : Bytes
content = 1 ∷ 2 ∷ 3 ∷ []

abbrev job : UploadJob
job = record {
  id = codes "j1";
  camera_id = [];
  sftp_profile_id = [];
  local_path = codes "a.mkv";
  remote_path = codes "video/a";
  sha256 = [];
  size = pos 3;
  attempts = pos 0;
  next_attempt = 0;
  created_at = 0;
  completed_at = 0;
  last_error = [];
}

abbrev other : UploadJob
other = record job { id = codes "j2"; local_path = codes "b.mkv"; remote_path = codes "video/b" }

abbrev queued : State
queued = record {
  version = pos 4;
  cameras = [];
  sessions = [];
  upload_queue = (codes "j1", job) ∷ [];
  sftp_profiles = [];
  retention = default_retention;
  events = [];
}

abbrev start : World
start = record {
  store = record { content = queued; disk = record { state_file = none; tmp_file = none } };
  local = (codes "a.mkv", content) ∷ [];
  remote = [];
}

-- The server does not let the file have its name.
abbrev no_rename : Replies
no_rename = record (smooth os) { rename_ok = false }

abbrev run_job : Replies → World
run_job re = (process toy [] tools legacy re job start).0

process-Ends_example :
    Ends job content queued.upload_queue (process toy [] tools legacy no_rename job start)
    × IsKept
        (codes "video/a")
        (codes "a.mkv")
        content
        (process toy [] tools legacy no_rename job start).0
unfolding lookup bytes_eq
process-Ends_example = process-Ends toy [] tools legacy no_rename job content start (inl refl) refl

other-IsApart : IsApart (codes "video/a") (codes "a.mkv") other
unfolding bytes_eq
other-IsApart = record {
  remote = refl;
  beside = record { partial = refl; checksum = refl; checksum_partial = refl };
  local = refl;
}

abbrev three_turns : List (Turn toy [] tools legacy)
three_turns = attempt no_rename job ∷ attempt (smooth os) other ∷ attempt (smooth os) job ∷ []

turns-IsKept_example :
    IsKept (codes "video/a") (codes "a.mkv") content (turns toy [] tools legacy three_turns start)
unfolding lookup bytes_eq
turns-IsKept_example =
    turns-IsKept toy [] tools legacy (codes "video/a") (codes "a.mkv") content three_turns start
      (inl (refl, refl), (inr other-IsApart, (inl (refl, refl), tt))) (inl refl, inl refl)

abbrev idle : System toy [] tools legacy
idle = record { world = start; claimed = []; working = []; failing = [] }

-- The first worker fails, and a second takes the job before the first has saved its error.
abbrev overtaking : List (Step toy [] tools legacy)
overtaking =
    taking 0 (job ∷ [])
    ∷ ending 0 no_rename
    ∷ taking 0 (job ∷ [])
    ∷ ending 0 (smooth os)
    ∷ saving 0 os 9 (codes "rename")
    ∷ []

work_all-IsOrderly_example :
    IsOrderly toy [] tools legacy (work_all toy [] tools legacy overtaking idle)
work_all-IsOrderly_example = work_all-IsOrderly toy [] tools legacy overtaking idle (tt, tt)

-- The job is in the queue again, although its file is on the server and gone from the disk.
abbrev attempts_of : System toy [] tools legacy → Option ℤ
attempts_of s =
    Option.map (λ (j : UploadJob). j.attempts)
      (lookup (codes "j1") s.world.store.content.upload_queue)

overtaken-queued : attempts_of (work_all toy [] tools legacy overtaking idle) ≡ some (pos 1)
unfolding work work_all end_work release next_job fail failed_job truncate add_one process upload
    transfer complete delete_job put_file put_checksum remove_file rename_file is_size
    remote_matches profile_config validate_config run is_idle change delete_upload_job_change
    save_upload_job_change persist encode_state encrypt_cameras encrypt_profiles replace_file lookup
    insert delete bytes_eq
overtaken-queued = refl

backoff-bounds_example :
    (30 * 1_000_000_000 ≤ backoff (pos 12))
    × (backoff (pos 12) ≤ 3840 * 1_000_000_000)
    × (backoff (pos 1) ≡ 30 * 1_000_000_000)
    × (backoff (pos 8) ≡ 2 * backoff (pos 7))
backoff-bounds_example = backoff-bounds (pos 12) 6 (omega arith)

valid : profile_config tools legacy queued [] ≡ some legacy
unfolding profile_config validate_config lookup bytes_eq
valid = refl

deletes : (run toy [] os (delete_upload_job (codes "j1")) start.store).1 ≡ none
unfolding run is_idle change delete_upload_job_change persist encode_state encrypt_cameras
    encrypt_profiles replace_file lookup delete bytes_eq
deletes = refl

process-Done_example : (process toy [] tools legacy (smooth os) job start).1 ≡ none
unfolding lookup bytes_eq
process-Done_example =
    process-Done toy [] tools legacy os job legacy content start valid refl refl deletes
