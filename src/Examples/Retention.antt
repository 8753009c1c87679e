-- ===== src/Examples/Retention.antt =====
-- internal/retention/cleaner_test.go: an old recording is removed, a new one and a queued one stay.
use fragata.Base.{
  ◌-◌, ◌≡◌, refl, inl, inr, true, false, Bool, List, [], ◌∷◌, Bytes, codes, bytes_eq, some, pos,
  IsMap, Table, lookup, delete,
}
use fragata.Model.{State, UploadJob}
use fragata.Recorder.Recover.{has_suffix}
use fragata.Retention.{
  Tools, FileInfo, Visit, found, cutoff, pending, is_pending, clean_recordings, clean_all,
  clean_visit, remove_old, is_recording,
}
use fragata.Retention.Keeps.{clean_recordings-keeps}

-- A clock of days, and clean paths.
abbrev tools : Tools
tools = record {
  trim_space = λ s. s;
  to_lower = λ s. s;
  absolute = λ path. some path;
  clean = λ path. path;
  add_date = λ years months days now. now - 30;
}

abbrev queued_job : UploadJob
queued_job = record {
  id = codes "j";
  camera_id = [];
  sftp_profile_id = [];
  local_path = codes "b.mkv";
  remote_path = [];
  sha256 = [];
  size = pos 0;
  attempts = pos 0;
  next_attempt = 0;
  created_at = 0;
  completed_at = 0;
  last_error = [];
}

abbrev settings : State
settings = record {
  version = pos 1;
  cameras = [];
  sessions = [];
  upload_queue = (codes "j", queued_job) ∷ [];
  sftp_profiles = [];
  retention = record { enabled = true; value = pos 30; unit = codes "days"; updated_at = 0 };
  events = [];
}

abbrev disk : Table FileInfo
disk =
    (codes "a.mkv", record { size = 5; modified = 10 })
    ∷ (codes "b.mkv", record { size = 7; modified = 10 })
    ∷ (codes "c.mkv", record { size = 9; modified = 90 })
    ∷ []

abbrev visits : List Visit
visits =
    found (codes "a.mkv") (codes "a.mkv") false
    ∷ found (codes "b.mkv") (codes "b.mkv") false
    ∷ found (codes "c.mkv") (codes "c.mkv") false
    ∷ []

abbrev willing : Bytes → Bool
willing path = false

only_old : (clean_recordings tools (codes "rec") willing settings 100 visits disk).freed ≡ 5
unfolding clean_recordings clean_all clean_visit remove_old cutoff pending is_pending is_recording
    has_suffix lookup delete bytes_eq
only_old = refl

cutoff_at : cutoff tools settings.retention 100 ≡ some 70
unfolding cutoff bytes_eq
cutoff_at = refl

b_waits : is_pending tools (pending tools settings.upload_queue) (codes "b.mkv") ≡ true
unfolding is_pending pending bytes_eq
b_waits = refl

b_held : lookup (codes "b.mkv") disk ≡ some (record { size = 7; modified = 10 })
unfolding lookup bytes_eq
b_held = refl

clean_recordings-keeps_example :
    lookup
      (codes "b.mkv")
      (clean_recordings tools (codes "rec") willing settings 100 visits disk).disk
    ≡ some (record { size = 7; modified = 10 })
clean_recordings-keeps_example =
    clean_recordings-keeps tools (codes "rec") (λ path. path) willing settings 100 70 visits disk
      (codes "b.mkv") (record { size = 7; modified = 10 }) (refl, (refl, (refl, tt))) cutoff_at
      (inr (inl b_waits)) b_held

disk-IsMap : IsMap disk
unfolding lookup bytes_eq
disk-IsMap = (refl, (refl, (refl, tt)))
