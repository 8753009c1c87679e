-- ===== src/Store/Commands.antt =====
-- The operations of internal/store/store.go that change the state. Each changes the maps in memory,
-- writes the file, and undoes its change if the write fails.
use fragata.Base.{
  ℕ, Bool, true, false, List, [], ◌∷◌, Option, none, some, Bytes, ltb, if◌then◌else◌, Table, lookup,
  insert, delete, keep_entries, put_all, not,
}
use fragata.Model.{Camera, DetectionEvent, Session, UploadJob, SftpProfile, RetentionPolicy, State}
use fragata.Store.Disk.{StoreError, Library, Disk, Answers, persist}

pub record Store : Type 0 where
  pub content : State
  pub disk : Disk

pub data Command : Type 0 where
  save_camera : Camera → Command
  delete_camera : Bytes → Command
  save_session : Session → Command
  delete_session : Bytes → Command
  prune_sessions : ℕ → Command
  save_upload_job : UploadJob → Command
  delete_upload_job : Bytes → Command
  save_sftp_profile : SftpProfile → Command
  delete_sftp_profile : Bytes → Command
  save_retention : RetentionPolicy → Command
  save_detection_event : DetectionEvent → Command
  delete_detection_events : List Bytes → Command

-- `previous, existed := m[id]`, written back after a failed save.
unfoldable pub restore : {V : Type 0} → Bytes → Option V → Table V → Table V
restore id none t = delete id t
restore id (some previous) t = insert id previous t

-- The same after a failed delete, which leaves a key alone that was not there.
unfoldable pub restore_deleted : {V : Type 0} → Bytes → Option V → Table V → Table V
restore_deleted id none t = t
restore_deleted id (some previous) t = insert id previous t

abbrev pub is_live : ℕ → Session → Bool
is_live now s = ltb now s.expires_at

-- The loop of `DeleteDetectionEvents`: the map without the ids, and the entries taken out.
unfoldable pub remove_ids : {V : Type 0} → List Bytes → Table V → Table V → Table V × Table V
remove_ids [] t removed = (t, removed)
remove_ids (id ∷ ids) t removed = elim (lookup id t) [
  | none ↦ remove_ids ids t removed
  | some v ↦ remove_ids ids (delete id t) (insert id v removed)
]

-- A change of the state, with what the operation puts back if it cannot be written.
pub record Change : Type 0 where
  pub changed : State
  pub undone : State

module _ (s : State) where
  unfoldable pub save_camera_change : Camera → Change
  save_camera_change c =
      let saved = insert c.id c s.cameras in
      record {
        changed = record s { cameras = saved };
        undone = record s { cameras = restore c.id (lookup c.id s.cameras) saved };
      }

  unfoldable pub delete_camera_change : Bytes → Change
  delete_camera_change id =
      let rest = delete id s.cameras in
      record {
        changed = record s { cameras = rest };
        undone = record s { cameras = restore_deleted id (lookup id s.cameras) rest };
      }

  unfoldable pub save_session_change : Session → Change
  save_session_change v =
      let saved = insert v.id v s.sessions in
      record {
        changed = record s { sessions = saved };
        undone = record s { sessions = restore v.id (lookup v.id s.sessions) saved };
      }

  unfoldable pub delete_session_change : Bytes → Change
  delete_session_change id =
      let rest = delete id s.sessions in
      record {
        changed = record s { sessions = rest };
        undone = record s { sessions = restore_deleted id (lookup id s.sessions) rest };
      }

  unfoldable pub prune_sessions_change : ℕ → Change
  prune_sessions_change now =
      let live = keep_entries (is_live now) s.sessions in
      let removed = keep_entries (λ v. not (is_live now v)) s.sessions in
      record {
        changed = record s { sessions = live };
        undone = record s { sessions = put_all removed live };
      }

  unfoldable pub save_upload_job_change : UploadJob → Change
  save_upload_job_change v =
      let saved = insert v.id v s.upload_queue in
      record {
        changed = record s { upload_queue = saved };
        undone = record s { upload_queue = restore v.id (lookup v.id s.upload_queue) saved };
      }

  unfoldable pub delete_upload_job_change : Bytes → Change
  delete_upload_job_change id =
      let rest = delete id s.upload_queue in
      record {
        changed = record s { upload_queue = rest };
        undone = record s { upload_queue = restore_deleted id (lookup id s.upload_queue) rest };
      }

  unfoldable pub save_sftp_profile_change : SftpProfile → Change
  save_sftp_profile_change v =
      let saved = insert v.id v s.sftp_profiles in
      record {
        changed = record s { sftp_profiles = saved };
        undone = record s { sftp_profiles = restore v.id (lookup v.id s.sftp_profiles) saved };
      }

  unfoldable pub delete_sftp_profile_change : Bytes → Change
  delete_sftp_profile_change id =
      let rest = delete id s.sftp_profiles in
      record {
        changed = record s { sftp_profiles = rest };
        undone = record s { sftp_profiles = restore_deleted id (lookup id s.sftp_profiles) rest };
      }

  unfoldable pub save_retention_change : RetentionPolicy → Change
  save_retention_change policy = record { changed = record s { retention = policy }; undone = s }

  unfoldable pub save_detection_event_change : DetectionEvent → Change
  save_detection_event_change v =
      let saved = insert v.id v s.events in
      record {
        changed = record s { events = saved };
        undone = record s { events = restore v.id (lookup v.id s.events) saved };
      }

  unfoldable pub delete_detection_events_change : List Bytes → Change
  delete_detection_events_change ids =
      let (rest, removed) = remove_ids ids s.events [] in
      record {
        changed = record s { events = rest };
        undone = record s { events = put_all removed rest };
      }

  unfoldable pub change : Command → Change
  unfolding save_camera_change delete_camera_change save_session_change delete_session_change
      prune_sessions_change save_upload_job_change delete_upload_job_change save_sftp_profile_change
      delete_sftp_profile_change save_retention_change save_detection_event_change
      delete_detection_events_change
  change (save_camera c) = save_camera_change c
  change (delete_camera id) = delete_camera_change id
  change (save_session v) = save_session_change v
  change (delete_session id) = delete_session_change id
  change (prune_sessions now) = prune_sessions_change now
  change (save_upload_job v) = save_upload_job_change v
  change (delete_upload_job id) = delete_upload_job_change id
  change (save_sftp_profile v) = save_sftp_profile_change v
  change (delete_sftp_profile id) = delete_sftp_profile_change id
  change (save_retention policy) = save_retention_change policy
  change (save_detection_event v) = save_detection_event_change v
  change (delete_detection_events ids) = delete_detection_events_change ids

abbrev pub is_empty : {A : Type 0} → List A → Bool
is_empty [] = true
is_empty (x ∷ xs) = false

-- The early returns: nothing expired, no ids, or none of the ids present. They write no file.
unfoldable pub is_idle : State → Command → Bool
is_idle s (prune_sessions now) = is_empty (keep_entries (λ v. not (is_live now v)) s.sessions)
is_idle s (delete_detection_events ids) = is_empty (remove_ids ids s.events []).1
is_idle s _ = false

abbrev pub settle : Change → Disk × Option StoreError → Store × Option StoreError
settle c (disk, none) = (record { content = c.changed; disk = disk }, none)
settle c (disk, some e) = (record { content = c.undone; disk = disk }, some e)

module _ (lib : Library) (key : Bytes) where
  unfoldable pub run : Answers → Command → Store → Store × Option StoreError
  run os c st =
      let ch = change st.content c in
      if is_idle st.content c then (st, none) else settle ch (persist lib key os ch.changed st.disk)

  -- A sequence of operations, each with what the system answers during it. Errors are the caller's.
  unfoldable pub run_all : List (Answers × Command) → Store → Store
  run_all [] st = st
  run_all ((os, c) ∷ rest) st = run_all rest (run os c st).0

-- `Session`: a session is found until its time has passed.
unfoldable pub session_of : ℕ → Option Session → Option Session
session_of now none = none
session_of now (some v) = if ltb v.expires_at now then none else some v

unfoldable pub session : ℕ → Bytes → State → Option Session
session now id s = session_of now (lookup id s.sessions)
