-- ===== src/Store/Undo.antt =====
-- What the operations of internal/store/store.go put back after a failed write.
use fragata.Base.{
  ◌≡◌, refl, ◌∙◌, inl, inr, Bool, List, [], ◌∷◌, Option, none, some, Bytes, arith, bytes_eq_iff,
  Table, lookup, insert, delete, lookup-insert, lookup-delete, keep_entries, put_all, not,
  SameTable, IsMap, insert-IsMap, delete-IsMap, keep_entries-IsMap, lookup-keep_entries,
  lookup-put_all, first_some, Option-cases,
}
use fragata.Model.{State, Camera, Session, UploadJob, SftpProfile, DetectionEvent}
use fragata.Store.Commands.{
  Command, save_camera, delete_camera, save_session, delete_session, prune_sessions,
  save_upload_job, delete_upload_job, save_sftp_profile, delete_sftp_profile, save_retention,
  save_detection_event, delete_detection_events, restore, restore_deleted, remove_ids, is_live,
  change,
}

-- States that hold the same entries.
pub record SameState (s t : State) : Type 0 where
  pub version : s.version ≡ t.version
  pub cameras : SameTable s.cameras t.cameras
  pub sessions : SameTable s.sessions t.sessions
  pub upload_queue : SameTable s.upload_queue t.upload_queue
  pub sftp_profiles : SameTable s.sftp_profiles t.sftp_profiles
  pub retention : s.retention ≡ t.retention
  pub events : SameTable s.events t.events

pub SameState-refl : (s : State) → SameState s s
SameState-refl s = record {
  version = refl;
  cameras = λ j. refl;
  sessions = λ j. refl;
  upload_queue = λ j. refl;
  sftp_profiles = λ j. refl;
  retention = refl;
  events = λ j. refl;
}

pub record HasMaps (s : State) : Type 0 where
  pub cameras : IsMap s.cameras
  pub sessions : IsMap s.sessions
  pub upload_queue : IsMap s.upload_queue
  pub sftp_profiles : IsMap s.sftp_profiles
  pub events : IsMap s.events

module _ {V : Type 0} where
  restore-insert :
      (id : Bytes) (v : V) (t : Table V) (o : Option V)
      → lookup id t ≡ o
      → SameTable (restore id o (insert id v t)) t
  unfolding restore
  restore-insert id v t none e j =
      ground (arith, lookup-delete id j (insert id v t), lookup-insert id j v t, bytes_eq_iff id j)
  restore-insert id v t (some w) e j =
      ground
        (arith, lookup-insert id j w (insert id v t), lookup-insert id j v t, bytes_eq_iff id j)

  restore-delete :
      (id : Bytes) (t : Table V) (o : Option V)
      → lookup id t ≡ o
      → SameTable (restore_deleted id o (delete id t)) t
  unfolding restore_deleted
  restore-delete id t none e j = ground (arith, lookup-delete id j t, bytes_eq_iff id j)
  restore-delete id t (some w) e j =
      ground (arith, lookup-insert id j w (delete id t), lookup-delete id j t, bytes_eq_iff id j)

  put_all-keep :
      (p : V → Bool) (t : Table V)
      → IsMap t
      → SameTable (put_all (keep_entries (λ v. not (p v)) t) (keep_entries p t)) t
  put_all-keep p t h j = ground (
    arith,
    lookup-put_all j (keep_entries (λ v. not (p v)) t) (keep_entries p t)
        (keep_entries-IsMap (λ v. not (p v)) t h),
    lookup-keep_entries p j t h,
    lookup-keep_entries (λ v. not (p v)) j t h,
  )

  abbrev Apart : Table V → Table V → Type 0
  Apart t r = (j : Bytes) (v : V) → lookup j t ≡ some v → lookup j r ≡ none

  record SplitOff (t r : Table V) (p : Table V × Table V) : Type 0 where
    rest : IsMap p.0
    removed : IsMap p.1
    same :
        (j : Bytes)
        → first_some (lookup j p.1) (lookup j p.0) ≡ first_some (lookup j r) (lookup j t)

  move-Apart :
      (id : Bytes) (v : V) (t r : Table V) → Apart t r → Apart (delete id t) (insert id v r)
  move-Apart id v t r a j w e = ground (arith, lookup-delete id j t, lookup-insert id j v r, a j w)

  move-same :
      (id j : Bytes) (v : V) (t r : Table V)
      → Apart t r
      → lookup id t ≡ some v
      → first_some (lookup j (insert id v r)) (lookup j (delete id t))
        ≡ first_some (lookup j r) (lookup j t)
  move-same id j v t r a e =
      ground (arith, lookup-delete id j t, lookup-insert id j v r, bytes_eq_iff id j, a id v e)

  remove_ids-SplitOff :
      (ids : List Bytes) (t r : Table V)
      → IsMap t
      → IsMap r
      → Apart t r
      → SplitOff t r (remove_ids ids t r)
  unfolding remove_ids
  remove_ids-SplitOff [] t r m n a = record { rest = m; removed = n; same = λ j. refl }
  remove_ids-SplitOff (id ∷ ids) t r m n a = elim (Option-cases (lookup id t)) [
    | inl e ↦ rw (e, remove_ids) (remove_ids-SplitOff ids t r m n a)
    | inr (v, e) ↦
        let s =
          remove_ids-SplitOff ids (delete id t) (insert id v r) (delete-IsMap id t m)
            (insert-IsMap id v r n) (move-Apart id v t r a) in
        rw (e, remove_ids)
          (record {
            rest = s.rest;
            removed = s.removed;
            same = λ j. s.same j ∙ move-same id j v t r a e;
          })
  ]

  put_all-remove_ids :
      (ids : List Bytes) (t : Table V)
      → IsMap t
      → SameTable (put_all (remove_ids ids t []).1 (remove_ids ids t []).0) t
  unfolding lookup
  put_all-remove_ids ids t m j =
      let s = remove_ids-SplitOff ids t [] m tt (λ i v e. refl) in
      lookup-put_all j (remove_ids ids t []).1 (remove_ids ids t []).0 s.removed ∙ s.same j

-- A state whose one map holds the same entries.
module _ (s : State) where
  cameras-SameState :
      (t : Table Camera) → SameTable t s.cameras → SameState (record s { cameras = t }) s
  cameras-SameState t e = record {
    version = refl;
    cameras = e;
    sessions = λ j. refl;
    upload_queue = λ j. refl;
    sftp_profiles = λ j. refl;
    retention = refl;
    events = λ j. refl;
  }

  sessions-SameState :
      (t : Table Session) → SameTable t s.sessions → SameState (record s { sessions = t }) s
  sessions-SameState t e = record {
    version = refl;
    cameras = λ j. refl;
    sessions = e;
    upload_queue = λ j. refl;
    sftp_profiles = λ j. refl;
    retention = refl;
    events = λ j. refl;
  }

  upload_queue-SameState :
      (t : Table UploadJob)
      → SameTable t s.upload_queue
      → SameState (record s { upload_queue = t }) s
  upload_queue-SameState t e = record {
    version = refl;
    cameras = λ j. refl;
    sessions = λ j. refl;
    upload_queue = e;
    sftp_profiles = λ j. refl;
    retention = refl;
    events = λ j. refl;
  }

  sftp_profiles-SameState :
      (t : Table SftpProfile)
      → SameTable t s.sftp_profiles
      → SameState (record s { sftp_profiles = t }) s
  sftp_profiles-SameState t e = record {
    version = refl;
    cameras = λ j. refl;
    sessions = λ j. refl;
    upload_queue = λ j. refl;
    sftp_profiles = e;
    retention = refl;
    events = λ j. refl;
  }

  events-SameState :
      (t : Table DetectionEvent) → SameTable t s.events → SameState (record s { events = t }) s
  events-SameState t e = record {
    version = refl;
    cameras = λ j. refl;
    sessions = λ j. refl;
    upload_queue = λ j. refl;
    sftp_profiles = λ j. refl;
    retention = refl;
    events = e;
  }

-- What each operation puts back is what was there.
pub undone-SameState : (s : State) (c : Command) → HasMaps s → SameState (change s c).undone s
unfolding change
undone-SameState s (save_camera c) h =
    cameras-SameState s _ (restore-insert c.id c s.cameras _ refl)
undone-SameState s (delete_camera id) h = cameras-SameState s _ (restore-delete id s.cameras _ refl)
undone-SameState s (save_session v) h =
    sessions-SameState s _ (restore-insert v.id v s.sessions _ refl)
undone-SameState s (delete_session id) h =
    sessions-SameState s _ (restore-delete id s.sessions _ refl)
undone-SameState s (prune_sessions now) h =
    sessions-SameState s _ (put_all-keep (is_live now) s.sessions h.sessions)
undone-SameState s (save_upload_job v) h =
    upload_queue-SameState s _ (restore-insert v.id v s.upload_queue _ refl)
undone-SameState s (delete_upload_job id) h =
    upload_queue-SameState s _ (restore-delete id s.upload_queue _ refl)
undone-SameState s (save_sftp_profile v) h =
    sftp_profiles-SameState s _ (restore-insert v.id v s.sftp_profiles _ refl)
undone-SameState s (delete_sftp_profile id) h =
    sftp_profiles-SameState s _ (restore-delete id s.sftp_profiles _ refl)
undone-SameState s (save_retention policy) h = SameState-refl s
undone-SameState s (save_detection_event v) h =
    events-SameState s _ (restore-insert v.id v s.events _ refl)
undone-SameState s (delete_detection_events ids) h =
    events-SameState s _ (put_all-remove_ids ids s.events h.events)
