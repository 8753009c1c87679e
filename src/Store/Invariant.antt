-- ===== src/Store/Invariant.antt =====
-- The maps of internal/store/store.go, and its sessions.
use fragata.Base.{
  ℕ, ◌≡◌, ◌<◌, refl, inl, inr, List, [], ◌∷◌, Option, none, some, Bytes, arith, Table, lookup,
  insert, delete, not, IsMap, insert-IsMap, delete-IsMap, keep_entries, keep_entries-IsMap,
  put_all-IsMap, lookup-keep_entries, value_if, Bool-cases, Option-cases,
}
use fragata.Model.{State, Session}
use fragata.Store.Disk.{StoreError, Library, Disk, Answers}
use fragata.Store.Commands.{
  Store, Command, save_camera, delete_camera, save_session, delete_session, prune_sessions,
  save_upload_job, delete_upload_job, save_sftp_profile, delete_sftp_profile, save_retention,
  save_detection_event, delete_detection_events, restore, restore_deleted, remove_ids, is_live,
  Change, change, settle, is_idle, run, run_all, session, session_of,
}
use fragata.Store.Undo.{HasMaps}

module _ {V : Type 0} where
  restore-IsMap : (id : Bytes) (o : Option V) (t : Table V) → IsMap t → IsMap (restore id o t)
  unfolding restore
  restore-IsMap id none t h = delete-IsMap id t h
  restore-IsMap id (some v) t h = insert-IsMap id v t h

  restore_deleted-IsMap :
      (id : Bytes) (o : Option V) (t : Table V) → IsMap t → IsMap (restore_deleted id o t)
  unfolding restore_deleted
  restore_deleted-IsMap id none t h = h
  restore_deleted-IsMap id (some v) t h = insert-IsMap id v t h

  remove_ids-IsMap : (ids : List Bytes) (t r : Table V) → IsMap t → IsMap (remove_ids ids t r).0
  unfolding remove_ids
  remove_ids-IsMap [] t r m = m
  remove_ids-IsMap (id ∷ ids) t r m = elim (Option-cases (lookup id t)) [
    | inl e ↦ rw (e, remove_ids) (remove_ids-IsMap ids t r m)
    | inr (v, e) ↦
        rw (e, remove_ids)
          (remove_ids-IsMap ids (delete id t) (insert id v r) (delete-IsMap id t m))
  ]

record BothHaveMaps (c : Change) : Type 0 where
  changed : HasMaps c.changed
  undone : HasMaps c.undone

change-HasMaps : (s : State) (c : Command) → HasMaps s → BothHaveMaps (change s c)
unfolding change
change-HasMaps s (save_camera v) h =
    let saved = insert-IsMap v.id v s.cameras h.cameras in
    record {
      changed = assumption saved;
      undone = assumption (restore-IsMap v.id (lookup v.id s.cameras) _ saved);
    }
change-HasMaps s (delete_camera id) h =
    let rest = delete-IsMap id s.cameras h.cameras in
    record {
      changed = assumption rest;
      undone = assumption (restore_deleted-IsMap id (lookup id s.cameras) _ rest);
    }
change-HasMaps s (save_session v) h =
    let saved = insert-IsMap v.id v s.sessions h.sessions in
    record {
      changed = assumption saved;
      undone = assumption (restore-IsMap v.id (lookup v.id s.sessions) _ saved);
    }
change-HasMaps s (delete_session id) h =
    let rest = delete-IsMap id s.sessions h.sessions in
    record {
      changed = assumption rest;
      undone = assumption (restore_deleted-IsMap id (lookup id s.sessions) _ rest);
    }
change-HasMaps s (prune_sessions now) h =
    let live = keep_entries-IsMap (is_live now) s.sessions h.sessions in
    record {
      changed = assumption live;
      undone =
          assumption (put_all-IsMap (keep_entries (λ v. not (is_live now v)) s.sessions) _ live);
    }
change-HasMaps s (save_upload_job v) h =
    let saved = insert-IsMap v.id v s.upload_queue h.upload_queue in
    record {
      changed = assumption saved;
      undone = assumption (restore-IsMap v.id (lookup v.id s.upload_queue) _ saved);
    }
change-HasMaps s (delete_upload_job id) h =
    let rest = delete-IsMap id s.upload_queue h.upload_queue in
    record {
      changed = assumption rest;
      undone = assumption (restore_deleted-IsMap id (lookup id s.upload_queue) _ rest);
    }
change-HasMaps s (save_sftp_profile v) h =
    let saved = insert-IsMap v.id v s.sftp_profiles h.sftp_profiles in
    record {
      changed = assumption saved;
      undone = assumption (restore-IsMap v.id (lookup v.id s.sftp_profiles) _ saved);
    }
change-HasMaps s (delete_sftp_profile id) h =
    let rest = delete-IsMap id s.sftp_profiles h.sftp_profiles in
    record {
      changed = assumption rest;
      undone = assumption (restore_deleted-IsMap id (lookup id s.sftp_profiles) _ rest);
    }
change-HasMaps s (save_retention policy) h = record { changed = assumption; undone = h }
change-HasMaps s (save_detection_event v) h =
    let saved = insert-IsMap v.id v s.events h.events in
    record {
      changed = assumption saved;
      undone = assumption (restore-IsMap v.id (lookup v.id s.events) _ saved);
    }
change-HasMaps s (delete_detection_events ids) h =
    let rest = remove_ids-IsMap ids s.events [] h.events in
    record {
      changed = assumption rest;
      undone = assumption (put_all-IsMap (remove_ids ids s.events []).1 _ rest);
    }

settle-HasMaps :
    (c : Change) (r : Disk × Option StoreError) → BothHaveMaps c → HasMaps (settle c r).0.content
settle-HasMaps c (disk, none) h = h.changed
settle-HasMaps c (disk, some e) h = h.undone

module _ (lib : Library) (key : Bytes) where
  pub run-HasMaps :
      (os : Answers) (c : Command) (st : Store)
      → HasMaps st.content
      → HasMaps (run lib key os c st).0.content
  unfolding run
  run-HasMaps os c st h = elim (Bool-cases (is_idle st.content c)) [
    | inl e ↦ rw e h
    | inr e ↦ rw e (settle-HasMaps _ _ (change-HasMaps st.content c h))
  ]

  -- No sequence of operations, with whatever failures among them, stores two entries under one key.
  pub run_all-HasMaps :
      (steps : List (Answers × Command)) (st : Store)
      → HasMaps st.content
      → HasMaps (run_all lib key steps st).content
  unfolding run_all
  run_all-HasMaps [] st h = h
  run_all-HasMaps ((os, c) ∷ rest) st h =
      run_all-HasMaps rest (run lib key os c st).0 (run-HasMaps os c st h)

session_of-pruned :
    (now later : ℕ) (o : Option Session)
    → now < later
    → session_of later (value_if (is_live now) o) ≡ session_of later o
unfolding session_of
session_of-pruned now later none h = refl
session_of-pruned now later (some v) h = ground arith

-- Pruning at one time does not change which sessions are found at any later one.
pub session-prune :
    (now later : ℕ) (id : Bytes) (s : State)
    → HasMaps s
    → now < later
    → session later id (change s (prune_sessions now)).changed ≡ session later id s
unfolding session change
session-prune now later id s h lt =
    rw (lookup-keep_entries (is_live now) id s.sessions h.sessions)
      (session_of-pruned now later (lookup id s.sessions) lt)
