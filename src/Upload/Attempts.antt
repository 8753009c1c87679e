-- ===== src/Upload/Attempts.antt =====
-- internal/upload/uploader.go: what an attempt at a job comes to.
use mathlib.Core.Option
use fragata.Base.{
  ◌≡◌, refl, sym, subst, ◌∙◌, ◌⊎◌, inl, inr, Bool, not, Option, none, some, Bytes, Table, lookup,
  delete, lookup-insert, lookup-delete, split_if, split_option,
}
use fragata.Model.{UploadJob}
use fragata.Store.Disk.{StoreError, Library, Disk, persist}
use fragata.Store.Commands.{
  Store, Change, change, is_idle, settle, restore_deleted, delete_upload_job,
  delete_upload_job_change,
}
use fragata.Store.Commands
use fragata.Upload.{SftpConfig, Tools, UploadError, store_failed, profile_config}
use fragata.Upload.Transfer.{
  World, Replies, put_file, put_checksum, remote_matches, delete_job, complete, and_then, transfer,
  upload, process,
}
use fragata.Upload.Files.{bytes_eq-same, put_checksum-Keeps, Keeps, own-IsBeside}
use fragata.Upload.Whole.{IsWhole, Puts, put_file-Puts, Puts-IsWhole, remote_matches-there}

-- The queue has no such job any more, or after an error the same as before.
Deleted : Bytes → Table UploadJob → Store × Option StoreError → Type 0
Deleted id queue (st, none) = lookup id st.content.upload_queue ≡ none
Deleted id queue (st, some e) = lookup id st.content.upload_queue ≡ lookup id queue

restored :
    (id : Bytes) (queue : Table UploadJob) (o : Option UploadJob)
    → lookup id queue ≡ o
    → lookup id (restore_deleted id o (delete id queue)) ≡ lookup id queue
unfolding restore_deleted
restored id queue none e = lookup-delete id id queue ∙ rw (bytes_eq-same id) (sym e)
restored id queue (some job) e =
    lookup-insert id id job (delete id queue) ∙ rw (bytes_eq-same id) (sym e)

-- The recording is on the disk, or gone there and whole on the server.
abbrev pub IsSafe : Bytes → Bytes → Bytes → World → Type 0
IsSafe path local_path content w =
    (lookup local_path w.local ≡ some content)
    ⊎ ((lookup local_path w.local ≡ none) × (lookup path w.remote ≡ some content))

-- And the file on the server is never a part of it, nor another.
abbrev pub IsKept : Bytes → Bytes → Bytes → World → Type 0
IsKept path local_path content w = IsWhole path content w.remote × IsSafe path local_path content w

-- After a success the server has the file and the queue no job, and after an error the queue is as it was.
abbrev pub Ends : UploadJob → Bytes → Table UploadJob → World × Option UploadError → Type 0
Ends job content queue (w, none) =
    (lookup job.remote_path w.remote ≡ some content)
    × (lookup job.id w.store.content.upload_queue ≡ none)
Ends job content queue (w, some e) =
    lookup job.id w.store.content.upload_queue ≡ lookup job.id queue

module _ (lib : Library) (key : Bytes) (tools : Tools) (legacy : SftpConfig) (re : Replies) where
  delete-Deleted :
      (id : Bytes) (st : Store)
      → Deleted id st.content.upload_queue (Commands.run lib key re.os (delete_upload_job id) st)
  unfolding Deleted Commands.run is_idle change delete_upload_job_change
  delete-Deleted id st =
      settled (persist lib key re.os (change st.content (delete_upload_job id)).changed st.disk)
    where
      settled :
          (r : Disk × Option StoreError)
          → Deleted id st.content.upload_queue (settle (change st.content (delete_upload_job id)) r)
      settled (disk, none) =
          lookup-delete id id st.content.upload_queue ∙ rw (bytes_eq-same id) refl
      settled (disk, some e) =
          restored id st.content.upload_queue (lookup id st.content.upload_queue) refl

  -- What is said of the end of an attempt that finds the recording: how it ends, and that it is kept.
  abbrev Attempted : UploadJob → Bytes → Table UploadJob → World × Option UploadError → Type 0
  Attempted job content queue r =
      Ends job content queue r × IsKept job.remote_path job.local_path content r.0

  delete_job-Attempted :
      (job : UploadJob) (content : Bytes) (w : World)
      → lookup job.remote_path w.remote ≡ some content
      → IsSafe job.remote_path job.local_path content w
      → Attempted job content w.store.content.upload_queue
          (delete_job lib key tools legacy re job w)
  unfolding delete_job Deleted
  delete_job-Attempted job content w there safe =
      ended (Commands.run lib key re.os (delete_upload_job job.id) w.store)
        (delete-Deleted job.id w.store)
    where
      ended :
          (r : Store × Option StoreError)
          → Deleted job.id w.store.content.upload_queue r
          → Attempted job content w.store.content.upload_queue
              (record w { store = r.0 }, Option.map store_failed r.1)
      ended (st, none) gone = ((there, gone), (inr there, safe))
      ended (st, some e) same = (same, (inr there, safe))

  complete-Attempted :
      (job : UploadJob) (content : Bytes) (delete_local : Bool) (w : World)
      → lookup job.remote_path w.remote ≡ some content
      → IsSafe job.remote_path job.local_path content w
      → Attempted job content w.store.content.upload_queue
          (complete lib key tools legacy re job delete_local w)
  unfolding complete
  complete-Attempted job content delete_local w there safe =
      let Good = Attempted job content w.store.content.upload_queue in
      let cleaned = record w { local = delete job.local_path w.local } in
      let gone : lookup job.local_path cleaned.local ≡ none =
        lookup-delete job.local_path job.local_path w.local
        ∙ rw (bytes_eq-same job.local_path) refl in
      split_if Good (not delete_local) _ _ (λ e. delete_job-Attempted job content w there safe)
        (λ e.
          split_option Good (lookup job.local_path w.local) _ _
            (λ e. delete_job-Attempted job content w there safe)
            (λ c e.
              split_if Good re.remove_local_ok _ _
                (λ e. delete_job-Attempted job content cleaned there (inr (gone, there)))
                (λ e. (refl, (inr there, safe)))))

  put_checksum-Attempted :
      (job : UploadJob) (content : Bytes) (delete_local : Bool) (w : World)
      → lookup job.remote_path w.remote ≡ some content
      → lookup job.local_path w.local ≡ some content
      → Attempted job content w.store.content.upload_queue (
          and_then lib key tools legacy w
            (put_checksum tools re job w.remote)
            (λ w'. complete lib key tools legacy re job delete_local w'))
  put_checksum-Attempted job content delete_local w there here =
      after (put_checksum tools re job w.remote)
        (put_checksum-Keeps re job job.remote_path (own-IsBeside job.remote_path) tools w.remote)
    where
      after :
          (r : Table Bytes × Option UploadError)
          → Keeps job.remote_path w.remote r
          → Attempted job content w.store.content.upload_queue (
              and_then lib key tools legacy w r
                (λ w'. complete lib key tools legacy re job delete_local w'))
      after (files, none) kept =
          complete-Attempted job content delete_local (record w { remote = files }) (kept ∙ there)
            (inl here)
      after (files, some e) kept = (refl, (inr (kept ∙ there), inl here))

  transfer-Attempted :
      (job : UploadJob) (content : Bytes) (delete_local : Bool) (w : World)
      → IsWhole job.remote_path content w.remote
      → lookup job.local_path w.local ≡ some content
      → Attempted job content w.store.content.upload_queue
          (transfer lib key tools legacy re job content delete_local w)
  unfolding transfer
  transfer-Attempted job content delete_local w whole here =
      after (put_file re job content w.remote) (put_file-Puts re job content w.remote)
    where
      after :
          (r : Table Bytes × Option UploadError)
          → Puts job.remote_path content w.remote r
          → Attempted job content w.store.content.upload_queue (
              and_then lib key tools legacy w r (λ w'.
                and_then lib key tools legacy w'
                  (put_checksum tools re job w'.remote)
                  (λ w''. complete lib key tools legacy re job delete_local w'')))
      after (files, none) there =
          put_checksum-Attempted job content delete_local (record w { remote = files }) there here
      after (files, some e) put = (
        refl,
        (Puts-IsWhole job.remote_path content w.remote (files, some e) whole put, inl here),
      )

  upload-Attempted :
      (job : UploadJob) (content : Bytes) (delete_local : Bool) (w : World)
      → IsWhole job.remote_path content w.remote
      → lookup job.local_path w.local ≡ some content
      → Attempted job content w.store.content.upload_queue
          (upload lib key tools legacy re job content delete_local w)
  unfolding upload
  upload-Attempted job content delete_local w whole here =
      let Good = Attempted job content w.store.content.upload_queue in
      let hashed = record job { sha256 = tools.sha256 content } in
      split_if Good (not re.read_local_ok) _ _ (λ e. (refl, (whole, inl here)))
        (λ e.
          split_if Good (not re.seek_ok) _ _ (λ e. (refl, (whole, inl here)))
            (λ e.
              split_if Good (not re.connect_ok) _ _ (λ e. (refl, (whole, inl here)))
                (λ e.
                  split_if Good (remote_matches tools re hashed w.remote) _ _
                    (λ e.
                      complete-Attempted hashed content delete_local w
                        (remote_matches-there tools re hashed content w.remote whole e) (inl here))
                    (λ e. transfer-Attempted hashed content delete_local w whole here))))

  -- An attempt at a job whose recording is on the disk, with a server that has the recording whole under
  -- the job's path or nothing there, whatever call fails: without an error the server has exactly the
  -- recording and the job has left the queue; with an error the job is in the queue as before, and the
  -- recording is still on the disk, or whole on the server. A part of it never gets its name.
  pub process-Ends :
      (job : UploadJob) (content : Bytes) (w : World)
      → IsWhole job.remote_path content w.remote
      → lookup job.local_path w.local ≡ some content
      → Ends job content w.store.content.upload_queue (process lib key tools legacy re job w)
        × IsKept job.remote_path job.local_path content (process lib key tools legacy re job w).0
  unfolding process
  process-Ends job content w whole here =
      let Good = Attempted job content w.store.content.upload_queue in
      split_if Good re.is_cancelled _ _ (λ e. (refl, (whole, inl here)))
        (λ e.
          split_option Good (profile_config tools legacy w.store.content job.sftp_profile_id) _ _
            (λ e. (refl, (whole, inl here)))
            (λ cfg e.
              split_option Good (lookup job.local_path w.local) _ _ (λ missing. absurd (cc))
                (λ c found.
                  split_if Good re.open_local_ok _ _
                    (λ e.
                      let same : c ≡ content = cc in
                      subst (λ x. Good (upload lib key tools legacy re job x cfg.delete_local w))
                        (sym same) (upload-Attempted job content cfg.delete_local w whole here))
                    (λ e. (refl, (whole, inl here))))))
