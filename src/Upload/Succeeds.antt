-- ===== src/Upload/Succeeds.antt =====
-- internal/upload/uploader.go: an attempt during which no call fails.
use mathlib.Core.Option
use fragata.Base.{
  pos, ℕ, ◌≡◌, refl, sym, ap, subst, ◌∙◌, Bool, true, false, not, ◌++◌, codes, Option, none, some,
  Bytes, bytes_eq, Table, lookup, insert, length, ==_iff, split_if, split_option,
}
use fragata.Model.{UploadJob}
use fragata.Store.Disk.{Library, Answers}
use fragata.Store.Commands.{Store, delete_upload_job}
use fragata.Store.Commands
use fragata.Upload.{
  SftpConfig, Tools, UploadError, rename_failed, checksum_rename_failed, store_failed,
  profile_config,
}
use fragata.Upload.Transfer.{
  World, Replies, is_size, remove_file, rename_file, partial_path, checksum_path, renamed_or,
  confirmed, put_file, put_checksum, remote_matches, delete_job, complete, and_then, transfer,
  upload, process,
}
use fragata.Upload.Files.{own-IsBeside, lookup-remove_file, lookup-put_same, rename_file-renamed}
use fragata.Upload.Whole.{differs-sym}

-- Every call succeeds.
abbrev pub smooth : Answers → Replies
smooth os = record {
  is_cancelled = false;
  open_local_ok = true;
  read_local_ok = true;
  seek_ok = true;
  connect_ok = true;
  stat_ok = true;
  open_checksum_ok = true;
  read_checksum_ok = true;
  mkdir_ok = true;
  remove_partial_ok = true;
  open_ok = true;
  copy_ok = true;
  copied = 0;
  close_ok = true;
  stat_partial_ok = true;
  remove_ok = true;
  rename_ok = true;
  remove_checksum_partial_ok = true;
  create_ok = true;
  write_checksum_ok = true;
  checksum_copied = 0;
  close_checksum_ok = true;
  remove_checksum_ok = true;
  rename_checksum_ok = true;
  remove_local_ok = true;
  os = os;
}

abbrev Works : Table Bytes × Option UploadError → Type 0
Works (files, e) = e ≡ none

rename_file-Works :
    (e : UploadError) (from to content : Bytes) (files : Table Bytes)
    → lookup from files ≡ some content
    → Works (renamed_or e files (rename_file true from to files))
rename_file-Works e from to content files s =
    subst (λ o. Works (renamed_or e files o))
      (sym (rename_file-renamed true from to files (some content) s)) refl

is_size-length : (n : ℕ) → is_size (pos n) n ≡ true
unfolding is_size
is_size-length n = (==_iff n n).1 refl

-- A file that was just written is there after another was removed.
still_there :
    (path removed content : Bytes) (files : Table Bytes)
    → bytes_eq removed path ≡ false
    → lookup path (remove_file true removed (insert path content files)) ≡ some content
still_there path removed content files e =
    lookup-remove_file true removed path (insert path content files) e
    ∙ lookup-put_same path content files

module _ (os : Answers) (job : UploadJob) where
  put_file-Works :
      (content : Bytes) (files : Table Bytes)
      → job.size ≡ pos (length content)
      → Works (put_file (smooth os) job content files)
  unfolding put_file
  put_file-Works content files size =
      let path = job.remote_path in
      let partial = partial_path path in
      let cleared = remove_file true partial files in
      let filled = insert partial content cleared in
      let fits : is_size job.size (length content) ≡ true =
        ap (λ n. is_size n (length content)) size ∙ is_size-length (length content) in
      let seen : confirmed true job.size (lookup partial filled) ≡ true =
        ap (confirmed true job.size) (lookup-put_same partial content cleared) ∙ fits in
      split_if Works (not (is_size job.size (length content))) _ _ (λ e. absurd (cc (e, fits)))
        (λ e.
          split_if Works (not (confirmed true job.size (lookup partial filled))) _ _
            (λ e. absurd (cc (e, seen)))
            (λ e.
              rename_file-Works rename_failed partial path content (remove_file true path filled) (
                still_there partial path content cleared
                  (differs-sym partial path (own-IsBeside path).partial))))

  put_checksum-Works :
      (tools : Tools) (files : Table Bytes) → Works (put_checksum tools (smooth os) job files)
  unfolding put_checksum
  put_checksum-Works tools files =
      let checksum = checksum_path job.remote_path in
      let partial = partial_path checksum in
      let line = job.sha256 ++ codes "  " ++ tools.base job.remote_path ++ codes "\n" in
      let cleared = remove_file true partial files in
      let filled = insert partial line cleared in
      rename_file-Works checksum_rename_failed partial checksum line
        (remove_file true checksum filled)
        (still_there partial checksum line cleared
          (differs-sym partial checksum (own-IsBeside checksum).partial))

module _ (lib : Library) (key : Bytes) (tools : Tools) (legacy : SftpConfig) (os : Answers) where
  abbrev Done : World × Option UploadError → Type 0
  Done (w, e) = e ≡ none

  -- The store will delete the job.
  abbrev CanDelete : UploadJob → World → Type 0
  CanDelete job w = (Commands.run lib key os (delete_upload_job job.id) w.store).1 ≡ none

  complete-Done :
      (job : UploadJob) (delete_local : Bool) (w : World)
      → CanDelete job w
      → Done (complete lib key tools legacy (smooth os) job delete_local w)
  unfolding complete delete_job
  complete-Done job delete_local w can =
      let deleted : Option.map store_failed
            (Commands.run lib key os (delete_upload_job job.id) w.store).1
          ≡ none =
        ap (Option.map store_failed) can in
      split_if Done (not delete_local) _ _ (λ e. deleted)
        (λ e. split_option Done (lookup job.local_path w.local) _ _ (λ e. deleted) (λ c e. deleted))

  and_then-Done :
      (w : World) (r : Table Bytes × Option UploadError) (next : World → World × Option UploadError)
      → Works r
      → ((files : Table Bytes) → Done (next (record w { remote = files })))
      → Done (and_then lib key tools legacy w r next)
  and_then-Done w (files, none) next works h = h files
  and_then-Done w (files, some e) next works h = absurd (cc)

  upload-Done :
      (job : UploadJob) (content : Bytes) (delete_local : Bool) (w : World)
      → job.size ≡ pos (length content)
      → CanDelete job w
      → Done (upload lib key tools legacy (smooth os) job content delete_local w)
  unfolding upload transfer
  upload-Done job content delete_local w size can =
      let hashed = record job { sha256 = tools.sha256 content } in
      split_if Done (remote_matches tools (smooth os) hashed w.remote) _ _
        (λ e. complete-Done hashed delete_local w can)
        (λ e.
          and_then-Done w (put_file (smooth os) hashed content w.remote) _
            (put_file-Works os hashed content w.remote size)
            (λ files.
              and_then-Done (record w { remote = files })
                (put_checksum tools (smooth os) hashed files) _
                (put_checksum-Works os hashed tools files)
                (λ files'. complete-Done hashed delete_local (record w { remote = files' }) can)))

  -- An attempt at a job with a valid profile, whose recording has the size it was queued with, ends
  -- without an error when no call of the server, the disk or the store fails.
  pub process-Done :
      (job : UploadJob) (cfg : SftpConfig) (content : Bytes) (w : World)
      → profile_config tools legacy w.store.content job.sftp_profile_id ≡ some cfg
      → lookup job.local_path w.local ≡ some content
      → job.size ≡ pos (length content)
      → (Commands.run lib key os (delete_upload_job job.id) w.store).1 ≡ none
      → (process lib key tools legacy (smooth os) job w).1 ≡ none
  unfolding process
  process-Done job cfg content w valid here size can =
      split_option Done (profile_config tools legacy w.store.content job.sftp_profile_id) _ _
        (λ e. absurd (cc))
        (λ cfg' e.
          split_option Done (lookup job.local_path w.local) _ _ (λ e. absurd (cc))
            (λ c e.
              let same : c ≡ content = cc in
              upload-Done job c cfg'.delete_local w (size ∙ ap (λ x. pos (length x)) (sym same))
                can))
