-- ===== src/Upload/Series.antt =====
-- internal/upload/uploader.go: many attempts, at one job and at others.
use fragata.Base.{
  ◌≡◌, refl, sym, subst, ◌∙◌, ◌⊎◌, inl, inr, Bool, false, not, List, [], ◌∷◌, Option, none, some,
  Bytes, bytes_eq, Table, lookup, lookup-delete, split_if, split_option, All,
}
use fragata.Model.{UploadJob}
use fragata.Store.Disk.{Library}
use fragata.Store.Commands.{Store}
use fragata.Upload.{SftpConfig, Tools, UploadError, profile_config}
use fragata.Upload.Transfer.{
  World, Replies, put_file, put_checksum, remote_matches, delete_job, complete, and_then, transfer,
  upload, process,
}
use fragata.Upload.Files.{put_file-Keeps, put_checksum-Keeps, Keeps, IsBeside}
use fragata.Upload.Attempts.{IsKept, process-Ends}

-- A job that writes none of its files at the first path and does not record to the second.
pub record IsApart (path local_path : Bytes) (job : UploadJob) : Type 0 where
  pub remote : bytes_eq job.remote_path path ≡ false
  pub beside : IsBeside job.remote_path path
  pub local : bytes_eq job.local_path local_path ≡ false

-- The files at the two paths are as they were.
abbrev Untouched : Bytes → Bytes → World → World × Option UploadError → Type 0
Untouched path local_path w (w', e) =
    (lookup path w'.remote ≡ lookup path w.remote)
    × (lookup local_path w'.local ≡ lookup local_path w.local)

module _ (lib : Library) (key : Bytes) (tools : Tools) (legacy : SftpConfig) where
  module _ (re : Replies) (path local_path : Bytes) (job : UploadJob)
      (apart : IsApart path local_path job) where
    complete-Untouched :
        (delete_local : Bool) (w : World)
        → Untouched path local_path w (complete lib key tools legacy re job delete_local w)
    unfolding complete delete_job
    complete-Untouched delete_local w =
        let Good = Untouched path local_path w in
        split_if Good (not delete_local) _ _ (λ e. (refl, refl))
          (λ e.
            split_option Good (lookup job.local_path w.local) _ _ (λ e. (refl, refl))
              (λ c e.
                split_if Good re.remove_local_ok _ _
                  (λ e.
                    (refl, lookup-delete job.local_path local_path w.local ∙ rw apart.local refl))
                  (λ e. (refl, refl))))

    -- What follows leaves the files alone that the step before it has left alone.
    Untouched-trans :
        (w w' : World) (r : World × Option UploadError)
        → lookup path w'.remote ≡ lookup path w.remote
        → lookup local_path w'.local ≡ lookup local_path w.local
        → Untouched path local_path w' r
        → Untouched path local_path w r
    Untouched-trans w w' (w'', e) remote local h = (h.0 ∙ remote, h.1 ∙ local)

    and_then-Untouched :
        (w : World) (r : Table Bytes × Option UploadError)
        (next : World → World × Option UploadError)
        → Keeps path w.remote r
        → ((w' : World) → Untouched path local_path w' (next w'))
        → Untouched path local_path w (and_then lib key tools legacy w r next)
    and_then-Untouched w (files, none) next kept h =
        let w' = record w { remote = files } in Untouched-trans w w' (next w') kept refl (h w')
    and_then-Untouched w (files, some e) next kept h = (kept, refl)

    transfer-Untouched :
        (content : Bytes) (delete_local : Bool) (w : World)
        → Untouched path local_path w (transfer lib key tools legacy re job content delete_local w)
    unfolding transfer
    transfer-Untouched content delete_local w =
        and_then-Untouched w (put_file re job content w.remote) _
          (put_file-Keeps re job path apart.beside content w.remote apart.remote)
          (λ w'.
            and_then-Untouched w' (put_checksum tools re job w'.remote) _
              (put_checksum-Keeps re job path apart.beside tools w'.remote)
              (λ w''. complete-Untouched delete_local w''))

  upload-Untouched :
      (re : Replies) (path local_path : Bytes) (job : UploadJob)
      (apart : IsApart path local_path job) (content : Bytes) (delete_local : Bool) (w : World)
      → Untouched path local_path w (upload lib key tools legacy re job content delete_local w)
  unfolding upload
  upload-Untouched re path local_path job apart content delete_local w =
      let Good = Untouched path local_path w in
      let hashed = record job { sha256 = tools.sha256 content } in
      let apart' : IsApart path local_path hashed = record {
        remote = apart.remote;
        beside = apart.beside;
        local = apart.local;
      } in
      split_if Good (not re.read_local_ok) _ _ (λ e. (refl, refl))
        (λ e.
          split_if Good (not re.seek_ok) _ _ (λ e. (refl, refl))
            (λ e.
              split_if Good (not re.connect_ok) _ _ (λ e. (refl, refl))
                (λ e.
                  split_if Good (remote_matches tools re hashed w.remote) _ _
                    (λ e. complete-Untouched re path local_path hashed apart' delete_local w)
                    (λ e.
                      transfer-Untouched re path local_path hashed apart' content delete_local w))))

  process-Untouched :
      (re : Replies) (path local_path : Bytes) (job : UploadJob)
      → IsApart path local_path job
      → (w : World) → Untouched path local_path w (process lib key tools legacy re job w)
  unfolding process delete_job
  process-Untouched re path local_path job apart w =
      let Good = Untouched path local_path w in
      split_if Good re.is_cancelled _ _ (λ e. (refl, refl))
        (λ e.
          split_option Good (profile_config tools legacy w.store.content job.sftp_profile_id) _ _
            (λ e. (refl, refl))
            (λ cfg e.
              split_option Good (lookup job.local_path w.local) _ _ (λ e. (refl, refl))
                (λ c e.
                  split_if Good re.open_local_ok _ _
                    (λ e. upload-Untouched re path local_path job apart c cfg.delete_local w)
                    (λ e. (refl, refl)))))

  -- Where the recording is gone from the disk, an attempt at its job changes no file.
  process-missing :
      (re : Replies) (job : UploadJob) (w : World)
      → lookup job.local_path w.local ≡ none
      → Untouched job.remote_path job.local_path w (process lib key tools legacy re job w)
  unfolding process delete_job
  process-missing re job w missing =
      let Good = Untouched job.remote_path job.local_path w in
      split_if Good re.is_cancelled _ _ (λ e. (refl, refl))
        (λ e.
          split_option Good (profile_config tools legacy w.store.content job.sftp_profile_id) _ _
            (λ e. (refl, refl))
            (λ cfg e.
              split_option Good (lookup job.local_path w.local) _ _ (λ e. (refl, refl))
                (λ c e. absurd (cc))))

  Untouched-IsKept :
      (path local_path content : Bytes) (w : World) (r : World × Option UploadError)
      → Untouched path local_path w r
      → IsKept path local_path content w
      → IsKept path local_path content r.0
  Untouched-IsKept path local_path content w (w', e) h k = rw (h.0, h.1) k

  -- One attempt, or a change of the store by another part of the program.
  pub data Turn : Type 0 where
    attempt : Replies → UploadJob → Turn
    stores : Store → Turn

  unfoldable pub turn : Turn → World → World
  turn (attempt re job) w = (process lib key tools legacy re job w).0
  turn (stores st) w = record w { store = st }

  unfoldable pub turns : List Turn → World → World
  turns [] w = w
  turns (t ∷ rest) w = turns rest (turn t w)

  -- A turn for this recording, or one that has nothing to do with its files.
  abbrev pub IsFor : Bytes → Bytes → Turn → Type 0
  IsFor path local_path (attempt re job) =
      ((job.remote_path ≡ path) × (job.local_path ≡ local_path)) ⊎ IsApart path local_path job
  IsFor path local_path (stores st) = Unit

  turn-IsKept :
      (path local_path content : Bytes) (t : Turn) (w : World)
      → IsFor path local_path t
      → IsKept path local_path content w
      → IsKept path local_path content (turn t w)
  unfolding turn
  turn-IsKept path local_path content (stores st) w h k = k
  turn-IsKept path local_path content (attempt re job) w (inr apart) k =
      Untouched-IsKept path local_path content w (process lib key tools legacy re job w)
        (process-Untouched re path local_path job apart w) k
  turn-IsKept path local_path content (attempt re job) w (inl (same, same')) (whole, safe) =
      subst (λ p. IsKept p local_path content (process lib key tools legacy re job w).0) same
        (subst (λ l. IsKept job.remote_path l content (process lib key tools legacy re job w).0)
          same'
          (kept (
            subst (λ p. IsKept p job.local_path content w) (sym same)
              (subst (λ l. IsKept path l content w) (sym same') (whole, safe)))))
    where
      kept :
          IsKept job.remote_path job.local_path content w
          → IsKept job.remote_path job.local_path content (process lib key tools legacy re job w).0
      kept (here, inl on_disk) = (process-Ends lib key tools legacy re job content w here on_disk).1
      kept (here, inr (gone, there)) =
          Untouched-IsKept job.remote_path job.local_path content w
            (process lib key tools legacy re job w) (process-missing re job w gone)
            (here, inr (gone, there))

  -- However often the uploader tries, whatever fails, and whatever other recordings it uploads in
  -- between, as long as their files have other names: a recording that was on the disk, with nothing or
  -- itself under its name on the server, is on the disk or whole on the server, and the server never
  -- has another file under its name.
  pub turns-IsKept :
      (path local_path content : Bytes) (rest : List Turn) (w : World)
      → All (IsFor path local_path) rest
      → IsKept path local_path content w
      → IsKept path local_path content (turns rest w)
  unfolding turns
  turns-IsKept path local_path content [] w all k = k
  turns-IsKept path local_path content (t ∷ rest) w all k =
      turns-IsKept path local_path content rest (turn t w) all.1
        (turn-IsKept path local_path content t w all.0 k)
