-- ===== src/Upload/Transfer.antt =====
-- internal/upload/uploader.go: one attempt at a job. The SFTP server is a map from paths to contents;
-- each call of it, and of the file system, has an answer, and a call that fails changes nothing, but a
-- copy that fails leaves the beginning of the text.
use mathlib.Core.Option
use fragata.Base.{
  ℤ, pos, negsuc, ℕ, Bool, false, not, ◌&&◌, List, [], ◌∷◌, ◌++◌, Option, none, some, Bytes, codes,
  Table, lookup, insert, delete, length, take, ◌==◌, if◌then◌else◌,
}
use fragata.Hub.{is_nil}
use fragata.Model.{UploadJob}
use fragata.Store.Disk.{StoreError, Library}
use fragata.Store.Disk
use fragata.Store.Commands.{Store, Command, delete_upload_job}
use fragata.Store.Commands
use fragata.Upload.{
  SftpConfig, Tools, UploadError, cancelled, no_profile, cannot_open, cannot_read, cannot_seek,
  cannot_connect, no_directory_made, cannot_create, copy_failed, close_failed, wrong_size,
  not_confirmed, rename_failed, no_checksum, checksum_failed, checksum_rename_failed, cannot_remove,
  store_failed, profile_config,
}

-- The files of the machine, and those of the server.
pub record World : Type 0 where
  pub store : Store
  pub local : Table Bytes
  pub remote : Table Bytes

-- What happens during one attempt.
pub record Replies : Type 0 where
  pub is_cancelled : Bool
  pub open_local_ok : Bool
  pub read_local_ok : Bool
  pub seek_ok : Bool
  pub connect_ok : Bool
  pub stat_ok : Bool
  pub open_checksum_ok : Bool
  pub read_checksum_ok : Bool
  pub mkdir_ok : Bool
  pub remove_partial_ok : Bool
  pub open_ok : Bool
  pub copy_ok : Bool
  pub copied : ℕ
  pub close_ok : Bool
  pub stat_partial_ok : Bool
  pub remove_ok : Bool
  pub rename_ok : Bool
  pub remove_checksum_partial_ok : Bool
  pub create_ok : Bool
  pub write_checksum_ok : Bool
  pub checksum_copied : ℕ
  pub close_checksum_ok : Bool
  pub remove_checksum_ok : Bool
  pub rename_checksum_ok : Bool
  pub remove_local_ok : Bool
  pub os : Disk.Answers

-- A size as `Stat` gives it.
unfoldable pub is_size : ℤ → ℕ → Bool
is_size (pos n) k = n == k
is_size (negsuc n) k = false

unfoldable pub remove_file : Bool → Bytes → Table Bytes → Table Bytes
remove_file ok path files = if ok then delete path files else files

abbrev pub renamed : Bool → Bytes → Bytes → Table Bytes → Option Bytes → Option (Table Bytes)
renamed ok from to files none = none
renamed ok from to files (some content) =
    if ok then some (insert to content (delete from files)) else none

unfoldable pub rename_file : Bool → Bytes → Bytes → Table Bytes → Option (Table Bytes)
rename_file ok from to files = renamed ok from to files (lookup from files)

abbrev pub partial_path : Bytes → Bytes
partial_path path = path ++ codes ".part"

abbrev pub checksum_path : Bytes → Bytes
checksum_path path = path ++ codes ".sha256"

-- What a copy leaves.
abbrev pub copied_part : Bool → ℕ → Bytes → Bytes
copied_part ok n content = if ok then content else take n content

abbrev pub confirmed : Bool → ℤ → Option Bytes → Bool
confirmed ok size none = false
confirmed ok size (some content) = ok && is_size size (length content)

abbrev pub renamed_or :
    UploadError → Table Bytes → Option (Table Bytes) → Table Bytes × Option UploadError
renamed_or e files none = (files, some e)
renamed_or e files (some files') = (files', none)

-- The file: everything up to its renaming.
unfoldable pub put_file :
    Replies → UploadJob → Bytes → Table Bytes → Table Bytes × Option UploadError
put_file re job content files =
    let partial = partial_path job.remote_path in
    let cleared = remove_file re.remove_partial_ok partial files in
    let filled = insert partial (copied_part re.copy_ok re.copied content) cleared in
    let free = remove_file re.remove_ok job.remote_path filled in
    if not re.mkdir_ok
    then (files, some no_directory_made)
    else if not re.open_ok
    then (cleared, some cannot_create)
    else if not re.copy_ok
    then (filled, some copy_failed)
    else if not re.close_ok
    then (filled, some close_failed)
    else if not (is_size job.size (length content))
    then (filled, some wrong_size)
    else if not (confirmed re.stat_partial_ok job.size (lookup partial filled))
    then (filled, some not_confirmed)
    else renamed_or rename_failed free (rename_file re.rename_ok partial job.remote_path free)

-- The checksum beside it.
unfoldable pub put_checksum :
    Tools → Replies → UploadJob → Table Bytes → Table Bytes × Option UploadError
put_checksum tools re job files =
    let checksum = checksum_path job.remote_path in
    let partial = partial_path checksum in
    let line = job.sha256 ++ codes "  " ++ tools.base job.remote_path ++ codes "\n" in
    let cleared = remove_file re.remove_checksum_partial_ok partial files in
    let filled =
      insert partial (copied_part re.write_checksum_ok re.checksum_copied line) cleared in
    let free = remove_file re.remove_checksum_ok checksum filled in
    if not re.create_ok
    then (cleared, some no_checksum)
    else if not re.write_checksum_ok
    then (filled, some checksum_failed)
    else if not re.close_checksum_ok
    then (filled, some checksum_failed)
    else renamed_or checksum_rename_failed free
        (rename_file re.rename_checksum_ok partial checksum free)

abbrev first_field_is : Tools → Bytes → List Bytes → Bool
first_field_is tools sha256 [] = false
first_field_is tools sha256 (field ∷ fields) = tools.equal_fold field sha256

-- `remoteMatches`: of the checksum file at most 512 bytes are read.
unfoldable pub remote_matches : Tools → Replies → UploadJob → Table Bytes → Bool
remote_matches tools re job files =
    let read =
      Option.map (λ raw. first_field_is tools job.sha256 (tools.fields (take 512 raw)))
        (lookup (checksum_path job.remote_path) files) in
    confirmed re.stat_ok job.size (lookup job.remote_path files)
    && (not (is_nil job.sha256)
        && (re.open_checksum_ok
            && (re.read_checksum_ok
                && elim read as (λ _. Bool) [ none ↦ false | some same ↦ same ])))

module _ (lib : Library) (key : Bytes) (tools : Tools) (legacy : SftpConfig) where
  -- `DeleteUploadJob`, as the uploader calls it.
  unfoldable pub delete_job : Replies → UploadJob → World → World × Option UploadError
  delete_job re job w =
      let deleted = Commands.run lib key re.os (delete_upload_job job.id) w.store in
      (record w { store = deleted.0 }, Option.map store_failed deleted.1)

  -- The recording is deleted first, and the job only when it is gone.
  unfoldable pub complete : Replies → UploadJob → Bool → World → World × Option UploadError
  unfolding delete_job
  complete re job delete_local w =
      let found : Option Bytes = lookup job.local_path w.local in
      let cleaned = record w { local = delete job.local_path w.local } in
      if not delete_local
      then delete_job re job w
      else elim found as (λ _. World × Option UploadError) [
        | none ↦ delete_job re job w
        | some content ↦
            if re.remove_local_ok then delete_job re job cleaned else (w, some cannot_remove)
      ]

  abbrev pub and_then :
      World
      → Table Bytes × Option UploadError
      → (World → World × Option UploadError)
      → World × Option UploadError
  and_then w (files, none) next = next (record w { remote = files })
  and_then w (files, some e) next = (record w { remote = files }, some e)

  -- The transfer to a server that does not have the file.
  unfoldable pub transfer : Replies → UploadJob → Bytes → Bool → World → World × Option UploadError
  unfolding complete
  transfer re job content delete_local w = and_then w (put_file re job content w.remote) (λ w'.
      and_then w' (put_checksum tools re job w'.remote) (λ w''. complete re job delete_local w''))

  -- The part of `process` with the content of the recording at hand.
  unfoldable pub upload : Replies → UploadJob → Bytes → Bool → World → World × Option UploadError
  unfolding transfer complete
  upload re job content delete_local w =
      let hashed = record job { sha256 = tools.sha256 content } in
      if not re.read_local_ok
      then (w, some cannot_read)
      else if not re.seek_ok
      then (w, some cannot_seek)
      else if not re.connect_ok
      then (w, some cannot_connect)
      else if remote_matches tools re hashed w.remote
      then complete re hashed delete_local w
      else transfer re hashed content delete_local w

  unfoldable pub process : Replies → UploadJob → World → World × Option UploadError
  unfolding upload delete_job
  process re job w =
      let found : Option Bytes = lookup job.local_path w.local in
      if re.is_cancelled
      then (w, some cancelled)
      else elim (profile_config tools legacy w.store.content job.sftp_profile_id)
          as (λ _. World × Option UploadError) [
            | none ↦ (w, some no_profile)
            | some cfg ↦ elim found as (λ _. World × Option UploadError) [
              | none ↦ delete_job re job w
              | some content ↦
                  if re.open_local_ok
                  then upload re job content cfg.delete_local w
                  else (w, some cannot_open)
            ]
          ]
