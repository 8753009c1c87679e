-- ===== src/Upload/Files.antt =====
-- internal/upload/uploader.go: what the calls of the server do to its files.
use fragata.Base.{
  ◌<◌, ◌≡◌, refl, sym, ap, subst, ◌∙◌, inl, inr, Bool, true, false, not, ◌++◌, Option, none, some,
  Bytes, codes, bytes_eq, bytes_eq_iff, Table, lookup, insert, delete, lookup-insert, lookup-delete,
  length, length-append, arith, split_if, Bool-cases,
}
use fragata.Model.{UploadJob}
use fragata.Upload.{Tools, UploadError, rename_failed, checksum_rename_failed}
use fragata.Upload.Transfer.{
  Replies, is_size, remove_file, rename_file, renamed, partial_path, checksum_path, copied_part,
  confirmed, renamed_or, put_file, put_checksum,
}

-- A path with something behind it is another path.
longer-differs : (path suffix : Bytes) → 0 < length suffix → bytes_eq (path ++ suffix) path ≡ false
longer-differs path suffix some_left = elim (Bool-cases (bytes_eq (path ++ suffix) path)) [
  | inl e ↦
      let same : path ++ suffix ≡ path = (bytes_eq_iff (path ++ suffix) path).0 e in
      absurd (omega (arith, ap length same, length-append path suffix, some_left))
  | inr e ↦ e
]

-- None of the three files that go with a path is the other path.
pub record IsBeside (path q : Bytes) : Type 0 where
  pub partial : bytes_eq (partial_path path) q ≡ false
  pub checksum : bytes_eq (checksum_path path) q ≡ false
  pub checksum_partial : bytes_eq (partial_path (checksum_path path)) q ≡ false

pub own-IsBeside : (path : Bytes) → IsBeside path path
own-IsBeside path = record {
  partial = longer-differs path (codes ".part") (omega arith);
  checksum = longer-differs path (codes ".sha256") (omega arith);
  checksum_partial = elim (Bool-cases (bytes_eq (partial_path (checksum_path path)) path)) [
    | inl e ↦
        let same : (path ++ codes ".sha256") ++ codes ".part" ≡ path =
          (bytes_eq_iff (partial_path (checksum_path path)) path).0 e in
        absurd (
          omega (
            arith,
            ap length same,
            length-append (path ++ codes ".sha256") (codes ".part"),
            length-append path (codes ".sha256"),
          ))
    | inr e ↦ e
  ];
}

pub lookup-remove_file :
    (ok : Bool) (path q : Bytes) (files : Table Bytes)
    → bytes_eq path q ≡ false
    → lookup q (remove_file ok path files) ≡ lookup q files
unfolding remove_file
lookup-remove_file true path q files e = lookup-delete path q files ∙ rw e refl
lookup-remove_file false path q files e = refl

pub lookup-put :
    (path q content : Bytes) (files : Table Bytes)
    → bytes_eq path q ≡ false
    → lookup q (insert path content files) ≡ lookup q files
lookup-put path q content files e = lookup-insert path q content files ∙ rw e refl

pub bytes_eq-same : (path : Bytes) → bytes_eq path path ≡ true
bytes_eq-same path = (bytes_eq_iff path path).1 refl

pub lookup-put_same :
    (path content : Bytes) (files : Table Bytes)
    → lookup path (insert path content files) ≡ some content
lookup-put_same path content files =
    lookup-insert path path content files ∙ rw (bytes_eq-same path) refl

-- The file at a path is what it was.
abbrev pub Keeps : Bytes → Table Bytes → Table Bytes × Option UploadError → Type 0
Keeps q files (files', e) = lookup q files' ≡ lookup q files

pub rename_file-renamed :
    (ok : Bool) (from to : Bytes) (files : Table Bytes) (o : Option Bytes)
    → lookup from files ≡ o
    → rename_file ok from to files ≡ renamed ok from to files o
unfolding rename_file
rename_file-renamed ok from to files o e = ap (renamed ok from to files) e

rename_file-Keeps :
    (e : UploadError) (ok : Bool) (from to q : Bytes) (files : Table Bytes)
    → bytes_eq from q ≡ false
    → bytes_eq to q ≡ false
    → Keeps q files (renamed_or e files (rename_file ok from to files))
rename_file-Keeps e ok from to q files h h' =
    subst (λ o. Keeps q files (renamed_or e files o))
      (sym (rename_file-renamed ok from to files (lookup from files) refl))
      (kept (lookup from files) ok)
  where
    kept :
        (o : Option Bytes) (b : Bool)
        → Keeps q files (renamed_or e files (renamed b from to files o))
    kept none b = refl
    kept (some content) false = refl
    kept (some content) true =
        lookup-put to q content (delete from files) h' ∙ lookup-delete from q files ∙ rw h refl

Keeps-trans :
    (q : Bytes) (files free : Table Bytes) (r : Table Bytes × Option UploadError)
    → lookup q free ≡ lookup q files
    → Keeps q free r
    → Keeps q files r
Keeps-trans q files free (files', e) kept h = h ∙ kept

-- Where the file at `from` has this content: the renaming puts it at `to`, or changes nothing.
abbrev pub Renames : Bytes → Bytes → Table Bytes → Table Bytes × Option UploadError → Type 0
Renames to content files (files', none) = lookup to files' ≡ some content
Renames to content files (files', some e) = files' ≡ files

pub rename_file-Renames :
    (e : UploadError) (ok : Bool) (from to content : Bytes) (files : Table Bytes)
    → lookup from files ≡ some content
    → Renames to content files (renamed_or e files (rename_file ok from to files))
rename_file-Renames e ok from to content files s =
    subst (λ o. Renames to content files (renamed_or e files o))
      (sym (rename_file-renamed ok from to files (some content) s)) (both ok)
  where
    both :
        (b : Bool)
        → Renames to content files (renamed_or e files (renamed b from to files (some content)))
    both true = lookup-put_same to content (delete from files)
    both false = refl

module _ (re : Replies) (job : UploadJob) (q : Bytes) (h : IsBeside job.remote_path q) where
  pub put_file-Keeps :
      (content : Bytes) (files : Table Bytes)
      → bytes_eq job.remote_path q ≡ false
      → Keeps q files (put_file re job content files)
  unfolding put_file
  put_file-Keeps content files other =
      let partial = partial_path job.remote_path in
      let cleared = remove_file re.remove_partial_ok partial files in
      let filled = insert partial (copied_part re.copy_ok re.copied content) cleared in
      let same : lookup q cleared ≡ lookup q files =
        lookup-remove_file re.remove_partial_ok partial q files h.partial in
      let kept : lookup q filled ≡ lookup q files =
        lookup-put partial q _ cleared h.partial ∙ same in
      let free = remove_file re.remove_ok job.remote_path filled in
      let kept' : lookup q free ≡ lookup q files =
        lookup-remove_file re.remove_ok job.remote_path q filled other ∙ kept in
      let result =
        renamed_or rename_failed free (rename_file re.rename_ok partial job.remote_path free) in
      let last =
        rename_file-Keeps rename_failed re.rename_ok partial job.remote_path q free h.partial
          other in
      let Good = Keeps q files in
      split_if Good (not re.mkdir_ok) _ _ (λ e. refl)
        (λ e.
          split_if Good (not re.open_ok) _ _ (λ e. same)
            (λ e.
              split_if Good (not re.copy_ok) _ _ (λ e. kept)
                (λ e.
                  split_if Good (not re.close_ok) _ _ (λ e. kept)
                    (λ e.
                      split_if Good (not (is_size job.size (length content))) _ _ (λ e. kept)
                        (λ e.
                          split_if Good
                            (not (confirmed re.stat_partial_ok job.size (lookup partial filled))) _
                            _ (λ e. kept) (λ e. Keeps-trans q files free result kept' last))))))

  pub put_checksum-Keeps :
      (tools : Tools) (files : Table Bytes) → Keeps q files (put_checksum tools re job files)
  unfolding put_checksum
  put_checksum-Keeps tools files =
      let checksum = checksum_path job.remote_path in
      let partial = partial_path checksum in
      let cleared = remove_file re.remove_checksum_partial_ok partial files in
      let same : lookup q cleared ≡ lookup q files =
        lookup-remove_file re.remove_checksum_partial_ok partial q files h.checksum_partial in
      let line = job.sha256 ++ codes "  " ++ tools.base job.remote_path ++ codes "\n" in
      let filled =
        insert partial (copied_part re.write_checksum_ok re.checksum_copied line) cleared in
      let kept : lookup q filled ≡ lookup q files =
        lookup-put partial q _ cleared h.checksum_partial ∙ same in
      let free = remove_file re.remove_checksum_ok checksum filled in
      let kept' : lookup q free ≡ lookup q files =
        lookup-remove_file re.remove_checksum_ok checksum q filled h.checksum ∙ kept in
      let Good = Keeps q files in
      split_if Good (not re.create_ok) _ _ (λ e. same)
        (λ e.
          split_if Good (not re.write_checksum_ok) _ _ (λ e. kept)
            (λ e.
              split_if Good (not re.close_checksum_ok) _ _ (λ e. kept)
                (λ e.
                  Keeps-trans q files free
                    (renamed_or checksum_rename_failed free
                      (rename_file re.rename_checksum_ok partial checksum free))
                    kept'
                    (rename_file-Keeps checksum_rename_failed re.rename_checksum_ok partial checksum
                      q free h.checksum_partial h.checksum))))
