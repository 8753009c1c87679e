-- ===== src/Upload/Whole.antt =====
-- internal/upload/uploader.go: the file of a job on the server is whole, or not there.
use fragata.Base.{
  ℤ, ◌≡◌, refl, ap, ◌∙◌, ◌⊎◌, inl, inr, Bool, true, false, not, ◌&&◌, Option, none, some, Bytes,
  bytes_eq, bytes_eq_iff, Table, lookup, insert, lookup-delete, length, arith, split_if,
}
use fragata.Model.{UploadJob}
use fragata.Upload.{Tools, UploadError, rename_failed}
use fragata.Upload.Transfer.{
  Replies, is_size, remove_file, rename_file, partial_path, copied_part, confirmed, renamed_or,
  put_file, remote_matches,
}
use fragata.Upload.Files.{
  own-IsBeside, lookup-remove_file, lookup-put, lookup-put_same, bytes_eq-same, Renames,
  rename_file-Renames,
}

-- The file has this content, or is not there.
abbrev pub IsWhole : Bytes → Bytes → Table Bytes → Type 0
IsWhole path content files = (lookup path files ≡ none) ⊎ (lookup path files ≡ some content)

-- Without an error the file is there, and with one it is as before, or gone.
abbrev pub Puts : Bytes → Bytes → Table Bytes → Table Bytes × Option UploadError → Type 0
Puts path content files (files', none) = lookup path files' ≡ some content
Puts path content files (files', some e) =
    (lookup path files' ≡ lookup path files) ⊎ (lookup path files' ≡ none)

Renames-Puts :
    (path content : Bytes) (files free : Table Bytes) (r : Table Bytes × Option UploadError)
    → (lookup path free ≡ lookup path files) ⊎ (lookup path free ≡ none)
    → Renames path content free r
    → Puts path content files r
Renames-Puts path content files free (files', none) h done = done
Renames-Puts path content files free (files', some e) h same = rw same h

removed-cases :
    (ok : Bool) (path : Bytes) (files filled : Table Bytes)
    → lookup path filled ≡ lookup path files
    → (lookup path (remove_file ok path filled) ≡ lookup path files)
      ⊎ (lookup path (remove_file ok path filled) ≡ none)
unfolding remove_file
removed-cases true path files filled h =
    inr (lookup-delete path path filled ∙ rw (bytes_eq-same path) refl)
removed-cases false path files filled h = inl h

pub differs-sym : (p q : Bytes) → bytes_eq p q ≡ false → bytes_eq q p ≡ false
differs-sym p q h = ground (arith, bytes_eq_iff p q, bytes_eq_iff q p)

pub put_file-Puts :
    (re : Replies) (job : UploadJob) (content : Bytes) (files : Table Bytes)
    → Puts job.remote_path content files (put_file re job content files)
unfolding put_file
put_file-Puts re job content files =
    let path = job.remote_path in
    let partial = partial_path path in
    let beside = own-IsBeside path in
    let cleared = remove_file re.remove_partial_ok partial files in
    let part = copied_part re.copy_ok re.copied content in
    let filled = insert partial part cleared in
    let same : lookup path cleared ≡ lookup path files =
      lookup-remove_file re.remove_partial_ok partial path files beside.partial in
    let kept : lookup path filled ≡ lookup path files =
      lookup-put partial path part cleared beside.partial ∙ same in
    let free = remove_file re.remove_ok path filled in
    let there : lookup partial free ≡ some part =
      lookup-remove_file re.remove_ok path partial filled (differs-sym partial path beside.partial)
      ∙ lookup-put_same partial part cleared in
    let result = renamed_or rename_failed free (rename_file re.rename_ok partial path free) in
    let moved : re.copy_ok ≡ true → Puts path content files result = λ copy.
      Renames-Puts path content files free result
        (removed-cases re.remove_ok path files filled kept)
        (rename_file-Renames rename_failed re.rename_ok partial path content free
          (there ∙ ap (λ b. some (copied_part b re.copied content)) copy)) in
    let Good = Puts path content files in
    split_if Good (not re.mkdir_ok) _ _ (λ e. inl refl)
      (λ e.
        split_if Good (not re.open_ok) _ _ (λ e. inl same)
          (λ e.
            split_if Good (not re.copy_ok) _ _ (λ e. inl kept)
              (λ copy.
                split_if Good (not re.close_ok) _ _ (λ e. inl kept)
                  (λ e.
                    split_if Good (not (is_size job.size (length content))) _ _ (λ e. inl kept)
                      (λ e.
                        split_if Good
                          (not (confirmed re.stat_partial_ok job.size (lookup partial filled))) _ _
                          (λ e. inl kept) (λ e. moved (not_not re.copy_ok copy)))))))
  where
    not_not : (b : Bool) → not b ≡ false → b ≡ true
    not_not b h = ground arith

pub Puts-IsWhole :
    (path content : Bytes) (files : Table Bytes) (r : Table Bytes × Option UploadError)
    → IsWhole path content files
    → Puts path content files r
    → IsWhole path content r.0
Puts-IsWhole path content files (files', none) h p = inr p
Puts-IsWhole path content files (files', some e) (inl h) (inl p) = inl (p ∙ h)
Puts-IsWhole path content files (files', some e) (inr h) (inl p) = inr (p ∙ h)
Puts-IsWhole path content files (files', some e) h (inr p) = inl p

confirmed-there :
    (ok : Bool) (size : ℤ) (o : Option Bytes)
    → confirmed ok size o ≡ true
    → (c : Bytes) × (o ≡ some c)
confirmed-there ok size none h = absurd (cc)
confirmed-there ok size (some c) h = (c, refl)

-- A file that is found to match is there.
pub remote_matches-there :
    (tools : Tools) (re : Replies) (job : UploadJob) (content : Bytes) (files : Table Bytes)
    → IsWhole job.remote_path content files
    → remote_matches tools re job files ≡ true
    → lookup job.remote_path files ≡ some content
unfolding remote_matches
remote_matches-there tools re job content files (inr h) e = h
remote_matches-there tools re job content files (inl h) e =
    let there =
      confirmed-there re.stat_ok job.size (lookup job.remote_path files) (first_true _ _ e) in
    absurd (cc)
  where
    first_true : (a b : Bool) → (a && b) ≡ true → a ≡ true
    first_true true b h = refl
    first_true false b h = h
