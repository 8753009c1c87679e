-- ===== src/Retention/Keeps.antt =====
-- What internal/retention/cleaner.go does not remove.
use fragata.Base.{
  ℕ, ◌≤◌, ◌≡◌, ◌⊎◌, inl, inr, ◌∙◌, sym, ap, subst, Bool, true, false, not, ◌||◌, List, [], ◌∷◌,
  Bytes, bytes_eq, bytes_eq_iff, Option, none, some, All, Table, lookup, lookup-delete, ltb, arith,
  split_if, split_option,
}
use fragata.Hub.{is_nil}
use fragata.Model.{State}
use fragata.Retention.{
  Tools, FileInfo, Visit, unread, found, Cleaned, cutoff, pending, is_pending, is_recording,
  remove_old, clean_visit, clean_all, clean_recordings,
}

modified_of : Option FileInfo → ℕ
modified_of none = 0
modified_of (some info) = info.modified

-- A visit with the name that the path has.
abbrev pub HasName : (Bytes → Bytes) → Visit → Type 0
HasName name_of unread = Unit
HasName name_of (found path name is_dir) = name ≡ name_of path

-- Why a file stays: it is not older than the cutoff, it waits for its upload, or it is no finished
-- recording.
abbrev pub Protected : Tools → (Bytes → Bytes) → List Bytes → ℕ → Bytes → FileInfo → Type 0
Protected tools name_of queued before q info =
    (before ≤ info.modified)
    ⊎ ((is_pending tools queued q ≡ true) ⊎ (is_recording tools (name_of q) ≡ false))

module _ (tools : Tools) (name_of : Bytes → Bytes) (refuses : Bytes → Bool) (queued : List Bytes)
    (before : ℕ) (q : Bytes) (info : FileInfo)
    (safe : Protected tools name_of queued before q info) where
  Held : Cleaned → Type 0
  Held c = lookup q c.disk ≡ some info

  remove_old-Held :
      (path : Bytes) (other : FileInfo) (c : Cleaned)
      → (bytes_eq path q ≡ true → before ≤ other.modified)
      → Held c
      → Held (remove_old tools refuses queued before path other c)
  unfolding remove_old Held
  remove_old-Held path other c new h =
      split_if Held (not (ltb other.modified before)) _ _ (λ _. h)
        (λ old.
          split_if Held (refuses path) _ _ (λ _. h)
            (λ _.
              lookup-delete path q c.disk
              ∙ split_if (λ o. o ≡ some info) (bytes_eq path q) none (lookup q c.disk)
                  (λ same. absurd (ground (arith, old, new same))) (λ _. h)))

  recent :
      (path : Bytes) (other : FileInfo) (c : Cleaned)
      → Held c
      → lookup path c.disk ≡ some other
      → is_pending tools queued path ≡ false
      → is_recording tools (name_of path) ≡ true
      → bytes_eq path q ≡ true
      → before ≤ other.modified
  unfolding Held modified_of
  recent path other c h at free finished same =
      let e = (bytes_eq_iff path q).0 same in
      elim safe [
        | inl new ↦
            let times = ap modified_of (sym at ∙ ap (λ p. lookup p c.disk) e ∙ h) in
            omega (arith, times, new)
        | inr (inl waits) ↦ absurd (cc (ap (is_pending tools queued) e, free, waits))
        | inr (inr other_name) ↦
            absurd (cc (ap (λ p. is_recording tools (name_of p)) e, finished, other_name))
      ]

  clean_visit-Held :
      (v : Visit) (c : Cleaned)
      → HasName name_of v
      → Held c
      → Held (clean_visit tools refuses queued before v c)
  unfolding clean_visit
  clean_visit-Held unread c named h = h
  clean_visit-Held (found path name is_dir) c named h =
      split_if Held (is_dir || not (is_recording tools name)) _ _ (λ _. h)
        (λ file.
          split_if Held (is_pending tools queued path) _ _ (λ _. h)
            (λ free.
              split_option Held (lookup path c.disk) _ _ (λ _. h)
                (λ other at.
                  let finished : is_recording tools (name_of path) ≡ true =
                    subst (λ n. is_recording tools n ≡ true) named (ground (arith, file)) in
                  remove_old-Held path other c (recent path other c h at free finished) h)))

  clean_all-Held :
      (visits : List Visit) (c : Cleaned)
      → All (HasName name_of) visits
      → Held c
      → Held (clean_all tools refuses queued before visits c)
  unfolding clean_all
  clean_all-Held [] c named h = h
  clean_all-Held (v ∷ visits) c named h =
      clean_all-Held visits _ named.1 (clean_visit-Held v c named.0 h)

-- A file that is not older than the cutoff, that waits for its upload, or that has no name of a
-- finished recording is on the disk after a cleanup, as it was.
pub clean_recordings-keeps :
    (tools : Tools) (base_dir : Bytes) (name_of : Bytes → Bytes) (refuses : Bytes → Bool)
    (s : State) (now before : ℕ) (visits : List Visit) (disk : Table FileInfo) (q : Bytes)
    (info : FileInfo)
    → All (HasName name_of) visits
    → cutoff tools s.retention now ≡ some before
    → Protected tools name_of (pending tools s.upload_queue) before q info
    → lookup q disk ≡ some info
    → lookup q (clean_recordings tools base_dir refuses s now visits disk).disk ≡ some info
unfolding clean_recordings Held
clean_recordings-keeps tools base_dir name_of refuses s now before visits disk q info named at safe
      held =
    let Q = λ (c : Cleaned). lookup q c.disk ≡ some info in
    let queued = pending tools s.upload_queue in
    split_if Q (is_nil (tools.trim_space base_dir)) _ _ (λ _. held)
      (λ _.
        rw at (clean_all-Held tools name_of refuses queued before q info safe visits _ named held))
