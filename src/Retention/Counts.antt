-- ===== src/Retention/Counts.antt =====
-- The counts of internal/retention/cleaner.go.
use fragata.Base.{
  ℕ, ◌+◌, ◌≡◌, inl, inr, refl, ap, subst, Bool, not, ◌||◌, List, [], ◌∷◌, Bytes, bytes_eq,
  bytes_eq_iff, Option, none, some, length, Table, IsMap, lookup, delete, delete-IsMap, ltb, arith,
  split_if, split_option, Bool-cases,
}
use fragata.Hub.{is_nil}
use fragata.Model.{State}
use fragata.Retention.{
  Tools, FileInfo, Visit, unread, found, Cleaned, cutoff, pending, is_pending, is_recording,
  remove_old, clean_visit, clean_all, clean_recordings,
}

-- The bytes on the disk.
unfoldable pub total : Table FileInfo → ℕ
total [] = 0
total ((path, info) ∷ disk) = info.size + total disk

delete-absent : (k : Bytes) (t : Table FileInfo) → lookup k t ≡ none → delete k t ≡ t
unfolding lookup delete
delete-absent k [] h = refl
delete-absent k ((j, info) ∷ t) h = elim (Bool-cases (bytes_eq j k)) [
  | inl e ↦ absurd (cc (rw e at h))
  | inr e ↦ rw e (ap (λ rest. (j, info) ∷ rest) (delete-absent k t (rw e at h)))
]

size_of : Option FileInfo → ℕ
size_of none = 0
size_of (some info) = info.size

delete-total :
    (k : Bytes) (info : FileInfo) (t : Table FileInfo)
    → IsMap t
    → lookup k t ≡ some info
    → (total t ≡ total (delete k t) + info.size) × (length t ≡ length (delete k t) + 1)
unfolding lookup delete total size_of
delete-total k info [] m h = absurd (cc)
delete-total k info ((j, other) ∷ t) m h = elim (Bool-cases (bytes_eq j k)) [
  | inl e ↦
      let sizes = ap size_of (rw e at h) in
      let gone = delete-absent k t (subst (λ i. lookup i t ≡ none) ((bytes_eq_iff j k).0 e) m.0) in
      rw (e, gone) (omega (arith, sizes), omega arith)
  | inr e ↦
      let (sizes, files) = delete-total k info t m.1 (rw e at h) in
      rw e (omega (arith, sizes), omega (arith, files))
]

-- What a cleanup removed is what it counts.
Counted : Table FileInfo → Cleaned → Type 0
Counted disk c =
    IsMap c.disk × (total disk ≡ total c.disk + c.freed) × (length disk ≡ length c.disk + c.deleted)

module _ (tools : Tools) (refuses : Bytes → Bool) (queued : List Bytes) (before : ℕ)
    (disk : Table FileInfo) where
  remove_old-Counted :
      (path : Bytes) (info : FileInfo) (c : Cleaned)
      → lookup path c.disk ≡ some info
      → Counted disk c
      → Counted disk (remove_old tools refuses queued before path info c)
  unfolding remove_old Counted
  remove_old-Counted path info c at (m, sizes, files) =
      let Q = Counted disk in
      let (freed, gone) = delete-total path info c.disk m at in
      split_if Q (not (ltb info.modified before)) _ _ (λ _. (m, sizes, files))
        (λ _.
          split_if Q (refuses path) _ _ (λ _. (m, sizes, files))
            (λ _. (
              delete-IsMap path c.disk m,
              omega (arith, sizes, freed),
              omega (arith, files, gone),
            )))

  clean_visit-Counted :
      (v : Visit) (c : Cleaned)
      → Counted disk c
      → Counted disk (clean_visit tools refuses queued before v c)
  unfolding clean_visit
  clean_visit-Counted unread c h = h
  clean_visit-Counted (found path name is_dir) c h =
      let Q = Counted disk in
      split_if Q (is_dir || not (is_recording tools name)) _ _ (λ _. h)
        (λ _.
          split_if Q (is_pending tools queued path) _ _ (λ _. h)
            (λ _.
              split_option Q (lookup path c.disk) _ _ (λ _. h)
                (λ info at. remove_old-Counted path info c at h)))

  clean_all-Counted :
      (visits : List Visit) (c : Cleaned)
      → Counted disk c
      → Counted disk (clean_all tools refuses queued before visits c)
  unfolding clean_all
  clean_all-Counted [] c h = h
  clean_all-Counted (v ∷ visits) c h = clean_all-Counted visits _ (clean_visit-Counted v c h)

-- A cleanup counts what it removes: the bytes that it reports as freed are those that the disk has
-- less, and the files that it reports as deleted are those that the disk has less.
pub clean_recordings-total :
    (tools : Tools) (base_dir : Bytes) (refuses : Bytes → Bool) (s : State) (now : ℕ)
    (visits : List Visit) (disk : Table FileInfo)
    → IsMap disk
    → (total disk
        ≡ total (clean_recordings tools base_dir refuses s now visits disk).disk
          + (clean_recordings tools base_dir refuses s now visits disk).freed)
      × (length disk
          ≡ length (clean_recordings tools base_dir refuses s now visits disk).disk
            + (clean_recordings tools base_dir refuses s now visits disk).deleted)
unfolding clean_recordings Counted
clean_recordings-total tools base_dir refuses s now visits disk m =
    let Q = λ (c : Cleaned).
      (total disk ≡ total c.disk + c.freed) × (length disk ≡ length c.disk + c.deleted) in
    let queued = pending tools s.upload_queue in
    let nothing : Cleaned = record { disk = disk; deleted = 0; freed = 0 } in
    split_if Q (is_nil (tools.trim_space base_dir)) _ _ (λ _. (omega arith, omega arith))
      (λ _.
        split_option Q (cutoff tools s.retention now) _ _ (λ _. (omega arith, omega arith))
          (λ before _.
            let (_, sizes, files) =
              clean_all-Counted tools refuses queued before disk visits nothing
                (m, omega arith, omega arith) in
            (sizes, files)))
