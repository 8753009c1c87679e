-- ===== src/Recorder/Recovery.antt =====
-- What internal/recording/recover.go does to the disk.
use mathlib.Core.List.{append_assoc}
use fragata.Base.{
  ℕ, ◌-◌, ◌≡◌, ◌⊎◌, refl, sym, ap, ◌∙◌, inl, inr, Bool, true, false, [], ◌∷◌, ◌++◌, Bytes, codes,
  bytes_eq, bytes_eq_iff, Option, none, some, Option-cases, ◌≢◌, length, take, drop, length-append,
  take-append, drop-append, take-append-drop, leb, Table, lookup, delete, lookup-insert,
  lookup-delete, if◌then◌else◌, arith, split_option, Bool-cases, subst,
}
use fragata.Hub.{is_nil}
use fragata.Recorder.Recover.{
  Visit, unread, found, has_suffix, trim_suffix, free_name, recovered_path, renamed, recover_file,
  recover_visit,
}

trim_suffix-append : (s suffix : Bytes) → trim_suffix (s ++ suffix) suffix ≡ s
unfolding trim_suffix has_suffix
trim_suffix-append s suffix =
    let at : length (s ++ suffix) - length suffix ≡ length s =
      omega (arith, length-append s suffix) in
    let long : leb (length suffix) (length (s ++ suffix)) ≡ true =
      ground (arith, length-append s suffix) in
    rw (long, at, drop-append s suffix, take-append s suffix, (bytes_eq_iff suffix suffix).1 refl)
      refl

has_suffix-form :
    (s suffix : Bytes)
    → has_suffix s suffix ≡ true
    → s ≡ take (length s - length suffix) s ++ suffix
unfolding has_suffix
has_suffix-form s suffix h =
    let n = length s - length suffix in
    let same : drop n s ≡ suffix = (bytes_eq_iff _ _).0 (ground (arith, h)) in
    sym (take-append-drop n s) ∙ ap (λ back. take n s ++ back) same

-- The last byte.
last : Bytes → ℕ
last [] = 0
last (b ∷ []) = b
last (b ∷ c ∷ s) = last (c ∷ s)

last-append : (s : Bytes) (b : ℕ) (t : Bytes) → last (s ++ b ∷ t) ≡ last (b ∷ t)
unfolding last
last-append [] b t = refl
last-append (a ∷ []) b t = refl
last-append (a ∷ c ∷ s) b t = last-append (c ∷ s) b t

trimmed :
    (stem : Bytes)
    → trim_suffix (stem ++ codes ".mkv.partial") (codes ".partial") ≡ stem ++ codes ".mkv"
trimmed stem =
    ap (λ path. trim_suffix path (codes ".partial"))
      (sym (append_assoc stem (codes ".mkv") (codes ".partial")))
    ∙ trim_suffix-append (stem ++ codes ".mkv") (codes ".partial")

-- The new name is that of the recording, or a name beside it where a recording has it.
recovered_path-cases :
    (disk : Table Bytes) (stem : Bytes)
    → (recovered_path disk (stem ++ codes ".mkv.partial") ≡ stem ++ codes ".mkv")
      ⊎ (recovered_path disk (stem ++ codes ".mkv.partial") ≡ stem ++ codes ".recovered.mkv")
unfolding recovered_path free_name
recovered_path-cases disk stem =
    split_option (λ path. (path ≡ stem ++ codes ".mkv") ⊎ (path ≡ stem ++ codes ".recovered.mkv"))
      (lookup (trim_suffix (stem ++ codes ".mkv.partial") (codes ".partial")) disk) _ _
      (λ _. inl (trimmed stem))
      (λ _ _. inr (
        ap (λ s. trim_suffix s (codes ".mkv") ++ codes ".recovered.mkv") (trimmed stem)
        ∙ ap (λ s. s ++ codes ".recovered.mkv") (trim_suffix-append stem (codes ".mkv"))))

recovered_path-last :
    (disk : Table Bytes) (stem : Bytes)
    → last (recovered_path disk (stem ++ codes ".mkv.partial")) ≡ 118
unfolding last
recovered_path-last disk stem = elim (recovered_path-cases disk stem) [
  | inl e ↦ ap last e ∙ last-append stem 46 _
  | inr e ↦ ap last e ∙ last-append stem 46 _
]

-- A partial file by its path.
abbrev pub IsPartial : Bytes → Type 0
IsPartial path = (stem : Bytes) × (path ≡ stem ++ codes ".mkv.partial")

partial-last : (path : Bytes) → IsPartial path → last path ≡ 108
unfolding last
partial-last path (stem, e) = ap last e ∙ last-append stem 46 _

-- The new name of a partial file is not that of one.
pub recovered_path-other :
    (disk : Table Bytes) (path q : Bytes)
    → IsPartial path
    → IsPartial q
    → bytes_eq (recovered_path disk path) q ≡ false
recovered_path-other disk path q (stem, e) partial =
    elim (Bool-cases (bytes_eq (recovered_path disk path) q)) [
      | inl same ↦
          let ends = ap last (ap (recovered_path disk) (sym e) ∙ (bytes_eq_iff _ _).0 same) in
          absurd (omega (arith, ends, recovered_path-last disk stem, partial-last q partial))
      | inr differs ↦ differs
    ]

-- The path of a visit ends with its name.
abbrev pub IsVisit : Visit → Type 0
IsVisit (unread e) = Unit
IsVisit (found path name is_dir) = (front : Bytes) × (path ≡ front ++ name)

pub visit-IsPartial :
    (path name : Bytes)
    → IsVisit (found path name false)
    → has_suffix name (codes ".mkv.partial") ≡ true
    → IsPartial path
visit-IsPartial path name (front, e) suffix =
    let stem = take (length name - length (codes ".mkv.partial")) name in
    (
      front ++ stem,
      e
          ∙ ap (λ s. front ++ s) (has_suffix-form name (codes ".mkv.partial") suffix)
          ∙ sym (append_assoc front stem (codes ".mkv.partial")),
    )

pub lookup-renamed :
    (path target content : Bytes) (disk : Table Bytes) (q : Bytes)
    → lookup q (renamed path target content disk) ≡ (
        if bytes_eq target q then some content else if bytes_eq path q then none else lookup q disk)
lookup-renamed path target content disk q =
    lookup-insert target q content (delete path disk)
    ∙ ap (λ o. if bytes_eq target q then some content else o) (lookup-delete path q disk)

-- The name of a recovered recording beside what its first name holds.
abbrev pub kept_name : Option Bytes → Bytes → Bytes
kept_name none stem = stem ++ codes ".mkv"
kept_name (some old) stem = stem ++ codes ".recovered.mkv"

free_name-kept_name :
    (disk : Table Bytes) (stem : Bytes)
    → free_name disk (stem ++ codes ".mkv") ≡ kept_name (lookup (stem ++ codes ".mkv") disk) stem
unfolding free_name
free_name-kept_name disk stem = elim (Option-cases (lookup (stem ++ codes ".mkv") disk)) [
  | inl e ↦ rw (free_name, e) refl
  | inr (old, e) ↦
      rw (free_name, e)
        (ap (λ s. s ++ codes ".recovered.mkv") (trim_suffix-append stem (codes ".mkv")))
]

recovered_path-kept_name :
    (disk : Table Bytes) (stem : Bytes)
    → recovered_path disk (stem ++ codes ".mkv.partial")
      ≡ kept_name (lookup (stem ++ codes ".mkv") disk) stem
unfolding recovered_path
recovered_path-kept_name disk stem =
    ap (free_name disk) (trimmed stem) ∙ free_name-kept_name disk stem

-- Two endings of other lengths make other paths.
endings_differ : (stem a b : Bytes) → length a ≢ length b → bytes_eq (stem ++ a) (stem ++ b) ≡ false
endings_differ stem a b differ = elim (Bool-cases (bytes_eq (stem ++ a) (stem ++ b))) [
  | inl same ↦
      let e : stem ++ a ≡ stem ++ b = (bytes_eq_iff (stem ++ a) (stem ++ b)).0 same in
      absurd (differ (omega (arith, ap length e, length-append stem a, length-append stem b)))
  | inr differs ↦ differs
]

-- What the first name holds afterwards: what it held, or else the new recording.
abbrev pub held_or : Option Bytes → Bytes → Bytes
held_or none content = content
held_or (some old) content = old

first_name-kept :
    (stem content : Bytes) (disk : Table Bytes) (o : Option Bytes)
    → lookup (stem ++ codes ".mkv") disk ≡ o
    → lookup
        (stem ++ codes ".mkv")
        (renamed (stem ++ codes ".mkv.partial") (kept_name o stem) content disk)
      ≡ some (held_or o content)
first_name-kept stem content disk none e =
    let first = stem ++ codes ".mkv" in
    lookup-renamed (stem ++ codes ".mkv.partial") first content disk first
    ∙ rw ((bytes_eq_iff first first).1 refl) refl
first_name-kept stem content disk (some old) e =
    let first = stem ++ codes ".mkv" in
    lookup-renamed (stem ++ codes ".mkv.partial") (stem ++ codes ".recovered.mkv") content disk
      first
    ∙ rw
        (
          endings_differ stem (codes ".recovered.mkv") (codes ".mkv") (λ h. omega (arith, h)),
          endings_differ stem (codes ".mkv.partial") (codes ".mkv") (λ h. omega (arith, h)),
        )
        e

module _ (refuses : Bytes → Bool) where
  -- A partial file with content gets the name without `.partial` where no recording has it, and else
  -- that name with `.recovered`: the file there has its content afterwards, the partial file is
  -- gone, and every other file is as it was. A recording that had the first name has it still, with
  -- the same content. What an earlier file had under the name with `.recovered` is lost.
  pub recover_visit-moves :
      (stem name content : Bytes) (disk : Table Bytes) (q : Bytes)
      → IsVisit (found (stem ++ codes ".mkv.partial") name false)
      → has_suffix name (codes ".mkv.partial") ≡ true
      → refuses (stem ++ codes ".mkv.partial") ≡ false
      → lookup (stem ++ codes ".mkv.partial") disk ≡ some content
      → is_nil content ≡ false
      → let path = stem ++ codes ".mkv.partial" in
        let first = stem ++ codes ".mkv" in
        let after = (recover_visit refuses (found path name false) disk).disk in
        (lookup first after ≡ some (held_or (lookup first disk) content))
        × (lookup path after ≡ none)
        × (lookup q after ≡ (
            if bytes_eq (kept_name (lookup first disk) stem) q
            then some content
            else if bytes_eq path q
            then none
            else lookup q disk))
  unfolding recover_visit recover_file
  recover_visit-moves stem name content disk q visit suffix may held full =
      let path = stem ++ codes ".mkv.partial" in
      let first = stem ++ codes ".mkv" in
      let partial : IsPartial path = (stem, refl) in
      let target = kept_name (lookup first disk) stem in
      let is_target : recovered_path disk path ≡ target = recovered_path-kept_name disk stem in
      let after : (recover_visit refuses (found path name false) disk).disk
          ≡ renamed path target content disk =
        rw (recover_visit, suffix, held, recover_file, may, full, is_target) refl in
      let other : bytes_eq target path ≡ false =
        subst (λ p. bytes_eq p path ≡ false) is_target
          (recovered_path-other disk path path partial partial) in
      (
        ap (lookup first) after ∙ first_name-kept stem content disk (lookup first disk) refl,
        ap (lookup path) after
            ∙ lookup-renamed path target content disk path
            ∙ rw (other, (bytes_eq_iff path path).1 refl) refl,
        ap (lookup q) after ∙ lookup-renamed path target content disk q,
      )
