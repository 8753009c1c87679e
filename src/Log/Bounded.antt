-- ===== src/Log/Bounded.antt =====
-- The size of the log file of internal/logging/rolling.go.
use fragata.Base.{
  ℕ, ◌+◌, ◌-◌, ◌≤◌, ◌≡◌, refl, sym, ap, subst, ◌∙◌, inl, inr, ℤ, List, [], ◌∷◌, ◌++◌, none, Bytes,
  length, length-append, length-drop, length-take, ltb→le, take, ltb, leb, if◌then◌else◌, arith,
  Bool-cases, Option-cases,
}
use fragata.Log.{
  RollingWriter, Answers, opened, stale, write, open_writer, close, compact_locked, replace_file,
  append_file, compacted, newest, after_line, keep_limit, read_file, last, newline_index,
  is_nil_file, limit_of,
}

-- The file is within the limit, and while it is open its size is known.
pub IsBounded : ℕ → RollingWriter → Type 0
IsBounded limit w =
    (w.max_size ≡ limit)
    × (length w.content ≤ limit)
    × (w.file ≡ opened → w.size ≡ length w.content)

length-after_line-le : (p : Bytes) → length (after_line p) ≤ length p
unfolding after_line
length-after_line-le p = elim (Option-cases (newline_index p)) [
  | inl n ↦ rw (after_line, n) (omega arith)
  | inr (i, e) ↦ rw (after_line, e) (ground (arith, length-drop (i + 1) p))
]

pub length-newest-le : (limit : ℕ) (p : Bytes) → length (newest limit p) ≤ limit
unfolding newest
length-newest-le limit p =
    let cut = length-after_line-le (last limit p) in
    let kept = length-drop (length p - limit) p in ground (arith, cut, kept)

length-compacted-le : (max : ℕ) (raw pending : Bytes) → length (compacted max raw pending) ≤ max
unfolding compacted
length-compacted-le max raw pending =
    let content =
      newest (keep_limit max pending) (if leb max (length pending) then [] else raw) ++ pending in
    let kept = length-drop (length content - max) content in
    elim (Bool-cases (ltb max (length content))) [
      | inl over ↦ rw over (omega (arith, kept))
      | inr fits ↦ rw fits (ground arith)
    ]

replace_file-IsBounded :
    (limit : ℕ) (os : Answers) (pending : Bytes) (w : RollingWriter)
    → IsBounded limit w
    → w.file ≡ stale
    → IsBounded limit (replace_file os pending w).0
unfolding replace_file IsBounded
replace_file-IsBounded limit os pending w h f = elim (Option-cases (read_file os.read w.content)) [
  | inl n ↦ rw (replace_file, n) h
  | inr (raw, e) ↦
      let fits = length-compacted-le w.max_size raw pending in
      rw (replace_file, e) (ground (arith, fits, h))
]

compact_locked-IsBounded :
    (limit : ℕ) (os : Answers) (pending : Bytes) (w : RollingWriter)
    → IsBounded limit w
    → IsBounded limit (compact_locked os pending w).0
unfolding compact_locked IsBounded
compact_locked-IsBounded limit os pending w h =
    let replaced = replace_file-IsBounded limit os pending (record w { file = stale }) in
    ground (arith, replaced, h)

-- A compaction that succeeds makes the file fit, however long it was.
compacted-IsBounded :
    (limit : ℕ) (os : Answers) (pending : Bytes) (w : RollingWriter)
    → w.max_size ≡ limit
    → (compact_locked os pending w).1 ≡ none
    → IsBounded limit (compact_locked os pending w).0
unfolding compact_locked IsBounded replace_file
compacted-IsBounded limit os pending w m e = elim (Option-cases (read_file os.read w.content)) [
  | inl n ↦ ground (arith, n)
  | inr (raw, f) ↦ ground (arith, f, length-compacted-le w.max_size raw pending)
]

append_file-IsBounded :
    (limit : ℕ) (os : Answers) (p : Bytes) (w : RollingWriter)
    → IsBounded limit w
    → w.size + length p ≤ limit
    → IsBounded limit (append_file os p w).0
unfolding append_file IsBounded
append_file-IsBounded limit os p w h room =
    let joined = length-append w.content p in
    let part = length-append w.content (take os.part p) in
    ground (arith, joined, part, length-take os.part p, h)

write-IsBounded :
    (limit : ℕ) (os : Answers) (given : Bytes) (w : RollingWriter)
    → IsBounded limit w
    → IsBounded limit (write os given w).0
unfolding write IsBounded
write-IsBounded limit os given w h =
    let p = newest w.max_size given in
    elim (Bool-cases (is_nil_file w.file)) [
      | inl n ↦ rw (write, n) h
      | inr n ↦ elim (Bool-cases (ltb w.max_size (w.size + length p))) [
        | inl over ↦ elim (Option-cases (compact_locked os p w).1) [
          | inl ok ↦ rw (write, n, over, ok) (compact_locked-IsBounded limit os p w h)
          | inr (e, failed) ↦ rw (write, n, over, failed) (compact_locked-IsBounded limit os p w h)
        ]
        | inr fits ↦
            rw (write, n, fits)
              (append_file-IsBounded limit os p w h (omega (arith, ltb→le _ _ fits, h.0)))
      ]
    ]

open_writer-IsBounded :
    (os : Answers) (max : ℤ) (content : Bytes)
    → (open_writer os max content).1 ≡ none
    → IsBounded (limit_of max) (open_writer os max content).0
unfolding open_writer IsBounded
open_writer-IsBounded os max content e =
    let w : RollingWriter = record {
      max_size = limit_of max;
      file = opened;
      size = length content;
      content = content;
    } in
    elim (Bool-cases (ltb (limit_of max) (length content))) [
      | inl over ↦
          let small = compacted-IsBounded (limit_of max) os [] w refl in
          let same : open_writer os max content ≡ compact_locked os [] w =
            rw (open_writer, over) refl in
          subst (λ r. IsBounded (limit_of max) r.0) (sym same)
            (small (ap (λ r. r.1) (sym same) ∙ e))
      | inr fits ↦ rw (open_writer, fits) (refl, ltb→le _ _ fits, λ o. refl)
    ]

close-IsBounded :
    (limit : ℕ) (os : Answers) (w : RollingWriter)
    → IsBounded limit w
    → IsBounded limit (close os w).0
unfolding close IsBounded
close-IsBounded limit os w h = ground (arith, h)

-- What the program does with its log, and the system's answers.
pub data Use : Type 0 where
  writes : Answers → Bytes → Use
  closes : Answers → Use

pub use_all : List Use → RollingWriter → RollingWriter
use_all [] w = w
use_all (writes os p ∷ uses) w = use_all uses (write os p w).0
use_all (closes os ∷ uses) w = use_all uses (close os w).0

use_all-IsBounded :
    (limit : ℕ) (uses : List Use) (w : RollingWriter)
    → IsBounded limit w
    → IsBounded limit (use_all uses w)
unfolding use_all
use_all-IsBounded limit [] w h = h
use_all-IsBounded limit (writes os p ∷ uses) w h =
    use_all-IsBounded limit uses (write os p w).0 (write-IsBounded limit os p w h)
use_all-IsBounded limit (closes os ∷ uses) w h =
    use_all-IsBounded limit uses (close os w).0 (close-IsBounded limit os w h)

-- A log that was opened, on a file of any length, never exceeds its limit, whatever is written and
-- whichever calls of the system fail.
pub length-use_all :
    (os : Answers) (max : ℤ) (content : Bytes) (uses : List Use)
    → (open_writer os max content).1 ≡ none
    → length (use_all uses (open_writer os max content).0).content ≤ limit_of max
unfolding IsBounded
length-use_all os max content uses e =
    (use_all-IsBounded (limit_of max) uses (open_writer os max content).0
      (open_writer-IsBounded os max content e)).1
