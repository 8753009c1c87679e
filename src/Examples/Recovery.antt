-- ===== src/Examples/Recovery.antt =====
-- internal/recording/recover_test.go: names, and the recovery of partial files.
use fragata.Base.{
  ℕ, ◌≡◌, refl, true, false, List, [], ◌∷◌, Bytes, codes, arith, none, some, bytes_eq, All, ◌<◌,
  zero, suc, Bool, Table, lookup, insert, delete, if◌then◌else◌,
}
use fragata.Hub.{is_nil}
use fragata.Recorder.Segments.{Texts, OpenAnswer, exists, created, safe_part}
use fragata.Recorder.Names.{IsSafe, safe_part-IsSafe, partial_of}
use fragata.Recorder.Recover.{
  Visit, found, has_suffix, trim_suffix, free_name, recovered_path, recover_file, recover_visit,
  walk,
}
use fragata.Recorder.Recovery.{recover_visit-moves, kept_name, held_or}
use fragata.Recorder.Clearing.{is_cleared, walk-clears}

abbrev texts : Texts
texts = record {
  trim_space = λ s. s;
  runes = λ s. s;
  join = λ parts. [];
  format = λ layout at. layout;
}

safe_part-IsSafe_example :
    All IsSafe (safe_part texts (codes "a/../b"))
    × (is_nil (safe_part texts (codes "a/../b")) ≡ false)
safe_part-IsSafe_example = safe_part-IsSafe texts (codes "a/../b") (λ s h. h)

abbrev last_of : List Bytes → Bytes
last_of [] = []
last_of (part ∷ []) = part
last_of (part ∷ next ∷ parts) = last_of (next ∷ parts)

-- The first name is taken, and the second is free.
abbrev named_texts : Texts
named_texts = record texts { join = λ parts. last_of parts }

abbrev busy : Bytes → OpenAnswer
unfolding bytes_eq
busy path = if bytes_eq path (codes "12-00.mkv.partial") then exists else created

first_taken : (k : ℕ) → k < 1 → busy (partial_of named_texts busy [] (codes "12-00") k) ≡ exists
unfolding bytes_eq
first_taken zero h = refl
first_taken (suc k) h = absurd (omega (arith, h))

second_free : busy (partial_of named_texts busy [] (codes "12-00") 1) ≡ created
unfolding bytes_eq
second_free = refl

-- A partial file whose recording is there already, and an empty one.
abbrev disk : Table Bytes
disk =
    (codes "d/a.mkv.partial", 1 ∷ [])
    ∷ (codes "d/a.mkv", 2 ∷ [])
    ∷ (codes "d/b.mkv.partial", [])
    ∷ (codes "d/a.recovered.mkv", 3 ∷ [])
    ∷ []

abbrev willing : Bytes → Bool
willing path = false

partial_name : has_suffix (codes "a.mkv.partial") (codes ".mkv.partial") ≡ true
unfolding has_suffix bytes_eq
partial_name = refl

partial_held : lookup (codes "d/a.mkv.partial") disk ≡ some (1 ∷ [])
unfolding lookup bytes_eq
partial_held = refl

abbrev moved : Table Bytes
moved =
    (recover_visit willing (found (codes "d/a.mkv.partial") (codes "a.mkv.partial") false)
      disk).disk

-- The earlier file under the second name is replaced.
recover_visit-moves_example :
    (lookup (codes "d/a.mkv") moved ≡ some (held_or (lookup (codes "d/a.mkv") disk) (1 ∷ [])))
    × (lookup (codes "d/a.mkv.partial") moved ≡ none)
    × (lookup (codes "d/a.recovered.mkv") moved ≡ (
        if bytes_eq
          (kept_name (lookup (codes "d/a.mkv") disk) (codes "d/a"))
          (codes "d/a.recovered.mkv")
        then some (1 ∷ [])
        else if bytes_eq (codes "d/a.mkv.partial") (codes "d/a.recovered.mkv")
        then none
        else lookup (codes "d/a.recovered.mkv") disk))
recover_visit-moves_example =
    recover_visit-moves willing (codes "d/a") (codes "a.mkv.partial") (1 ∷ []) disk
      (codes "d/a.recovered.mkv") (codes "d/", refl) partial_name refl partial_held refl

abbrev visits : List Visit
visits =
    found (codes "d") (codes "d") true
    ∷ found (codes "d/a.mkv") (codes "a.mkv") false
    ∷ found (codes "d/a.mkv.partial") (codes "a.mkv.partial") false
    ∷ found (codes "d/b.mkv.partial") (codes "b.mkv.partial") false
    ∷ []

no_failure : (walk willing visits disk).failed ≡ none
unfolding walk recover_visit recover_file recovered_path free_name trim_suffix has_suffix lookup
    insert delete bytes_eq
no_failure = refl

walk-clears_example : All (λ v. is_cleared (walk willing visits disk).disk v ≡ true) visits
walk-clears_example =
    walk-clears willing visits disk
      (([], refl), ((codes "d/", refl), ((codes "d/", refl), ((codes "d/", refl), tt)))) no_failure
