-- ===== src/Base/Maps.antt =====
-- A Go map with string keys, as an association list. The order of the list stands for the order in
-- which `range` meets the entries.
use Prim.Native.Nat.{◌≤◌, ◌+◌}
use mathlib.Core.Path.{◌≡◌, refl}
use mathlib.Core.List.{List, [], ◌∷◌}
use mathlib.Core.Option.{Option, none, some}
use native.Mathlib.Omega.{arith}
use fragata.Base.Tests.{Bool-cases, if◌then◌else◌}
use mathlib.Core.Logic.{inl, inr}
use mathlib.Core.Bool.{Bool}
use fragata.Base.Strings.{Bytes, bytes_eq, bytes_eq_iff}
use fragata.Base.Lists.{length}

abbrev pub Table {ℓ} : Type ℓ → Type ℓ
Table V = List (Bytes × V)

module _ {ℓ} {V : Type ℓ} where
  unfoldable pub lookup : Bytes → Table V → Option V
  lookup k [] = none
  lookup k ((j, v) ∷ t) = if bytes_eq j k then some v else lookup k t

  unfoldable pub insert : Bytes → V → Table V → Table V
  insert k v [] = (k, v) ∷ []
  insert k v ((j, w) ∷ t) = if bytes_eq j k then (k, v) ∷ t else (j, w) ∷ insert k v t

  unfoldable pub delete : Bytes → Table V → Table V
  delete k [] = []
  delete k ((j, w) ∷ t) = let rest = delete k t in if bytes_eq j k then rest else (j, w) ∷ rest

  pub lookup-insert :
      (k j : Bytes) (v : V) (t : Table V)
      → lookup j (insert k v t) ≡ (if bytes_eq k j then some v else lookup j t)
  unfolding lookup insert
  lookup-insert k j v [] = refl
  lookup-insert k j v ((i, w) ∷ t) =
      ground (arith, bytes_eq_iff k j, bytes_eq_iff i k, bytes_eq_iff i j, lookup-insert k j v t)

  pub lookup-delete :
      (k j : Bytes) (t : Table V)
      → lookup j (delete k t) ≡ (if bytes_eq k j then none else lookup j t)
  unfolding lookup delete
  lookup-delete k j [] = ground arith
  lookup-delete k j ((i, w) ∷ t) =
      ground (arith, bytes_eq_iff k j, bytes_eq_iff i k, bytes_eq_iff i j, lookup-delete k j t)

  pub length-insert-le : (k : Bytes) (v : V) (t : Table V) → length (insert k v t) ≤ length t + 1
  unfolding insert
  length-insert-le k v [] = omega arith
  length-insert-le k v ((i, w) ∷ t) = ground (arith, length-insert-le k v t)

  pub length-delete-le : (k : Bytes) (t : Table V) → length (delete k t) ≤ length t
  unfolding delete
  length-delete-le k [] = omega arith
  length-delete-le k ((i, w) ∷ t) = ground (arith, length-delete-le k t)

-- A map holds no key twice.
module _ {ℓ} {V : Type ℓ} where
  abbrev pub IsMap : Table V → Type ℓ
  IsMap [] = Unit
  IsMap ((k, v) ∷ t) = (lookup k t ≡ none) × IsMap t

  pub insert-IsMap : (k : Bytes) (v : V) (t : Table V) → IsMap t → IsMap (insert k v t)
  unfolding insert lookup
  insert-IsMap k v [] h = (refl, tt)
  insert-IsMap k v ((j, w) ∷ t) h = elim (Bool-cases (bytes_eq j k)) [
    | inl e ↦ rw e (rw ((bytes_eq_iff j k).0 e) at h)
    | inr e ↦ rw e (
      ground (arith, lookup-insert k j v t, bytes_eq_iff j k, bytes_eq_iff k j, h.0),
      insert-IsMap k v t h.1,
    )
  ]

  pub delete-IsMap : (k : Bytes) (t : Table V) → IsMap t → IsMap (delete k t)
  unfolding delete
  delete-IsMap k [] h = tt
  delete-IsMap k ((j, w) ∷ t) h = elim (Bool-cases (bytes_eq j k)) [
    | inl e ↦ rw e (delete-IsMap k t h.1)
    | inr e ↦ rw e (ground (arith, lookup-delete k j t, h.0), delete-IsMap k t h.1)
  ]

  -- The entries that pass a test.
  unfoldable pub keep_entries : (V → Bool) → Table V → Table V
  keep_entries p [] = []
  keep_entries p ((k, v) ∷ t) = let rest = keep_entries p t in if p v then (k, v) ∷ rest else rest

  abbrev pub value_if : (V → Bool) → Option V → Option V
  value_if p none = none
  value_if p (some v) = if p v then some v else none

  pub lookup-keep_entries :
      (p : V → Bool) (j : Bytes) (t : Table V)
      → IsMap t
      → lookup j (keep_entries p t) ≡ value_if p (lookup j t)
  unfolding keep_entries lookup
  lookup-keep_entries p j [] h = refl
  lookup-keep_entries p j ((k, v) ∷ t) h =
      ground (arith, bytes_eq_iff k j, lookup-keep_entries p j t h.1, h.0)

  pub keep_entries-IsMap : (p : V → Bool) (t : Table V) → IsMap t → IsMap (keep_entries p t)
  unfolding keep_entries
  keep_entries-IsMap p [] h = tt
  keep_entries-IsMap p ((k, v) ∷ t) h =
      ground (arith, lookup-keep_entries p k t h.1, keep_entries-IsMap p t h.1)

  -- Every entry of the first map is written into the second.
  unfoldable pub put_all : Table V → Table V → Table V
  put_all [] t = t
  put_all ((k, v) ∷ r) t = put_all r (insert k v t)

  abbrev pub first_some : Option V → Option V → Option V
  first_some none o = o
  first_some (some v) o = some v

  pub lookup-put_all :
      (j : Bytes) (r t : Table V)
      → IsMap r
      → lookup j (put_all r t) ≡ first_some (lookup j r) (lookup j t)
  unfolding put_all lookup
  lookup-put_all j [] t h = refl
  lookup-put_all j ((k, v) ∷ r) t h =
      ground
        (arith, bytes_eq_iff k j, lookup-put_all j r (insert k v t) h.1, lookup-insert k j v t, h.0)

  pub put_all-IsMap : (r t : Table V) → IsMap t → IsMap (put_all r t)
  unfolding put_all
  put_all-IsMap [] t h = h
  put_all-IsMap ((k, v) ∷ r) t h = put_all-IsMap r (insert k v t) (insert-IsMap k v t h)

  -- Maps that hold the same entries, in whatever order.
  abbrev pub SameTable : Table V → Table V → Type ℓ
  SameTable t u = (j : Bytes) → lookup j t ≡ lookup j u
