-- ===== src/Base/Lists.antt =====
-- Lists measured by native numbers, under the library's names, and sums over them.
use Prim.Native.Nat.{ℕ, zero, suc, ◌+◌, ◌-◌, ◌≤◌, min}
use mathlib.Core.Path.{◌≡◌, refl, ap, subst}
use mathlib.Core.Bool.{Bool}
use mathlib.Core.List.{List, [], ◌∷◌, ◌++◌}
use mathlib.Core.Option.{Option, none, some}
use native.Mathlib.Omega.{arith}
use fragata.Base.Tests.{if◌then◌else◌}

module _ {ℓ} {A : Type ℓ} where
  abbrev pub length : List A → ℕ
  length [] = 0
  length (x ∷ xs) = suc (length xs)

  abbrev pub drop : ℕ → List A → List A
  drop zero xs = xs
  drop (suc n) [] = []
  drop (suc n) (x ∷ xs) = drop n xs

  abbrev pub take : ℕ → List A → List A
  take zero xs = []
  take (suc n) [] = []
  take (suc n) (x ∷ xs) = x ∷ take n xs

  abbrev pub replicate : ℕ → A → List A
  replicate zero a = []
  replicate (suc n) a = a ∷ replicate n a

  abbrev pub get_elem? : List A → ℕ → Option A
  get_elem? [] i = none
  get_elem? (x ∷ xs) zero = some x
  get_elem? (x ∷ xs) (suc i) = get_elem? xs i

  -- The elements that pass a Boolean test, in order.
  abbrev pub keep : (A → Bool) → List A → List A
  keep p [] = []
  keep p (x ∷ xs) = if p x then x ∷ keep p xs else keep p xs

  abbrev pub set : List A → ℕ → A → List A
  set [] n a = []
  set (x ∷ xs) zero a = a ∷ xs
  set (x ∷ xs) (suc n) a = x ∷ set xs n a

  abbrev pub remove_at : List A → ℕ → List A
  remove_at [] n = []
  remove_at (x ∷ xs) zero = xs
  remove_at (x ∷ xs) (suc n) = x ∷ remove_at xs n

  -- The sum of the elements' weights.
  unfoldable pub total : (A → ℕ) → List A → ℕ
  total w [] = 0
  total w (x ∷ xs) = w x + total w xs

  pub total-append : (w : A → ℕ) (xs ys : List A) → total w (xs ++ ys) ≡ total w xs + total w ys
  unfolding total
  total-append w [] ys = omega arith
  total-append w (x ∷ xs) ys = omega (arith, total-append w xs ys)

  pub total-one : (w : A → ℕ) (x : A) → total w (x ∷ []) ≡ w x
  unfolding total
  total-one w x = omega arith

  pub total-nil : (w : A → ℕ) → total w [] ≡ 0
  unfolding total
  total-nil w = refl

  pub total-set :
      (w : A → ℕ) (xs : List A) (n : ℕ) (x y : A)
      → get_elem? xs n ≡ some x
      → total w (set xs n y) + w x ≡ total w xs + w y
  unfolding total
  total-set w [] n x y h = absurd (cc)
  total-set w (a ∷ xs) zero x y h = let e : a ≡ x = cc in omega (arith, ap w e)
  total-set w (a ∷ xs) (suc n) x y h = omega (arith, total-set w xs n x y h)

  pub get_elem?-set :
      (xs : List A) (n : ℕ) (x y : A) → get_elem? xs n ≡ some x → get_elem? (set xs n y) n ≡ some y
  get_elem?-set [] n x y h = absurd (cc)
  get_elem?-set (a ∷ xs) zero x y h = refl
  get_elem?-set (a ∷ xs) (suc n) x y h = get_elem?-set xs n x y h

  pub set-set : (xs : List A) (n : ℕ) (x y : A) → set (set xs n x) n y ≡ set xs n y
  set-set [] n x y = refl
  set-set (a ∷ xs) zero x y = refl
  set-set (a ∷ xs) (suc n) x y = ap (◌∷◌ a) (set-set xs n x y)

  pub total-remove_at :
      (w : A → ℕ) (xs : List A) (n : ℕ) (x : A)
      → get_elem? xs n ≡ some x
      → total w (remove_at xs n) + w x ≡ total w xs
  unfolding total
  total-remove_at w [] n x h = absurd (cc)
  total-remove_at w (a ∷ xs) zero x h = let e : a ≡ x = cc in omega (arith, ap w e)
  total-remove_at w (a ∷ xs) (suc n) x h = omega (arith, total-remove_at w xs n x h)

  abbrev pub All {κ} : (A → Type κ) → List A → Type κ
  All P [] = Unit
  All P (x ∷ xs) = P x × All P xs

  pub length-append : (xs ys : List A) → length (xs ++ ys) ≡ length xs + length ys
  length-append [] ys = omega arith
  length-append (x ∷ xs) ys = omega (arith, length-append xs ys)

  pub length-drop : (n : ℕ) (xs : List A) → length (drop n xs) ≡ length xs - n
  length-drop zero xs = omega arith
  length-drop (suc n) [] = omega arith
  length-drop (suc n) (x ∷ xs) = omega (arith, length-drop n xs)

  pub drop-append : (xs ys : List A) → drop (length xs) (xs ++ ys) ≡ ys
  drop-append [] ys = refl
  drop-append (x ∷ xs) ys = drop-append xs ys

  pub take-append : (xs ys : List A) → take (length xs) (xs ++ ys) ≡ xs
  take-append [] ys = refl
  take-append (x ∷ xs) ys = ap (◌∷◌ x) (take-append xs ys)

  pub length-take : (n : ℕ) (xs : List A) → length (take n xs) ≡ min n (length xs)
  length-take zero xs = omega arith
  length-take (suc n) [] = omega arith
  length-take (suc n) (x ∷ xs) = omega (arith, length-take n xs)

  pub length-keep-le : (p : A → Bool) (xs : List A) → length (keep p xs) ≤ length xs
  length-keep-le p [] = omega arith
  length-keep-le p (x ∷ xs) = ground (arith, length-keep-le p xs)

  pub take-append-drop : (n : ℕ) (xs : List A) → take n xs ++ drop n xs ≡ xs
  take-append-drop zero xs = refl
  take-append-drop (suc n) [] = refl
  take-append-drop (suc n) (x ∷ xs) = ap (◌∷◌ x) (take-append-drop n xs)

pub All-get_elem? {ℓ κ} :
    {A : Type ℓ} (P : A → Type κ) (xs : List A) (n : ℕ) (x : A)
    → All P xs
    → get_elem? xs n ≡ some x
    → P x
All-get_elem? P [] n x all e = absurd (cc)
All-get_elem? P (a ∷ xs) zero x all e = let e' : a ≡ x = cc in subst P e' all.0
All-get_elem? P (a ∷ xs) (suc n) x all e = All-get_elem? P xs n x all.1 e

pub All-set {ℓ κ} :
    {A : Type ℓ} (P : A → Type κ) (xs : List A) (n : ℕ) (x : A)
    → All P xs
    → P x
    → All P (set xs n x)
All-set P [] n x all h = tt
All-set P (a ∷ xs) zero x all h = (h, all.1)
All-set P (a ∷ xs) (suc n) x all h = (all.0, All-set P xs n x all.1 h)

pub All-append {ℓ κ} :
    {A : Type ℓ} (P : A → Type κ) (front back : List A)
    → All P front
    → All P back
    → All P (front ++ back)
All-append P [] back none_left all_back = all_back
All-append P (x ∷ front) back (here, there) all_back =
    (here, All-append P front back there all_back)

abbrev pub sum : List ℕ → ℕ
sum [] = 0
sum (x ∷ xs) = x + sum xs

pub sum-append : (xs ys : List ℕ) → sum (xs ++ ys) ≡ sum xs + sum ys
sum-append [] ys = omega arith
sum-append (x ∷ xs) ys = omega (arith, sum-append xs ys)
