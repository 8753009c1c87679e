-- ===== src/Recorder/Names.antt =====
-- The names of the files of internal/recording/recorder.go.
use fragata.Base.{
  ℕ, zero, suc, ◌+◌, ◌≤◌, ◌<◌, ◌≡◌, refl, sym, subst, ◌∙◌, true, false, List, [], ◌∷◌, ◌++◌, Bytes,
  codes, All, arith, ◌==◌, ==_iff, split_if, Bool-cases, inl, inr,
}
use fragata.Hub.{is_nil}
use fragata.Recorder.Segments.{
  Texts, OpenAnswer, created, exists, named, is_safe_rune, safe_runes, safe_part, attempt_name,
  find_name,
}

-- A letter, a digit, a dash or an underscore.
abbrev pub IsSafe : ℕ → Type 0
IsSafe b = is_safe_rune b ≡ true

safe_runes-IsSafe : (runes : List ℕ) → All IsSafe (safe_runes runes)
unfolding safe_runes
safe_runes-IsSafe [] = tt
safe_runes-IsSafe (r ∷ runes) =
    (split_if IsSafe (is_safe_rune r) r 95 (λ h. h) (λ _. refl), safe_runes-IsSafe runes)

safe_runes-nil : (runes : List ℕ) → is_nil (safe_runes runes) ≡ is_nil runes
unfolding safe_runes
safe_runes-nil [] = refl
safe_runes-nil (r ∷ runes) = refl

-- The folder of a camera is never empty, and has letters, digits, dashes and underscores only: no
-- separator and no dot, whatever the camera is called.
pub safe_part-IsSafe :
    (texts : Texts) (value : Bytes)
    → ((s : Bytes) → is_nil s ≡ false → is_nil (texts.runes s) ≡ false)
    → All IsSafe (safe_part texts value) × (is_nil (safe_part texts value) ≡ false)
unfolding safe_part
safe_part-IsSafe texts value has_runes =
    let trimmed = texts.trim_space value in
    split_if (λ s. All IsSafe s × (is_nil s ≡ false)) (is_nil trimmed) (codes "camera")
      (safe_runes (texts.runes trimmed))
      (λ _. ((refl, (refl, (refl, (refl, (refl, (refl, tt)))))), refl))
      (λ h. (
        safe_runes-IsSafe (texts.runes trimmed),
        safe_runes-nil (texts.runes trimmed) ∙ has_runes trimmed h,
      ))

module _ (texts : Texts) (opens : Bytes → OpenAnswer) (dir base : Bytes) where
  -- The paths of an attempt: while it is written, and when it is complete.
  abbrev pub partial_of : ℕ → Bytes
  partial_of attempt = texts.join (dir ∷ (attempt_name base attempt ++ codes ".mkv.partial") ∷ [])

  abbrev pub final_of : ℕ → Bytes
  final_of attempt = texts.join (dir ∷ (attempt_name base attempt ++ codes ".mkv") ∷ [])

  find_name-later :
      (rounds attempt n : ℕ)
      → attempt ≤ n
      → n < attempt + rounds
      → ((k : ℕ) → attempt ≤ k → k < n → opens (partial_of k) ≡ exists)
      → opens (partial_of n) ≡ created
      → find_name texts opens dir base rounds attempt ≡ named (partial_of n) (final_of n)
  unfolding find_name
  find_name-later zero attempt n lo hi taken free = absurd (omega (arith, lo, hi))
  find_name-later (suc rounds) attempt n lo hi taken free = elim (Bool-cases (attempt == n)) [
    | inl here ↦
        let same : attempt ≡ n = (==_iff attempt n).0 here in
        subst
          (λ m.
            find_name texts opens dir base (suc rounds) attempt ≡ named (partial_of m) (final_of m))
          same (rw (find_name, subst (λ m. opens (partial_of m) ≡ created) (sym same) free) refl)
    | inr later ↦
        let before : attempt < n = ground (arith, lo, later) in
        rw (find_name, taken attempt (omega arith) before)
          (find_name-later rounds (attempt + 1) n (omega (arith, before)) (omega (arith, hi))
            (λ k above below. taken k (omega (arith, above)) below) free)
  ]

  -- When the names of the attempts before the n-th are taken and that of the n-th is free, n below
  -- 100, the recording gets the n-th name.
  pub find_name-first :
      (n : ℕ)
      → n < 100
      → ((k : ℕ) → k < n → opens (partial_of k) ≡ exists)
      → opens (partial_of n) ≡ created
      → find_name texts opens dir base 100 0 ≡ named (partial_of n) (final_of n)
  find_name-first n small taken free =
      find_name-later 100 0 n (omega arith) (omega (arith, small)) (λ k _ below. taken k below) free
