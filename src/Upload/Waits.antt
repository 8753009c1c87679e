-- ===== src/Upload/Waits.antt =====
-- internal/upload/uploader.go: the waits between attempts, and the attempt that works.
use fragata.Base.{
  ℤ, pos, negsuc, ℕ, zero, suc, ◌+◌, ◌-◌, ◌*◌, ◌^◌, ◌≤◌, ◌<◌, ◌≡◌, refl, false, arith, lt_int,
  pos_part, if◌then◌else◌, split_if,
}
use fragata.Upload.{backoff}

power-bounds : (k : ℕ) → k ≤ 7 → (1 ≤ 2 ^ k) × (2 ^ k ≤ 128)
power-bounds zero h = (omega arith, omega arith)
power-bounds (suc zero) h = (omega arith, omega arith)
power-bounds (suc (suc zero)) h = (omega arith, omega arith)
power-bounds (suc (suc (suc zero))) h = (omega arith, omega arith)
power-bounds (suc (suc (suc (suc zero)))) h = (omega arith, omega arith)
power-bounds (suc (suc (suc (suc (suc zero))))) h = (omega arith, omega arith)
power-bounds (suc (suc (suc (suc (suc (suc zero)))))) h = (omega arith, omega arith)
power-bounds (suc (suc (suc (suc (suc (suc (suc zero))))))) h = (omega arith, omega arith)
power-bounds (suc (suc (suc (suc (suc (suc (suc (suc k)))))))) h = absurd (omega arith)

abbrev second : ℕ
second = 1_000_000_000

in_range :
    (attempts : ℤ)
    → lt_int attempts (pos 1) ≡ false
    → lt_int (pos 8) attempts ≡ false
    → (1 ≤ pos_part attempts) × (pos_part attempts ≤ 8)
in_range (pos n) low high = (ground arith, ground arith)
in_range (negsuc n) low high = absurd (ground arith)

within : (attempts : ℤ) → (30 * second ≤ backoff attempts) × (backoff attempts ≤ 3840 * second)
unfolding backoff
within attempts =
    let count =
      if lt_int attempts (pos 1)
      then 1
      else if lt_int (pos 8) attempts
      then 8
      else pos_part attempts in
    let InRange : ℕ → Type 0 = λ c. (1 ≤ c) × (c ≤ 8) in
    let range : InRange count =
      split_if InRange (lt_int attempts (pos 1)) _ _ (λ e. (omega arith, omega arith))
        (λ low.
          split_if InRange (lt_int (pos 8) attempts) _ _ (λ e. (omega arith, omega arith))
            (λ high. in_range attempts low high)) in
    let power = power-bounds (count - 1) (omega (arith, range.0, range.1)) in
    (omega (arith, power.0), omega (arith, power.1))

doubles : (n : ℕ) → n < 7 → backoff (pos (n + 2)) ≡ 2 * backoff (pos (n + 1))
unfolding backoff
doubles zero h = refl
doubles (suc zero) h = refl
doubles (suc (suc zero)) h = refl
doubles (suc (suc (suc zero))) h = refl
doubles (suc (suc (suc (suc zero)))) h = refl
doubles (suc (suc (suc (suc (suc zero))))) h = refl
doubles (suc (suc (suc (suc (suc (suc zero)))))) h = refl
doubles (suc (suc (suc (suc (suc (suc (suc n))))))) h = absurd (omega arith)

-- The wait after any number of attempts is from 30 seconds to 64 minutes, is 30 seconds after the
-- first, and doubles from each of the first seven to the next.
pub backoff-bounds :
    (attempts : ℤ) (n : ℕ)
    → n < 7
    → (30 * second ≤ backoff attempts)
      × (backoff attempts ≤ 3840 * second)
      × (backoff (pos 1) ≡ 30 * second)
      × (backoff (pos (n + 2)) ≡ 2 * backoff (pos (n + 1)))
unfolding backoff
backoff-bounds attempts n h =
    let bounds = within attempts in (bounds.0, bounds.1, refl, doubles n h)
