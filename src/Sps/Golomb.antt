-- ===== src/Sps/Golomb.antt =====
-- What the bit reader reads, against the codes of the standards: fixed-width numbers and Exp-Golomb
-- codes (H.264 9.1, H.265 9.2).
use fragata.Base.{
  ℕ, zero, suc, ◌+◌, ◌-◌, ◌*◌, ◌/◌, ◌%◌, ◌^◌, ◌≤◌, ◌<◌, ◌≡◌, refl, ◌∙◌, inl, inr, false, ltb→le,
  List, [], ◌∷◌, ◌++◌, length, length-append, replicate, All, All-append, arith, if◌then◌else◌, ltb,
  ◌==◌, Bool-cases,
}
use mathlib.Core.List.{append_assoc, append-nil}
use native.Mathlib.Nat.{add-zero, zero-add, pow-suc, pow-le-pow_right}
use fragata.Sps.Reader.{
  ok, Parser, BitReader, ◌>>=◌, pure, u64, read_bit, read_bits_from, read_bits, golomb_zeros,
  golomb_value, read_ue,
}
use fragata.Sps.Bits.{remaining, read_bit-remaining}

-- Wherever the reader stands before `bits`, the parser returns `a` and leaves what follows them.
pub record Reads {A : Type 0} (m : Parser A) (bits : List ℕ) (a : A) : Type 0 where
  pub run :
      (r : BitReader) (rest : List ℕ)
      → remaining r ≡ bits ++ rest
      → (r' : BitReader) × (m r ≡ ok (a, r')) × (remaining r' ≡ rest)

pub Reads-pure : {A : Type 0} (a : A) → Reads (pure a) [] a
unfolding pure
Reads-pure a = record { run = λ r rest e. (r, refl, e) }

pub Reads-bind :
    {A B : Type 0} (m : Parser A) (f : A → Parser B) (xs ys : List ℕ) (a : A) (b : B)
    → Reads m xs a
    → Reads (f a) ys b
    → Reads (m >>= f) (xs ++ ys) b
unfolding ◌>>=◌
Reads-bind m f xs ys a b p q = record {
  run = λ r rest e.
      let (r₁, e₁, s₁) = p.run r (ys ++ rest) (e ∙ append_assoc xs ys rest) in
      let (r₂, e₂, s₂) = q.run r₁ rest s₁ in (r₂, rw e₁ e₂, s₂);
}

pub Reads-bit : (b : ℕ) → Reads read_bit (b ∷ []) b
Reads-bit b = record { run = λ r rest e. let h = read_bit-remaining r b rest e in (_, h.0, h.1) }

-- A list of bits as a number, most significant first, behind the bits read so far.
pub value_from : ℕ → List ℕ → ℕ
value_from acc [] = acc
value_from acc (b ∷ bs) = value_from (acc * 2 + b) bs

le-value_from : (acc : ℕ) (bs : List ℕ) → acc ≤ value_from acc bs
unfolding value_from
le-value_from acc [] = omega arith
le-value_from acc (b ∷ bs) = omega (arith, le-value_from (acc * 2 + b) bs)

abbrev pub AreBits : List ℕ → Type 0
AreBits = All (λ b. b < 2)

value_from-lt : (acc : ℕ) (bs : List ℕ) → AreBits bs → value_from acc bs < (acc + 1) * 2 ^ length bs
unfolding value_from
value_from-lt acc [] h = omega arith
value_from-lt acc (b ∷ bs) h =
    grind (arith, value_from-lt (acc * 2 + b) bs h.1, pow-suc 2 (length bs), h.0)

value_from-append :
    (acc b : ℕ) (bs : List ℕ) → value_from acc (bs ++ b ∷ []) ≡ value_from acc bs * 2 + b
unfolding value_from
value_from-append acc b [] = refl
value_from-append acc b (c ∷ bs) = value_from-append (acc * 2 + c) b bs

split_step : (acc b p v w : ℕ) → v ≡ b * p + w → (acc * 2 + b) * p + w ≡ acc * (p * 2) + v
split_step acc b p v w h = omega arith

value_from-split :
    (acc : ℕ) (bs : List ℕ) → value_from acc bs ≡ acc * 2 ^ length bs + value_from 0 bs
unfolding value_from
value_from-split acc [] = omega arith
value_from-split acc (b ∷ bs) =
    value_from-split (acc * 2 + b) bs
    ∙ rw pow-suc (
        split_step acc b (2 ^ length bs) (value_from (0 + b) bs) _
          (value_from-split (0 + b) bs ∙ rw zero-add))

Reads-bits_from :
    (acc : ℕ) (bs : List ℕ)
    → value_from acc bs < 2 ^ 64
    → Reads (read_bits_from (length bs) acc) bs (value_from acc bs)
unfolding read_bits_from value_from
Reads-bits_from acc [] h = Reads-pure acc
Reads-bits_from acc (b ∷ bs) h =
    let small : u64 (acc * 2) ≡ acc * 2 = omega (arith, le-value_from (acc * 2 + b) bs) in
    Reads-bind read_bit _ (b ∷ []) bs b _ (Reads-bit b)
      (rw small (Reads-bits_from (acc * 2 + b) bs h))

pow-le-u64 : (k : ℕ) → k ≤ 64 → 2 ^ k ≤ 2 ^ 64
pow-le-u64 k h = pow-le-pow_right {n = 2} (omega arith) h

-- `readBits` returns the next bits, at most 64 of them, as one big-endian number.
pub read_bits-Reads :
    (bs : List ℕ) → AreBits bs → length bs ≤ 64 → Reads (read_bits (length bs)) bs (value_from 0 bs)
unfolding read_bits
read_bits-Reads bs h n =
    let fits : value_from 0 bs < 2 ^ 64 =
      omega (arith, value_from-lt 0 bs h, pow-le-u64 (length bs) n) in
    let allowed : ltb 64 (length bs) ≡ false = ground arith in
    rw allowed (Reads-bits_from 0 bs fits)

Reads-zeros :
    (k run fuel : ℕ)
    → k < fuel
    → run + k ≤ 63
    → Reads (golomb_zeros fuel run) (replicate k 0 ++ 1 ∷ []) (run + k)
unfolding golomb_zeros
Reads-zeros k run zero h n = absurd (omega arith)
Reads-zeros zero run (suc fuel) h n =
    rw add-zero (Reads-bind read_bit _ (1 ∷ []) [] 1 run (Reads-bit 1) (Reads-pure run))
Reads-zeros (suc k) run (suc fuel) h n =
    let allowed : ltb 63 (run + 1) ≡ false = ground arith in
    let shift : run + 1 + k ≡ run + suc k = omega arith in
    Reads-bind read_bit _ (0 ∷ []) (replicate k 0 ++ 1 ∷ []) 0 (run + suc k) (Reads-bit 0)
      (rw (allowed, ← shift) (Reads-zeros k (run + 1) fuel (omega arith) (omega arith)))

code_value : (p v w : ℕ) → v ≡ 1 * p + w → w < (0 + 1) * p → p ≤ 2 ^ 63 → v - 1 ≡ u64 (p - 1 + w)
code_value p v w e h k = omega arith

Reads-value :
    (bs : List ℕ)
    → AreBits bs
    → length bs ≤ 63
    → Reads (golomb_value (length bs)) bs (value_from 1 bs - 1)
unfolding golomb_value value_from
Reads-value [] h n = Reads-pure 0
Reads-value (b ∷ bs) h n =
    let whole : List ℕ = b ∷ bs in
    let below = value_from-lt 0 whole h in
    let power = pow-le-pow_right {n = 2} (omega arith) {i = length whole} {j = 63} n in
    let total : value_from 1 whole - 1 ≡ u64 (2 ^ length whole - 1 + value_from 0 whole) =
      code_value (2 ^ length whole) _ _ (value_from-split 1 whole) below power in
    let answer : ℕ = u64 (2 ^ length whole - 1 + value_from 0 whole) in
    let last : ℕ → Parser ℕ = λ remainder. pure (u64 (2 ^ length whole - 1 + remainder)) in
    let nonempty : (length whole == 0) ≡ false = ground arith in
    rw (total, nonempty)
      (rw append-nil at (
        Reads-bind (read_bits (length whole)) last whole [] (value_from 0 whole) answer
          (read_bits-Reads whole h (omega arith)) (Reads-pure answer)))

-- The standards' code of a number: as many zeros as it has bits behind the leading one of its
-- successor, that one, and those bits.
unfoldable pub tail_bits : ℕ → ℕ → List ℕ
tail_bits zero n = []
tail_bits (suc fuel) n =
    let more = tail_bits fuel (n / 2) ++ (n % 2 ∷ []) in if ltb n 2 then [] else more

length-tail_bits : (fuel n : ℕ) → length (tail_bits fuel n) ≤ fuel
unfolding tail_bits
length-tail_bits zero n = omega arith
length-tail_bits (suc fuel) n =
    ground
      (arith, length-tail_bits fuel (n / 2), length-append (tail_bits fuel (n / 2)) (n % 2 ∷ []))

AreBits-tail_bits : (fuel n : ℕ) → AreBits (tail_bits fuel n)
unfolding tail_bits
AreBits-tail_bits zero n = tt
AreBits-tail_bits (suc fuel) n = elim (Bool-cases (ltb n 2)) [
  | inl small ↦ rw small tt
  | inr big ↦ rw big (
      All-append (λ b. b < 2) (tail_bits fuel (n / 2)) (n % 2 ∷ []) (AreBits-tail_bits fuel (n / 2))
        (omega arith))
]

value_from-tail_bits : (fuel n : ℕ) → 0 < n → n < 2 ^ suc fuel → value_from 1 (tail_bits fuel n) ≡ n
unfolding tail_bits value_from
value_from-tail_bits zero n h k = omega arith
value_from-tail_bits (suc fuel) n h k = elim (Bool-cases (ltb n 2)) [
  | inl small ↦ rw small (ground arith)
  | inr big ↦ rw big (
      value_from-append 1 (n % 2) (tail_bits fuel (n / 2))
      ∙ omega (
        arith,
        ltb→le n 2 big,
        value_from-tail_bits fuel (n / 2) (omega (arith, ltb→le n 2 big))
            (omega (arith, pow-suc 2 (suc fuel))),
      ))
]

unfoldable pub golomb_code : ℕ → List ℕ
golomb_code n = let bs = tail_bits 63 (n + 1) in (replicate (length bs) 0 ++ 1 ∷ []) ++ bs

-- Every number below 2^64 - 1 is read back from its Exp-Golomb code, wherever that code stands.
pub read_ue-golomb_code : (n : ℕ) → n < 2 ^ 64 - 1 → Reads read_ue (golomb_code n) n
unfolding read_ue golomb_code
read_ue-golomb_code n h =
    let bs : List ℕ = tail_bits 63 (n + 1) in
    let short = length-tail_bits 63 (n + 1) in
    let whole : value_from 1 bs - 1 ≡ n =
      omega (arith, value_from-tail_bits 63 (n + 1) (omega arith) (omega arith)) in
    rw whole at (
      Reads-bind (golomb_zeros 64 0) golomb_value (replicate (length bs) 0 ++ 1 ∷ []) bs
        (0 + length bs) (value_from 1 bs - 1)
        (Reads-zeros (length bs) 0 64 (omega arith) (omega arith))
        (rw zero-add (Reads-value bs (AreBits-tail_bits 63 (n + 1)) short)))
