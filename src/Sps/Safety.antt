-- ===== src/Sps/Safety.antt =====
-- Indexing, loops and the position of the reader in internal/rtsp/dimensions.go.
use fragata.Base.{
  ℕ, zero, suc, ◌+◌, ◌*◌, ◌/◌, ◌≤◌, ◌<◌, ◌≡◌, refl, ap, ◌∙◌, ◌⊎◌, some, Bool, true, false, inl, inr,
  [], ◌∷◌, Bytes, length, arith, if◌then◌else◌, ltb, leb, ◌==◌, Bool-cases, ltb→le, get_elem?,
}
use fragata.Sps.Reader.{
  SpsError, bad_bit_count, bad_golomb, index_panic, out_of_fuel, Result, ok, err, Parser, BitReader,
  ◌>>=◌, continue, pure, fail, bit_at, read_bit, read_bits_from, read_bits, skip_bits, golomb_zeros,
  golomb_value, read_ue, read_se, skip_se, u64,
}

-- The errors that the source returns, as against the two faults of the model.
abbrev pub IsMessage : SpsError → Type 0
IsMessage index_panic = ⊥
IsMessage out_of_fuel = ⊥
IsMessage _ = Unit

abbrev pub Advances : {A : Type 0} → BitReader → Result (A × BitReader) → Type 0
Advances r (ok (a, r')) =
    (r'.content ≡ r.content) × (r.pos ≤ r'.pos) × (r'.pos ≤ length r.content * 8)
Advances r (err e) = IsMessage e

pub record IsSafe {A : Type 0} (m : Parser A) : Type 0 where
  pub run : (r : BitReader) → r.pos ≤ length r.content * 8 → Advances r (m r)

pub IsSafe-pure : {A : Type 0} (a : A) → IsSafe (pure a)
unfolding pure
IsSafe-pure a = record { run = λ r h. (refl, omega arith, h) }

pub IsSafe-fail : {A : Type 0} (e : SpsError) → IsMessage e → IsSafe (fail {A = A} e)
unfolding fail
IsSafe-fail e h = record { run = λ r k. h }

Advances-continue :
    {A B : Type 0} (f : A → Parser B) (r : BitReader) (x : Result (A × BitReader))
    → ((a : A) → IsSafe (f a))
    → Advances r x
    → Advances r (continue f x)
Advances-continue f r (err e) s h = h
Advances-continue {B = B} f r (ok (a, r')) s h = moved (f a r') ((s a).run r' (rw h.0 h.2))
  where
    moved : (y : Result (B × BitReader)) → Advances r' y → Advances r y
    moved (err e) k = k
    moved (ok (b, r'')) k = (k.0 ∙ h.0, omega arith, omega (arith, ap length h.0))

pub IsSafe-bind :
    {A B : Type 0} (m : Parser A) (f : A → Parser B)
    → IsSafe m
    → ((a : A) → IsSafe (f a))
    → IsSafe (m >>= f)
unfolding ◌>>=◌
IsSafe-bind m f p q = record { run = λ r h. Advances-continue f r (m r) q (p.run r h) }

pub IsSafe-if :
    {A : Type 0} (b : Bool) (m n : Parser A) → IsSafe m → IsSafe n → IsSafe (if b then m else n)
IsSafe-if true m n p q = p
IsSafe-if false m n p q = q

pub ruleset rules = (IsSafe-pure, IsSafe-bind, IsSafe-if)

byte_present :
    (content : Bytes) (i : ℕ) → i < length content → (b : ℕ) × (get_elem? content i ≡ some b)
byte_present [] i h = absurd (omega arith)
byte_present (x ∷ xs) zero h = (x, refl)
byte_present (x ∷ xs) (suc i) h = byte_present xs i (omega arith)

pub read_bit-IsSafe : IsSafe read_bit
unfolding read_bit bit_at
read_bit-IsSafe = record { run = λ r h. step r h (Bool-cases (leb (length r.content * 8) r.pos)) }
  where
    step :
        (r : BitReader)
        → r.pos ≤ length r.content * 8
        → (leb (length r.content * 8) r.pos ≡ true) ⊎ (leb (length r.content * 8) r.pos ≡ false)
        → Advances r (read_bit r)
    step r h (inl e) = rw e tt
    step r h (inr e) =
        let found = byte_present r.content (r.pos / 8) (ground arith) in
        rw (e, found.1) (refl, omega arith, ground arith)

read_bits_from-IsSafe : (count value : ℕ) → IsSafe (read_bits_from count value)
unfolding read_bits_from
read_bits_from-IsSafe zero value = IsSafe-pure value
read_bits_from-IsSafe (suc count) value =
    IsSafe-bind read_bit _ read_bit-IsSafe
      λ bit. read_bits_from-IsSafe count (u64 (value * 2) + bit)

pub read_bits-IsSafe : (count : ℕ) → IsSafe (read_bits count)
unfolding read_bits
read_bits-IsSafe count =
    IsSafe-if _ _ _ (IsSafe-fail bad_bit_count tt) (read_bits_from-IsSafe count 0)

pub skip_bits-IsSafe : (count : ℕ) → IsSafe (skip_bits count)
unfolding skip_bits
skip_bits-IsSafe count = record {
  run = λ r h. step r h (Bool-cases (ltb (length r.content * 8) (r.pos + count)));
}
  where
    step :
        (r : BitReader)
        → r.pos ≤ length r.content * 8
        → (ltb (length r.content * 8) (r.pos + count) ≡ true)
          ⊎ (ltb (length r.content * 8) (r.pos + count) ≡ false)
        → Advances r (skip_bits count r)
    step r h (inl e) = rw e tt
    step r h (inr e) = rw e (refl, omega arith, ltb→le _ _ e)

golomb_zeros-IsSafe : (fuel run : ℕ) → run ≤ 63 → 64 ≤ run + fuel → IsSafe (golomb_zeros fuel run)
unfolding golomb_zeros
golomb_zeros-IsSafe zero run h k = absurd (omega arith)
golomb_zeros-IsSafe (suc fuel) run h k = IsSafe-bind read_bit _ read_bit-IsSafe λ bit.
    IsSafe-if (bit == 1) _ _ (IsSafe-pure run) (elim (Bool-cases (ltb 63 (run + 1))) [
      | inl e ↦ rw e (IsSafe-fail bad_golomb tt)
      | inr e ↦ rw e (golomb_zeros-IsSafe fuel (run + 1) (ltb→le 63 (run + 1) e) (omega arith))
    ])

pub read_ue-IsSafe : IsSafe read_ue
unfolding read_ue golomb_value
read_ue-IsSafe =
    IsSafe-bind (golomb_zeros 64 0) _ (golomb_zeros-IsSafe 64 0 (omega arith) (omega arith))
      λ run. search (rules, read_bits-IsSafe)

pub read_se-IsSafe : IsSafe read_se
unfolding read_se
read_se-IsSafe = search (rules, read_ue-IsSafe)

pub skip_se-IsSafe : (count : ℕ) → IsSafe (skip_se count)
unfolding skip_se
skip_se-IsSafe zero = IsSafe-pure tt
skip_se-IsSafe (suc count) = IsSafe-bind read_se _ read_se-IsSafe λ _. skip_se-IsSafe count

pub ruleset readers =
    (rules, read_bit-IsSafe, read_bits-IsSafe, skip_bits-IsSafe, read_ue-IsSafe, read_se-IsSafe)
