-- ===== src/Sps/Bits.antt =====
-- The reader as a stream of bits, most significant first.
use fragata.Base.{
  ℕ, zero, suc, ◌+◌, ◌*◌, ◌/◌, ◌%◌, ◌<◌, ◌≡◌, refl, sym, ap, ◌∙◌, List, [], ◌∷◌, Bytes, length,
  length-drop, drop, get_elem?, arith,
}
use native.Mathlib.Numerals.{add-one}
use fragata.Sps.Reader.{ok, BitReader, bit_at, read_bit}

pub bits_of : Bytes → List ℕ
bits_of [] = []
bits_of (x ∷ xs) =
    x / 128 % 2
    ∷ x / 64 % 2
    ∷ x / 32 % 2
    ∷ x / 16 % 2
    ∷ x / 8 % 2
    ∷ x / 4 % 2
    ∷ x / 2 % 2
    ∷ x / 1 % 2
    ∷ bits_of xs

-- The bits that a reader has not consumed.
pub remaining : BitReader → List ℕ
unfolding bits_of
remaining r = drop r.pos (bits_of r.content)

length-bits_of : (xs : Bytes) → length (bits_of xs) ≡ length xs * 8
unfolding bits_of
length-bits_of [] = refl
length-bits_of (x ∷ xs) = omega (arith, length-bits_of xs)

next_byte :
    (x : ℕ) (xs : Bytes) (p : ℕ)
    → let pos = suc (suc (suc (suc (suc (suc (suc (suc p))))))) in
      bit_at (get_elem? (x ∷ xs) (pos / 8)) pos ≡ bit_at (get_elem? xs (p / 8)) p
unfolding bit_at
next_byte x xs p =
    let pos : ℕ = suc (suc (suc (suc (suc (suc (suc (suc p))))))) in
    let quotient : pos / 8 ≡ suc (p / 8) = omega arith in
    let remainder : pos % 8 ≡ p % 8 = omega arith in rw quotient (ground (arith, remainder))

-- At every position inside the content there is a bit, and it heads what remains.
record HasBit (content : Bytes) (pos : ℕ) : Type 0 where
  bit : ℕ
  found : bit_at (get_elem? content (pos / 8)) pos ≡ ok bit
  heads : drop pos (bits_of content) ≡ bit ∷ drop (suc pos) (bits_of content)

has_bit : (content : Bytes) (pos : ℕ) → pos < length content * 8 → HasBit content pos
unfolding bit_at bits_of
has_bit [] pos h = absurd (omega arith)
has_bit (x ∷ xs) zero h = record { bit = _; found = refl; heads = refl }
has_bit (x ∷ xs) (suc zero) h = record { bit = _; found = refl; heads = refl }
has_bit (x ∷ xs) (suc (suc zero)) h = record { bit = _; found = refl; heads = refl }
has_bit (x ∷ xs) (suc (suc (suc zero))) h = record { bit = _; found = refl; heads = refl }
has_bit (x ∷ xs) (suc (suc (suc (suc zero)))) h = record { bit = _; found = refl; heads = refl }
has_bit (x ∷ xs) (suc (suc (suc (suc (suc zero))))) h = record {
  bit = _;
  found = refl;
  heads = refl;
}
has_bit (x ∷ xs) (suc (suc (suc (suc (suc (suc zero)))))) h = record {
  bit = _;
  found = refl;
  heads = refl;
}
has_bit (x ∷ xs) (suc (suc (suc (suc (suc (suc (suc zero))))))) h = record {
  bit = _;
  found = refl;
  heads = refl;
}
has_bit (x ∷ xs) (suc (suc (suc (suc (suc (suc (suc (suc p)))))))) h =
    let inner = has_bit xs p (omega arith) in
    record { bit = inner.bit; found = next_byte x xs p ∙ inner.found; heads = inner.heads }

cons_injective : (a b : ℕ) (xs ys : List ℕ) → a ∷ xs ≡ b ∷ ys → (a ≡ b) × (xs ≡ ys)
cons_injective a b xs ys e = (cc, cc)

-- A reader whose next bit is `bit` reads that bit and moves on to the rest.
pub read_bit-remaining :
    (r : BitReader) (bit : ℕ) (rest : List ℕ)
    → remaining r ≡ bit ∷ rest
    → let r' = record r { pos = r.pos + 1 } in (read_bit r ≡ ok (bit, r')) × (remaining r' ≡ rest)
unfolding read_bit remaining
read_bit-remaining r bit rest e =
    let inside : r.pos < length r.content * 8 =
      omega (arith, ap length e, length-drop r.pos (bits_of r.content), length-bits_of r.content) in
    let b = has_bit r.content r.pos inside in
    let same = cons_injective _ _ _ _ (sym b.heads ∙ e) in
    (ground (arith, b.found, same.0), rw add-one (same.1))
