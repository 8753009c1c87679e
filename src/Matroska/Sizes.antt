-- ===== src/Matroska/Sizes.antt =====
-- The numbers of internal/matroska/writer.go against a reader of EBML (RFC 8794, 4 and 7.1).
use Prim.Native.Nat.{bit_or}
use native.Mathlib.Nat.{pow-suc}
use fragata.Base.{
  ℕ, zero, suc, ◌+◌, ◌-◌, ◌*◌, ◌/◌, ◌%◌, ◌^◌, ◌≤◌, ◌<◌, ◌≡◌, refl, sym, ap, subst, ◌∙◌, inl, inr,
  Bool, true, false, not, ◌&&◌, ◌||◌, [], ◌∷◌, ◌++◌, Bytes, length, length-append, take, drop,
  take-append, drop-append, Option, none, some, ltb, leb, ◌==◌, if◌then◌else◌, Bool-cases, leb→le,
  arith,
}
use fragata.Matroska.Ebml.{
  Outcome, ok, err, panicked, be_bytes, mark_first, encode_size, encode_size_from,
}

-- How many bytes a number has whose first byte is this: one more than its leading zeros.
abbrev pub vint_length : ℕ → ℕ
vint_length b =
    if leb 128 b
    then 1
    else if leb 64 b
    then 2
    else if leb 32 b
    then 3
    else if leb 16 b
    then 4
    else if leb 8 b
    then 5
    else if leb 4 b
    then 6
    else if leb 2 b
    then 7
    else 8

unfoldable pub be_value : ℕ → Bytes → ℕ
be_value value [] = value
be_value value (b ∷ bytes) = be_value (value * 256 + b) bytes

-- A size without its marker, and what follows it.
unfoldable pub read_size : Bytes → Option (ℕ × Bytes)
read_size [] = none
read_size (b ∷ rest) =
    let n = vint_length b in
    if ltb (length rest) (n - 1)
    then none
    else some (be_value (b - 2 ^ (8 - n)) (take (n - 1) rest), drop (n - 1) rest)

be_value-append :
    (value : ℕ) (xs : Bytes) (b : ℕ) → be_value value (xs ++ b ∷ []) ≡ be_value value xs * 256 + b
unfolding be_value
be_value-append value [] b = refl
be_value-append value (x ∷ xs) b = be_value-append (value * 256 + x) xs b

pub length-be_bytes : (size value : ℕ) → length (be_bytes size value) ≡ size
length-be_bytes zero value = refl
length-be_bytes (suc size) value = omega (
  arith,
  length-append (be_bytes size (value / 256)) ((value % 256) ∷ []),
  length-be_bytes size (value / 256),
)

pub be_value-be_bytes :
    (size value : ℕ) → value < 256 ^ size → be_value 0 (be_bytes size value) ≡ value
unfolding be_value
be_value-be_bytes zero value h = omega arith
be_value-be_bytes (suc size) value h =
    be_value-append 0 (be_bytes size (value / 256)) (value % 256)
    ∙ omega (arith, be_value-be_bytes size (value / 256) (omega (arith, h, pow-suc 256 size)))

-- A first byte below its marker, and the marker.
marks : ℕ → ℕ → Bool
marks n x =
    not (ltb x (2 ^ (8 - suc n)))
    || (bit_or x (2 ^ (8 - suc n)) == x + 2 ^ (8 - suc n)
        && vint_length (x + 2 ^ (8 - suc n)) == suc n)

-- A test of every number below a bound, from the largest.
passes_below : (ℕ → Bool) → ℕ → Bool
passes_below test zero = true
passes_below test (suc bound) = if test bound then passes_below test bound else false

passed :
    (test : ℕ → Bool) (bound x : ℕ) → x < bound → passes_below test bound ≡ true → test x ≡ true
unfolding passes_below
passed test zero x small all = absurd (omega arith)
passed test (suc bound) x small all = ground (arith, passed test bound x)

marks_table : passes_below (λ n. passes_below (marks n) 256) 8 ≡ true
unfolding passes_below marks
marks_table = refl

marks-true : (n x : ℕ) → n < 8 → x < 256 → marks n x ≡ true
marks-true n x small byte =
    passed (marks n) 256 x byte (passed (λ n. passes_below (marks n) 256) 8 n small marks_table)

marked :
    (n x : ℕ)
    → n < 8
    → x < 256
    → x < 2 ^ (8 - suc n)
    → (bit_or x (2 ^ (8 - suc n)) ≡ x + 2 ^ (8 - suc n))
      × (vint_length (x + 2 ^ (8 - suc n)) ≡ suc n)
unfolding marks
marked n x small byte fits = ground (arith, marks-true n x small byte)

read_size-marked :
    (n x value : ℕ) (tail rest : Bytes)
    → n < 8
    → x < 256
    → x < 2 ^ (8 - suc n)
    → length tail ≡ n
    → be_value x tail ≡ value
    → read_size ((bit_or x (2 ^ (8 - suc n)) ∷ tail) ++ rest) ≡ some (value, rest)
unfolding read_size
read_size-marked n x value tail rest small byte fits len e =
    let (marker, size) = marked n x small byte fits in
    let enough : ltb (length (tail ++ rest)) n ≡ false =
      ground (arith, length-append tail rest, len) in
    let last : suc n - 1 ≡ n = omega arith in
    let unmarked : x + 2 ^ (8 - suc n) - 2 ^ (8 - suc n) ≡ x = omega arith in
    let front : take n (tail ++ rest) ≡ tail =
      ap (λ k. take k (tail ++ rest)) (sym len) ∙ take-append tail rest in
    let back : drop n (tail ++ rest) ≡ rest =
      ap (λ k. drop k (tail ++ rest)) (sym len) ∙ drop-append tail rest in
    rw (read_size, marker, size, last, enough, unmarked, front, back, e) refl

-- What the reader makes of an encoded size: the number and the bytes behind it.
pub IsRead : ℕ → Outcome Bytes → Type 0
IsRead value (ok bytes) = (rest : Bytes) → read_size (bytes ++ rest) ≡ some (value, rest)
IsRead value o = ⊥

-- One round of the loop of `encodeSize`.
round :
    (rounds n value : ℕ)
    → (leb value (2 ^ (7 * n) - 2) ≡ true
        → IsRead value (ok (mark_first (2 ^ (8 - n)) (be_bytes n value))))
    → (leb value (2 ^ (7 * n) - 2) ≡ false → IsRead value (encode_size_from rounds (n + 1) value))
    → IsRead value (encode_size_from (suc rounds) n value)
unfolding encode_size_from
round rounds n value here later = elim (Bool-cases (leb value (2 ^ (7 * n) - 2))) [
  | inl fits ↦ rw (encode_size_from, fits) (here fits)
  | inr large ↦ rw (encode_size_from, large) (later large)
]

-- The bytes of a number of n + 1 bytes, from the first.
marked_bytes-IsRead :
    (n x value : ℕ) (tail : Bytes)
    → n < 8
    → x < 256
    → x < 2 ^ (8 - suc n)
    → length tail ≡ n
    → be_value x tail ≡ value
    → IsRead value (ok (mark_first (2 ^ (8 - suc n)) (x ∷ tail)))
unfolding IsRead
marked_bytes-IsRead n x value tail small byte fits len e rest =
    read_size-marked n x value tail rest small byte fits len e

leb-false : (a b : ℕ) → leb a b ≡ false → b < a
leb-false a b h = ground arith

encode_size-IsRead : (value : ℕ) → value ≤ 2 ^ 56 - 2 → IsRead value (encode_size value)
unfolding encode_size be_value
encode_size-IsRead value h =
    round 7 1 value
      (λ f.
        marked_bytes-IsRead 0 _ value _ (omega arith) (omega arith) (omega (arith, leb→le _ _ f))
          refl (omega (arith, leb→le _ _ f)))
      (λ _.
        round 6 2 value
          (λ f.
            marked_bytes-IsRead 1 _ value _ (omega arith) (omega arith)
              (omega (arith, leb→le _ _ f)) refl (omega (arith, leb→le _ _ f)))
          (λ _.
            round 5 3 value
              (λ f.
                marked_bytes-IsRead 2 _ value _ (omega arith) (omega arith)
                  (omega (arith, leb→le _ _ f)) refl (omega (arith, leb→le _ _ f)))
              (λ _.
                round 4 4 value
                  (λ f.
                    marked_bytes-IsRead 3 _ value _ (omega arith) (omega arith)
                      (omega (arith, leb→le _ _ f)) refl (omega (arith, leb→le _ _ f)))
                  (λ _.
                    round 3 5 value
                      (λ f.
                        marked_bytes-IsRead 4 _ value _ (omega arith) (omega arith)
                          (omega (arith, leb→le _ _ f)) refl (omega (arith, leb→le _ _ f)))
                      (λ _.
                        round 2 6 value
                          (λ f.
                            marked_bytes-IsRead 5 _ value _ (omega arith) (omega arith)
                              (omega (arith, leb→le _ _ f)) refl (omega (arith, leb→le _ _ f)))
                          (λ _.
                            round 1 7 value
                              (λ f.
                                marked_bytes-IsRead 6 _ value _ (omega arith) (omega arith)
                                  (omega (arith, leb→le _ _ f)) refl (omega (arith, leb→le _ _ f)))
                              (λ _.
                                round 0 8 value
                                  (λ f.
                                    marked_bytes-IsRead 7 _ value _ (omega arith) (omega arith)
                                      (omega (arith, leb→le _ _ f)) refl
                                      (omega (arith, leb→le _ _ f)))
                                  (λ f. absurd (omega (arith, h, leb-false _ _ f))))))))))

encode_size-panics : (value : ℕ) → 2 ^ 56 - 2 < value → encode_size value ≡ panicked
unfolding encode_size
encode_size-panics value h = ground arith

pub encoded-read :
    (value : ℕ) (size rest : Bytes)
    → encode_size value ≡ ok size
    → read_size (size ++ rest) ≡ some (value, rest)
unfolding IsRead
encoded-read value size rest e = elim (Bool-cases (leb value (2 ^ 56 - 2))) [
  | inl fits ↦ (subst (IsRead value) e (encode_size-IsRead value (leb→le _ _ fits))) rest
  | inr large ↦ absurd (cc (encode_size-panics value (ground arith)))
]

-- Every size up to 2^56 - 2 is encoded, and read back, whatever follows it.
pub read_size-encode_size :
    (value : ℕ) (rest : Bytes)
    → value ≤ 2 ^ 56 - 2
    → (size : Bytes) × (encode_size value ≡ ok size)
      × (read_size (size ++ rest) ≡ some (value, rest))
unfolding IsRead
read_size-encode_size value rest h = sized (encode_size value) refl
  where
    sized :
        (o : Outcome Bytes)
        → encode_size value ≡ o
        → (size : Bytes) × (encode_size value ≡ ok size)
          × (read_size (size ++ rest) ≡ some (value, rest))
    sized (ok size) e = (size, e, encoded-read value size rest e)
    sized (err e') e = absurd (subst (IsRead value) e (encode_size-IsRead value h))
    sized panicked e = absurd (subst (IsRead value) e (encode_size-IsRead value h))
