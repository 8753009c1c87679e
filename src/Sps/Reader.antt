-- ===== src/Sps/Reader.antt =====
-- The bit reader of internal/rtsp/dimensions.go.
use fragata.Base.{
  ℕ, zero, suc, ◌+◌, ◌-◌, ◌*◌, ◌/◌, ◌%◌, ◌^◌, ◌&&◌, [], ◌∷◌, Option, none, some, Bytes, length,
  drop, get_elem?, if◌then◌else◌, ltb, leb, ◌==◌,
}

-- The messages of the source, and two faults that its code could have and does not: an index out
-- of range, and a loop that outlives the fuel of the model.
pub data SpsError : Type 0 where
  empty_sps truncated bad_bit_count bad_golomb no_parser : SpsError
  bad_h264_size bad_h265_chroma bad_h265_size : SpsError
  index_panic out_of_fuel : SpsError

pub data Result {ℓ} (A : Type ℓ) : Type ℓ where
  ok : A → Result A
  err : SpsError → Result A

pub record Size : Type 0 where
  pub width : ℕ
  pub height : ℕ

pub record BitReader : Type 0 where
  pub content : Bytes
  pub pos : ℕ

abbrev pub Parser : Type 0 → Type 0
Parser A = BitReader → Result (A × BitReader)

abbrev pub continue :
    {A B : Type 0} → (A → Parser B) → Result (A × BitReader) → Result (B × BitReader)
continue f (ok (a, r)) = f a r
continue f (err e) = err e

infixl 5 ◌>>=◌ ◌>>◌
unfoldable pub ◌>>=◌ : {A B : Type 0} → Parser A → (A → Parser B) → Parser B
◌>>=◌ m f r = continue f (m r)

abbrev pub ◌>>◌ : {A B : Type 0} → Parser A → Parser B → Parser B
m >> k = m >>= λ _. k

unfoldable pub pure : {A : Type 0} → A → Parser A
pure a r = ok (a, r)

unfoldable pub fail : {A : Type 0} → SpsError → Parser A
fail e r = err e

-- 64-bit arithmetic.
abbrev pub u64_mod : ℕ
u64_mod = 2 ^ 64

abbrev pub u64 : ℕ → ℕ
u64 n = n % u64_mod

abbrev pub sub64 : ℕ → ℕ → ℕ
sub64 a b = (a + u64_mod - b) % u64_mod

-- The loop of `newBitReader`: a 3 behind two zero bytes is an emulation prevention byte.
unfoldable pub strip : ℕ → Bytes → Bytes
strip run [] = []
strip run (value ∷ rest) =
    let dropped = strip 0 rest in
    let kept = strip (if value == 0 then run + 1 else 0) rest in
    if leb 2 run && value == 3 then dropped else value ∷ kept

unfoldable pub new_bit_reader : Bytes → ℕ → Result BitReader
new_bit_reader nalu header_bytes =
    if leb (length nalu) header_bytes
    then err empty_sps
    else ok (record { content = strip 0 (drop header_bytes nalu); pos = 0 })

-- (data[pos/8] >> (7 - pos%8)) & 1
unfoldable pub bit_at : Option ℕ → ℕ → Result ℕ
bit_at none pos = err index_panic
bit_at (some byte) pos = ok (byte / 2 ^ (7 - pos % 8) % 2)

abbrev pub at_next : BitReader → Result ℕ → Result (ℕ × BitReader)
at_next r (ok bit) = ok (bit, record r { pos = r.pos + 1 })
at_next r (err e) = err e

unfoldable pub read_bit : Parser ℕ
read_bit r =
    if leb (length r.content * 8) r.pos
    then err truncated
    else at_next r (bit_at (get_elem? r.content (r.pos / 8)) r.pos)

-- The loop of `readBits`, over the bits that are left and the value read so far.
unfoldable pub read_bits_from : ℕ → ℕ → Parser ℕ
read_bits_from zero value = pure value
read_bits_from (suc count) value = do bit ← read_bit; read_bits_from count (u64 (value * 2) + bit)

unfoldable pub read_bits : ℕ → Parser ℕ
read_bits count = if ltb 64 count then fail bad_bit_count else read_bits_from count 0

unfoldable pub skip_bits : ℕ → Parser (Unit {0})
skip_bits count r =
    if ltb (length r.content * 8) (r.pos + count)
    then err truncated
    else ok (tt, record r { pos = r.pos + count })

-- The leading zeros of `readUE`. The loop gives up at 64 of them.
unfoldable pub golomb_zeros : ℕ → ℕ → Parser ℕ
golomb_zeros zero run = fail out_of_fuel
golomb_zeros (suc fuel) run = read_bit >>= λ bit.
    let more = golomb_zeros fuel (run + 1) in
    if bit == 1 then pure run else if ltb 63 (run + 1) then fail bad_golomb else more

unfoldable pub golomb_value : ℕ → Parser ℕ
golomb_value run =
    if run == 0
    then pure 0
    else (read_bits run >>= λ remainder. pure (u64 (2 ^ run - 1 + remainder)))

unfoldable pub read_ue : Parser ℕ
read_ue = golomb_zeros 64 0 >>= golomb_value

-- An even value v stands for -(v/2), an odd one for (v+1)/2; the result is an int64 pattern.
unfoldable pub read_se : Parser ℕ
read_se = do
  value ← read_ue
  pure (if value % 2 == 0 then sub64 0 (value / 2) else u64 (value + 1) / 2)

-- `for range count { readSE }`
unfoldable pub skip_se : ℕ → Parser (Unit {0})
skip_se zero = pure tt
skip_se (suc count) = read_se >>= λ _. skip_se count
