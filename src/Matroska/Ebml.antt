-- ===== src/Matroska/Ebml.antt =====
-- internal/matroska/writer.go: elements. A `bytes.Buffer` takes every write, so an element in a buffer
-- is its bytes, or the panic of `encodeSize`.
use Prim.Native.Nat.{bit_or}
use fragata.Base.{
  ℕ, zero, suc, ◌+◌, ◌-◌, ◌*◌, ◌/◌, ◌%◌, ◌^◌, ℤ, pos, negsuc, List, [], ◌∷◌, ◌++◌, Bytes, length,
  leb, if◌then◌else◌,
}

pub data WriterError : Type 0 where
  closed_writer : WriterError
  no_resolution : WriterError
  no_parameter_sets : WriterError
  unknown_codec : WriterError
  cluster_range : WriterError
  write_failed : WriterError

-- What a function returns, or its panic.
pub data Outcome (A : Type 0) : Type 0 where
  ok : A → Outcome A
  err : WriterError → Outcome A
  panicked : Outcome A

infixl 5 ◌>>=◌
abbrev pub ◌>>=◌ : {A B : Type 0} → Outcome A → (A → Outcome B) → Outcome B
ok a >>= f = f a
err e >>= f = err e
panicked >>= f = panicked

-- The last `size` bytes of a number, most significant first: `byte(value)` and `value >>= 8`, from the
-- end of the buffer.
abbrev pub be_bytes : ℕ → ℕ → Bytes
be_bytes zero value = []
be_bytes (suc size) value = be_bytes size (value / 256) ++ (value % 256) ∷ []

-- `out[0] |= mark`.
abbrev pub mark_first : ℕ → Bytes → Bytes
mark_first mark [] = []
mark_first mark (b ∷ bytes) = bit_or b mark ∷ bytes

-- The loop of `encodeSize`, with the rounds left and n; behind it stands the panic.
unfoldable pub encode_size_from : ℕ → ℕ → ℕ → Outcome Bytes
encode_size_from zero n value = panicked
encode_size_from (suc rounds) n value =
    let later = encode_size_from rounds (n + 1) value in
    if leb value (2 ^ (7 * n) - 2) then ok (mark_first (2 ^ (8 - n)) (be_bytes n value)) else later

unfoldable pub encode_size : ℕ → Outcome Bytes
unfolding encode_size_from
encode_size value = encode_size_from 8 1 value

-- `writeElement` into a buffer.
unfoldable pub element : Bytes → Bytes → Outcome Bytes
element id content = do size ← encode_size (length content); ok (id ++ size ++ content)

-- The loop of `writeUint`; a size of 8 ends it.
unfoldable pub uint_size_from : ℕ → ℕ → ℕ → ℕ
uint_size_from zero size value = size
uint_size_from (suc rounds) size value =
    let larger = uint_size_from rounds (size + 1) value in
    if leb (2 ^ (size * 8)) value then larger else size

unfoldable pub uint_element : Bytes → ℕ → Outcome Bytes
uint_element id value = element id (be_bytes (uint_size_from 7 1 value) value)

-- Elements written to one buffer after another.
unfoldable pub elements : List (Outcome Bytes) → Outcome Bytes
elements [] = ok []
elements (e ∷ es) = do first ← e; rest ← elements es; ok (first ++ rest)

abbrev pub append_uint16 : ℕ → Bytes
append_uint16 value = (value / 256 % 256) ∷ (value % 256) ∷ []

-- Conversions of an `int` to an unsigned integer of so many values.
abbrev pub unsigned : ℕ → ℤ → ℕ
unsigned values (pos n) = n % values
unsigned values (negsuc n) = values - 1 - n % values

-- The bytes of a number, least significant first.
abbrev pub le_bytes : ℕ → ℕ → Bytes
le_bytes zero value = []
le_bytes (suc size) value = (value % 256) ∷ le_bytes size (value / 256)
