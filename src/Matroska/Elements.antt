-- ===== src/Matroska/Elements.antt =====
-- The elements of internal/matroska/writer.go against a reader of EBML.
use mathlib.Core.List.{append_assoc}
use fragata.Base.{
  ℕ, suc, ◌^◌, ◌<◌, ◌≡◌, refl, ◌∙◌, false, [], ◌∷◌, ◌++◌, Bytes, length, length-append, take, drop,
  take-append, drop-append, Option, none, some, ltb, if◌then◌else◌, arith,
}
use fragata.Matroska.Ebml.{
  Outcome, ok, err, panicked, ◌>>=◌, be_bytes, encode_size, uint_size_from, uint_element, element,
}
use fragata.Matroska.Sizes.{vint_length, be_value, read_size, encoded-read, be_value-be_bytes}

-- The content behind a size, and the rest.
unfoldable pub read_content : Bytes → Option (ℕ × Bytes) → Option (Bytes × Bytes × Bytes)
read_content id none = none
read_content id (some (size, rest)) =
    if ltb (length rest) size then none else some (id, take size rest, drop size rest)

-- The identifier of the first element, its content, and what follows it.
unfoldable pub read_element : Bytes → Option (Bytes × Bytes × Bytes)
read_element [] = none
read_element (b ∷ bytes) =
    let n = vint_length b in
    if ltb (suc (length bytes)) n
    then none
    else read_content (take n (b ∷ bytes)) (read_size (drop n (b ∷ bytes)))

-- An identifier tells its own length.
unfoldable pub IsId : Bytes → Type 0
IsId [] = ⊥
IsId (b ∷ id) = vint_length b ≡ suc (length id)

pub element-ok :
    (id content bytes : Bytes)
    → element id content ≡ ok bytes
    → (size : Bytes) × (encode_size (length content) ≡ ok size) × (bytes ≡ id ++ size ++ content)
unfolding element
element-ok id content bytes e = sized (encode_size (length content)) refl e
  where
    sized :
        (o : Outcome Bytes)
        → encode_size (length content) ≡ o
        → (o >>= λ size. ok (id ++ size ++ content)) ≡ ok bytes
        → (size : Bytes) × (encode_size (length content) ≡ ok size)
          × (bytes ≡ id ++ size ++ content)
    sized (ok size) e' h = (size, e', cc)
    sized (err e'') e' h = absurd (cc)
    sized panicked e' h = absurd (cc)

read_element-id :
    (id rest : Bytes) (content : Bytes) (size : ℕ)
    → IsId id
    → read_size rest ≡ some (size, content)
    → read_element (id ++ rest) ≡ read_content id (some (size, content))
unfolding IsId read_element
read_element-id [] rest content size h e = absurd h
read_element-id (b ∷ id) rest content size h e =
    let enough : ltb (suc (length (id ++ rest))) (suc (length id)) ≡ false =
      ground (arith, length-append id rest) in
    rw (read_element, h, enough, take-append id rest, drop-append id rest, e) refl

-- Every element that was written is read back, whatever follows it.
pub read_element-element :
    (id content bytes rest : Bytes)
    → IsId id
    → element id content ≡ ok bytes
    → read_element (bytes ++ rest) ≡ some (id, content, rest)
unfolding read_content
read_element-element id content bytes rest h e =
    let (size, encoded, form) = element-ok id content bytes e in
    let back = encoded-read (length content) size (content ++ rest) encoded in
    let enough : ltb (length (content ++ rest)) (length content) ≡ false =
      ground (arith, length-append content rest) in
    rw (form, append_assoc (id ++ size) content rest, append_assoc id size (content ++ rest))
      (read_element-id id (size ++ (content ++ rest)) (content ++ rest) (length content) h back
        ∙ rw (read_content, enough, take-append content rest, drop-append content rest) refl)

uint_size-fits : (value : ℕ) → value < 2 ^ 64 → value < 256 ^ uint_size_from 7 1 value
unfolding uint_size_from
uint_size-fits value h = ground arith

-- Every number of 64 bits is read back from its element.
pub read_element-uint :
    (id : Bytes) (value : ℕ) (bytes rest : Bytes)
    → IsId id
    → value < 2 ^ 64
    → uint_element id value ≡ ok bytes
    → (content : Bytes) × (read_element (bytes ++ rest) ≡ some (id, content, rest))
      × (be_value 0 content ≡ value)
unfolding uint_element
read_element-uint id value bytes rest h small e = (
  be_bytes (uint_size_from 7 1 value) value,
  read_element-element id (be_bytes (uint_size_from 7 1 value) value) bytes rest h e,
  be_value-be_bytes (uint_size_from 7 1 value) value (uint_size-fits value small),
)
