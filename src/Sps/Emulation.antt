-- ===== src/Sps/Emulation.antt =====
-- `newBitReader` against the emulation prevention of an encoder (H.264 7.3.1, H.265 7.3.1.1).
use fragata.Base.{
  ℕ, ◌+◌, ◌<◌, ◌≡◌, refl, ◌&&◌, [], ◌∷◌, ◌++◌, Bytes, length, length-append, drop-append, arith,
  if◌then◌else◌, leb, ◌==◌,
}
use fragata.Sps.Reader.{ok, strip, new_bit_reader}

-- The encoder: behind two zero bytes, a byte of at most 3 is preceded by a 3.
pub protect : ℕ → Bytes → Bytes
protect run [] = []
protect run (value ∷ rest) =
    let plain = value ∷ protect (if value == 0 then run + 1 else 0) rest in
    let split = 3 ∷ value ∷ protect (if value == 0 then 1 else 0) rest in
    if leb 2 run && leb value 3 then split else plain

strip-protect : (run : ℕ) (raw : Bytes) → strip run (protect run raw) ≡ raw
unfolding strip protect
strip-protect run [] = refl
strip-protect run (value ∷ rest) =
    ground (arith, strip-protect (run + 1) rest, strip-protect 1 rest, strip-protect 0 rest)

length-protect : (run value : ℕ) (rest : Bytes) → 0 < length (protect run (value ∷ rest))
unfolding protect
length-protect run value rest = ground arith

-- For every nonempty raw payload behind a one-byte or longer header, the reader that is made from
-- the protected unit holds exactly the raw payload, and stands at its first bit.
pub new_bit_reader-protect :
    (header : Bytes) (value : ℕ) (rest : Bytes)
    → new_bit_reader (header ++ protect 0 (value ∷ rest)) (length header)
      ≡ ok (record { content = value ∷ rest; pos = 0 })
unfolding new_bit_reader
new_bit_reader-protect header value rest = ground (
  arith,
  length-protect 0 value rest,
  length-append header (protect 0 (value ∷ rest)),
  drop-append header (protect 0 (value ∷ rest)),
  strip-protect 0 (value ∷ rest),
)
