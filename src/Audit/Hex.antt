-- ===== src/Audit/Hex.antt =====
-- `hex_encode`, `hex_decode` and `from_hex` of daemon/crates/athar-audit/src/lib.rs, over bytes.
use Prim.Native.Nat.{bit_and, bit_or}
use athar.Prelude.{
  ℕ, zero, suc, ◌+◌, ◌-◌, ◌*◌, ◌/◌, ◌%◌, ◌<◌, ◌≡◌, refl, Bool, true, false, ◌&&◌, [], ◌∷◌, Bytes,
  length, All, leb, ltb, ◌==◌, if◌then◌else◌, arith,
}

pub data HexError : Type 0 where
  odd_length invalid_digit : HexError

pub data Decoded {ℓ} (A : Type ℓ) : Type ℓ where
  ok : A → Decoded A
  err : HexError → Decoded A

infixl 5 ◌>>=◌
abbrev pub ◌>>=◌ : {A B : Type 0} → Decoded A → (A → Decoded B) → Decoded B
ok a >>= f = f a
err e >>= f = err e

-- The digit at a place of the table `HEX`.
unfoldable pub hex_digit : ℕ → ℕ
hex_digit n = if ltb n 10 then b'0' + n else b'a' + (n - 10)

unfoldable pub hex_encode : Bytes → Bytes
hex_encode [] = []
hex_encode (b ∷ bs) = hex_digit (b / 16) ∷ hex_digit (bit_and b 0x0f) ∷ hex_encode bs

unfoldable pub from_hex : ℕ → Decoded ℕ
from_hex b =
    if leb b'0' b && leb b b'9'
    then ok (b - b'0')
    else if leb b'a' b && leb b b'f'
    then ok (b - b'a' + 10)
    else if leb b'A' b && leb b b'F'
    then ok (b - b'A' + 10)
    else err invalid_digit

-- `(hi << 4) | lo` on bytes.
unfoldable pub join_nibbles : ℕ → ℕ → ℕ
join_nibbles hi lo = bit_or (hi * 16 % 256) lo

-- The loop, two bytes to a round. A single last byte would be out of bounds; the test on the length
-- excludes it.
unfoldable pub decode_pairs : Bytes → Decoded Bytes
decode_pairs [] = ok []
decode_pairs (h ∷ []) = err odd_length
decode_pairs (h ∷ l ∷ rest) = do
  hi ← from_hex h
  lo ← from_hex l
  bs ← decode_pairs rest
  ok (join_nibbles hi lo ∷ bs)

unfoldable pub hex_decode : Bytes → Decoded Bytes
unfolding decode_pairs
hex_decode s = if length s % 2 == 0 then decode_pairs s else err odd_length

-- The test passes on every number below the bound.
passes_below : (ℕ → Bool) → ℕ → Bool
passes_below test zero = true
passes_below test (suc last) = if test last then passes_below test last else false

test_of_passes_below :
    (test : ℕ → Bool) (bound : ℕ)
    → passes_below test bound ≡ true
    → (b : ℕ) → b < bound
    → test b ≡ true
unfolding passes_below
test_of_passes_below test zero passed b below = absurd (omega arith)
test_of_passes_below test (suc last) passed b below =
    ground (arith, λ (p : passes_below test last ≡ true). test_of_passes_below test last p b)

-- What the two digits of a byte decode to.
decode_byte : ℕ → Decoded ℕ
decode_byte b = do
  hi ← from_hex (hex_digit (b / 16))
  lo ← from_hex (hex_digit (bit_and b 0x0f))
  ok (join_nibbles hi lo)

is_ok : ℕ → Decoded ℕ → Bool
is_ok b (ok c) = c == b
is_ok b (err e) = false

byte_table : passes_below (λ b. is_ok b (decode_byte b)) 256 ≡ true
unfolding passes_below is_ok decode_byte from_hex hex_digit join_nibbles
byte_table = refl

ok_of_is_ok : (b : ℕ) (d : Decoded ℕ) → is_ok b d ≡ true → d ≡ ok b
unfolding is_ok
ok_of_is_ok b (ok c) h = ground arith
ok_of_is_ok b (err e) h = cc

decode_byte_lem : (b : ℕ) → b < 256 → decode_byte b ≡ ok b
decode_byte_lem b h = ok_of_is_ok b _ (test_of_passes_below _ 256 byte_table b h)

even-length : (bs : Bytes) → length (hex_encode bs) % 2 ≡ 0
unfolding hex_encode
even-length [] = omega arith
even-length (b ∷ bs) = omega (arith, even-length bs)

decode_pairs-hex_encode :
    (bs : Bytes) → All (λ b. b < 256) bs → decode_pairs (hex_encode bs) ≡ ok bs
unfolding hex_encode decode_pairs decode_byte
decode_pairs-hex_encode [] h = refl
decode_pairs-hex_encode (b ∷ bs) h =
    ground (arith, decode_byte_lem b h.0, decode_pairs-hex_encode bs h.1)

-- Every byte string is decoded from its hexadecimal spelling.
pub hex_decode-hex_encode :
    (bs : Bytes) → All (λ b. b < 256) bs → hex_decode (hex_encode bs) ≡ ok bs
unfolding hex_decode
hex_decode-hex_encode bs h = ground (arith, even-length bs, decode_pairs-hex_encode bs h)
