-- ===== src/Protocol/BinaryDecoder/Encoding.antt =====
-- The bytes of a field value, as a sender writes them for this decoder.
use native.Mathlib.Nat.{pow-suc}
use gateway_forge.Common.{
  ℕ, zero, suc, ◌*◌, ◌/◌, ◌^◌, ◌<◌, ◌≡◌, ◌≢◌, refl, ap, sym, ◌∙◌, arith, length,
}
use gateway_forge.Common.Words.{
  Bytes, ℤ, pos, negsuc, be_bytes, le_bytes, le_value, ntohs, ntohl, signed, pattern_of, FitsSigned,
  signed-pattern_of,
}
use gateway_forge.Protocol.FieldType.{
  FieldType, u8, u16, u32, u64, i8, i16, i32, i64, bytes, string, field_type_size,
}
use gateway_forge.Protocol.FieldValue.{
  FieldValue, u8_value, u16_value, u32_value, u64_value, i8_value, i16_value, i32_value, i64_value,
  bytes_value, string_value,
}
use gateway_forge.Protocol.BinaryDecoder.{value_of}

abbrev pub type_of : FieldValue → FieldType
type_of (u8_value n) = u8
type_of (u16_value n) = u16
type_of (u32_value n) = u32
type_of (u64_value n) = u64
type_of (i8_value z) = i8
type_of (i16_value z) = i16
type_of (i32_value z) = i32
type_of (i64_value z) = i64
type_of (bytes_value bs) = bytes
type_of (string_value s) = string

-- 16 and 32 bits in network order, 64 bits with the least significant byte first.
abbrev pub encode_value : FieldValue → Bytes
encode_value (u8_value n) = be_bytes 1 n
encode_value (u16_value n) = be_bytes 2 n
encode_value (u32_value n) = be_bytes 4 n
encode_value (u64_value n) = le_bytes 8 n
encode_value (i8_value z) = be_bytes 1 (pattern_of (2 ^ 7) z)
encode_value (i16_value z) = be_bytes 2 (pattern_of (2 ^ 15) z)
encode_value (i32_value z) = be_bytes 4 (pattern_of (2 ^ 31) z)
encode_value (i64_value z) = le_bytes 8 (pattern_of (2 ^ 63) z)
encode_value (bytes_value bs) = bs
encode_value (string_value s) = s

-- A value of fixed size that its type holds.
abbrev pub Fits : FieldValue → Type 0
Fits (u8_value n) = n < 2 ^ 8
Fits (u16_value n) = n < 2 ^ 16
Fits (u32_value n) = n < 2 ^ 32
Fits (u64_value n) = n < 2 ^ 64
Fits (i8_value z) = FitsSigned (2 ^ 7) z
Fits (i16_value z) = FitsSigned (2 ^ 15) z
Fits (i32_value z) = FitsSigned (2 ^ 31) z
Fits (i64_value z) = FitsSigned (2 ^ 63) z
Fits (bytes_value bs) = ⊥
Fits (string_value s) = ⊥

le_value-le_bytes : (k n : ℕ) → n < 256 ^ k → le_value (le_bytes k n) ≡ n
le_value-le_bytes zero n h = omega arith
le_value-le_bytes (suc k) n h =
    omega (arith, le_value-le_bytes k (n / 256) (omega (arith, pow-suc 256 k)))

octet : (n : ℕ) → n < 2 ^ 8 → le_value (be_bytes 1 n) ≡ n
octet n h = omega arith

pub ntohs-be_bytes : (n : ℕ) → n < 2 ^ 16 → ntohs (le_value (be_bytes 2 n)) ≡ n
ntohs-be_bytes n h = omega arith

ntohl-be_bytes : (n : ℕ) → n < 2 ^ 32 → ntohl (le_value (be_bytes 4 n)) ≡ n
ntohl-be_bytes n h = omega arith

pattern_bound : (half : ℕ) (z : ℤ) → FitsSigned half z → pattern_of half z < 2 * half
pattern_bound half (pos n) h = omega arith
pattern_bound half (negsuc n) h = omega arith

-- A value of any fixed-size type, within the range of that type, is read back from its bytes: 16
-- and 32 bits in network order, 64 bits with the least significant byte first.
pub value_of-encode_value : (v : FieldValue) → Fits v → value_of (type_of v) (encode_value v) ≡ v
unfolding value_of
value_of-encode_value (u8_value n) h = ap u8_value (octet n h)
value_of-encode_value (u16_value n) h = ap u16_value (ntohs-be_bytes n h)
value_of-encode_value (u32_value n) h = ap u32_value (ntohl-be_bytes n h)
value_of-encode_value (u64_value n) h = ap u64_value (le_value-le_bytes 8 n h)
value_of-encode_value (i8_value z) h =
    ap i8_value
      (ap (signed (2 ^ 7)) (octet _ (pattern_bound (2 ^ 7) z h)) ∙ signed-pattern_of (2 ^ 7) z h)
value_of-encode_value (i16_value z) h = ap i16_value (
    ap (signed (2 ^ 15)) (ntohs-be_bytes _ (pattern_bound (2 ^ 15) z h))
    ∙ signed-pattern_of (2 ^ 15) z h)
value_of-encode_value (i32_value z) h = ap i32_value (
    ap (signed (2 ^ 31)) (ntohl-be_bytes _ (pattern_bound (2 ^ 31) z h))
    ∙ signed-pattern_of (2 ^ 31) z h)
value_of-encode_value (i64_value z) h = ap i64_value (
    ap (signed (2 ^ 63)) (le_value-le_bytes 8 _ (pattern_bound (2 ^ 63) z h))
    ∙ signed-pattern_of (2 ^ 63) z h)
value_of-encode_value (bytes_value bs) h = absurd h
value_of-encode_value (string_value s) h = absurd h

pub length-encode_value :
    (v : FieldValue) → Fits v → length (encode_value v) ≡ field_type_size (type_of v)
unfolding field_type_size
length-encode_value (u8_value n) h = refl
length-encode_value (u16_value n) h = refl
length-encode_value (u32_value n) h = refl
length-encode_value (u64_value n) h = refl
length-encode_value (i8_value z) h = refl
length-encode_value (i16_value z) h = refl
length-encode_value (i32_value z) h = refl
length-encode_value (i64_value z) h = refl
length-encode_value (bytes_value bs) h = absurd h
length-encode_value (string_value s) h = absurd h

reversed_u64 : (n : ℕ) → n < 2 ^ 32 → le_value (be_bytes 8 n) ≡ ntohl n * 2 ^ 32
reversed_u64 n h = omega arith

reversed_u64-ne : (n : ℕ) → 0 < n → n < 2 ^ 32 → ntohl n * 2 ^ 32 ≢ n
reversed_u64-ne n positive small = omega arith

-- The 64-bit types are not swapped: a number from 1 to 2 ^ 32 - 1 that stands in network order in a
-- u64 field is read with its bytes reversed, so as another number.
pub value_of_u64_big :
    (n : ℕ)
    → 0 < n
    → n < 2 ^ 32
    → (value_of u64 (be_bytes 8 n) ≡ u64_value (ntohl n * 2 ^ 32))
      × (value_of u64 (be_bytes 8 n) ≢ u64_value n)
unfolding value_of
value_of_u64_big n positive small = (
  ap u64_value (reversed_u64 n small),
  λ e. reversed_u64-ne n positive small (sym (reversed_u64 n small) ∙ u64_injective e),
)
  where
    u64_injective : {a b : ℕ} → u64_value a ≡ u64_value b → a ≡ b
    u64_injective e = cc
