-- ===== src/Protocol/FieldValue.antt =====
-- protocol/FieldValue: the variant of a decoded field, and its print.
use gateway_forge.Common.{ℕ, suc, ◌+◌, ◌/◌, ◌%◌, [], ◌∷◌, ltb, if◌then◌else◌}
use gateway_forge.Common.Words.{Bytes, ℤ, pos, negsuc}
use gateway_forge.Common.Text.{Text, to_string}

pub data FieldValue : Type 0 where
  u8_value u16_value u32_value u64_value : ℕ → FieldValue
  i8_value i16_value i32_value i64_value : ℤ → FieldValue
  bytes_value : Bytes → FieldValue
  string_value : Text → FieldValue

-- One hexadecimal digit, in lower case.
abbrev hex_digit : ℕ → ℕ
hex_digit n = if ltb n 10 then n + 48 else n + 87

-- Two digits and a blank for each byte.
abbrev pub hex_dump : Bytes → Text
hex_dump [] = []
hex_dump (b ∷ bs) = hex_digit (b / 16) ∷ hex_digit (b % 16) ∷ b' ' ∷ hex_dump bs

-- `std::to_string` of a signed number.
abbrev pub signed_to_string : ℤ → Text
signed_to_string (pos n) = to_string n
signed_to_string (negsuc n) = b'-' ∷ to_string (suc n)

unfoldable pub value_to_string : FieldValue → Text
value_to_string (u8_value n) = to_string n
value_to_string (u16_value n) = to_string n
value_to_string (u32_value n) = to_string n
value_to_string (u64_value n) = to_string n
value_to_string (i8_value z) = signed_to_string z
value_to_string (i16_value z) = signed_to_string z
value_to_string (i32_value z) = signed_to_string z
value_to_string (i64_value z) = signed_to_string z
value_to_string (bytes_value bs) = hex_dump bs
value_to_string (string_value s) = s
