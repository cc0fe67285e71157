-- ===== src/Protocol/BinaryDecoder/Layout.antt =====
-- Headers of fixed-size fields, as a sender writes them, and what the two loops over the fields of a
-- schema make of them.
use gateway_forge.Common.{
  ℕ, ◌+◌, ◌^◌, ◌≤◌, ◌<◌, ◌≡◌, refl, ap, sym, ◌∙◌, false, none, List, [], ◌∷◌, ◌++◌, arith, ltb,
  length, if◌then◌else◌, length-append, append_assoc, append-nil, le→ltb-false, drop, drop-drop,
  drop-append, take-append, Bool-cases, inl, inr,
}
use gateway_forge.Common.Words.{Bytes, add64}
use gateway_forge.Common.Text.{Text, text_eq}
use gateway_forge.Common.Outcome.{done}
use gateway_forge.Common.Memory.{memcpy, memcpy_inside}
use gateway_forge.Protocol.FieldType.{field_type_size}
use gateway_forge.Protocol.FieldValue.{
  FieldValue, u8_value, u16_value, u32_value, u64_value, i8_value, i16_value, i32_value, i64_value,
  bytes_value, string_value,
}
use gateway_forge.Protocol.Schema.{FieldDef}
use gateway_forge.Protocol.BinaryDecoder.{
  Fields, put, get, size_in, decode_fields, length_of_type, length_of_field, find_length,
}
use gateway_forge.Protocol.BinaryDecoder.Encoding.{
  type_of, encode_value, Fits, value_of-encode_value, length-encode_value, ntohs-be_bytes,
}

-- The bytes of a header.
abbrev pub encode_fields : Fields → Bytes
encode_fields [] = []
encode_fields ((name, v) ∷ header) = encode_value v ++ encode_fields header

-- The fields of the schema have the names and the types of these values, which fit.
abbrev pub Describes : List FieldDef → Fields → Type 0
Describes [] [] = Unit {0}
Describes (field ∷ fields) ((name, v) ∷ header) =
    (field.name ≡ name) × (field.type ≡ type_of v) × Fits v × Describes fields header
Describes _ _ = ⊥

-- The payload length that one value, and a whole header, declares: that of the last u16 field with the
-- length field's name.
abbrev pub declared_by : FieldValue → ℕ → ℕ
declared_by (u16_value n) acc = n
declared_by _ acc = acc

abbrev pub declared : Text → Fields → ℕ → ℕ
declared lf [] acc = acc
declared lf ((name, v) ∷ header) acc =
    declared lf header (if text_eq name lf then declared_by v acc else acc)

-- Each name is put for the first time.
abbrev pub FreshNames : Fields → Fields → Type 0
FreshNames message [] = Unit {0}
FreshNames message ((name, v) ∷ header) =
    (get name message ≡ none) × FreshNames (message ++ ((name, v) ∷ [])) header

pub put-fresh :
    (name : Text) (v : FieldValue) (message : Fields)
    → get name message ≡ none
    → put name v message ≡ message ++ ((name, v) ∷ [])
unfolding put get
put-fresh name v [] h = refl
put-fresh name v ((n, w) ∷ message) h = ground (arith, put-fresh name v message)

-- A part of a block, read where it stands.
pub memcpy_at :
    (block : Bytes) (offset n : ℕ) (part tail : Bytes)
    → offset + length part ≤ length block
    → drop offset block ≡ part ++ tail
    → n ≡ length part
    → memcpy block offset n ≡ done part
memcpy_at block offset n part tail h e k =
    memcpy_inside block offset n (omega arith) ∙ ap done (rw (e, k) (take-append part tail))

size_in_fixed :
    (v : FieldValue) (var_len : ℕ) → Fits v → size_in var_len (type_of v) ≡ length (encode_value v)
size_in_fixed (bytes_value bs) var_len h = absurd h
size_in_fixed (string_value s) var_len h = absurd h
size_in_fixed (u8_value n) var_len h = sym (length-encode_value (u8_value n) h)
size_in_fixed (u16_value n) var_len h = sym (length-encode_value (u16_value n) h)
size_in_fixed (u32_value n) var_len h = sym (length-encode_value (u32_value n) h)
size_in_fixed (u64_value n) var_len h = sym (length-encode_value (u64_value n) h)
size_in_fixed (i8_value z) var_len h = sym (length-encode_value (i8_value z) h)
size_in_fixed (i16_value z) var_len h = sym (length-encode_value (i16_value z) h)
size_in_fixed (i32_value z) var_len h = sym (length-encode_value (i32_value z) h)
size_in_fixed (i64_value z) var_len h = sym (length-encode_value (i64_value z) h)

module _ (block : Bytes) (small : length block < 2 ^ 62) where
  pub drop_next :
      (offset : ℕ) (part rest : Bytes)
      → drop offset block ≡ part ++ rest
      → drop (offset + length part) block ≡ rest
  drop_next offset part rest e =
      drop-drop offset (length part) (offset + length part) block refl
      ∙ ap (drop (length part)) e
      ∙ drop-append part rest

  -- The decoding loop reads a header field by field, and goes on behind it.
  pub decode_header :
      (var_len : ℕ → ℕ) (limit : ℕ) (fields : List FieldDef) (header : Fields)
      (more : List FieldDef) (offset : ℕ) (message : Fields) (tail : Bytes)
      → Describes fields header
      → FreshNames message header
      → drop offset block ≡ encode_fields header ++ tail
      → offset + length (encode_fields header) ≤ limit
      → limit ≤ length block
      → decode_fields block var_len limit (fields ++ more) offset message
        ≡ decode_fields block var_len limit more
            (offset + length (encode_fields header))
            (message ++ header)
  unfolding decode_fields
  decode_header var_len limit [] [] more offset message tail d f e h l =
      rw (append-nil message)
        (ap (λ (o : ℕ). decode_fields block var_len limit more o message) (omega arith))
  decode_header var_len limit [] (entry ∷ header) more offset message tail d f e h l = absurd d
  decode_header var_len limit (field ∷ fields) [] more offset message tail d f e h l = absurd d
  decode_header var_len limit (field ∷ fields) ((name, v) ∷ header) more offset message tail
        (named, typed, fits, d) (fresh, f) e h l =
      rw (named, typed, size_in_fixed v (var_len offset) fits)
        (rw (wrap, guard, read, value_of-encode_value v fits, put-fresh name v message fresh)
          (decode_header var_len limit fields header more (offset + length (encode_value v))
              (message ++ ((name, v) ∷ [])) tail d f
              (drop_next offset (encode_value v) (encode_fields header ++ tail) regrouped)
              (omega (arith, both)) l
            ∙ rw (append_assoc message ((name, v) ∷ []) header) (
                ap
                  (λ (o : ℕ).
                    decode_fields block var_len limit more o (message ++ ((name, v) ∷ header)))
                  (omega (arith, both)))))
    where
      both :
          length (encode_value v ++ encode_fields header)
          ≡ length (encode_value v) + length (encode_fields header)
      both = length-append (encode_value v) (encode_fields header)

      regrouped : drop offset block ≡ encode_value v ++ (encode_fields header ++ tail)
      regrouped = e ∙ append_assoc (encode_value v) (encode_fields header) tail

      wrap : add64 offset (length (encode_value v)) ≡ offset + length (encode_value v)
      wrap = omega (arith, both)

      guard : ltb limit (offset + length (encode_value v)) ≡ false
      guard = le→ltb-false _ _ (omega (arith, both))

      read : memcpy block offset (length (encode_value v)) ≡ done (encode_value v)
      read =
          memcpy_at block offset _ (encode_value v) (encode_fields header ++ tail)
            (omega (arith, both)) regrouped refl

  -- What one field of the header gives for the payload length.
  read_declared :
      (name : Text) (v : FieldValue) (lf : Text) (offset acc : ℕ) (tail : Bytes)
      → Fits v
      → drop offset block ≡ encode_value v ++ tail
      → offset + length (encode_value v) ≤ length block
      → length_of_type block (type_of v) offset acc ≡ done (declared_by v acc)
  read_declared name (u16_value n) lf offset acc tail h e l =
      rw (memcpy_at block offset 2 (encode_value (u16_value n)) tail l e refl)
        (ap done (ntohs-be_bytes n h))
  read_declared name (u8_value n) lf offset acc tail h e l = refl
  read_declared name _ lf offset acc tail h e l = refl

  length_of_field_lem :
      (field : FieldDef) (name : Text) (v : FieldValue) (lf : Text) (offset acc : ℕ) (tail : Bytes)
      → field.name ≡ name
      → field.type ≡ type_of v
      → Fits v
      → drop offset block ≡ encode_value v ++ tail
      → offset + length (encode_value v) ≤ length block
      → length_of_field block lf field offset acc
        ≡ done (if text_eq name lf then declared_by v acc else acc)
  length_of_field_lem field name v lf offset acc tail named typed h e l =
      (λ i. if text_eq (named i) lf then length_of_type block (typed i) offset acc else done acc)
      ∙ elim (Bool-cases (text_eq name lf)) [
        | inl hit ↦ rw hit (read_declared name v lf offset acc tail h e l)
        | inr miss ↦ rw miss
      ]

  -- The loop that looks for the length field goes through a header in the same way.
  pub find_header :
      (len : ℕ) (lf : Text) (fields : List FieldDef) (header : Fields) (more : List FieldDef)
      (offset acc : ℕ) (tail : Bytes)
      → Describes fields header
      → drop offset block ≡ encode_fields header ++ tail
      → offset + length (encode_fields header) ≤ len
      → len ≤ length block
      → find_length block len lf (fields ++ more) offset acc
        ≡ find_length block len lf more
            (offset + length (encode_fields header))
            (declared lf header acc)
  unfolding find_length
  find_header len lf [] [] more offset acc tail d e h l =
      ap (λ (o : ℕ). find_length block len lf more o acc) (omega arith)
  find_header len lf [] (entry ∷ header) more offset acc tail d e h l = absurd d
  find_header len lf (field ∷ fields) [] more offset acc tail d e h l = absurd d
  find_header len lf (field ∷ fields) ((name, v) ∷ header) more offset acc tail
        (named, typed, fits, d) e h l =
      rw
        (
          length_of_field_lem field name v lf offset acc (encode_fields header ++ tail) named typed
              fits regrouped (omega (arith, both)),
          size,
          wrap,
          guard,
        )
        (find_header len lf fields header more (offset + length (encode_value v))
            (if text_eq name lf then declared_by v acc else acc) tail d
            (drop_next offset (encode_value v) (encode_fields header ++ tail) regrouped)
            (omega (arith, both)) l
          ∙ ap
              (λ (o : ℕ).
                find_length block len lf more o
                  (declared lf header (if text_eq name lf then declared_by v acc else acc)))
              (omega (arith, both)))
    where
      both :
          length (encode_value v ++ encode_fields header)
          ≡ length (encode_value v) + length (encode_fields header)
      both = length-append (encode_value v) (encode_fields header)

      regrouped : drop offset block ≡ encode_value v ++ (encode_fields header ++ tail)
      regrouped = e ∙ append_assoc (encode_value v) (encode_fields header) tail

      size : field_type_size field.type ≡ length (encode_value v)
      size = ap field_type_size typed ∙ sym (length-encode_value v fits)

      wrap : add64 offset (length (encode_value v)) ≡ offset + length (encode_value v)
      wrap = omega (arith, both)

      guard : ltb len (offset + length (encode_value v)) ≡ false
      guard = le→ltb-false _ _ (omega (arith, both))
