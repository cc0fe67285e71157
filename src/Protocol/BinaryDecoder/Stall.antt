-- ===== src/Protocol/BinaryDecoder/Stall.antt =====
-- Where the loop over the frames never ends.
use gateway_forge.Common.{
  ℕ, zero, suc, ◌+◌, ◌^◌, ◌≤◌, ◌<◌, ◌≡◌, ◌≢◌, refl, ap, ◌∙◌, le→ltb-false, true, false, some, List,
  [], ◌∷◌, ◌++◌, arith, ltb, length,
}
use gateway_forge.Common.Words.{Bytes, add64}
use gateway_forge.Common.Text.{Text, text_eq_iff, lit}
use gateway_forge.Common.Outcome.{done, fails, out_of_fuel, Returns-value}
use gateway_forge.Common.Memory.{memcpy_inside}
use gateway_forge.Protocol.FieldType.{FieldType, u16, field_type_size}
use gateway_forge.Protocol.Schema.{ProtocolSchema, FieldDef, FramingType, is_length_field}
use gateway_forge.Protocol.BinaryDecoder.{
  Fields, length_of_type, find_length, message_size, decode_frames, decode,
}
use gateway_forge.Protocol.BinaryDecoder.Safety.{decode_fields-Returns}

-- No field has this name.
abbrev pub Unnamed : Text → List FieldDef → Type 0
Unnamed name [] = Unit {0}
Unnamed name (field ∷ fields) = (field.name ≢ name) × Unnamed name fields

module _ (block : Bytes) (len : ℕ) (held : len ≤ length block) (small : len < 2 ^ 62) where
  -- A frame of size zero: the offset stays, and the loop adds messages until nothing is left to hold
  -- them.
  decode_frames_stalls :
      (schema : ProtocolSchema) (offset n : ℕ)
      → offset < len
      → offset + schema.framing.header_len ≤ len
      → n < 2 ^ 63
      → find_length block len schema.framing.length_field schema.fields offset 0 ≡ done n
      → message_size schema.framing n ≡ 0
      → (fuel : ℕ) (messages : List Fields)
      → decode_frames schema block len fuel offset messages ≡ fails out_of_fuel
  unfolding decode_frames
  decode_frames_stalls schema offset n o header n_small found size zero messages = refl
  decode_frames_stalls schema offset n o header n_small found size (suc fuel) messages =
      let (message, decoded) = Returns-value _ (
        decode_fields-Returns block len held (omega arith) (λ _. n) (add64 offset 0) schema.fields
          offset [] (λ _ _. n_small) (omega arith) (omega arith)) in
      ground (
        arith,
        size,
        decoded,
        decode_frames_stalls schema offset n o header n_small found size fuel
            (messages ++ (message ∷ [])),
      )

find_length-Unnamed :
    (block : Bytes) (len : ℕ) (name : Text) (fields : List FieldDef) (offset n : ℕ)
    → Unnamed name fields
    → find_length block len name fields offset n ≡ done n
unfolding find_length
find_length-Unnamed block len name [] offset n u = refl
find_length-Unnamed block len name (field ∷ fields) offset n (ne, u) = ground (
  arith,
  text_eq_iff field.name name,
  find_length-Unnamed block len name fields (add64 offset (field_type_size field.type)) n u,
)

-- The stream branch of `Decode`.
pub decode_tcp :
    (schema : ProtocolSchema) (block : Bytes) (len fuel : ℕ)
    → schema.transport ≡ lit "tcp"
    → schema.framing.type ≡ FramingType.length_field
    → 0 < len
    → decode fuel schema (some block) len ≡ decode_frames schema block len fuel 0 []
unfolding decode
decode_tcp schema block len fuel tcp framed some_data =
    ground (arith, (text_eq_iff schema.transport (lit "tcp")).1 tcp, ap is_length_field framed)

size_two : (t : FieldType) → t ≡ u16 → field_type_size t ≡ 2
unfolding field_type_size
size_two t e = rw e

-- Two zero bytes, where the length field is the first field.
module _ (rest : Bytes) (len : ℕ) (name : Text) where
  read_zero : (t : FieldType) → t ≡ u16 → length_of_type (0 ∷ 0 ∷ rest) t 0 0 ≡ done 0
  read_zero t e = rw (e, memcpy_inside (0 ∷ 0 ∷ rest) 0 2 (omega arith))

  find_zero :
      (field : FieldDef) (fields : List FieldDef)
      → 2 ≤ len
      → field.name ≡ name
      → field.type ≡ u16
      → Unnamed name fields
      → find_length (0 ∷ 0 ∷ rest) len name (field ∷ fields) 0 0 ≡ done 0
  unfolding find_length
  find_zero field fields room named typed u =
      rw (guard, (text_eq_iff field.name name).1 named, read_zero field.type typed)
        (find_length-Unnamed (0 ∷ 0 ∷ rest) len name fields _ 0 u)
    where
      guard : ltb len (add64 0 (field_type_size field.type)) ≡ false
      guard =
          le→ltb-false len (add64 0 (field_type_size field.type))
            (omega (arith, size_two field.type typed))

-- A framing whose length counts the header, with the length field first, a u16 and the only field
-- of its name: if the first two bytes of an input that holds a header (and less than 2 ^ 62 bytes)
-- are 0, the decoder does not return on any amount of fuel, whatever else the input holds.
pub decode_zero_length :
    (schema : ProtocolSchema) (field : FieldDef) (fields : List FieldDef) (rest : Bytes) (fuel : ℕ)
    → schema.transport ≡ lit "tcp"
    → schema.framing.type ≡ FramingType.length_field
    → schema.framing.length_includes_header ≡ true
    → schema.framing.header_len ≤ length rest + 2
    → length rest + 2 < 2 ^ 62
    → schema.fields ≡ field ∷ fields
    → field.name ≡ schema.framing.length_field
    → field.type ≡ u16
    → Unnamed schema.framing.length_field fields
    → decode fuel schema (some (0 ∷ 0 ∷ rest)) (length rest + 2) ≡ fails out_of_fuel
decode_zero_length schema field fields rest fuel tcp framed counts header small fs named typed u =
    decode_tcp schema (0 ∷ 0 ∷ rest) (length rest + 2) fuel tcp framed (omega arith)
    ∙ decode_frames_stalls (0 ∷ 0 ∷ rest) (length rest + 2) (omega arith) small schema 0 0
        (omega arith) (omega arith) (omega arith) found size fuel []
  where
    size : message_size schema.framing 0 ≡ 0
    size = rw counts

    found :
        find_length (0 ∷ 0 ∷ rest) (length rest + 2) schema.framing.length_field schema.fields 0 0
        ≡ done 0
    found =
        ap
          (λ (fs : List FieldDef).
            find_length (0 ∷ 0 ∷ rest) (length rest + 2) schema.framing.length_field fs 0 0)
          fs
        ∙ find_zero rest (length rest + 2) schema.framing.length_field field fields (omega arith)
            named typed u
