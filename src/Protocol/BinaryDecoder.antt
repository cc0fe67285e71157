-- ===== src/Protocol/BinaryDecoder.antt =====
-- protocol/BinaryDecoder. `block` is the memory behind the pointer and `len` the length that is
-- passed with it; sums are those of size_t. The loop over the frames of a stream can run for ever,
-- so it takes fuel: one unit for each round.
pub mod Encoding
pub mod Safety
pub mod Stall
pub mod Layout
pub mod Framing
pub mod Cut
pub mod RoundTrip
use gateway_forge.Common.{
  ℕ, zero, suc, ◌+◌, ◌^◌, ◌%◌, Bool, true, false, ◌&&◌, not, Option, none, some, List, [], ◌∷◌,
  ◌++◌, ltb, ◌==◌, if◌then◌else◌,
}
use gateway_forge.Common.Words.{Bytes, add64, sub64, ntohs, ntohl, le_value, signed}
use gateway_forge.Common.Text.{Text, lit, text_eq}
use gateway_forge.Common.Outcome.{Outcome, done, fails, out_of_fuel, ◌>>=◌}
use gateway_forge.Common.Memory.{memcpy}
use gateway_forge.Protocol.Message.{Message}
use gateway_forge.Protocol.FieldType.{
  FieldType, u8, u16, u32, u64, i8, i16, i32, i64, bytes, string, field_type_size,
}
use gateway_forge.Protocol.FieldValue.{
  FieldValue, u8_value, u16_value, u32_value, u64_value, i8_value, i16_value, i32_value, i64_value,
  bytes_value, string_value, value_to_string,
}
use gateway_forge.Protocol.Schema.{ProtocolSchema, FieldDef, FramingConfig, is_length_field}

-- The hash map of a message, as an association list: `message[name] = value` and `find`.
abbrev pub Fields : Type 0
Fields = List (Text × FieldValue)

unfoldable pub put : Text → FieldValue → Fields → Fields
put name v [] = (name, v) ∷ []
put name v ((n, w) ∷ fields) =
    if text_eq n name then (n, v) ∷ fields else (n, w) ∷ put name v fields

unfoldable pub get : Text → Fields → Option FieldValue
get name [] = none
get name ((n, w) ∷ fields) = if text_eq n name then some w else get name fields

-- The cases of the switch on the field's type, on the bytes that each copies. On the little-endian
-- host 16 and 32 bits are swapped from network order; 8 and 64 bits are kept as they are.
unfoldable pub value_of : FieldType → Bytes → FieldValue
value_of u8 raw = u8_value (le_value raw)
value_of u16 raw = u16_value (ntohs (le_value raw))
value_of u32 raw = u32_value (ntohl (le_value raw))
value_of u64 raw = u64_value (le_value raw)
value_of i8 raw = i8_value (signed (2 ^ 7) (le_value raw))
value_of i16 raw = i16_value (signed (2 ^ 15) (ntohs (le_value raw)))
value_of i32 raw = i32_value (signed (2 ^ 31) (ntohl (le_value raw)))
value_of i64 raw = i64_value (signed (2 ^ 63) (le_value raw))
value_of bytes raw = bytes_value raw
value_of string raw = string_value raw

-- The size of a field, where those of variable size take `var_len` bytes.
abbrev pub size_in : ℕ → FieldType → ℕ
size_in var_len bytes = var_len
size_in var_len string = var_len
size_in var_len t = field_type_size t

-- The loop that decodes the fields of one message, up to the limit. A field of variable size takes
-- `var_len offset` bytes: the payload length of a frame, or what is left of a datagram.
unfoldable pub decode_fields : Bytes → (ℕ → ℕ) → ℕ → List FieldDef → ℕ → Fields → Outcome Fields
decode_fields block var_len limit [] offset message = done message
decode_fields block var_len limit (field ∷ fields) offset message =
    if ltb limit (add64 offset (size_in (var_len offset) field.type)) then done message else do
      raw ← memcpy block offset (size_in (var_len offset) field.type)
      decode_fields block var_len limit fields (add64 offset (size_in (var_len offset) field.type))
          (put field.name (value_of field.type raw) message)

-- What a field that has the length field's name gives for the payload length: itself, if it is a
-- u16, and else what was known.
abbrev pub length_of_type : Bytes → FieldType → ℕ → ℕ → Outcome ℕ
length_of_type block u16 offset payload_len = do
  raw ← memcpy block offset 2
  done (ntohs (le_value raw))
length_of_type block _ offset payload_len = done payload_len

abbrev pub length_of_field : Bytes → Text → FieldDef → ℕ → ℕ → Outcome ℕ
length_of_field block length_field field offset payload_len =
    if text_eq field.name length_field
    then length_of_type block field.type offset payload_len
    else done payload_len

-- The loop that finds the length field of a frame.
unfoldable pub find_length : Bytes → ℕ → Text → List FieldDef → ℕ → ℕ → Outcome ℕ
find_length block len length_field [] offset payload_len = done payload_len
find_length block len length_field (field ∷ fields) offset payload_len =
    if ltb len (add64 offset (field_type_size field.type)) then done payload_len else do
      payload_len' ← length_of_field block length_field field offset payload_len
      find_length block len length_field fields (add64 offset (field_type_size field.type))
          payload_len'

-- The size of a whole message.
abbrev pub message_size : FramingConfig → ℕ → ℕ
message_size framing payload_len =
    if not framing.length_includes_header then add64 framing.header_len payload_len else payload_len

-- The loop over the frames of a stream.
unfoldable pub decode_frames :
    ProtocolSchema → Bytes → ℕ → ℕ → ℕ → List Fields → Outcome (List Fields)
decode_frames schema block len zero offset messages = fails out_of_fuel
decode_frames schema block len (suc fuel) offset messages =
    if not (ltb offset len)
    then done messages
    else if ltb len (add64 offset schema.framing.header_len)
    then done messages
    else do
      payload_len ← find_length block len schema.framing.length_field schema.fields offset 0
      if ltb len (add64 offset (message_size schema.framing payload_len)) then done messages else do
        message ←
            decode_fields block (λ _. payload_len)
              (add64 offset (message_size schema.framing payload_len)) schema.fields offset []
        decode_frames schema block len fuel (add64 offset (message_size schema.framing payload_len))
            (messages ++ (message ∷ []))

-- The branch for datagrams: each is one message.
unfoldable pub decode_datagram : ProtocolSchema → Bytes → ℕ → Outcome (List Fields)
decode_datagram schema block len = do
  message ← decode_fields block (λ offset. sub64 len offset) len schema.fields 0 []
  done (message ∷ [])

-- `Decode`. It always returns the `Ok` of `Result`, if it returns; a null pointer is `none`.
unfoldable pub decode : ℕ → ProtocolSchema → Option Bytes → ℕ → Outcome (List Fields)
decode fuel schema none len = done []
decode fuel schema (some block) len =
    if len == 0
    then done []
    else if text_eq schema.transport (lit "tcp") && is_length_field schema.framing.type
    then decode_frames schema block len fuel 0 []
    else if text_eq schema.transport (lit "udp")
    then decode_datagram schema block len
    else done []

-- The summary of a message: every field but the one named "magic". The source walks through a hash
-- map, whose order is unspecified; here it is the order in which the fields were put.
unfoldable pub summary_of : Fields → Text
summary_of [] = []
summary_of ((name, v) ∷ fields) =
    if text_eq name (lit "magic")
    then summary_of fields
    else name ++ (lit "=" ++ (value_to_string v ++ (lit " " ++ summary_of fields)))

-- One decoded message, printed.
unfoldable pub to_message : ℕ → Text → Fields → Message
to_message timestamp_us direction decoded = record {
  timestamp_us = timestamp_us;
  direction = direction;
  type = elim (get (lit "msg_type") decoded) [ none ↦ lit "DATA" | some v ↦ value_to_string v ];
  summary = summary_of decoded;
}

abbrev pub to_messages : ℕ → Text → List Fields → List Message
to_messages timestamp_us direction [] = []
to_messages timestamp_us direction (decoded ∷ rest) =
    to_message timestamp_us direction decoded ∷ to_messages timestamp_us direction rest

-- `DecodeToMessages`.
unfoldable pub decode_to_messages :
    ℕ → ProtocolSchema → Option Bytes → ℕ → ℕ → Text → Outcome (List Message)
decode_to_messages fuel schema block len timestamp_us direction = do
  decoded ← decode fuel schema block len
  done (to_messages timestamp_us direction decoded)
