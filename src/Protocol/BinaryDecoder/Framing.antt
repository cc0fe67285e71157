-- ===== src/Protocol/BinaryDecoder/Framing.antt =====
-- Whole messages, a header and a payload, as a sender frames them, and how the loops over the fields
-- of a schema read one.
use gateway_forge.Common.{
  ℕ, ◌+◌, ◌^◌, ◌≤◌, ◌<◌, ◌≡◌, refl, ap, sym, ◌∙◌, false, none, List, [], ◌∷◌, ◌++◌, arith, ltb,
  length, length-append, append_assoc, append-nil, le→ltb-false, drop,
}
use gateway_forge.Common.Words.{Bytes, add64}
use gateway_forge.Common.Text.{Text, lit}
use gateway_forge.Common.Outcome.{done}
use gateway_forge.Protocol.FieldType.{bytes, field_type_size}
use gateway_forge.Protocol.FieldValue.{bytes_value}
use gateway_forge.Protocol.Schema.{ProtocolSchema, FieldDef, FramingType}
use gateway_forge.Protocol.BinaryDecoder.{Fields, get, value_of, decode_fields, find_length}
use gateway_forge.Protocol.BinaryDecoder.Layout.{
  encode_fields, Describes, FreshNames, declared, put-fresh, memcpy_at, decode_header, find_header,
  drop_next,
}

-- The fields of a schema behind those of the header: none, or one for the payload, whose name the
-- header does not have.
abbrev pub IsPayload : List FieldDef → Fields → Type 0
IsPayload [] header = Unit {0}
IsPayload (field ∷ []) header = (field.type ≡ bytes) × (get field.name header ≡ none)
IsPayload _ header = ⊥

abbrev pub payload_part : List FieldDef → Bytes → Fields
payload_part [] payload = []
payload_part (field ∷ more) payload = (field.name, bytes_value payload) ∷ []

module _ (block : Bytes) (small : length block < 2 ^ 62) where
  pub decode_payload :
      (var_len : ℕ → ℕ) (more : List FieldDef) (offset : ℕ) (header : Fields) (payload tail : Bytes)
      → IsPayload more header
      → var_len offset ≡ length payload
      → drop offset block ≡ payload ++ tail
      → offset + length payload ≤ length block
      → decode_fields block var_len (offset + length payload) more offset header
        ≡ done (header ++ payload_part more payload)
  unfolding decode_fields value_of
  decode_payload var_len [] offset header payload tail p v e l = ap done (sym (append-nil header))
  decode_payload var_len (field ∷ []) offset header payload tail (typed, fresh) v e l = rw (
    typed,
    v,
    wrap,
    guard,
    memcpy_at block offset (length payload) payload tail l e refl,
    put-fresh field.name (bytes_value payload) header fresh,
  )
    where
      wrap : add64 offset (length payload) ≡ offset + length payload
      wrap = omega arith

      guard : ltb (offset + length payload) (offset + length payload) ≡ false
      guard = le→ltb-false _ _ (omega arith)
  decode_payload var_len (field ∷ other ∷ more) offset header payload tail p v e l = absurd p

  pub find_payload :
      (len : ℕ) (lf : Text) (more : List FieldDef) (offset acc : ℕ) (header : Fields)
      → IsPayload more header
      → offset ≤ len
      → len < 2 ^ 62
      → find_length block len lf more offset acc ≡ done acc
  unfolding find_length field_type_size
  find_payload len lf [] offset acc header p o l = refl
  find_payload len lf (field ∷ []) offset acc header (typed, fresh) o l =
      rw (typed, guard) (ground arith)
    where
      guard : ltb len (add64 offset 0) ≡ false
      guard = le→ltb-false _ _ (omega arith)
  find_payload len lf (field ∷ other ∷ more) offset acc header p o l = absurd p

-- One message as it is sent.
pub record Frame : Type 0 where
  pub header : Fields
  pub payload : Bytes

abbrev pub frame_bytes : Frame → Bytes
frame_bytes f = encode_fields f.header ++ f.payload

abbrev pub stream_of : List Frame → Bytes
stream_of [] = []
stream_of (f ∷ frames) = frame_bytes f ++ stream_of frames

-- The message that the decoder makes of a frame.
abbrev pub message_of : List FieldDef → Frame → Fields
message_of more f = f.header ++ payload_part more f.payload

-- A message that the schema with these fields describes.
pub record IsMessage (fields more : List FieldDef) (f : Frame) : Type 0 where
  pub described : Describes fields f.header
  pub fresh : FreshNames [] f.header
  pub payload_fresh : IsPayload more f.header

-- Its header has the length that the framing says, and its length field that of its payload.
pub record IsFramed (schema : ProtocolSchema) (f : Frame) : Type 0 where
  pub header_length : length (encode_fields f.header) ≡ schema.framing.header_len
  pub declares : declared schema.framing.length_field f.header 0 ≡ length f.payload

abbrev pub AreFrames : ProtocolSchema → List FieldDef → List FieldDef → List Frame → Type 0
AreFrames schema fields more [] = Unit {0}
AreFrames schema fields more (f ∷ frames) =
    IsMessage fields more f × IsFramed schema f × AreFrames schema fields more frames

-- A framing for length fields that do not count the header.
pub record IsStreamSchema (schema : ProtocolSchema) (fields more : List FieldDef) : Type 0 where
  pub tcp : schema.transport ≡ lit "tcp"
  pub framed : schema.framing.type ≡ FramingType.length_field
  pub counts_payload : schema.framing.length_includes_header ≡ false
  pub some_header : 0 < schema.framing.header_len
  pub header_small : schema.framing.header_len < 2 ^ 62
  pub fields_are : schema.fields ≡ fields ++ more

-- The loop over the fields, at a whole message.
pub decode_message :
    (block : Bytes) (fields more : List FieldDef) (f : Frame) (var_len : ℕ → ℕ) (limit offset : ℕ)
    (tail : Bytes)
    → length block < 2 ^ 62
    → IsMessage fields more f
    → drop offset block ≡ frame_bytes f ++ tail
    → limit ≡ offset + length (frame_bytes f)
    → limit ≤ length block
    → var_len (offset + length (encode_fields f.header)) ≡ length f.payload
    → decode_fields block var_len limit (fields ++ more) offset [] ≡ done (message_of more f)
decode_message block fields more f var_len limit offset tail small m e at_limit l v =
    decode_header block small var_len limit fields f.header more offset [] (f.payload ++ tail)
      m.described m.fresh at_header (omega (arith, both)) l
    ∙ ap (λ (n : ℕ). decode_fields block var_len n more behind f.header) (omega (arith, both))
    ∙ decode_payload block small var_len more behind f.header f.payload tail m.payload_fresh v
        (drop_next block small offset (encode_fields f.header) (f.payload ++ tail) at_header)
        (omega (arith, both))
  where
    behind : ℕ
    behind = offset + length (encode_fields f.header)

    both : length (frame_bytes f) ≡ length (encode_fields f.header) + length f.payload
    both = length-append (encode_fields f.header) f.payload

    at_header : drop offset block ≡ encode_fields f.header ++ (f.payload ++ tail)
    at_header = e ∙ append_assoc (encode_fields f.header) f.payload tail

-- The loop that looks for the length field, at a whole header.
pub find_declared :
    (block : Bytes) (schema : ProtocolSchema) (fields more : List FieldDef) (f : Frame) (offset : ℕ)
    (rest : Bytes)
    → length block < 2 ^ 62
    → schema.fields ≡ fields ++ more
    → IsMessage fields more f
    → IsFramed schema f
    → drop offset block ≡ encode_fields f.header ++ rest
    → offset + schema.framing.header_len ≤ length block
    → find_length block (length block) schema.framing.length_field schema.fields offset 0
      ≡ done (length f.payload)
find_declared block schema fields more f offset rest small fields_are m w e l =
    ap
      (λ (fs : List FieldDef).
        find_length block (length block) schema.framing.length_field fs offset 0)
      fields_are
    ∙ find_header block small (length block) schema.framing.length_field fields f.header more offset
        0 rest m.described e (omega (arith, w.header_length)) (omega arith)
    ∙ find_payload block small (length block) schema.framing.length_field more _ _ f.header
        m.payload_fresh (omega (arith, w.header_length)) small
    ∙ ap done w.declares
