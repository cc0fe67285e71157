-- ===== src/Tests/Decoder.antt =====
-- Instances for the directory protocol.
use gateway_forge.Common.{
  inr, ◌*◌, ◌^◌, ◌≡◌, ◌≢◌, refl, ◌⊎◌, false, true, some, List, [], ◌∷◌, ◌++◌, arith,
}
use gateway_forge.Common.Words.{ntohl, be_bytes}
use gateway_forge.Common.Text.{Text, lit, text_eq}
use gateway_forge.Common.Outcome.{done, fails, out_of_fuel}
use gateway_forge.Protocol.FieldType.{FieldType, u8, u16, u64, bytes}
use gateway_forge.Protocol.FieldValue.{u8_value, u16_value, u64_value, bytes_value}
use gateway_forge.Protocol.Schema.{ProtocolSchema, FieldDef, FramingConfig, FramingType}
use gateway_forge.Protocol.BinaryDecoder.{Fields, get, value_of, decode}
use gateway_forge.Protocol.BinaryDecoder.Encoding.{value_of_u64_big}
use gateway_forge.Protocol.BinaryDecoder.Safety.{decode-IsSafe, decode_total}
use gateway_forge.Protocol.BinaryDecoder.Stall.{decode_zero_length}
use gateway_forge.Protocol.BinaryDecoder.Framing.{Frame, IsMessage, IsFramed, IsStreamSchema}
use gateway_forge.Protocol.BinaryDecoder.RoundTrip.{decode-stream_of}

abbrev field_of : Text → FieldType → FieldDef
field_of name type = record { name = name; type = type; const_value = 0; has_const = false }

abbrev pub header_fields : List FieldDef
header_fields = field_of (lit "len") u16 ∷ field_of (lit "kind") u8 ∷ []

abbrev pub payload_field : List FieldDef
payload_field = field_of (lit "payload") bytes ∷ []

abbrev schema_with : Text → FramingConfig → List FieldDef → ProtocolSchema
schema_with transport framing fields = record {
  name = lit "example";
  transport = transport;
  endian = lit "big";
  framing = framing;
  fields = fields;
  length_from = [];
  analysis_sequence_field = [];
  analysis_timestamp_field = [];
  analysis_device_id_field = [];
}

abbrev pub stream_schema : ProtocolSchema
stream_schema =
    schema_with (lit "tcp")
      (record {
        type = FramingType.length_field;
        length_field = lit "len";
        header_len = 3;
        length_includes_header = false;
      })
      (header_fields ++ payload_field)

pub stream_schema-IsStreamSchema : IsStreamSchema stream_schema header_fields payload_field
stream_schema-IsStreamSchema = record {
  tcp = refl;
  framed = refl;
  counts_payload = refl;
  some_header = omega arith;
  header_small = omega arith;
  fields_are = refl;
}

abbrev pub frame_two : Frame
frame_two = record {
  header = (lit "len", u16_value 2) ∷ (lit "kind", u8_value 9) ∷ [];
  payload = 65 ∷ 66 ∷ [];
}

abbrev message_two : Fields
message_two =
    (lit "len", u16_value 2)
    ∷ (lit "kind", u8_value 9)
    ∷ (lit "payload", bytes_value (65 ∷ 66 ∷ []))
    ∷ []

pub frame_two-IsMessage : IsMessage header_fields payload_field frame_two
unfolding get text_eq
frame_two-IsMessage = record {
  described = (refl, refl, omega arith, (refl, refl, omega arith, tt));
  fresh = (refl, (refl, tt));
  payload_fresh = (refl, refl);
}

pub frame_two-IsFramed : IsFramed stream_schema frame_two
unfolding text_eq
frame_two-IsFramed = record { header_length = refl; declares = refl }

-- Two frames, and four of the five bytes of a third one.
decode-stream_of_example :
    decode 3 stream_schema
      (some (0 ∷ 2 ∷ 9 ∷ 65 ∷ 66 ∷ 0 ∷ 2 ∷ 9 ∷ 65 ∷ 66 ∷ 0 ∷ 2 ∷ 9 ∷ 65 ∷ []))
      14
    ≡ done (message_two ∷ message_two ∷ [])
decode-stream_of_example =
    decode-stream_of stream_schema header_fields payload_field (frame_two ∷ frame_two ∷ [])
      (0 ∷ 2 ∷ 9 ∷ 65 ∷ []) 3 stream_schema-IsStreamSchema
      (frame_two-IsMessage, frame_two-IsFramed, (frame_two-IsMessage, frame_two-IsFramed, tt))
      (inr (record {
        frame = frame_two;
        missing = 66 ∷ [];
        message = frame_two-IsMessage;
        framed = frame_two-IsFramed;
        frame_is = refl;
        lacks = omega arith;
        frame_small = omega arith;
      }))
      (omega arith) (omega arith) (omega arith)

abbrev pub datagram_schema : ProtocolSchema
datagram_schema =
    schema_with (lit "udp")
      (record {
        type = FramingType.datagram;
        length_field = [];
        header_len = 0;
        length_includes_header = false;
      })
      (header_fields ++ payload_field)

decode-IsSafe_example :
    ((r : List Fields) × (decode 2 stream_schema (some (0 ∷ 200 ∷ 9 ∷ 65 ∷ [])) 4 ≡ done r))
    ⊎ (decode 2 stream_schema (some (0 ∷ 200 ∷ 9 ∷ 65 ∷ [])) 4 ≡ fails out_of_fuel)
decode-IsSafe_example =
    decode-IsSafe (0 ∷ 200 ∷ 9 ∷ 65 ∷ []) 4 (omega arith) (omega arith) 2 stream_schema

decode_total_example :
    (r : List Fields) × (decode 5 stream_schema (some (0 ∷ 200 ∷ 9 ∷ 65 ∷ [])) 4 ≡ done r)
decode_total_example =
    decode_total (0 ∷ 200 ∷ 9 ∷ 65 ∷ []) 4 (omega arith) (omega arith) 5 stream_schema refl
      (omega arith) (omega arith) (omega arith)

abbrev counting_schema : ProtocolSchema
counting_schema =
    schema_with (lit "tcp")
      (record {
        type = FramingType.length_field;
        length_field = lit "len";
        header_len = 3;
        length_includes_header = true;
      })
      header_fields

decode_zero_length_example :
    decode 1000 counting_schema (some (0 ∷ 0 ∷ 9 ∷ 65 ∷ [])) 4 ≡ fails out_of_fuel
decode_zero_length_example =
    decode_zero_length counting_schema (field_of (lit "len") u16) (field_of (lit "kind") u8 ∷ [])
      (9 ∷ 65 ∷ []) 1000 refl refl refl (omega arith) (omega arith) refl refl refl (kind-ne-len, tt)
  where
    kind-ne-len : lit "kind" ≢ lit "len"
    kind-ne-len e = cc

value_of_u64_big_example :
    (value_of u64 (be_bytes 8 1) ≡ u64_value (ntohl 1 * 2 ^ 32))
    × (value_of u64 (be_bytes 8 1) ≢ u64_value 1)
value_of_u64_big_example = value_of_u64_big 1 (omega arith) (omega arith)
