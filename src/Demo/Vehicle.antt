-- ===== src/Demo/Vehicle.antt =====
-- examples/schemas/vehicle-tcp.yaml, as the loader gives it, and the messages it describes.
use gateway_forge.Common.{ℕ, ◌^◌, ◌<◌, refl, false, true, List, [], ◌∷◌, arith, length}
use gateway_forge.Common.Words.{Bytes}
use gateway_forge.Common.Text.{Text, lit, text_eq}
use gateway_forge.Protocol.FieldType.{FieldType, u8, u16, u32}
use gateway_forge.Protocol.FieldValue.{u8_value, u16_value, u32_value}
use gateway_forge.Protocol.Schema.{ProtocolSchema, FieldDef, FramingType}
use gateway_forge.Protocol.BinaryDecoder.{Fields, get}
use gateway_forge.Protocol.BinaryDecoder.Framing.{Frame, IsMessage, IsFramed, IsStreamSchema}

abbrev plain_field : Text → FieldType → FieldDef
plain_field name type = record { name = name; type = type; const_value = 0; has_const = false }

abbrev pub vehicle_fields : List FieldDef
vehicle_fields =
    record { name = lit "magic"; type = u16; const_value = 51966; has_const = true }
    ∷ plain_field (lit "version") u8
    ∷ plain_field (lit "msg_type") u8
    ∷ plain_field (lit "seq") u32
    ∷ plain_field (lit "payload_len") u16
    ∷ []

abbrev pub vehicle_schema : ProtocolSchema
vehicle_schema = record {
  name = lit "vehicle_tcp_protocol";
  transport = lit "tcp";
  endian = lit "big";
  framing = record {
    type = FramingType.length_field;
    length_field = lit "payload_len";
    header_len = 10;
    length_includes_header = false;
  };
  fields = vehicle_fields;
  length_from = lit "payload_len";
  analysis_sequence_field = lit "seq";
  analysis_timestamp_field = [];
  analysis_device_id_field = [];
}

pub vehicle_schema-IsStreamSchema : IsStreamSchema vehicle_schema vehicle_fields []
vehicle_schema-IsStreamSchema = record {
  tcp = refl;
  framed = refl;
  counts_payload = refl;
  some_header = omega arith;
  header_small = omega arith;
  fields_are = refl;
}

abbrev pub vehicle_header : ℕ → ℕ → ℕ → ℕ → Fields
vehicle_header version msg_type seq payload_len =
    (lit "magic", u16_value 51966)
    ∷ (lit "version", u8_value version)
    ∷ (lit "msg_type", u8_value msg_type)
    ∷ (lit "seq", u32_value seq)
    ∷ (lit "payload_len", u16_value payload_len)
    ∷ []

-- A message of the protocol.
abbrev pub vehicle_frame : ℕ → ℕ → ℕ → Bytes → Frame
vehicle_frame version msg_type seq payload = record {
  header = vehicle_header version msg_type seq (length payload);
  payload = payload;
}

pub vehicle_frame-IsMessage :
    (version msg_type seq : ℕ) (payload : Bytes)
    → version < 2 ^ 8
    → msg_type < 2 ^ 8
    → seq < 2 ^ 32
    → length payload < 2 ^ 16
    → IsMessage vehicle_fields [] (vehicle_frame version msg_type seq payload)
unfolding get text_eq
vehicle_frame-IsMessage version msg_type seq payload v t s l = record {
  described = (
    refl,
    refl,
    omega arith,
    (refl, refl, v, (refl, refl, t, (refl, refl, s, (refl, refl, l, tt)))),
  );
  fresh = (refl, (refl, (refl, (refl, (refl, tt)))));
  payload_fresh = tt;
}

pub vehicle_frame-IsFramed :
    (version msg_type seq : ℕ) (payload : Bytes)
    → IsFramed vehicle_schema (vehicle_frame version msg_type seq payload)
unfolding text_eq
vehicle_frame-IsFramed version msg_type seq payload = record {
  header_length = refl;
  declares = refl;
}
