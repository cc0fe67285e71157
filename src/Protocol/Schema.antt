-- ===== src/Protocol/Schema.antt =====
-- protocol/Framing and protocol/ProtocolSchema.
use gateway_forge.Common.{ℕ, Bool, true, false, List, [], if◌then◌else◌}
use gateway_forge.Common.Text.{Text, lit, text_eq}
use gateway_forge.Common.Outcome.{Outcome, done, fails, runtime_error}
use gateway_forge.Protocol.FieldType.{FieldType, u8}

pub data FramingType : Type 0 where
  length_field datagram : FramingType

abbrev pub is_length_field : FramingType → Bool
is_length_field length_field = true
is_length_field datagram = false

pub record FramingConfig : Type 0 where
  pub type : FramingType
  pub length_field : Text
  pub header_len : ℕ
  pub length_includes_header : Bool

-- `FramingConfig()`.
abbrev pub default_framing : FramingConfig
default_framing = record {
  type = datagram;
  length_field = [];
  header_len = 0;
  length_includes_header = false;
}

unfoldable pub framing_type_from_string : Text → Outcome FramingType
framing_type_from_string name =
    if text_eq name (lit "length_field")
    then done FramingType.length_field
    else if text_eq name (lit "datagram")
    then done datagram
    else fails runtime_error

pub record FieldDef : Type 0 where
  pub name : Text
  pub type : FieldType
  pub const_value : ℕ
  pub has_const : Bool

-- `FieldDef()`.
abbrev pub default_field : FieldDef
default_field = record { name = []; type = u8; const_value = 0; has_const = false }

pub record ProtocolSchema : Type 0 where
  pub name : Text
  pub transport : Text
  pub endian : Text
  pub framing : FramingConfig
  pub fields : List FieldDef
  pub length_from : Text
  pub analysis_sequence_field : Text
  pub analysis_timestamp_field : Text
  pub analysis_device_id_field : Text
