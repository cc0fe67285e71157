-- ===== src/Protocol/SchemaLoader.antt =====
-- protocol/SchemaLoader. The YAML library is not in the repository: what the loader calls of it is a
-- record of operations, an argument of the functions.
pub mod Fields
use gateway_forge.Common.{ℕ, Bool, true, false, List, [], ◌∷◌, ◌++◌, if◌then◌else◌}
use gateway_forge.Common.Text.{Text, lit}
use gateway_forge.Common.Attempt.{Attempt, value, throws, yaml_error, std_error, ◌>>=◌, or_throw}
use gateway_forge.Common.Result.{Result, ok, err}
use gateway_forge.Protocol.FieldType.{field_type_from_string}
use gateway_forge.Protocol.Schema.{
  FramingConfig, default_framing, framing_type_from_string, FieldDef, default_field, ProtocolSchema,
}

-- `YAML::LoadFile`, `node[key]`, the test of a node, the elements of a sequence and `as<T>`.
pub record YamlCpp (Node : Type 0) : Type 0 where
  pub load_file : Text → Attempt Node
  pub child : Node → Text → Attempt Node
  pub is_defined : Node → Bool
  pub elements : Node → List Node
  pub as_text : Node → Attempt Text
  pub as_text_or : Node → Text → Text
  pub as_unsigned : Node → Attempt ℕ
  pub as_bool : Node → Attempt Bool

module _ {Node : Type 0} (yaml : YamlCpp Node) where
  -- `if (node[key]) target = node[key].as<A>();`
  abbrev pub read_if : {A : Type 0} → (Node → Attempt A) → Node → Text → A → Attempt A
  read_if as_type node key target = do
    found ← yaml.child node key
    if yaml.is_defined found then as_type found else value target

  -- `root[key].as<std::string>(fallback)`.
  abbrev pub text_or : Node → Text → Text → Attempt Text
  text_or node key fallback = do found ← yaml.child node key; value (yaml.as_text_or found fallback)

  abbrev pub text_of : Node → Text → Attempt Text
  text_of node key = do found ← yaml.child node key; yaml.as_text found

  unfoldable pub load_framing : Node → Attempt FramingConfig
  load_framing root = do
    f ← yaml.child root (lit "framing")
    if yaml.is_defined f
        then (do
          name ← text_or f (lit "type") (lit "datagram")
          type ← or_throw (framing_type_from_string name) (lit "Unknown framing type: " ++ name)
          length_field ← read_if yaml.as_text f (lit "length_field") []
          header_len ← read_if yaml.as_unsigned f (lit "header_len") 0
          length_includes_header ← read_if yaml.as_bool f (lit "length_includes_header") false
          value (record {
            type = type;
            length_field = length_field;
            header_len = header_len;
            length_includes_header = length_includes_header;
          }))
        else value default_framing

  -- The constant of a field.
  abbrev pub load_const : Node → FieldDef → Attempt FieldDef
  load_const field def = do
    c ← yaml.child field (lit "const")
    if yaml.is_defined c
        then (do
          const_value ← yaml.as_unsigned c
          value (record def { has_const = true; const_value = const_value }))
        else value def

  -- One round of the loop over the fields.
  unfoldable pub load_field : Node → Attempt FieldDef
  load_field field = do
    name ← text_of field (lit "name")
    type_name ← text_of field (lit "type")
    type ← or_throw (field_type_from_string type_name) (lit "Unknown field type: " ++ type_name)
    load_const field (record default_field { name = name; type = type })

  unfoldable pub load_fields : List Node → Attempt (List FieldDef)
  load_fields [] = value []
  load_fields (field ∷ rest) = do
    def ← load_field field
    defs ← load_fields rest
    value (def ∷ defs)

  -- The elements of the node "message", where it is there.
  abbrev pub message_nodes : Node → List Node
  message_nodes message = if yaml.is_defined message then yaml.elements message else []

  -- `if (root[first]) { if (root[first][key]) … }`.
  abbrev pub read_under : Node → Text → Text → Attempt Text
  read_under root first key = do
    found ← yaml.child root first
    if yaml.is_defined found then read_if yaml.as_text found key [] else value []

  -- The body of the `try`.
  unfoldable pub load_schema : Node → Attempt ProtocolSchema
  load_schema root = do
    name ← text_or root (lit "name") []
    transport ← text_or root (lit "transport") (lit "tcp")
    endian ← text_or root (lit "endian") (lit "big")
    framing ← load_framing root
    message ← yaml.child root (lit "message")
    fields ← load_fields (message_nodes message)
    length_from ← read_under root (lit "payload") (lit "length_from")
    sequence_field ← read_under root (lit "analysis") (lit "sequence_field")
    timestamp_field ← read_under root (lit "analysis") (lit "timestamp_field")
    device_id_field ← read_under root (lit "analysis") (lit "device_id_field")
    value (record {
      name = name;
      transport = transport;
      endian = endian;
      framing = framing;
      fields = fields;
      length_from = length_from;
      analysis_sequence_field = sequence_field;
      analysis_timestamp_field = timestamp_field;
      analysis_device_id_field = device_id_field;
    })

  -- The handlers.
  abbrev pub caught : Attempt ProtocolSchema → Result ProtocolSchema
  caught (value schema) = ok schema
  caught (throws (yaml_error what)) = err (lit "YAML parse error: " ++ what)
  caught (throws (std_error what)) = err (lit "Schema load error: " ++ what)

  -- `LoadFromYaml`.
  unfoldable pub load_from_yaml : Text → Result ProtocolSchema
  load_from_yaml filepath = caught (yaml.load_file filepath >>= load_schema)
