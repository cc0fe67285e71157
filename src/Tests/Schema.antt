-- ===== src/Tests/Schema.antt =====
-- Instances for protocol/SchemaLoader. A document is a table from paths to scalars; a node is a path.
use gateway_forge.Common.{
  ◌≡◌, refl, true, false, Option, none, some, [], ◌∷◌, ◌++◌, ◌||◌, if◌then◌else◌,
}
use gateway_forge.Common.Text.{Text, lit, text_eq}
use gateway_forge.Common.Attempt.{value, throws, yaml_error}
use gateway_forge.Common.Result.{ok}
use gateway_forge.Protocol.FieldType.{u16, field_type_from_string}
use gateway_forge.Protocol.Schema.{ProtocolSchema, default_framing, default_field}
use gateway_forge.Protocol.SchemaLoader.{
  YamlCpp, message_nodes, load_framing, load_field, load_fields, load_schema, load_from_yaml,
}
use gateway_forge.Protocol.SchemaLoader.Fields.{AreFieldsOf, load_from_yaml-AreFieldsOf}

unfoldable scalar_at : Text → Option Text
scalar_at path =
    if text_eq path (lit "/message/0/name")
    then some (lit "seq")
    else if text_eq path (lit "/message/0/type")
    then some (lit "u16")
    else none

-- One field, and nothing else.
abbrev pub small_yaml : YamlCpp Text
unfolding scalar_at
small_yaml = record {
  load_file = λ path. value [];
  child = λ node key. value (node ++ (lit "/" ++ key));
  is_defined = λ node.
      text_eq node (lit "/message") || elim (scalar_at node) [ none ↦ false | some _ ↦ true ];
  elements = λ node. if text_eq node (lit "/message") then lit "/message/0" ∷ [] else [];
  as_text = λ node. elim (scalar_at node) [
    | none ↦ throws (yaml_error (lit "bad conversion"))
    | some text ↦ value text
  ];
  as_text_or = λ node fallback. elim (scalar_at node) [ none ↦ fallback | some text ↦ text ];
  as_unsigned = λ node. throws (yaml_error (lit "bad conversion"));
  as_bool = λ node. throws (yaml_error (lit "bad conversion"));
}

abbrev pub small_schema : ProtocolSchema
small_schema = record {
  name = [];
  transport = lit "tcp";
  endian = lit "big";
  framing = default_framing;
  fields = record default_field { name = lit "seq"; type = u16 } ∷ [];
  length_from = [];
  analysis_sequence_field = [];
  analysis_timestamp_field = [];
  analysis_device_id_field = [];
}

small_schema_lem : load_from_yaml small_yaml (lit "a.yaml") ≡ ok small_schema
unfolding load_from_yaml load_schema load_framing load_fields load_field scalar_at text_eq
    field_type_from_string
small_schema_lem = refl

load_from_yaml-AreFieldsOf_example :
    (root message : Text) × (small_yaml.load_file (lit "a.yaml") ≡ value root)
    × (small_yaml.child root (lit "message") ≡ value message)
    × AreFieldsOf small_yaml (message_nodes small_yaml message) small_schema.fields
load_from_yaml-AreFieldsOf_example =
    load_from_yaml-AreFieldsOf small_yaml (lit "a.yaml") small_schema_lem
