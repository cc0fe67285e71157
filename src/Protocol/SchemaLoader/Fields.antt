-- ===== src/Protocol/SchemaLoader/Fields.antt =====
-- Which fields a loaded schema has.
use gateway_forge.Common.{
  ◌≡◌, refl, sym, ap, ◌∙◌, subst, ◌⊎◌, inl, inr, true, false, List, [], ◌∷◌, ◌++◌, arith,
  Bool-cases,
}
use gateway_forge.Common.Text.{Text, lit}
use gateway_forge.Common.Attempt.{
  Attempt, value, throws, yaml_error, std_error, or_throw, >>=-eq-value, or_throw-eq-value,
}
use gateway_forge.Common.Result.{ok}
use gateway_forge.Protocol.FieldType.{field_type_from_string, field_type_to_string, to-from_string}
use gateway_forge.Protocol.Schema.{FieldDef, ProtocolSchema}
use gateway_forge.Protocol.SchemaLoader.{
  YamlCpp, text_of, load_const, load_field, load_fields, message_nodes, text_or, load_framing,
  read_under, caught, load_schema, load_from_yaml,
}

value_injective : {A : Type 0} {a b : A} → value a ≡ value b → a ≡ b
value_injective e = cc

module _ {Node : Type 0} (yaml : YamlCpp Node) where
  caught-ok :
      (m : Attempt ProtocolSchema) {schema : ProtocolSchema}
      → caught yaml m ≡ ok schema
      → m ≡ value schema
  caught-ok (value s) h = cc
  caught-ok (throws (yaml_error what)) h = cc
  caught-ok (throws (std_error what)) h = cc

  -- The node's child "const" is there, and the field has its number; or it is not, and the field has
  -- no constant.
  abbrev pub HasConstantOf : Node → FieldDef → Type 0
  HasConstantOf node def =
      (c : Node) × (yaml.child node (lit "const") ≡ value c)
      × (((yaml.is_defined c ≡ true)
            × (def.has_const ≡ true)
            × (yaml.as_unsigned c ≡ value def.const_value))
          ⊎ ((yaml.is_defined c ≡ false) × (def.has_const ≡ false) × (def.const_value ≡ 0)))

  -- The field has the name and the constant that the node gives, and the type that it names.
  pub record IsFieldOf (node : Node) (def : FieldDef) : Type 0 where
    pub named : text_of yaml node (lit "name") ≡ value def.name
    pub typed : text_of yaml node (lit "type") ≡ value (field_type_to_string def.type)
    pub constant : HasConstantOf node def

  abbrev pub AreFieldsOf : List Node → List FieldDef → Type 0
  AreFieldsOf [] [] = Unit {0}
  AreFieldsOf (node ∷ nodes) (def ∷ defs) = IsFieldOf node def × AreFieldsOf nodes defs
  AreFieldsOf _ _ = ⊥

  load_const_lem :
      (node : Node) (before : FieldDef) {def : FieldDef}
      → before.has_const ≡ false
      → before.const_value ≡ 0
      → load_const yaml node before ≡ value def
      → (def.name ≡ before.name) × (def.type ≡ before.type) × HasConstantOf node def
  load_const_lem node before p q h =
      let (c, found, rest) = >>=-eq-value (yaml.child node (lit "const")) _ h in
      elim (Bool-cases (yaml.is_defined c)) [
        | inl there ↦
            let (n, number, last) = >>=-eq-value (yaml.as_unsigned c) _ (rw there at rest) in
            let e = value_injective last in
            (
              ap (λ (d : FieldDef). d.name) (sym e),
              ap (λ (d : FieldDef). d.type) (sym e),
              (
                c,
                found,
                inl (
                  there,
                  ap (λ (d : FieldDef). d.has_const) (sym e),
                  number ∙ ap (λ (d : FieldDef). value d.const_value) e,
                ),
              ),
            )
        | inr missing ↦
            let e = value_injective (rw missing at rest) in
            (
              ap (λ (d : FieldDef). d.name) (sym e),
              ap (λ (d : FieldDef). d.type) (sym e),
              (
                c,
                found,
                inr (
                  missing,
                  ap (λ (d : FieldDef). d.has_const) (sym e) ∙ p,
                  ap (λ (d : FieldDef). d.const_value) (sym e) ∙ q,
                ),
              ),
            )
      ]

  load_field-IsFieldOf :
      (node : Node) {def : FieldDef} → load_field yaml node ≡ value def → IsFieldOf node def
  unfolding load_field
  load_field-IsFieldOf node h =
      let (name, named, h1) = >>=-eq-value (text_of yaml node (lit "name")) _ h in
      let (type_name, typed, h2) = >>=-eq-value (text_of yaml node (lit "type")) _ h1 in
      let (type, known, h3) =
        >>=-eq-value
          (or_throw (field_type_from_string type_name) (lit "Unknown field type: " ++ type_name)) _
          h2 in
      let (n, t, c) = load_const_lem node _ refl refl h3 in
      let read =
        to-from_string type_name type
          (or_throw-eq-value (field_type_from_string type_name) _ known) in
      record {
        named = ground (arith, named, n);
        typed = ground (arith, typed, read, ap field_type_to_string t);
        constant = c;
      }

  load_fields-AreFieldsOf :
      (nodes : List Node) {defs : List FieldDef}
      → load_fields yaml nodes ≡ value defs
      → AreFieldsOf nodes defs
  unfolding load_fields
  load_fields-AreFieldsOf [] {defs = []} h = tt
  load_fields-AreFieldsOf [] {defs = def ∷ defs} h = cc
  load_fields-AreFieldsOf (node ∷ nodes) {defs = defs} h =
      let (def, first, h1) = >>=-eq-value (load_field yaml node) _ h in
      let (rest, others, h2) = >>=-eq-value (load_fields yaml nodes) _ h1 in
      whole (load_field-IsFieldOf node first) (load_fields-AreFieldsOf nodes others) h2
    where
      whole :
          {def : FieldDef} {rest all : List FieldDef}
          → IsFieldOf node def
          → AreFieldsOf nodes rest
          → ◌≡◌ {A = Attempt (List FieldDef)} (value (def ∷ rest)) (value all)
          → AreFieldsOf (node ∷ nodes) all
      whole f fs e = subst (AreFieldsOf (node ∷ nodes)) (value_injective e) (f, fs)

  load_schema-AreFieldsOf :
      (root : Node) {schema : ProtocolSchema}
      → load_schema yaml root ≡ value schema
      → (message : Node) × (yaml.child root (lit "message") ≡ value message)
        × AreFieldsOf (message_nodes yaml message) schema.fields
  unfolding load_schema
  load_schema-AreFieldsOf root h =
      let (name, _, h1) = >>=-eq-value (text_or yaml root (lit "name") []) _ h in
      let (transport, _, h2) =
        >>=-eq-value (text_or yaml root (lit "transport") (lit "tcp")) _ h1 in
      let (endian, _, h3) = >>=-eq-value (text_or yaml root (lit "endian") (lit "big")) _ h2 in
      let (framing, _, h4) = >>=-eq-value (load_framing yaml root) _ h3 in
      let (message, found, h5) = >>=-eq-value (yaml.child root (lit "message")) _ h4 in
      let (fields, loaded, h6) =
        >>=-eq-value (load_fields yaml (message_nodes yaml message)) _ h5 in
      let (length_from, _, h7) =
        >>=-eq-value (read_under yaml root (lit "payload") (lit "length_from")) _ h6 in
      let (sequence, _, h8) =
        >>=-eq-value (read_under yaml root (lit "analysis") (lit "sequence_field")) _ h7 in
      let (timestamp, _, h9) =
        >>=-eq-value (read_under yaml root (lit "analysis") (lit "timestamp_field")) _ h8 in
      let (device, _, last) =
        >>=-eq-value (read_under yaml root (lit "analysis") (lit "device_id_field")) _ h9 in
      (
        message,
        found,
        subst (AreFieldsOf (message_nodes yaml message))
            (ap (λ (s : ProtocolSchema). s.fields) (value_injective last))
            (load_fields-AreFieldsOf (message_nodes yaml message) loaded),
      )

  -- A schema that is loaded has one field for each element of the document's node "message", in
  -- order, and none where the node is missing: each field has the name that the element gives and
  -- the type that it names, and a constant exactly where the element has a node "const", with the
  -- number that stands there.
  pub load_from_yaml-AreFieldsOf :
      (filepath : Text) {schema : ProtocolSchema}
      → load_from_yaml yaml filepath ≡ ok schema
      → (root message : Node) × (yaml.load_file filepath ≡ value root)
        × (yaml.child root (lit "message") ≡ value message)
        × AreFieldsOf (message_nodes yaml message) schema.fields
  unfolding load_from_yaml
  load_from_yaml-AreFieldsOf filepath h =
      let (root, opened, loaded) =
        >>=-eq-value (yaml.load_file filepath) (load_schema yaml) (caught-ok _ h) in
      let (message, found, fields) = load_schema-AreFieldsOf root loaded in
      (root, message, opened, found, fields)
