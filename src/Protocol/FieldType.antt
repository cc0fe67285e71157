-- ===== src/Protocol/FieldType.antt =====
-- protocol/FieldType.
use gateway_forge.Common.{ℕ, ◌≡◌, ◌≢◌, refl, ap, ◌∙◌, ◌⊎◌, inl, inr, arith, if◌then◌else◌}
use gateway_forge.Common.Text.{Text, lit, text_eq, text_eq_iff}
use gateway_forge.Common.Outcome.{Outcome, done, fails, runtime_error, Failure, Outcome-cases}

pub data FieldType : Type 0 where
  u8 u16 u32 u64 i8 i16 i32 i64 bytes string : FieldType

-- `FieldTypeSize`; 0 for the types of variable size.
unfoldable pub field_type_size : FieldType → ℕ
field_type_size u8 = 1
field_type_size i8 = 1
field_type_size u16 = 2
field_type_size i16 = 2
field_type_size u32 = 4
field_type_size i32 = 4
field_type_size u64 = 8
field_type_size i64 = 8
field_type_size bytes = 0
field_type_size string = 0

-- `FieldTypeToString`.
unfoldable pub field_type_to_string : FieldType → Text
field_type_to_string u8 = lit "u8"
field_type_to_string u16 = lit "u16"
field_type_to_string u32 = lit "u32"
field_type_to_string u64 = lit "u64"
field_type_to_string i8 = lit "i8"
field_type_to_string i16 = lit "i16"
field_type_to_string i32 = lit "i32"
field_type_to_string i64 = lit "i64"
field_type_to_string bytes = lit "bytes"
field_type_to_string string = lit "string"

-- `FieldTypeFromString`: the lookup in the table of names.
unfoldable pub field_type_from_string : Text → Outcome FieldType
field_type_from_string name =
    if text_eq name (lit "u8")
    then done u8
    else if text_eq name (lit "u16")
    then done u16
    else if text_eq name (lit "u32")
    then done u32
    else if text_eq name (lit "u64")
    then done u64
    else if text_eq name (lit "i8")
    then done i8
    else if text_eq name (lit "i16")
    then done i16
    else if text_eq name (lit "i32")
    then done i32
    else if text_eq name (lit "i64")
    then done i64
    else if text_eq name (lit "bytes")
    then done bytes
    else if text_eq name (lit "string")
    then done string
    else fails runtime_error

from-to_string : (t : FieldType) → field_type_from_string (field_type_to_string t) ≡ done t
unfolding field_type_from_string field_type_to_string text_eq
from-to_string u8 = refl
from-to_string u16 = refl
from-to_string u32 = refl
from-to_string u64 = refl
from-to_string i8 = refl
from-to_string i16 = refl
from-to_string i32 = refl
from-to_string i64 = refl
from-to_string bytes = refl
from-to_string string = refl

pub to-from_string :
    (name : Text) (t : FieldType)
    → field_type_from_string name ≡ done t
    → name ≡ field_type_to_string t
unfolding field_type_from_string field_type_to_string
to-from_string name t h = ground (
  arith,
  text_eq_iff name (lit "u8"),
  text_eq_iff name (lit "u16"),
  text_eq_iff name (lit "u32"),
  text_eq_iff name (lit "u64"),
  text_eq_iff name (lit "i8"),
  text_eq_iff name (lit "i16"),
  text_eq_iff name (lit "i32"),
  text_eq_iff name (lit "i64"),
  text_eq_iff name (lit "bytes"),
  text_eq_iff name (lit "string"),
)

from_string_throws :
    (name : Text) (x : Failure) → field_type_from_string name ≡ fails x → x ≡ runtime_error
unfolding field_type_from_string
from_string_throws name x h = ground arith

-- A name is read as a type exactly when the type is written as that name; any other name throws.
pub field_type_names :
    (name : Text)
    → ((t : FieldType) × (field_type_from_string name ≡ done t) × (name ≡ field_type_to_string t))
      ⊎ ((field_type_from_string name ≡ fails runtime_error)
          × ((t : FieldType) → name ≢ field_type_to_string t))
field_type_names name = elim (Outcome-cases (field_type_from_string name)) [
  | inl (t, e) ↦ inl (t, e, to-from_string name t e)
  | inr (x, e) ↦ inr (
    e ∙ ap fails (from_string_throws name x e),
    λ t p. ground (arith, e, p, ap field_type_from_string p, from-to_string t),
  )
]
