-- ===== src/Cli/CommandLine.antt =====
-- cli/CommandLine. `argv` is a list of its strings; the options are an association list.
pub mod RoundTrip
use gateway_forge.Common.{
  ℕ, Bool, true, false, not, Option, none, some, List, [], ◌∷◌, if◌then◌else◌, drop,
}
use gateway_forge.Common.Text.{Text, lit, text_eq, starts_with}

abbrev pub Options : Type 0
Options = List (Text × Text)

pub record CommandLine : Type 0 where
  pub command : Text
  pub options : Options

-- `options[key] = value`.
unfoldable pub set_option : Text → Text → Options → Options
set_option key value [] = (key, value) ∷ []
set_option key value ((k, v) ∷ options) =
    if text_eq k key then (k, value) ∷ options else (k, v) ∷ set_option key value options

-- `options.find(key)`.
unfoldable pub find_option : Text → Options → Option Text
find_option key [] = none
find_option key ((k, v) ∷ options) = if text_eq k key then some v else find_option key options

abbrev pub is_option : Text → Bool
is_option arg = starts_with arg (lit "--")

-- The loop of `Parse` from `argv[2]` on: an argument that is no option is skipped, and one that
-- follows an option is its value, unless it is an option too.
unfoldable pub parse_options : List Text → Options → Options
parse_options [] options = options
parse_options (arg ∷ []) options =
    if is_option arg then set_option (drop 2 arg) [] options else options
parse_options (arg ∷ next ∷ rest) options =
    let with_value = parse_options rest (set_option (drop 2 arg) next options) in
    let alone = parse_options (next ∷ rest) (set_option (drop 2 arg) [] options) in
    let skipped = parse_options (next ∷ rest) options in
    if is_option arg then (if not (is_option next) then with_value else alone) else skipped

-- `Parse`.
unfoldable pub parse_command_line : List Text → Option CommandLine
parse_command_line [] = none
parse_command_line (program ∷ []) = none
parse_command_line (program ∷ command ∷ args) =
    some (record { command = command; options = parse_options args [] })

-- `Get` and `GetOr`.
abbrev pub get_option : CommandLine → Text → Option Text
get_option cmd key = find_option key cmd.options

abbrev pub get_option_or : CommandLine → Text → Text → Text
get_option_or cmd key default_value = elim (find_option key cmd.options) [
  | some value ↦ value
  | none ↦ default_value
]
