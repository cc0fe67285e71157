-- ===== src/Cli/CommandLine/RoundTrip.antt =====
-- A command line that spells out options gives them back.
use gateway_forge.Common.{
  ◌≡◌, refl, ap, ◌∙◌, true, false, Option, none, some, List, [], ◌∷◌, ◌++◌, arith, if◌then◌else◌,
}
use gateway_forge.Common.Text.{Text, lit, text_eq, text_eq_iff, starts_with}
use gateway_forge.Cli.CommandLine.{
  Options, CommandLine, set_option, find_option, is_option, parse_options, parse_command_line,
  get_option,
}

-- The arguments that set these options, in this order.
abbrev pub args_of : List (Text × Text) → List Text
args_of [] = []
args_of ((key, value) ∷ given) = (lit "--" ++ key) ∷ value ∷ args_of given

-- No value looks like an option.
abbrev pub ArePlain : List (Text × Text) → Type 0
ArePlain [] = Unit {0}
ArePlain ((key, value) ∷ given) = (is_option value ≡ false) × ArePlain given

-- The last value that is given for a key.
abbrev pub last_given : Text → List (Text × Text) → Option Text → Option Text
last_given key [] found = found
last_given key ((k, v) ∷ given) found =
    last_given key given (if text_eq k key then some v else found)

find_option-set_option :
    (key j value : Text) (options : Options)
    → find_option j (set_option key value options)
      ≡ (if text_eq key j then some value else find_option j options)
unfolding find_option set_option
find_option-set_option key j value [] = refl
find_option-set_option key j value ((k, v) ∷ options) = ground (
  arith,
  text_eq_iff k key,
  text_eq_iff k j,
  text_eq_iff key j,
  find_option-set_option key j value options,
)

dashes : (key : Text) → is_option (lit "--" ++ key) ≡ true
unfolding starts_with
dashes key = refl

parse_options-args_of :
    (key : Text) (given : List (Text × Text)) (options : Options)
    → ArePlain given
    → find_option key (parse_options (args_of given) options)
      ≡ last_given key given (find_option key options)
unfolding parse_options
parse_options-args_of key [] options p = refl
parse_options-args_of key ((k, v) ∷ given) options (plain, p) =
    rw (dashes k, plain)
      (parse_options-args_of key given (set_option k v options) p
        ∙ ap (last_given key given) (find_option-set_option k key v options))

-- A program name, a command and `--key value` pairs, no value of which begins with two dashes: the
-- command is read, and every key has the last value given for it, and no other key has any.
pub parse-args_of :
    (program command : Text) (given : List (Text × Text))
    → ArePlain given
    → (cmd : CommandLine) × (parse_command_line (program ∷ command ∷ args_of given) ≡ some cmd)
      × (cmd.command ≡ command)
      × ((key : Text) → get_option cmd key ≡ last_given key given none)
unfolding parse_command_line find_option
parse-args_of program command given p = (
  record { command = command; options = parse_options (args_of given) [] },
  refl,
  refl,
  λ key. parse_options-args_of key given [] p,
)
