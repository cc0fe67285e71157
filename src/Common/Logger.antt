-- ===== src/Common/Logger.antt =====
-- common/Logger: which level the logger has. The logger itself is spdlog's.
use gateway_forge.Common.{◌≡◌, refl, Option, none, some, if◌then◌else◌}
use gateway_forge.Common.Text.{Text, lit, text_eq}

pub data Level : Type 0 where
  trace debug info warn err : Level

-- `Init`: the level of a name, and `info` for any other name.
unfoldable pub level_of : Text → Level
level_of level =
    if text_eq level (lit "trace")
    then trace
    else if text_eq level (lit "debug")
    then debug
    else if text_eq level (lit "warn")
    then warn
    else if text_eq level (lit "error")
    then err
    else info

-- `Get`: the logger that was made, or one that is made by `Init("off")`.
unfoldable pub get_logger : Option Level → Level
get_logger none = level_of (lit "off")
get_logger (some logger) = logger

-- The name "off" is not known, so that a logger that nobody has set up is not silent.
get_logger-none : get_logger none ≡ info
unfolding get_logger level_of text_eq
get_logger-none = refl
