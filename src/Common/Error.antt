-- ===== src/Common/Error.antt =====
-- common/Error. The texts of the system's errors are arguments.
use gateway_forge.Common.Words.{ℤ}
use gateway_forge.Common.Text.{Text}

-- `FormatErrno` and `FormatGaiError`.
unfoldable pub format_errno : (ℤ → Text) → ℤ → Text
format_errno strerror err = strerror err

unfoldable pub format_gai_error : (ℤ → Text) → ℤ → Text
format_gai_error gai_strerror err = gai_strerror err
