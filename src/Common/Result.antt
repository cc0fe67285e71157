-- ===== src/Common/Result.antt =====
-- common/Result: a value or the text of an error.
use gateway_forge.Common.{Bool, true, false}
use gateway_forge.Common.Text.{Text}
use gateway_forge.Common.Outcome.{Outcome, done, fails, runtime_error}

pub data Result {ℓ} (A : Type ℓ) : Type ℓ where
  ok : A → Result A
  err : Text → Result A

abbrev pub is_ok {ℓ} : {A : Type ℓ} → Result A → Bool
is_ok (ok value) = true
is_ok (err error) = false

-- `Unwrap`.
abbrev pub unwrap {ℓ} : {A : Type ℓ} → Result A → Outcome A
unwrap (ok value) = done value
unwrap (err error) = fails runtime_error

-- `UnwrapOr`.
abbrev pub unwrap_or {ℓ} : {A : Type ℓ} → Result A → A → A
unwrap_or (ok value) default_value = value
unwrap_or (err error) default_value = default_value
