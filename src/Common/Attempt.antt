-- ===== src/Common/Attempt.antt =====
-- Code inside of a `try` whose handlers tell the exceptions of the YAML library from all others. An
-- exception has the text that `what()` gives.
use gateway_forge.Common.{◌≡◌, refl}
use gateway_forge.Common.Text.{Text}
use gateway_forge.Common.Outcome.{Outcome, done, fails}

pub data Thrown : Type 0 where
  yaml_error : Text → Thrown
  std_error : Text → Thrown

pub data Attempt {ℓ} (A : Type ℓ) : Type ℓ where
  value : A → Attempt A
  throws : Thrown → Attempt A

infixl 5 ◌>>=◌
abbrev pub ◌>>=◌ {ℓ κ} : {A : Type ℓ} {B : Type κ} → Attempt A → (A → Attempt B) → Attempt B
value a >>= f = f a
throws e >>= f = throws e

-- Code that throws a std::exception with this text.
abbrev pub or_throw {ℓ} : {A : Type ℓ} → Outcome A → Text → Attempt A
or_throw (done a) what = value a
or_throw (fails e) what = throws (std_error what)

pub >>=-eq-value {ℓ κ} :
    {A : Type ℓ} {B : Type κ} (m : Attempt A) (f : A → Attempt B) {b : B}
    → (m >>= f) ≡ value b
    → (a : A) × (m ≡ value a) × (f a ≡ value b)
>>=-eq-value (value a) f h = (a, refl, h)
>>=-eq-value (throws e) f h = cc

pub or_throw-eq-value {ℓ} :
    {A : Type ℓ} (m : Outcome A) (what : Text) {a : A} → or_throw m what ≡ value a → m ≡ done a
or_throw-eq-value (done a) what h = cc
or_throw-eq-value (fails e) what h = cc
