-- ===== src/Common/Outcome.antt =====
-- The outcome of C++ code that can fail: it returns, it throws, or its behaviour is undefined.
-- A loop that is run on fuel can also stop for want of it.
use gateway_forge.Common.{◌≡◌, refl, ◌⊎◌, inl, inr}

pub data Failure : Type 0 where
  -- std::out_of_range, std::invalid_argument, std::runtime_error
  out_of_range invalid_argument runtime_error : Failure
  -- a read outside of the memory block, a dereferenced null pointer
  over_read null_dereference : Failure
  -- a block or an object used after its end, a block given back twice
  use_after_free double_free : Failure
  -- a variable read before it is set
  indeterminate : Failure
  out_of_fuel : Failure

pub data Outcome {ℓ} (A : Type ℓ) : Type ℓ where
  done : A → Outcome A
  fails : Failure → Outcome A

infixl 5 ◌>>=◌ ◌>>◌
abbrev pub ◌>>=◌ {ℓ κ} : {A : Type ℓ} {B : Type κ} → Outcome A → (A → Outcome B) → Outcome B
done a >>= f = f a
fails e >>= f = fails e

abbrev pub ◌>>◌ {ℓ} : {B : Type ℓ} → Outcome (Unit {0}) → Outcome B → Outcome B
m >> k = m >>= λ _. k

pub >>=-eq-done {ℓ κ} :
    {A : Type ℓ} {B : Type κ} (m : Outcome A) (f : A → Outcome B) {b : B}
    → (m >>= f) ≡ done b
    → (a : A) × (m ≡ done a) × (f a ≡ done b)
>>=-eq-done (done a) f h = (a, refl, h)
>>=-eq-done (fails e) f h = cc

pub done_injective {ℓ} : {A : Type ℓ} {a b : A} → ◌≡◌ {A = Outcome A} (done a) (done b) → a ≡ b
done_injective e = cc

pub Outcome-cases {ℓ} :
    {A : Type ℓ} (m : Outcome A) → ((a : A) × (m ≡ done a)) ⊎ ((e : Failure) × (m ≡ fails e))
Outcome-cases (done a) = inl (a, refl)
Outcome-cases (fails e) = inr (e, refl)

-- The code returns: it neither throws nor runs into undefined behaviour, nor out of fuel.
abbrev pub Returns {ℓ} : {A : Type ℓ} → Outcome A → Type 0
Returns (done a) = Unit {0}
Returns (fails e) = ⊥

pub Returns-value {ℓ} : {A : Type ℓ} (m : Outcome A) → Returns m → (a : A) × (m ≡ done a)
Returns-value (done a) r = (a, refl)
Returns-value (fails e) r = absurd r

pub Returns-bind {ℓ κ} :
    {A : Type ℓ} {B : Type κ} (m : Outcome A) (f : A → Outcome B)
    → Returns m
    → ((a : A) → m ≡ done a → Returns (f a))
    → Returns (m >>= f)
Returns-bind (done a) f r k = k a refl
Returns-bind (fails e) f r k = absurd r
