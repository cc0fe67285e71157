-- ===== src/Common/Decimal.antt =====
-- Decimal numbers read back, against which `std::to_string` and the padding with zeros are held.
use native.Mathlib.Nat.{pow-suc}
use gateway_forge.Common.{
  ℕ, zero, suc, ◌+◌, ◌*◌, ◌-◌, ◌/◌, ◌%◌, ◌^◌, ◌≤◌, ◌<◌, ◌≡◌, refl, sym, ap, ◌∙◌, [], ◌∷◌, ◌++◌,
  arith, Bool, true, false, ◌⊎◌, subst, if◌then◌else◌, ◌==◌, Bool-cases, inl, inr, length,
  replicate,
}
use gateway_forge.Common.Text.{Text, lit, to_string, digits_onto}

-- Every character is a decimal digit.
abbrev pub AreDigits : Text → Type 0
AreDigits [] = Unit {0}
AreDigits (c ∷ s) = ((48 ≤ c) × (c < 58)) × AreDigits s

-- The number that decimal digits stand for, behind others that stand for `acc`.
abbrev pub read_digits : ℕ → Text → ℕ
read_digits acc [] = acc
read_digits acc (c ∷ s) = read_digits (acc * 10 + (c - 48)) s

digits_onto-AreDigits :
    (fuel n : ℕ) (out : Text) → AreDigits out → AreDigits (digits_onto fuel n out)
digits_onto-AreDigits zero n out d = d
digits_onto-AreDigits (suc fuel) n out d = elim (Bool-cases (n == 0)) [
  | inl none_left ↦ rw none_left d
  | inr more ↦ rw more (digits_onto-AreDigits fuel (n / 10) _ ((omega arith, omega arith), d))
]

zero_lem : (n : ℕ) → (n == 0) ≡ true → 0 ≡ n
zero_lem n e = ground arith

digits_onto-read :
    (fuel n : ℕ) (out : Text)
    → n < 10 ^ fuel
    → read_digits 0 (digits_onto fuel n out) ≡ read_digits n out
digits_onto-read zero n out small = ap (λ (m : ℕ). read_digits m out) (omega arith)
digits_onto-read (suc fuel) n out small = elim (Bool-cases (n == 0)) [
  | inl none_left ↦ rw none_left (ap (λ (m : ℕ). read_digits m out) (zero_lem n none_left))
  | inr more ↦ rw more (
      digits_onto-read fuel (n / 10) _ (omega (arith, pow-suc 10 fuel))
      ∙ ap (λ (m : ℕ). read_digits m out) (omega arith))
]

digits_onto-length :
    (k fuel n : ℕ) (out : Text) → n < 10 ^ k → length (digits_onto fuel n out) ≤ length out + k
digits_onto-length k zero n out small = omega arith
digits_onto-length zero (suc fuel) n out small = ground arith
digits_onto-length (suc k) (suc fuel) n out small = elim (Bool-cases (n == 0)) [
  | inl none_left ↦ rw none_left (omega arith)
  | inr more ↦ rw more (
      omega (
        arith,
        digits_onto-length k fuel (n / 10) ((48 + n % 10) ∷ out) (omega (arith, pow-suc 10 k)),
      ))
]

if_cases :
    {A : Type 0} (b : Bool) (x y : A)
    → ((b ≡ true) × ((if b then x else y) ≡ x)) ⊎ ((if b then x else y) ≡ y)
if_cases true x y = inl (refl, refl)
if_cases false x y = inr refl

to_string_cases :
    (n : ℕ) → ((n ≡ 0) × (to_string n ≡ lit "0")) ⊎ (to_string n ≡ digits_onto 20 n [])
unfolding to_string
to_string_cases n = elim (if_cases (n == 0) (lit "0") (digits_onto 20 n [])) [
  | inl (nothing, e) ↦ inl (sym (zero_lem n nothing), e)
  | inr e ↦ inr e
]

-- A uint64_t is written with digits that stand for it.
pub to_string-read : (n : ℕ) → n < 2 ^ 64 → read_digits 0 (to_string n) ≡ n
to_string-read n small = elim (to_string_cases n) [
  | inl (nothing, e) ↦ rw e (sym nothing)
  | inr e ↦ ap (read_digits 0) e ∙ digits_onto-read 20 n [] (omega arith)
]

pub to_string-AreDigits : (n : ℕ) → AreDigits (to_string n)
to_string-AreDigits n = elim (to_string_cases n) [
  | inl (nothing, e) ↦ rw e ((omega arith, omega arith), tt)
  | inr e ↦ subst AreDigits (sym e) (digits_onto-AreDigits 20 n [] tt)
]

-- A number below 10 ^ (k + 1) has at most k + 1 digits.
pub length-to_string : (k n : ℕ) → n < 10 ^ suc k → length (to_string n) ≤ suc k
length-to_string k n small = elim (to_string_cases n) [
  | inl (nothing, e) ↦ rw e (omega arith)
  | inr e ↦ omega (arith, ap (length {A = ℕ}) e, digits_onto-length (suc k) 20 n [] small)
]

pub zeros-read : (n : ℕ) (s : Text) → read_digits 0 (replicate n b'0' ++ s) ≡ read_digits 0 s
zeros-read zero s = refl
zeros-read (suc n) s = zeros-read n s

pub zeros-AreDigits : (n : ℕ) (s : Text) → AreDigits s → AreDigits (replicate n b'0' ++ s)
zeros-AreDigits zero s d = d
zeros-AreDigits (suc n) s d = ((omega arith, omega arith), zeros-AreDigits n s d)
