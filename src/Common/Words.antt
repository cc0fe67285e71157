-- ===== src/Common/Words.antt =====
-- Machine integers as native numbers with their wrap-around written out, and the values that
-- `memcpy` into an integer gives on the little-endian host, before and after `ntohs`/`ntohl`.
use gateway_forge.Common.{
  ℕ, zero, suc, ◌+◌, ◌-◌, ◌*◌, ◌/◌, ◌%◌, ◌^◌, ◌<◌, ◌≡◌, refl, ap, List, [], ◌∷◌, ◌++◌, arith, ltb,
  if◌then◌else◌, length, length-append,
}

-- `size_t` and `uint64_t`.
abbrev pub add64 : ℕ → ℕ → ℕ
add64 a b = (a + b) % 2 ^ 64

abbrev pub sub64 : ℕ → ℕ → ℕ
sub64 a b = (a + 2 ^ 64 - b) % 2 ^ 64

-- `uint32_t` and `uint16_t` keep the low bits.
abbrev pub to_u32 : ℕ → ℕ
to_u32 a = a % 2 ^ 32

abbrev pub to_u16 : ℕ → ℕ
to_u16 a = a % 2 ^ 16

abbrev pub Bytes : Type 0
Bytes = List ℕ

-- Every element is an octet.
abbrev pub AreBytes : Bytes → Type 0
AreBytes [] = Unit {0}
AreBytes (b ∷ bs) = (b < 256) × AreBytes bs

-- The integer whose octets stand in memory in this order, most significant last (host order).
abbrev pub le_value : Bytes → ℕ
le_value [] = 0
le_value (b ∷ bs) = b + 256 * le_value bs

-- The same after a swap to network order: most significant octet first.
abbrev pub be_onto : ℕ → Bytes → ℕ
be_onto acc [] = acc
be_onto acc (b ∷ bs) = be_onto (acc * 256 + b) bs

abbrev pub be_value : Bytes → ℕ
be_value = be_onto 0

-- `ntohs` and `ntohl` on a little-endian host: the octets change places.
abbrev pub ntohs : ℕ → ℕ
ntohs w = w % 256 * 256 + w / 256 % 256

abbrev pub ntohl : ℕ → ℕ
ntohl w = ntohs w * 65536 + ntohs (w / 65536)

-- `n` in `k` octets, least significant first.
abbrev pub le_bytes : ℕ → ℕ → Bytes
le_bytes zero n = []
le_bytes (suc k) n = (n % 256) ∷ le_bytes k (n / 256)

-- `n` in `k` octets, most significant first.
abbrev pub be_bytes : ℕ → ℕ → Bytes
be_bytes zero n = []
be_bytes (suc k) n = be_bytes k (n / 256) ++ (n % 256) ∷ []

pub length-be_bytes : (k n : ℕ) → length (be_bytes k n) ≡ k
length-be_bytes zero n = refl
length-be_bytes (suc k) n =
    omega
      (arith, length-append (be_bytes k (n / 256)) ((n % 256) ∷ []), length-be_bytes k (n / 256))

pub length-le_bytes : (k n : ℕ) → length (le_bytes k n) ≡ k
length-le_bytes zero n = refl
length-le_bytes (suc k) n = ap suc (length-le_bytes k (n / 256))

pub be_onto-append :
    (acc : ℕ) (xs ys : Bytes) → be_onto acc (xs ++ ys) ≡ be_onto (be_onto acc xs) ys
be_onto-append acc [] ys = refl
be_onto-append acc (x ∷ xs) ys = be_onto-append (acc * 256 + x) xs ys

-- Two's complement of a `w`-bit pattern.
pub data ℤ : Type 0 where
  pos : ℕ → ℤ
  negsuc : ℕ → ℤ

abbrev pub signed : ℕ → ℕ → ℤ
signed half w = if ltb w half then pos w else negsuc (2 * half - w - 1)

-- The pattern of a signed number.
abbrev pub pattern_of : ℕ → ℤ → ℕ
pattern_of half (pos n) = n
pattern_of half (negsuc n) = 2 * half - n - 1

-- The numbers that a signed type of this half-range holds.
abbrev pub FitsSigned : ℕ → ℤ → Type 0
FitsSigned half (pos n) = n < half
FitsSigned half (negsuc n) = n < half

pub signed-pattern_of : (half : ℕ) (z : ℤ) → FitsSigned half z → signed half (pattern_of half z) ≡ z
signed-pattern_of half (pos n) h = ground arith
signed-pattern_of half (negsuc n) h = ground arith
