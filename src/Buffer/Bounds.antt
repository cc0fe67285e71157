-- ===== src/Buffer/Bounds.antt =====
-- The bounds checks of common/Buffer.
use gateway_forge.Common.{
  ℕ, ◌+◌, ◌^◌, ◌≤◌, ◌<◌, ◌≡◌, refl, ap, ◌∙◌, ◌⊎◌, inl, inr, [], ◌∷◌, true, false, none, some, arith,
  ltb, Bool-cases, length, take, drop, ltb-false→le, ltb→lt, take-length,
}
use gateway_forge.Common.Words.{Bytes}
use gateway_forge.Common.Outcome.{done, fails, out_of_range, over_read}
use gateway_forge.Common.Memory.{memcpy, memcpy_inside, memcpy_outside, length_part}
use gateway_forge.Buffer.{Buffer, IsValid, slice_given, slice, read, copy, of_data}

-- The part of a buffer that a slice stands for.
abbrev pub part_of : Bytes → ℕ → ℕ → Buffer
part_of bytes offset n = record { block = some (take n (drop offset bytes)); size = n }

pub part_of-IsValid :
    (bytes : Bytes) (offset n : ℕ) → offset + n ≤ length bytes → IsValid (part_of bytes offset n)
part_of-IsValid bytes offset n h = record {
  bytes = take n (drop offset bytes);
  allocated = refl;
  sized = length_part bytes offset n h;
}

module _ (b : Buffer) (v : IsValid b) (offset n : ℕ) where
  -- `Slice` at an offset and a length whose sum fits a size_t: it throws exactly where the part
  -- does not lie in the buffer, and otherwise returns a valid buffer that holds that part.
  pub slice_bounds :
      offset + n < 2 ^ 64
      → ((b.size < offset + n) × (slice b offset n ≡ fails out_of_range))
        ⊎ ((offset + n ≤ b.size)
            × (slice b offset n ≡ done (part_of v.bytes offset n))
            × IsValid (part_of v.bytes offset n))
  unfolding slice
  slice_bounds fits = elim (Bool-cases (ltb b.size (offset + n))) [
    | inl out ↦ inl (ltb→lt _ _ out, ground arith)
    | inr inside ↦ inr (
      ltb-false→le _ _ inside,
      ground (arith, v.allocated, v.sized, memcpy_inside v.bytes offset n),
      part_of-IsValid v.bytes offset n (omega (arith, v.sized, ltb-false→le _ _ inside)),
    )
  ]

  -- The sum in the bounds check of `Slice` wraps: for an offset and a length below 2 ^ 64 whose sum is
  -- at most the size of the buffer beyond 2 ^ 64, the check passes, though the part does not lie in
  -- the buffer. Where `malloc` gives a block of that length, the copy reads outside of the buffer;
  -- where it gives none, the slice has that size and no block.
  pub slice_wraps :
      offset < 2 ^ 64
      → n < 2 ^ 64
      → 2 ^ 64 ≤ offset + n
      → offset + n ≤ 2 ^ 64 + b.size
      → b.size < 2 ^ 64
      → (b.size < offset + n)
        × (slice_given true b offset n ≡ fails over_read)
        × (slice_given false b offset n ≡ done (record { block = none; size = n }))
  slice_wraps fits fits' low high small = (
    omega arith,
    ground (arith, v.allocated, v.sized, memcpy_outside v.bytes offset n),
    ground arith,
  )

  -- `Read` of a value of `n` bytes, where the sum fits a size_t: it throws exactly where the value
  -- does not lie in the buffer, and otherwise copies the `n` bytes from the offset on.
  pub read_bounds :
      offset + n < 2 ^ 64
      → ((b.size < offset + n) × (read b n offset ≡ fails out_of_range))
        ⊎ ((offset + n ≤ b.size) × (read b n offset ≡ done (take n (drop offset v.bytes))))
  unfolding read
  read_bounds fits = elim (Bool-cases (ltb b.size (offset + n))) [
    | inl out ↦ inl (ltb→lt _ _ out, ground arith)
    | inr inside ↦ inr (
      ltb-false→le _ _ inside,
      ground (arith, v.allocated, v.sized, memcpy_inside v.bytes offset n),
    )
  ]

-- A copy of a whole block.
pub memcpy_whole : (bytes : Bytes) (n : ℕ) → n ≡ length bytes → memcpy bytes 0 n ≡ done bytes
memcpy_whole bytes n e =
    rw e (memcpy_inside bytes 0 (length bytes) (omega arith) ∙ ap done (take-length bytes))

empty_bytes : (bytes : Bytes) → length bytes ≡ 0 → bytes ≡ []
empty_bytes [] h = refl
empty_bytes (x ∷ bytes) h = absurd (omega arith)

pub IsValid-eq :
    (b : Buffer) (v : IsValid b) → b ≡ record { block = some v.bytes; size = length v.bytes }
IsValid-eq b v = ground (arith, v.allocated, v.sized)

-- A deep copy of a valid buffer, by the copy constructor or from its pointer and its size, holds the
-- same bytes and has the same size.
pub copy-IsValid : (b : Buffer) → IsValid b → (copy b ≡ done b) × (of_data b.block b.size ≡ done b)
unfolding copy of_data
copy-IsValid b v =
    ground (arith, v.allocated, v.sized, memcpy_whole v.bytes b.size, empty_bytes v.bytes)
