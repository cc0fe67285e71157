-- ===== src/Buffer.antt =====
-- common/Buffer: an owned block of bytes with its size. Every copy is deep, so a buffer is a value;
-- `malloc` is taken to succeed but in `slice_given`. `data_` is `none` where it is null.
pub mod Bounds
pub mod Heap
use gateway_forge.Common.{
  ℕ, ◌+◌, ◌≡◌, refl, Bool, Option, true, false, none, some, [], ◌∷◌, ltb, leb, ◌==◌, if◌then◌else◌,
  length, replicate, take, drop,
}
use gateway_forge.Common.Words.{Bytes, add64}
use gateway_forge.Common.Outcome.{
  Outcome, done, fails, out_of_range, over_read, null_dereference, indeterminate, ◌>>=◌,
}
use gateway_forge.Common.Memory.{memcpy}

pub record Buffer : Type 0 where
  pub block : Option Bytes
  pub size : ℕ

-- `Buffer()`.
abbrev pub empty_buffer : Buffer
empty_buffer = record { block = none; size = 0 }

-- `Buffer(data, size)`. From a null pointer nothing is copied, and the bytes of the new block are
-- indeterminate: the model reports that at once.
unfoldable pub of_data : Option Bytes → ℕ → Outcome Buffer
of_data none size =
    if size == 0 then done (record { block = some []; size = 0 }) else fails indeterminate
of_data (some bytes) size = do
  copied ← memcpy bytes 0 size
  done (record { block = some copied; size = size })

-- `Buffer(size)`, filled with zeros.
unfoldable pub zeroed : ℕ → Buffer
zeroed size = record { block = some (replicate size 0); size = size }

-- The move constructor and the move assignment: the new buffer and what is left of the old one.
unfoldable pub move : Buffer → Buffer × Buffer
move other = (other, empty_buffer)

-- The bytes behind a pointer.
abbrev pub deref : Option Bytes → Outcome Bytes
deref none = fails null_dereference
deref (some bytes) = done bytes

-- The copy constructor and the copy assignment to another object. `memcpy` from a null pointer
-- reads nothing where the size is 0.
unfoldable pub copy : Buffer → Outcome Buffer
copy other = if other.size == 0 then done (record { block = some []; size = 0 }) else do
  bytes ← deref other.block
  copied ← memcpy bytes 0 other.size
  done (record { block = some copied; size = other.size })

-- `operator[]`.
unfoldable pub at : Buffer → ℕ → Outcome ℕ
at b index =
    if leb b.size index
    then fails out_of_range
    else do bytes ← deref b.block; elim (drop index bytes) [ [] ↦ fails over_read | x ∷ _ ↦ done x ]

-- The constructor's `malloc` for a part, if it succeeds, and the copy; without a block nothing is
-- read, and the size is kept.
abbrev pub copy_part : Bool → Option Bytes → ℕ → ℕ → Outcome Buffer
copy_part false block offset length' = done (record { block = none; size = length' })
copy_part true block offset length' = do
  bytes ← deref block
  part ← memcpy bytes offset length'
  done (record { block = some part; size = length' })

-- `Slice`, where `malloc` succeeds or not: the sum of the bounds check is a `size_t`.
abbrev pub slice_given : Bool → Buffer → ℕ → ℕ → Outcome Buffer
slice_given allocates b offset length' =
    if ltb b.size (add64 offset length')
    then fails out_of_range
    else copy_part allocates b.block offset length'

-- `Slice`.
unfoldable pub slice : Buffer → ℕ → ℕ → Outcome Buffer
slice b offset length' = slice_given true b offset length'

-- `Read<T>` for a type of `width` bytes: the bytes that are copied into the value.
unfoldable pub read : Buffer → ℕ → ℕ → Outcome Bytes
read b width offset =
    if ltb b.size (add64 offset width)
    then fails out_of_range
    else do bytes ← deref b.block; memcpy bytes offset width

-- The block is there and as long as the size says.
pub record IsValid (b : Buffer) : Type 0 where
  pub bytes : Bytes
  pub allocated : b.block ≡ some bytes
  pub sized : length bytes ≡ b.size
