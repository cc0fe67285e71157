-- ===== src/Buffer/Heap.antt =====
-- common/Buffer with its pointers: objects at addresses, each with a pointer to a block of the heap.
-- `std::malloc` is not modelled: each command that calls it carries the answer, a null pointer or a
-- pointer with the bytes that the new block happens to hold.
pub mod Owns
pub mod Places
pub mod Values
pub mod Refines
pub mod Commands
use gateway_forge.Common.{
  ℕ, ◌≡◌, Option, none, some, List, [], ◌∷◌, ◌==◌, if◌then◌else◌, length, replicate,
}
use gateway_forge.Common.Words.{Bytes}
use gateway_forge.Common.Outcome.{
  Outcome, done, fails, null_dereference, use_after_free, double_free, ◌>>=◌,
}
use gateway_forge.Common.Memory.{memcpy}

-- A buffer: `data_` and `size_`.
pub record Object : Type 0 where
  pub pointer : Option ℕ
  pub size : ℕ

-- The buffers that are alive, by their addresses, and the blocks that are allocated, by theirs.
pub record Store : Type 0 where
  pub objects : ℕ → Option Object
  pub blocks : ℕ → Option Bytes

abbrev pub empty_store : Store
empty_store = record { objects = λ _. none; blocks = λ _. none }

unfoldable pub set {ℓ} : {A : Type ℓ} → (ℕ → Option A) → ℕ → Option A → ℕ → Option A
set entries k content i = if i == k then content else entries i

abbrev pub with_block : Store → ℕ → Option Bytes → Store
with_block s p content = record s { blocks = set s.blocks p content }

abbrev pub with_object : Store → ℕ → Option Object → Store
with_object s id content = record s { objects = set s.objects id content }

-- What `std::malloc` answers.
abbrev pub Answer : Type 0
Answer = Option (ℕ × Bytes)

-- The object at an address.
unfoldable pub object : Store → ℕ → Outcome Object
object s id = elim (s.objects id) [ none ↦ fails use_after_free | some o ↦ done o ]

-- The bytes that `memcpy` reads of a buffer.
unfoldable pub contents : Store → Object → Outcome Bytes
contents s o = if o.size == 0 then done [] else elim o.pointer [
  | none ↦ fails null_dereference
  | some p ↦ elim (s.blocks p) [ none ↦ fails use_after_free | some bytes ↦ memcpy bytes 0 o.size ]
]

-- `std::free`.
unfoldable pub free : Store → Option ℕ → Outcome Store
free s none = done s
free s (some p) = elim (s.blocks p) [
  | none ↦ fails double_free
  | some _ ↦ done (with_block s p none)
]

-- What the copy constructor and the copy assignment share: the new block and the copy into it.
unfoldable pub copy_from : Store → ℕ → Object → Answer → Outcome Store
copy_from s id other none =
    done (with_object s id (some (record { pointer = none; size = other.size })))
copy_from s id other (some (p, raw)) = do
  bytes ← contents (with_block s p (some raw)) other
  done (
      with_object (with_block s p (some bytes)) id
        (some (record { pointer = some p; size = other.size })))

-- What the move constructor and the move assignment share.
unfoldable pub take_from : Store → ℕ → ℕ → Object → Store
take_from s id other o =
    with_object (with_object s id (some (record { pointer = o.pointer; size = o.size }))) other
      (some (record { pointer = none; size = 0 }))

-- The constructors, the assignments and the destructor, on the buffer at the first address.
pub data Command : Type 0 where
  construct : ℕ → Command
  construct_from : ℕ → Option Bytes → ℕ → Answer → Command
  construct_zeroed : ℕ → ℕ → Answer → Command
  construct_copy : ℕ → ℕ → Answer → Command
  construct_move : ℕ → ℕ → Command
  assign_copy : ℕ → ℕ → Answer → Command
  assign_move : ℕ → ℕ → Command
  destroy : ℕ → Command

-- `Buffer(data, size)`; the bytes behind `data` belong to the caller.
unfoldable pub fill_from : Store → ℕ → Option Bytes → ℕ → Answer → Outcome Store
fill_from s id source size none =
    done (with_object s id (some (record { pointer = none; size = size })))
fill_from s id none size (some (p, raw)) =
    done
      (with_object (with_block s p (some raw)) id (some (record { pointer = some p; size = size })))
fill_from s id (some source) size (some (p, raw)) = do
  bytes ← memcpy source 0 size
  done (
      with_object (with_block s p (some bytes)) id
        (some (record { pointer = some p; size = size })))

-- `Buffer(size)`.
unfoldable pub fill_zeroed : Store → ℕ → ℕ → Answer → Outcome Store
fill_zeroed s id size none = done (with_object s id (some (record { pointer = none; size = size })))
fill_zeroed s id size (some (p, raw)) = done (
    with_object (with_block s p (some (replicate size 0))) id
      (some (record { pointer = some p; size = size })))

-- `free(data_)`, as the assignments and the destructor begin.
unfoldable pub free_own : Store → ℕ → Outcome Store
free_own s id = do own ← object s id; free s own.pointer

unfoldable pub assign_copy_from : Store → ℕ → ℕ → Answer → Outcome Store
assign_copy_from s id other answer =
    if id == other
    then done s
    else do s' ← free_own s id; o ← object s' other; copy_from s' id o answer

unfoldable pub assign_move_from : Store → ℕ → ℕ → Outcome Store
assign_move_from s id other =
    if id == other
    then done s
    else do s' ← free_own s id; o ← object s' other; done (take_from s' id other o)

unfoldable pub exec : Store → Command → Outcome Store
exec s (construct id) = done (with_object s id (some (record { pointer = none; size = 0 })))
exec s (construct_from id source size answer) = fill_from s id source size answer
exec s (construct_zeroed id size answer) = fill_zeroed s id size answer
exec s (construct_copy id other answer) = do o ← object s other; copy_from s id o answer
exec s (construct_move id other) = do o ← object s other; done (take_from s id other o)
exec s (assign_copy id other answer) = assign_copy_from s id other answer
exec s (assign_move id other) = assign_move_from s id other
exec s (destroy id) = do s' ← free_own s id; done (with_object s' id none)

unfoldable pub exec_all : Store → List Command → Outcome Store
exec_all s [] = done s
exec_all s (command ∷ commands) = do s' ← exec s command; exec_all s' commands
