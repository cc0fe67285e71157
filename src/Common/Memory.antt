-- ===== src/Common/Memory.antt =====
-- Reads of a block of memory.
use gateway_forge.Common.{
  ℕ, ◌+◌, ◌≤◌, ◌<◌, ◌≡◌, ◌++◌, ap, ◌∙◌, arith, ltb, if◌then◌else◌, length, take, drop, length-take,
  length-drop, length-append, drop-append, take-append,
}
use gateway_forge.Common.Words.{Bytes}
use gateway_forge.Common.Outcome.{Outcome, done, fails, over_read}

-- `std::memcpy(&x, block + offset, n)`: a read past the end of the block is undefined.
unfoldable pub memcpy : Bytes → ℕ → ℕ → Outcome Bytes
memcpy block offset n =
    if ltb (length block) (offset + n) then fails over_read else done (take n (drop offset block))

-- A read inside of the block gives that part of it.
pub memcpy_inside :
    (block : Bytes) (offset n : ℕ)
    → offset + n ≤ length block
    → memcpy block offset n ≡ done (take n (drop offset block))
unfolding memcpy
memcpy_inside block offset n h = ground arith

pub memcpy_outside :
    (block : Bytes) (offset n : ℕ)
    → length block < offset + n
    → memcpy block offset n ≡ fails over_read
unfolding memcpy
memcpy_outside block offset n h = ground arith

pub length_part :
    (block : Bytes) (offset n : ℕ)
    → offset + n ≤ length block
    → length (take n (drop offset block)) ≡ n
length_part block offset n h =
    omega (arith, length-take n (drop offset block), length-drop offset block)

-- A read of the middle of three parts.
pub memcpy_middle :
    (before part after : Bytes) (offset n : ℕ)
    → offset ≡ length before
    → n ≡ length part
    → memcpy (before ++ (part ++ after)) offset n ≡ done part
memcpy_middle before part after offset n p q =
    rw (p, q)
      (memcpy_inside (before ++ (part ++ after)) (length before) (length part)
          (omega (arith, length-append before (part ++ after), length-append part after))
        ∙ ap done
            (ap (take (length part)) (drop-append before (part ++ after)) ∙ take-append part after))
