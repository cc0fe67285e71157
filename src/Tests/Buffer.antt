-- ===== src/Tests/Buffer.antt =====
-- Instances for common/Buffer.
use gateway_forge.Common.{
  ◌+◌, ◌-◌, ◌^◌, true, false, none, ◌≤◌, ◌<◌, ◌≡◌, refl, ◌⊎◌, some, [], ◌∷◌, arith,
}
use gateway_forge.Common.Outcome.{done, fails, out_of_range, over_read}
use gateway_forge.Common.Memory.{memcpy}
use gateway_forge.Buffer.{Buffer, slice_given, slice, IsValid}
use gateway_forge.Buffer.Bounds.{part_of, slice_bounds, slice_wraps}

abbrev three : Buffer
three = record { block = some (7 ∷ 8 ∷ 9 ∷ []); size = 3 }

three-IsValid : IsValid three
three-IsValid = record { bytes = 7 ∷ 8 ∷ 9 ∷ []; allocated = refl; sized = refl }

slice-three : slice three 1 2 ≡ done (record { block = some (8 ∷ 9 ∷ []); size = 2 })
unfolding slice memcpy
slice-three = refl

slice_bounds_example :
    ((3 < 3) × (slice three 1 2 ≡ fails out_of_range))
    ⊎ ((3 ≤ 3)
        × (slice three 1 2 ≡ done (part_of three-IsValid.bytes 1 2))
        × IsValid (part_of three-IsValid.bytes 1 2))
slice_bounds_example = slice_bounds three three-IsValid 1 2 (omega arith)

slice_wraps_example :
    (3 < 2 ^ 64 + 1)
    × (slice_given true three (2 ^ 64 - 1) 2 ≡ fails over_read)
    × (slice_given false three (2 ^ 64 - 1) 2 ≡ done (record { block = none; size = 2 }))
slice_wraps_example =
    slice_wraps three three-IsValid (2 ^ 64 - 1) 2 (omega arith) (omega arith) (omega arith)
      (omega arith) (omega arith)
