-- ===== src/Tests/Heap.antt =====
-- An instance for buffers with pointers: copies, an assignment to itself, a move, and destructors.
use gateway_forge.Common.{ℕ, ◌≡◌, refl, none, some, List, [], ◌∷◌, arith}
use gateway_forge.Common.Outcome.{done, fails, null_dereference}
use gateway_forge.Common.Memory.{memcpy}
use gateway_forge.Buffer.Heap.{
  Store, empty_store, set, with_block, with_object, Command, construct_from, construct_zeroed,
  construct_copy, assign_copy, assign_move, destroy, object, contents, free, copy_from, take_from,
  fill_from, free_own, assign_copy_from, assign_move_from, exec, exec_all,
}
use gateway_forge.Buffer.Heap.Owns.{Owns}
use gateway_forge.Buffer.Heap.Values.{values, spec_all}
use gateway_forge.Buffer.Heap.Commands.{AreScoped, scoped_next, exec_all_refines, copy_failed}

-- The buffers 1 and 2, the second one a copy; the first one is assigned to itself, and then to the
-- second one, whose block is given back; both are destroyed.
abbrev copied_to_2 : Command
copied_to_2 = construct_copy 2 1 (some (101, 0 ∷ 0 ∷ []))

abbrev end_of_life : List Command
end_of_life = assign_copy 1 1 none ∷ assign_move 2 1 ∷ destroy 1 ∷ destroy 2 ∷ []

abbrev life : List Command
life = construct_from 1 (some (7 ∷ 8 ∷ [])) 2 (some (100, 0 ∷ 0 ∷ [])) ∷ copied_to_2 ∷ end_of_life

abbrev store_1 : Store
store_1 =
    with_object (with_block empty_store 100 (some (7 ∷ 8 ∷ []))) 1
      (some (record { pointer = some 100; size = 2 }))

abbrev store_2 : Store
store_2 =
    with_object (with_block store_1 101 (some (7 ∷ 8 ∷ []))) 2
      (some (record { pointer = some 101; size = 2 }))

abbrev store_3 : Store
store_3 =
    with_object
      (with_object (with_block store_2 101 none) 2 (some (record { pointer = some 100; size = 2 })))
      1 (some (record { pointer = none; size = 0 }))

abbrev store_4 : Store
store_4 = with_object store_3 1 none

abbrev store_5 : Store
store_5 = with_object (with_block store_4 100 none) 2 none

life-AreScoped : AreScoped empty_store life
unfolding set exec object contents memcpy free copy_from take_from fill_from free_own
    assign_copy_from assign_move_from
life-AreScoped =
    scoped_next empty_store store_1
      (construct_from 1 (some (7 ∷ 8 ∷ [])) 2 (some (100, 0 ∷ 0 ∷ []))) (copied_to_2 ∷ end_of_life)
      refl
      (
        refl,
        omega arith,
        record { address = 100; raw = 0 ∷ 0 ∷ []; answered = refl; fresh = refl; sized = refl },
      )
      (scoped_next store_1 store_2 copied_to_2 end_of_life refl
        (
          refl,
          (
            record { pointer = some 100; size = 2 },
            refl,
            record { address = 101; raw = 0 ∷ 0 ∷ []; answered = refl; fresh = refl; sized = refl },
          ),
        )
        (scoped_next store_2 store_2 (assign_copy 1 1 none)
          (assign_move 2 1 ∷ destroy 1 ∷ destroy 2 ∷ []) refl
          (
            record { pointer = some 100; size = 2 },
            refl,
            (record { pointer = some 100; size = 2 }, refl, (λ h. absurd (h refl))),
          )
          (scoped_next store_2 store_3 (assign_move 2 1) (destroy 1 ∷ destroy 2 ∷ []) refl
            (
              record { pointer = some 101; size = 2 },
              refl,
              (record { pointer = some 100; size = 2 }, refl),
            )
            (scoped_next store_3 store_4 (destroy 1) (destroy 2 ∷ []) refl
              (record { pointer = none; size = 0 }, refl)
              (scoped_next store_4 store_5 (destroy 2) [] refl
                (record { pointer = some 100; size = 2 }, refl) tt)))))

exec_all_refines_example :
    (s : Store) × (exec_all empty_store life ≡ done s)
    × Owns s
    × (((i : ℕ) → s.objects i ≡ none) → (p : ℕ) → s.blocks p ≡ none)
    × (spec_all (λ _. none) life ≡ done (values s))
exec_all_refines_example = exec_all_refines life life-AreScoped

copy_failed_example :
    exec_all empty_store
      (construct_zeroed 1 3 none ∷ construct_copy 2 1 (some (100, 0 ∷ 0 ∷ 0 ∷ [])) ∷ [])
    ≡ fails null_dereference
copy_failed_example = copy_failed empty_store 2 1 3 100 (0 ∷ 0 ∷ 0 ∷ []) (omega arith)
