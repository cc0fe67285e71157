-- ===== src/Buffer/Heap/Commands.antt =====
-- Any run of constructors, assignments and destructors of buffers.
use gateway_forge.Common.{
  Option-cases, ℕ, ◌≤◌, ◌<◌, ◌≡◌, ◌≢◌, refl, sym, ap, subst, ◌∙◌, inl, inr, Option, none, some,
  List, [], ◌∷◌, arith, ◌==◌, length, length-replicate, take, replicate, Bool-cases,
}
use gateway_forge.Common.Words.{Bytes}
use gateway_forge.Common.Outcome.{done, done_injective, fails, null_dereference}
use gateway_forge.Common.Memory.{memcpy_inside, length_part}
use gateway_forge.Buffer.{of_data, zeroed}
use gateway_forge.Buffer.Heap.{
  empty_store, Object, Store, set, with_object, Answer, Command, construct, construct_from,
  construct_zeroed, construct_copy, construct_move, assign_copy, assign_move, destroy, object,
  copy_from, contents, fill_from, fill_zeroed, free_own, assign_copy_from, assign_move_from, exec,
  exec_all,
}
use gateway_forge.Buffer.Heap.Owns.{Owns, removed_Owns, freed, free_lem}
use gateway_forge.Buffer.Heap.Places.{put_null}
use gateway_forge.Buffer.Heap.Values.{
  values, spec, spec_all, IsBase, value_gone, new_IsBase, freed-IsBase, value_null,
}
use gateway_forge.Buffer.Heap.Refines.{
  IsFilled, IsAnswer, set-IsFilled, new-IsFilled, AreAlike, made, copy_lem, take_lem,
}

-- A buffer that is alive.
record IsAlive (s : Store) (id : ℕ) : Type 0 where
  pub content : Object
  pub is_there : s.objects id ≡ some content

-- The bytes of the caller are there.
abbrev pub HasSource : Option Bytes → ℕ → Type 0
HasSource none size = Unit {0}
HasSource (some source) size = size ≤ length source

-- What a program does: it constructs where no buffer is alive, uses buffers that are alive, and no
-- `std::malloc` fails.
abbrev pub IsScoped : Store → Command → Type 0
IsScoped s (construct id) = s.objects id ≡ none
IsScoped s (construct_from id source size answer) =
    (s.objects id ≡ none) × HasSource source size × IsAnswer s size answer
IsScoped s (construct_zeroed id size answer) = (s.objects id ≡ none) × IsAnswer s size answer
IsScoped s (construct_copy id other answer) =
    (s.objects id ≡ none) × ((o : Object) × (s.objects other ≡ some o) × IsAnswer s o.size answer)
IsScoped s (construct_move id other) =
    (s.objects id ≡ none) × ((o : Object) × (s.objects other ≡ some o))
IsScoped s (assign_copy id other answer) =
    (own : Object) × (s.objects id ≡ some own)
    × ((o : Object) × (s.objects other ≡ some o)
        × (id ≢ other → IsAnswer (freed s own.pointer) o.size answer))
IsScoped s (assign_move id other) =
    (own : Object) × (s.objects id ≡ some own) × ((o : Object) × (s.objects other ≡ some o))
IsScoped s (destroy id) = (own : Object) × (s.objects id ≡ some own)

free_own_lem :
    (s : Store) (id : ℕ) (own : Object)
    → Owns s
    → s.objects id ≡ some own
    → free_own s id ≡ done (freed s own.pointer)
unfolding free_own object
free_own_lem s id own k e = rw (free_own, object, e) (free_lem s id own k e)

apart_of :
    (objects : ℕ → Option Object) (id other : ℕ) (o : Object)
    → objects id ≡ none
    → objects other ≡ some o
    → other ≢ id
apart_of objects id other o dead e same = cc

object_base :
    (s : Store) (id : ℕ) (s0 : Store) (i : ℕ) (o : Object)
    → IsBase s id s0
    → s.objects i ≡ some o
    → object s0 i ≡ done o
unfolding object
object_base s id s0 i o base e = rw (object, base.objects_are, e) refl

module _ (s : Store) (k : Owns s) (filled : IsFilled s.objects) where
  assign_copy_lem :
      (id other : ℕ) (answer : Answer)
      → IsScoped s (assign_copy id other answer)
      → AreAlike
          (exec s (assign_copy id other answer))
          (spec (values s) (assign_copy id other answer))
  unfolding exec spec assign_copy_from
  assign_copy_lem id other answer (own, at_id, (o, e, a)) = elim (Bool-cases (id == other)) [
    | inl self ↦ rw self (s, refl, k, filled, refl)
    | inr apart ↦
        let base = freed-IsBase s id own k at_id in
        rw (apart, free_own_lem s id own k at_id, object_base s id _ other o base e)
          (copy_lem s id _ base filled other o answer (ground (arith, apart)) e
            (a (ground (arith, apart))))
  ]

  assign_move_lem :
      (id other : ℕ)
      → IsScoped s (assign_move id other)
      → AreAlike (exec s (assign_move id other)) (spec (values s) (assign_move id other))
  unfolding exec spec assign_move_from
  assign_move_lem id other (own, at_id, (o, e)) = elim (Bool-cases (id == other)) [
    | inl self ↦ rw self (s, refl, k, filled, refl)
    | inr apart ↦
        let base = freed-IsBase s id own k at_id in
        rw (apart, free_own_lem s id own k at_id, object_base s id _ other o base e)
          (take_lem s id _ base filled other o (ground (arith, apart)) e)
  ]

  construct_from_lem :
      (id : ℕ) (source : Option Bytes) (size : ℕ) (answer : Answer)
      → IsScoped s (construct_from id source size answer)
      → AreAlike
          (exec s (construct_from id source size answer))
          (spec (values s) (construct_from id source size answer))
  unfolding exec spec fill_from of_data
  construct_from_lem id none size answer (dead, _, a) =
      subst
        (λ (r : Answer).
          AreAlike (fill_from s id none size r) (spec (values s) (construct_from id none size r)))
        (sym a.answered)
        (made s id s (new_IsBase s id k dead) filled a.address size a.raw a.fresh a.sized)
  construct_from_lem id (some source) size answer (dead, h, a) =
      subst
        (λ (r : Answer).
          AreAlike (fill_from s id (some source) size r)
            (spec (values s) (construct_from id (some source) size r)))
        (sym a.answered)
        (rw (memcpy_inside source 0 size (omega arith)) (
          made s id s (new_IsBase s id k dead) filled a.address size (take size source) a.fresh
            (length_part source 0 size (omega arith))))

  construct_zeroed_lem :
      (id size : ℕ) (answer : Answer)
      → IsScoped s (construct_zeroed id size answer)
      → AreAlike
          (exec s (construct_zeroed id size answer))
          (spec (values s) (construct_zeroed id size answer))
  unfolding exec spec fill_zeroed zeroed
  construct_zeroed_lem id size answer (dead, a) =
      subst
        (λ (r : Answer).
          AreAlike (fill_zeroed s id size r) (spec (values s) (construct_zeroed id size r)))
        (sym a.answered)
        (made s id s (new_IsBase s id k dead) filled a.address size (replicate size 0) a.fresh
          (length-replicate size 0))

  destroy_lem :
      (id : ℕ)
      → IsScoped s (destroy id)
      → AreAlike (exec s (destroy id)) (spec (values s) (destroy id))
  unfolding exec spec
  destroy_lem id (own, e) =
      let base = freed-IsBase s id own k e in
      rw (free_own_lem s id own k e) (
        with_object (freed s own.pointer) id none,
        refl,
        removed_Owns (freed s own.pointer) id base.owns_but,
        set-IsFilled (freed s own.pointer).objects id none
            (subst IsFilled (sym base.objects_are) filled) (λ o clash null. cc),
        ap done (value_gone s id (freed s own.pointer) base),
      )

  -- Each command of a program on buffers that own their blocks, no two the same one, returns, and
  -- the buffers own their blocks again.
  exec_refines :
      (command : Command) → IsScoped s command → AreAlike (exec s command) (spec (values s) command)
  unfolding exec spec
  exec_refines (construct id) dead = (
    _,
    refl,
    put_null s id (new_IsBase s id k dead).owns_but 0,
    new-IsFilled s id s (new_IsBase s id k dead) filled none 0 (λ h. refl),
    ap done (value_null s id s (new_IsBase s id k dead) 0),
  )
  exec_refines (construct_from id source size answer) h = construct_from_lem id source size answer h
  exec_refines (construct_zeroed id size answer) h = construct_zeroed_lem id size answer h
  exec_refines (construct_copy id other answer) (dead, (o, e, a)) =
      rw (object_base s id s other o (new_IsBase s id k dead) e) (
        copy_lem s id s (new_IsBase s id k dead) filled other o answer
          (apart_of s.objects id other o dead e) e a)
  exec_refines (construct_move id other) (dead, (o, e)) =
      rw (object_base s id s other o (new_IsBase s id k dead) e) (
        take_lem s id s (new_IsBase s id k dead) filled other o
          (apart_of s.objects id other o dead e) e)
  exec_refines (assign_copy id other answer) h = assign_copy_lem id other answer h
  exec_refines (assign_move id other) h = assign_move_lem id other h
  exec_refines (destroy id) h = destroy_lem id h

-- Each command is such a use of the store that the commands before it have left.
abbrev pub AreScoped : Store → List Command → Type 0
AreScoped s [] = Unit {0}
AreScoped s (command ∷ commands) =
    IsScoped s command × ((s' : Store) → exec s command ≡ done s' → AreScoped s' commands)

pub scoped_next :
    (s s1 : Store) (command : Command) (commands : List Command)
    → exec s command ≡ done s1
    → IsScoped s command
    → AreScoped s1 commands
    → AreScoped s (command ∷ commands)
scoped_next s s1 command commands run h later = (
  h,
  λ s' run'. subst (λ (x : Store). AreScoped x commands) (done_injective (sym run ∙ run')) later,
)

all_refines :
    (s : Store) (commands : List Command)
    → Owns s
    → IsFilled s.objects
    → AreScoped s commands
    → AreAlike (exec_all s commands) (spec_all (values s) commands)
unfolding exec_all spec_all
all_refines s [] k filled h = (s, refl, k, filled, refl)
all_refines s (command ∷ commands) k filled (h, later) =
    let (s1, run, owns, full, shown) = exec_refines s k filled command h in
    rw (run, shown) (all_refines s1 commands owns full (later s1 run))

empty-Owns : Owns empty_store
empty-Owns = record {
  allocated = λ i p o e q. cc;
  alone = λ i j p o o' e q e' q'. cc;
  owned = λ p bytes b. cc;
}

nothing_left : (s : Store) → Owns s → ((i : ℕ) → s.objects i ≡ none) → (p : ℕ) → s.blocks p ≡ none
nothing_left s k dead p = elim (Option-cases (s.blocks p)) [
  | inl gone ↦ gone
  | inr (bytes, b) ↦ let (i, o, e, q) = k.owned p bytes b in absurd (clash i o e)
]
  where
    clash : (i : ℕ) (o : Object) → s.objects i ≡ some o → ⊥
    clash i o e = let d : s.objects i ≡ none = dead i in cc

-- Any sequence of constructions, assignments (also of a buffer to itself) and destructions, from the
-- time when there is no buffer, that constructs where no buffer is alive, uses buffers that are alive
-- and source bytes that are there, and in which `std::malloc` always gives a block that was not
-- allocated: it returns, so no block is given back twice or read after its end; then each buffer's
-- pointer is null or leads to a block of its size, no two lead to one block, and every block is that
-- of a buffer, so that none is left when no buffer is; and the bytes of all buffers are those that
-- the operations on values give.
pub exec_all_refines :
    (commands : List Command)
    → AreScoped empty_store commands
    → (s : Store) × (exec_all empty_store commands ≡ done s)
      × Owns s
      × (((i : ℕ) → s.objects i ≡ none) → (p : ℕ) → s.blocks p ≡ none)
      × (spec_all (λ _. none) commands ≡ done (values s))
unfolding values
exec_all_refines commands h =
    let (s, run, k, _, shown) = all_refines empty_store commands empty-Owns (λ i o e null. cc) h in
    (s, run, k, nothing_left s k, shown)

-- Where `std::malloc` fails in `Buffer(size)`, with a size above 0, the buffer keeps the size without
-- a block: to copy it, once `std::malloc` gives a block again, reads from a null pointer.
pub copy_failed :
    (s : Store) (id other size p : ℕ) (raw : Bytes)
    → 0 < size
    → exec_all s (construct_zeroed other size none ∷ construct_copy id other (some (p, raw)) ∷ [])
      ≡ fails null_dereference
unfolding exec_all exec fill_zeroed object set copy_from contents
copy_failed s id other size p raw some_size = ground (arith, some_size)
