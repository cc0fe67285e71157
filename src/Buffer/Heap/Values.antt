-- ===== src/Buffer/Heap/Values.antt =====
-- Buffers as values: the bytes of each buffer, and what each command makes of them by the operations
-- of the model without pointers.
use mathlib.Core.Path.{fun_ext}
use gateway_forge.Common.{
  ℕ, ◌≡◌, ◌≢◌, refl, sym, ap, ◌∙◌, inl, inr, Option, none, some, List, [], ◌∷◌, arith, ◌==◌,
  ==_refl, if◌then◌else◌, Bool-cases, Option-cases,
}
use gateway_forge.Common.Words.{Bytes}
use gateway_forge.Common.Outcome.{Outcome, done, fails, use_after_free, ◌>>=◌}
use gateway_forge.Buffer.{Buffer, empty_buffer, of_data, zeroed, move, copy}
use gateway_forge.Buffer.Heap.{
  Object, Store, set, with_block, with_object, Command, construct, construct_from, construct_zeroed,
  construct_copy, construct_move, assign_copy, assign_move, destroy, take_from,
}
use gateway_forge.Buffer.Heap.Owns.{Owns, OwnsBut, new_OwnsBut, freed-OwnsBut, set_other, freed}

abbrev pub Values : Type 0
Values = ℕ → Option Buffer

-- The bytes of a buffer.
abbrev pub block_of : Store → Option ℕ → Option Bytes
block_of s none = none
block_of s (some p) = s.blocks p

abbrev pub view : Store → Object → Buffer
view s o = record { block = block_of s o.pointer; size = o.size }

abbrev pub view_option : Store → Option Object → Option Buffer
view_option s none = none
view_option s (some o) = some (view s o)

unfoldable pub values : Store → Values
values s i = view_option s (s.objects i)

-- The value of the buffer at an address.
unfoldable pub value_at : Values → ℕ → Outcome Buffer
value_at vs i = elim (vs i) [ none ↦ fails use_after_free | some b ↦ done b ]

-- `b = other`, by the operations on values.
unfoldable pub copied : Values → ℕ → ℕ → Outcome Values
copied vs id other = do b ← value_at vs other; b' ← copy b; done (set vs id (some b'))

unfoldable pub moved : Values → ℕ → ℕ → Outcome Values
moved vs id other = do
  b ← value_at vs other
  done (set (set vs id (some ((move b).0))) other (some ((move b).1)))

-- What a command does to the values. A block that is made from a null pointer keeps the bytes that
-- `std::malloc` gave.
unfoldable pub spec : Values → Command → Outcome Values
spec vs (construct id) = done (set vs id (some empty_buffer))
spec vs (construct_from id (some source) size answer) = do
  b ← of_data (some source) size
  done (set vs id (some b))
spec vs (construct_from id none size none) =
    done (set vs id (some (record { block = none; size = size })))
spec vs (construct_from id none size (some (p, raw))) =
    done (set vs id (some (record { block = some raw; size = size })))
spec vs (construct_zeroed id size answer) = done (set vs id (some (zeroed size)))
spec vs (construct_copy id other answer) = copied vs id other
spec vs (construct_move id other) = moved vs id other
spec vs (assign_copy id other answer) = if id == other then done vs else copied vs id other
spec vs (assign_move id other) = if id == other then done vs else moved vs id other
spec vs (destroy id) = done (set vs id none)

unfoldable pub spec_all : Values → List Command → Outcome Values
spec_all vs [] = done vs
spec_all vs (command ∷ commands) = do vs' ← spec vs command; spec_all vs' commands

set_over :
    (vs ws : Values) (id : ℕ) (b : Option Buffer)
    → ((i : ℕ) → i ≢ id → vs i ≡ ws i)
    → set vs id b ≡ set ws id b
unfolding set
set_over vs ws id b same = fun_ext (λ i. elim (Bool-cases (i == id)) [
  | inl at_id ↦ rw at_id refl
  | inr other ↦ rw other (same i (ground (arith, other)))
])

-- A store that has the buffers of `s`, and the blocks of all but the one at `id`.
pub record IsBase (s : Store) (id : ℕ) (s0 : Store) : Type 0 where
  pub owns_but : OwnsBut s0 id
  pub objects_are : s0.objects ≡ s.objects
  pub blocks_are :
      (p : ℕ) (i : ℕ) (o : Object)
      → i ≢ id
      → s.objects i ≡ some o
      → o.pointer ≡ some p
      → s0.blocks p ≡ s.blocks p

pub view_same :
    (s s0 : Store) (o : Object)
    → ((p : ℕ) → o.pointer ≡ some p → s0.blocks p ≡ s.blocks p)
    → view s0 o ≡ view s o
view_same s s0 o same = elim (Option-cases o.pointer) [
  | inl null ↦ rw null refl
  | inr (p, e) ↦ rw (e, same p e) refl
]

base_value :
    (s : Store) (id : ℕ) (s0 : Store) → IsBase s id s0 → (i : ℕ) → i ≢ id → values s0 i ≡ values s i
unfolding values
base_value s id s0 k i h = elim (Option-cases (s.objects i)) [
  | inl dead ↦ rw (k.objects_are, dead) refl
  | inr (o, e) ↦
      rw (k.objects_are, e) (ap some (view_same s s0 o (λ p at_p. k.blocks_are p i o h e at_p)))
]

-- A new buffer, without a block or with a new one, and what it does to the values.
module _ (s : Store) (id : ℕ) (s0 : Store) (k : IsBase s id s0) where
  pub value_null :
      (size : ℕ)
      → set (values s) id (some (record { block = none; size = size }))
        ≡ values (with_object s0 id (some (record { pointer = none; size = size })))
  unfolding values set
  value_null size = fun_ext (λ i. elim (Bool-cases (i == id)) [
    | inl at_id ↦ rw at_id refl
    | inr other ↦ rw other (sym (base_value s id s0 k i (ground (arith, other))))
  ])

  pub value_gone : set (values s) id none ≡ values (with_object s0 id none)
  unfolding values set
  value_gone = fun_ext (λ i. elim (Bool-cases (i == id)) [
    | inl at_id ↦ rw at_id refl
    | inr other ↦ rw other (sym (base_value s id s0 k i (ground (arith, other))))
  ])

  -- A new block is that of no other buffer.
  block_elsewhere :
      (s' : Store) (p i : ℕ) (content : Option Bytes)
      → s'.blocks ≡ set s0.blocks p content
      → s0.blocks p ≡ none
      → i ≢ id
      → view_option s' (s0.objects i) ≡ values s i
  unfolding values
  block_elsewhere s' p i content made fresh h =
      elim (Option-cases (s0.objects i)) [
        | inl dead ↦ rw dead refl
        | inr (o, e) ↦ rw e (ap some (view_same s0 s' o (other_block o e)))
      ]
      ∙ base_value s id s0 k i h
    where
      other_block :
          (o : Object)
          → s0.objects i ≡ some o
          → (q : ℕ) → o.pointer ≡ some q
          → s'.blocks q ≡ s0.blocks q
      other_block o e q at_q =
          let (bytes, b, _) = k.owns_but.allocated i q o h e at_q in
          ap (λ (blocks : ℕ → Option Bytes). blocks q) made
          ∙ set_other s0.blocks p q content (apart bytes b)
        where
          apart : (bytes : Bytes) → s0.blocks q ≡ some bytes → q ≢ p
          apart bytes b same = cc

  pub value_new :
      (p size : ℕ) (bytes : Bytes)
      → s0.blocks p ≡ none
      → set (values s) id (some (record { block = some bytes; size = size }))
        ≡ values (
            with_object
              (with_block s0 p (some bytes))
              id
              (some (record { pointer = some p; size = size })))
  unfolding values set
  value_new p size bytes fresh = fun_ext (λ i. elim (Bool-cases (i == id)) [
    | inl at_id ↦ rw (at_id, ==_refl p) refl
    | inr other ↦ rw other (
        sym (
          block_elsewhere
            (with_object (with_block s0 p (some bytes)) id
              (some (record { pointer = some p; size = size })))
            p i (some bytes) refl fresh (ground (arith, other))))
  ])

  pub value_moved :
      (other : ℕ) (o : Object)
      → other ≢ id
      → s.objects other ≡ some o
      → set (set (values s) id (some (view s o))) other (some empty_buffer)
        ≡ values (take_from s0 id other o)
  unfolding values set take_from
  value_moved other o apart e = fun_ext (λ i. elim (Bool-cases (i == other)) [
    | inl emptied ↦ rw emptied refl
    | inr kept ↦ elim (Bool-cases (i == id)) [
      | inl at_id ↦
          rw (kept, at_id)
            (ap some (sym (view_same s s0 o (λ p at_p. k.blocks_are p other o apart e at_p))))
      | inr elsewhere ↦
          rw (kept, elsewhere) (sym (base_value s id s0 k i (ground (arith, elsewhere))))
    ]
  ])

pub new_IsBase : (s : Store) (id : ℕ) → Owns s → s.objects id ≡ none → IsBase s id s
new_IsBase s id k dead = record {
  owns_but = new_OwnsBut s id k dead;
  objects_are = refl;
  blocks_are = λ p i o h e at_p. refl;
}

pub freed-IsBase :
    (s : Store) (id : ℕ) (own : Object)
    → Owns s
    → s.objects id ≡ some own
    → IsBase s id (freed s own.pointer)
freed-IsBase s id own k e = record {
  owns_but = freed-OwnsBut s id own k e;
  objects_are = freed_objects own.pointer;
  blocks_are = λ p i o h e1 at_p. freed_blocks own.pointer refl p i o h e1 at_p;
}
  where
    freed_objects : (q : Option ℕ) → (freed s q).objects ≡ s.objects
    freed_objects none = refl
    freed_objects (some q) = refl

    freed_blocks :
        (q : Option ℕ)
        → own.pointer ≡ q
        → (p i : ℕ) (o : Object) → i ≢ id
        → s.objects i ≡ some o
        → o.pointer ≡ some p
        → (freed s q).blocks p ≡ s.blocks p
    freed_blocks none at_q p i o h e1 at_p = refl
    freed_blocks (some q) at_q p i o h e1 at_p =
        set_other s.blocks q p none
          (λ (same : p ≡ q). h (k.alone i id p o own e1 at_p e (at_q ∙ ap some (sym same))))
