-- ===== src/Buffer/Heap/Refines.antt =====
-- The commands on buffers with pointers do what the operations on values do.
use gateway_forge.Common.{
  ℕ, ◌≡◌, ◌≢◌, refl, sym, ap, subst, ◌∙◌, inl, inr, Option, none, some, [], arith, ◌==◌, ==_iff,
  length, Bool-cases, Option-cases,
}
use gateway_forge.Common.Words.{Bytes}
use gateway_forge.Common.Outcome.{Outcome, done}
use gateway_forge.Buffer.{move, copy}
use gateway_forge.Buffer.Bounds.{memcpy_whole}
use gateway_forge.Buffer.Heap.{
  Object, Store, set, with_block, with_object, Answer, contents, copy_from, take_from,
}
use gateway_forge.Buffer.Heap.Owns.{Owns, set_cases, set_other}
use gateway_forge.Buffer.Heap.Places.{put_new, put_moved}
use gateway_forge.Buffer.Heap.Values.{
  Values, view, view_same, values, value_at, copied, moved, IsBase, value_new, value_moved,
}

-- A buffer without a block is empty: no `std::malloc` has failed.
abbrev pub IsFilled : (ℕ → Option Object) → Type 0
IsFilled objects = (i : ℕ) (o : Object) → objects i ≡ some o → o.pointer ≡ none → o.size ≡ 0

-- `std::malloc` gives a block of this size that was not allocated.
pub record IsAnswer (s : Store) (size : ℕ) (answer : Answer) : Type 0 where
  pub address : ℕ
  pub raw : Bytes
  pub answered : answer ≡ some (address, raw)
  pub fresh : s.blocks address ≡ none
  pub sized : length raw ≡ size

pub set-IsFilled :
    (objects : ℕ → Option Object) (id : ℕ) (content : Option Object)
    → IsFilled objects
    → ((o : Object) → content ≡ some o → o.pointer ≡ none → o.size ≡ 0)
    → IsFilled (set objects id content)
set-IsFilled objects id content f g i o e null = elim (set_cases objects id i content o e) [
  | inl (same, made) ↦ g o made null
  | inr (other, before) ↦ f i o before null
]

-- The bytes that are copied from a buffer.
contents_lem :
    (s0 : Store) (p : ℕ) (raw : Bytes) (o : Object)
    → (o.pointer ≡ none → o.size ≡ 0)
    → s0.blocks p ≡ none
    → ((q : ℕ)
        → o.pointer ≡ some q
        → (bytes : Bytes) × (s0.blocks q ≡ some bytes) × (length bytes ≡ o.size))
    → (bytes : Bytes) × (contents (with_block s0 p (some raw)) o ≡ done bytes)
      × (length bytes ≡ o.size)
      × (copy (view s0 o) ≡ done (record { block = some bytes; size = o.size }))
unfolding contents copy
contents_lem s0 p raw o filled fresh allocated = elim (Bool-cases (o.size == 0)) [
  | inl empty ↦
      let zero_size = (==_iff o.size 0).0 empty in
      (
        [],
        rw empty refl,
        sym zero_size,
        rw empty (ap (λ (n : ℕ). done (record { block = some []; size = n })) (sym zero_size)),
      )
  | inr some_byte ↦ elim (Option-cases o.pointer) [
    | inl null ↦ absurd (ground (arith, some_byte, filled null))
    | inr (q, at_q) ↦
        let (bytes, b, l) = allocated q at_q in
        let whole = memcpy_whole bytes o.size (sym l) in
        (
          bytes,
          rw (some_byte, at_q, set_other s0.blocks p q (some raw) (apart q bytes b), b) whole,
          l,
          rw (some_byte, at_q, b, whole) refl,
        )
  ]
]
  where
    apart : (q : ℕ) (bytes : Bytes) → s0.blocks q ≡ some bytes → q ≢ p
    apart q bytes b same = cc

-- What is shown of each command, from its outcomes on pointers and on values.
abbrev pub AreAlike : Outcome Store → Outcome Values → Type 0
AreAlike run expected =
    (s' : Store) × (run ≡ done s') × Owns s' × IsFilled s'.objects × (expected ≡ done (values s'))

one_filled :
    (p : Option ℕ) (size : ℕ)
    → (p ≡ none → size ≡ 0)
    → (o : Object) → ◌≡◌ {A = Option Object} (some (record { pointer = p; size = size })) (some o)
    → o.pointer ≡ none
    → o.size ≡ 0
one_filled p size h o made null =
    let at_p : p ≡ o.pointer = cc in
    let at_size : size ≡ o.size = cc in sym at_size ∙ h (at_p ∙ null)

pub value_at_lem :
    (s : Store) (i : ℕ) (o : Object)
    → s.objects i ≡ some o
    → value_at (values s) i ≡ done (view s o)
unfolding value_at values
value_at_lem s i o e = rw (value_at, values, e) refl

module _ (s : Store) (id : ℕ) (s0 : Store) (base : IsBase s id s0)
    (filled : IsFilled s.objects) where
  pub base-IsFilled : IsFilled s0.objects
  base-IsFilled = subst IsFilled (sym base.objects_are) filled

  pub new-IsFilled :
      (p : Option ℕ) (size : ℕ)
      → (p ≡ none → size ≡ 0)
      → IsFilled (set s0.objects id (some (record { pointer = p; size = size })))
  new-IsFilled p size h = set-IsFilled s0.objects id _ base-IsFilled (one_filled p size h)

  -- A new block with these bytes.
  pub made :
      (p size : ℕ) (bytes : Bytes)
      → s0.blocks p ≡ none
      → length bytes ≡ size
      → AreAlike
          (done (
            with_object
              (with_block s0 p (some bytes))
              id
              (some (record { pointer = some p; size = size }))))
          (done (set (values s) id (some (record { block = some bytes; size = size }))))
  made p size bytes fresh sized = (
    _,
    refl,
    put_new s0 id base.owns_but p size bytes fresh sized,
    new-IsFilled (some p) size (λ h. cc),
    ap done (value_new s id s0 base p size bytes fresh),
  )

  pub copy_lem :
      (other : ℕ) (o : Object) (answer : Answer)
      → other ≢ id
      → s.objects other ≡ some o
      → IsAnswer s0 o.size answer
      → AreAlike (copy_from s0 id o answer) (copied (values s) id other)
  unfolding copy_from copied
  copy_lem other o answer apart e a =
      let (bytes, read, sized, same) =
        contents_lem s0 a.address a.raw o (filled other o e) a.fresh (λ q at_q.
          base.owns_but.allocated other q o apart
            (ap (λ (objects : ℕ → Option Object). objects other) base.objects_are ∙ e) at_q) in
      let (s', run, owns, full, shown) = made a.address o.size bytes a.fresh sized in
      (
        s',
        ap (copy_from s0 id o) a.answered ∙ rw (copy_from, read) run,
        owns,
        full,
        rw
            (
              copied,
              value_at_lem s other o e,
              sym (ap copy (view_same s s0 o (λ p at_p. base.blocks_are p other o apart e at_p)))
                  ∙ same,
            )
            shown,
      )

  pub take_lem :
      (other : ℕ) (o : Object)
      → other ≢ id
      → s.objects other ≡ some o
      → AreAlike (done (take_from s0 id other o)) (moved (values s) id other)
  unfolding moved move take_from
  take_lem other o apart e = (
    take_from s0 id other o,
    refl,
    put_moved s0 id base.owns_but other o (λ h. apart (sym h))
        (ap (λ (objects : ℕ → Option Object). objects other) base.objects_are ∙ e),
    set-IsFilled _ other _ (new-IsFilled o.pointer o.size (filled other o e))
        (one_filled none 0 (λ h. refl)),
    rw (moved, value_at_lem s other o e) (ap done (value_moved s id s0 base other o apart e)),
  )
