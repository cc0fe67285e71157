-- ===== src/Buffer/Heap/Owns.antt =====
-- Every block of the heap belongs to exactly one buffer.
use gateway_forge.Common.{
  ℕ, ◌≡◌, ◌≢◌, refl, sym, ap, ◌∙◌, subst, ◌⊎◌, inl, inr, Option, none, some, arith, ◌==◌, ==_iff,
  ==_refl, length, Bool-cases, Option-cases,
}
use gateway_forge.Common.Words.{Bytes}
use gateway_forge.Common.Outcome.{done}
use gateway_forge.Buffer.Heap.{Object, Store, set, with_block, with_object, free}

-- The pointer of each buffer that is alive is null or leads to an allocated block of the buffer's
-- size, no two buffers have one block, and every allocated block is that of a buffer.
pub record Owns (s : Store) : Type 0 where
  pub allocated :
      (i p : ℕ) (o : Object)
      → s.objects i ≡ some o
      → o.pointer ≡ some p
      → (bytes : Bytes) × (s.blocks p ≡ some bytes) × (length bytes ≡ o.size)
  pub alone :
      (i j p : ℕ) (o o' : Object)
      → s.objects i ≡ some o
      → o.pointer ≡ some p
      → s.objects j ≡ some o'
      → o'.pointer ≡ some p
      → i ≡ j
  pub owned :
      (p : ℕ) (bytes : Bytes)
      → s.blocks p ≡ some bytes
      → (i : ℕ) × (o : Object) × (s.objects i ≡ some o) × (o.pointer ≡ some p)

pub set_same {ℓ} :
    {A : Type ℓ} (entries : ℕ → Option A) (k : ℕ) (content : Option A)
    → set entries k content k ≡ content
unfolding set
set_same entries k content = rw (==_refl k) refl

pub set_other {ℓ} :
    {A : Type ℓ} (entries : ℕ → Option A) (k i : ℕ) (content : Option A)
    → i ≢ k
    → set entries k content i ≡ entries i
unfolding set
set_other entries k i content h = ground (arith, h)

-- What is found is what was set there, or was there before.
pub set_cases {ℓ} :
    {A : Type ℓ} (entries : ℕ → Option A) (k i : ℕ) (content : Option A) (a : A)
    → set entries k content i ≡ some a
    → ((i ≡ k) × (content ≡ some a)) ⊎ ((i ≢ k) × (entries i ≡ some a))
unfolding set
set_cases entries k i content a h = elim (Bool-cases (i == k)) [
  | inl same ↦ inl ((==_iff i k).0 same, rw same at h)
  | inr other ↦ inr (ground (arith, other), rw other at h)
]

-- The same of all buffers but the one at `id`, which is not there, or of no use any more.
pub record OwnsBut (s : Store) (id : ℕ) : Type 0 where
  pub allocated :
      (i p : ℕ) (o : Object)
      → i ≢ id
      → s.objects i ≡ some o
      → o.pointer ≡ some p
      → (bytes : Bytes) × (s.blocks p ≡ some bytes) × (length bytes ≡ o.size)
  pub alone :
      (i j p : ℕ) (o o' : Object)
      → i ≢ id
      → j ≢ id
      → s.objects i ≡ some o
      → o.pointer ≡ some p
      → s.objects j ≡ some o'
      → o'.pointer ≡ some p
      → i ≡ j
  pub owned :
      (p : ℕ) (bytes : Bytes)
      → s.blocks p ≡ some bytes
      → (i : ℕ) × (o : Object) × (i ≢ id) × (s.objects i ≡ some o) × (o.pointer ≡ some p)

-- Where no buffer is alive.
pub new_OwnsBut : (s : Store) (id : ℕ) → Owns s → s.objects id ≡ none → OwnsBut s id
new_OwnsBut s id k dead = record {
  allocated = λ i p o h e q. k.allocated i p o e q;
  alone = λ i j p o o' h h' e q e' q'. k.alone i j p o o' e q e' q';
  owned = λ p bytes b.
      let (i, o, e, q) = k.owned p bytes b in
      (i, o, (λ (same : i ≡ id). absurd (clash i o e same)), e, q);
}
  where
    clash : (i : ℕ) (o : Object) → s.objects i ≡ some o → i ≡ id → ⊥
    clash i o e same = cc

pub removed_Owns : (s : Store) (id : ℕ) → OwnsBut s id → Owns (with_object s id none)
removed_Owns s id k = record {
  allocated = λ i p o e q. let (h, e1) = left i o e in k.allocated i p o h e1 q;
  alone = λ i j p o o' e q e' q'.
      let (h, e1) = left i o e in
      let (h', e1') = left j o' e' in k.alone i j p o o' h h' e1 q e1' q';
  owned = λ p bytes b.
      let (i, o, h, e, q) = k.owned p bytes b in (i, o, set_other s.objects id i none h ∙ e, q);
}
  where
    left :
        (i : ℕ) (o : Object) → set s.objects id none i ≡ some o → (i ≢ id) × (s.objects i ≡ some o)
    left i o e = elim (set_cases s.objects id i none o e) [
      | inl (same, clash) ↦ cc
      | inr other ↦ other
    ]

-- The block of the buffer is given back.
abbrev pub freed : Store → Option ℕ → Store
freed s none = s
freed s (some p) = with_block s p none

pub free_lem :
    (s : Store) (id : ℕ) (own : Object)
    → Owns s
    → s.objects id ≡ some own
    → free s own.pointer ≡ done (freed s own.pointer)
unfolding free
free_lem s id own k e = by_pointer own.pointer refl
  where
    by_pointer : (q : Option ℕ) → own.pointer ≡ q → free s q ≡ done (freed s q)
    by_pointer none h = refl
    by_pointer (some p) h = let (bytes, b, l) = k.allocated id p own e h in rw (free, b) refl

module _ (s : Store) (id : ℕ) (own : Object) (k : Owns s) (e : s.objects id ≡ some own) where
  freed_null : own.pointer ≡ none → OwnsBut s id
  freed_null h = record {
    allocated = λ i p o _ e1 q. k.allocated i p o e1 q;
    alone = λ i j p o o' _ _ e1 q e' q'. k.alone i j p o o' e1 q e' q';
    owned =
        λ p bytes b. let (i, o, e1, q) = k.owned p bytes b in (i, o, no_block i p o e1 q, e1, q);
  }
    where
      no_block : (i p : ℕ) (o : Object) → s.objects i ≡ some o → o.pointer ≡ some p → i ≢ id
      no_block i p o e1 q same = cc

  freed_block : (p : ℕ) → own.pointer ≡ some p → OwnsBut (with_block s p none) id
  freed_block p h = record {
    allocated = λ i q o other e1 at_q.
        let (bytes, b, l) = k.allocated i q o e1 at_q in
        (bytes, set_other s.blocks p q none (elsewhere i q o other e1 at_q) ∙ b, l);
    alone = λ i j q o o' _ _ e1 at_q e' at_q'. k.alone i j q o o' e1 at_q e' at_q';
    owned = λ q bytes b.
        let (apart, b') = still q bytes b in
        let (i, o, e1, at_q) = k.owned q bytes b' in (i, o, not_own i q o apart e1 at_q, e1, at_q);
  }
    where
      elsewhere :
          (i q : ℕ) (o : Object) → i ≢ id → s.objects i ≡ some o → o.pointer ≡ some q → q ≢ p
      elsewhere i q o other e1 at_q same = other (k.alone i id p o own e1 (at_q ∙ ap some same) e h)

      still :
          (q : ℕ) (bytes : Bytes)
          → set s.blocks p none q ≡ some bytes
          → (q ≢ p) × (s.blocks q ≡ some bytes)
      still q bytes b = elim (set_cases s.blocks p q none bytes b) [
        | inl (same, clash) ↦ cc
        | inr other ↦ other
      ]

      not_own : (i q : ℕ) (o : Object) → q ≢ p → s.objects i ≡ some o → o.pointer ≡ some q → i ≢ id
      not_own i q o apart e1 at_q same = let one : q ≡ p = cc in apart one

  -- What is left when the buffer at `id` has given back its block.
  pub freed-OwnsBut : OwnsBut (freed s own.pointer) id
  freed-OwnsBut = elim (Option-cases own.pointer) [
    | inl h ↦ subst (λ (q : Option ℕ). OwnsBut (freed s q) id) (sym h) (freed_null h)
    | inr (p, h) ↦ subst (λ (q : Option ℕ). OwnsBut (freed s q) id) (sym h) (freed_block p h)
  ]
