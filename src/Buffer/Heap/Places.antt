-- ===== src/Buffer/Heap/Places.antt =====
-- Where a new block goes, and that each block still belongs to exactly one buffer.
use gateway_forge.Common.{
  ℕ, ◌≡◌, ◌≢◌, refl, sym, ap, ◌∙◌, ◌⊎◌, inl, inr, Option, none, some, arith, ◌==◌, ==_iff, length,
  Bool-cases,
}
use gateway_forge.Common.Words.{Bytes}
use gateway_forge.Buffer.Heap.{Object, Store, set, with_block, with_object, take_from}
use gateway_forge.Buffer.Heap.Owns.{Owns, OwnsBut, set_same, set_other, set_cases}

-- What a new buffer at `id` may be: without a block, with a new one, or with that of another buffer.
module _ (s : Store) (id : ℕ) (k : OwnsBut s id) where
  pub put_null :
      (size : ℕ) → Owns (with_object s id (some (record { pointer = none; size = size })))
  put_null size = record {
    allocated = λ i p o e q. let (h, e1) = left i p o e q in k.allocated i p o h e1 q;
    alone = λ i j p o o' e q e' q'.
        let (h, e1) = left i p o e q in
        let (h', e1') = left j p o' e' q' in k.alone i j p o o' h h' e1 q e1' q';
    owned = λ p bytes b.
        let (i, o, h, e, q) = k.owned p bytes b in (i, o, set_other s.objects id i _ h ∙ e, q);
  }
    where
      left :
          (i p : ℕ) (o : Object)
          → set s.objects id (some (record { pointer = none; size = size })) i ≡ some o
          → o.pointer ≡ some p
          → (i ≢ id) × (s.objects i ≡ some o)
      left i p o e q = elim (set_cases s.objects id i _ o e) [
        | inl (same, clash) ↦ absurd (no_pointer o p clash q)
        | inr other ↦ other
      ]
        where
          no_pointer :
              (o : Object) (p : ℕ)
              → ◌≡◌ {A = Option Object} (some (record { pointer = none; size = size })) (some o)
              → o.pointer ≡ some p
              → ⊥
          no_pointer o p clash q = cc

  pub put_new :
      (p size : ℕ) (bytes : Bytes)
      → s.blocks p ≡ none
      → length bytes ≡ size
      → Owns (
          with_object
            (with_block s p (some bytes))
            id
            (some (record { pointer = some p; size = size })))
  put_new p size bytes fresh sized = record {
    allocated = λ i q o e at_q. elim (found i q o e at_q) [
      | inl (same, at_p, o_size) ↦ (
        bytes,
        ap (set s.blocks p (some bytes)) at_p ∙ set_same s.blocks p (some bytes),
        sized ∙ sym o_size,
      )
      | inr (h, e1, apart) ↦
          let (own, b, l) = k.allocated i q o h e1 at_q in
          (own, set_other s.blocks p q (some bytes) apart ∙ b, l)
    ];
    alone = λ i j q o o' e at_q e' at_q'. elim (found i q o e at_q) [
      | inl (same, at_p, _) ↦ elim (found j q o' e' at_q') [
        | inl (same', _, _) ↦ same ∙ sym same'
        | inr (_, _, apart) ↦ absurd (apart at_p)
      ]
      | inr (h, e1, apart) ↦ elim (found j q o' e' at_q') [
        | inl (_, at_p, _) ↦ absurd (apart at_p)
        | inr (h', e1', _) ↦ k.alone i j q o o' h h' e1 at_q e1' at_q'
      ]
    ];
    owned = λ q content b. elim (set_cases s.blocks p q (some bytes) content b) [
      | inl (at_p, _) ↦ (
        id,
        record { pointer = some p; size = size },
        set_same s.objects id _,
        ap some (sym at_p),
      )
      | inr (apart, b') ↦
          let (i, o, h, e, at_q) = k.owned q content b' in
          (i, o, set_other s.objects id i _ h ∙ e, at_q)
    ];
  }
    where
      -- The new buffer, or another one, whose block is another one.
      found :
          (i q : ℕ) (o : Object)
          → set s.objects id (some (record { pointer = some p; size = size })) i ≡ some o
          → o.pointer ≡ some q
          → ((i ≡ id) × (q ≡ p) × (o.size ≡ size)) ⊎ ((i ≢ id) × (s.objects i ≡ some o) × (q ≢ p))
      found i q o e at_q = elim (set_cases s.objects id i _ o e) [
        | inl (same, made) ↦ inl (same, (cc), (cc))
        | inr (other, e1) ↦
            let (own, b, l) = k.allocated i q o other e1 at_q in inr (other, e1, apart_from q own b)
      ]
        where
          apart_from : (q : ℕ) (own : Bytes) → s.blocks q ≡ some own → q ≢ p
          apart_from q own b same = cc

  pub put_moved :
      (other : ℕ) (o : Object)
      → id ≢ other
      → s.objects other ≡ some o
      → Owns (take_from s id other o)
  unfolding take_from
  put_moved other o apart e = record {
    allocated = λ i p o1 e1 q.
        let (i0, o0, h, e0, q0, sized, _) = found i p o1 e1 q in
        let (bytes, b, l) = k.allocated i0 p o0 h e0 q0 in (bytes, b, l ∙ sized);
    alone = λ i j p o1 o2 e1 q1 e2 q2.
        let (i0, oi, hi, ei, qi, _, from_i) = found i p o1 e1 q1 in
        let (j0, oj, hj, ej, qj, _, from_j) = found j p o2 e2 q2 in
        same_origin i j i0 j0 from_i from_j (k.alone i0 j0 p oi oj hi hj ei qi ej qj);
    owned = λ p bytes b.
        let (i, o1, h, e1, q) = k.owned p bytes b in
        elim (Bool-cases (i == other)) [
          | inl moved ↦
              let at_other = (==_iff i other).0 moved in
              (
                id,
                record { pointer = o.pointer; size = o.size },
                set_other _ other id _ apart ∙ set_same s.objects id _,
                at_o i p o1 at_other e1 q,
              )
          | inr kept ↦ (
            i,
            o1,
            set_other _ other i _ (ground (arith, kept)) ∙ set_other s.objects id i _ h ∙ e1,
            q,
          )
        ];
  }
    where
      at_o :
          (i p : ℕ) (o1 : Object)
          → i ≡ other
          → s.objects i ≡ some o1
          → o1.pointer ≡ some p
          → o.pointer ≡ some p
      at_o i p o1 same e1 q = cc

      Origin : ℕ → ℕ → Type 0
      Origin i i0 = ((i ≡ id) × (i0 ≡ other)) ⊎ ((i ≡ i0) × (i ≢ other))

      -- The buffer that had the block of a buffer before.
      found :
          (i p : ℕ) (o1 : Object)
          → set
              (set s.objects id (some (record { pointer = o.pointer; size = o.size })))
              other
              (some (record { pointer = none; size = 0 }))
              i
            ≡ some o1
          → o1.pointer ≡ some p
          → (i0 : ℕ) × (o0 : Object) × (i0 ≢ id)
            × (s.objects i0 ≡ some o0)
            × (o0.pointer ≡ some p)
            × (o0.size ≡ o1.size)
            × Origin i i0
      found i p o1 e1 q = elim (set_cases _ other i _ o1 e1) [
        | inl (same, emptied) ↦ absurd (no_pointer emptied)
        | inr (kept, e2) ↦ elim (set_cases s.objects id i _ o1 e2) [
          | inl (same, made) ↦
              (other, o, (λ (h : other ≡ id). apart (sym h)), e, (cc), (cc), inl (same, refl))
          | inr (h, e3) ↦ (i, o1, h, e3, q, refl, inr (refl, kept))
        ]
      ]
        where
          no_pointer :
              ◌≡◌ {A = Option Object} (some (record { pointer = none; size = 0 })) (some o1) → ⊥
          no_pointer clash = cc

      same_origin : (i j i0 j0 : ℕ) → Origin i i0 → Origin j j0 → i0 ≡ j0 → i ≡ j
      same_origin i j i0 j0 (inl (a, b)) (inl (c, d)) same = a ∙ sym c
      same_origin i j i0 j0 (inl (a, b)) (inr (c, d)) same = absurd (d (c ∙ sym same ∙ b))
      same_origin i j i0 j0 (inr (a, b)) (inl (c, d)) same = absurd (b (a ∙ same ∙ d))
      same_origin i j i0 j0 (inr (a, b)) (inr (c, d)) same = a ∙ same ∙ sym c
