-- ===== src/Flow/FlowKey/Normal.antt =====
-- `Normalized` picks one key for the two directions of a flow.
use gateway_forge.Common.{◌≡◌, ◌⊎◌, ◌↔◌, inl, inr, ap, sym, ◌∙◌, arith}
use gateway_forge.Common.Text.{text_lt_asymm, text_lt_total, text_lt_irrefl, text_eq_iff}
use gateway_forge.Flow.FlowKey.{FlowKey, swapped, normalized}

-- `Normalized` gives the same key for both directions.
pub normalized-swapped : (k : FlowKey) → normalized (swapped k) ≡ normalized k
unfolding normalized
normalized-swapped k = ground (
  arith,
  text_lt_asymm k.src_ip k.dst_ip,
  text_lt_total k.src_ip k.dst_ip,
  text_lt_irrefl k.src_ip,
  text_eq_iff k.src_ip k.dst_ip,
  text_eq_iff k.dst_ip k.src_ip,
)

pub normalized_cases : (k : FlowKey) → (normalized k ≡ k) ⊎ (normalized k ≡ swapped k)
unfolding normalized
normalized_cases k = ground arith

-- Two keys have one normal form exactly when they are equal or the two directions of one flow.
pub normalized-eq_iff :
    (k j : FlowKey) → (normalized k ≡ normalized j) ↔ ((j ≡ k) ⊎ (j ≡ swapped k))
normalized-eq_iff k j = (forth (normalized_cases k) (normalized_cases j), back)
  where
    forth :
        ((normalized k ≡ k) ⊎ (normalized k ≡ swapped k))
        → ((normalized j ≡ j) ⊎ (normalized j ≡ swapped j))
        → normalized k ≡ normalized j
        → (j ≡ k) ⊎ (j ≡ swapped k)
    forth (inl p) (inl q) e = inl cc
    forth (inl p) (inr q) e = inr (ap swapped (sym q ∙ sym e ∙ p))
    forth (inr p) (inl q) e = inr cc
    forth (inr p) (inr q) e = inl (ap swapped (sym q ∙ sym e ∙ p))

    back : (j ≡ k) ⊎ (j ≡ swapped k) → normalized k ≡ normalized j
    back (inl e) = ap normalized (sym e)
    back (inr e) = sym (normalized-swapped k) ∙ ap normalized (sym e)

-- A normal form is its own normal form.
pub normalized_idem : (k : FlowKey) → normalized (normalized k) ≡ normalized k
normalized_idem k = elim (normalized_cases k) [
  | inl e ↦ ap normalized e
  | inr e ↦ ap normalized e ∙ normalized-swapped k
]

pub normalized_protocol : (k : FlowKey) → (normalized k).protocol ≡ k.protocol
unfolding normalized
normalized_protocol k = ground arith
