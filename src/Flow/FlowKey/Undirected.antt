-- ===== src/Flow/FlowKey/Undirected.antt =====
-- What a flow is, whichever direction its packets take: a key up to its direction. `Normalized`
-- names each such flow by one key.
use mathlib.Core.HLevel.{Σ_prop_path}
use mathlib.Core.Quot
use mathlib.Core.Quot.{Quot, Quot-set}
use gateway_forge.Common.{◌≡◌, refl, sym, ap, ◌∙◌, inl, inr}
use gateway_forge.Flow.FlowKey.{FlowKey, swapped, normalized}
use gateway_forge.Flow.FlowKey.Normal.{normalized-swapped, normalized_cases, normalized_idem}

pub FlowKey-IsSet : IsSet FlowKey
FlowKey-IsSet = hlevel

-- The other direction of the same flow.
abbrev pub AreReversed : FlowKey → FlowKey → Type 0
AreReversed k j = j ≡ swapped k

-- The flows without their direction.
abbrev pub Undirected : Type 0
Undirected = Quot AreReversed

-- The keys that `Normalized` gives.
abbrev pub NormalKey : Type 0
NormalKey = (k : FlowKey) × (normalized k ≡ k)

pub NormalKey-IsSet : IsSet NormalKey
NormalKey-IsSet = hlevel FlowKey-IsSet

pub NormalKey_path : (n m : NormalKey) → n.0 ≡ m.0 → n ≡ m
NormalKey_path n m e = Σ_prop_path (λ k. FlowKey-IsSet _ _) e

-- `Normalized`, on flows without their direction.
abbrev pub normal_key : Undirected → NormalKey
normal_key = Quot.lift NormalKey-IsSet (λ k. (normalized k, normalized_idem k)) respects
  where
    respects :
        (k j : FlowKey)
        → AreReversed k j
        → ◌≡◌ {A = NormalKey} (normalized k, normalized_idem k) (normalized j, normalized_idem j)
    respects k j e = NormalKey_path _ _ (sym (ap normalized e ∙ normalized-swapped k))

abbrev pub undirected : FlowKey → Undirected
undirected k = Quot.mk k

-- `Normalized` gives each flow, whichever of its directions a packet shows, one key, and different
-- flows different ones, and each of the keys that it gives is that of a flow: the flows without
-- their direction and the normal keys are in bijection.
pub normal_key-undirected :
    ((u : Undirected) → undirected ((normal_key u).0) ≡ u)
    × ((n : NormalKey) → normal_key (undirected n.0) ≡ n)
normal_key-undirected = (back, λ n. NormalKey_path _ _ n.1)
  where
    back : (u : Undirected) → undirected ((normal_key u).0) ≡ u
    back =
        Quot.ind (λ u. Quot-set _ _)
          (λ k. elim (normalized_cases k) [
            | inl e ↦ ap undirected e
            | inr e ↦ ap undirected e ∙ sym (Quot.sound refl)
          ])
