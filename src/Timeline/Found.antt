-- ===== src/Timeline/Found.antt =====
-- The events of one flow that the tracker has, among those of all flows.
use mathlib.Core.List.{Perm}
use mathlib.Core.List.Perm
use gateway_forge.Common.{
  ℕ, ◌≡◌, refl, sym, ap, ◌∙◌, some, List, [], ◌∷◌, ◌++◌, arith, inl, inr, Bool-cases, if◌then◌else◌,
}
use gateway_forge.Common.Outcome.{done, >>=-eq-done, done_injective}
use gateway_forge.Protocol.Schema.{ProtocolSchema}
use gateway_forge.Flow.FlowKey.{FlowKey, key_eq}
use gateway_forge.Flow.FlowTracker.{Flow, Flows, find_flow, get_flows}
use gateway_forge.Timeline.Builder.{TimelineEvent, flow_events, collect_events, build}
use gateway_forge.Timeline.Order.{build_sorted, perm_same, perm_parts}

-- The flows but the first one with this key.
unfoldable pub without : FlowKey → Flows → Flows
without key [] = []
without key ((j, f) ∷ flows) =
    let rest = without key flows in if key_eq j key then flows else (j, f) ∷ rest

-- These events are those of the flow with this key, and exactly the ones of the other flows.
abbrev pub HoldsBeside :
    ℕ → ProtocolSchema → FlowKey → Flows → List TimelineEvent → List TimelineEvent → Type 0
HoldsBeside fuel schema key flows own events =
    (others : List TimelineEvent) × (collect_events fuel schema (get_flows (without key flows))
      ≡ done others)
    × Perm events (own ++ others)

module _ (fuel : ℕ) (schema : ProtocolSchema) where
  collect-found :
      (key : FlowKey) (flows : Flows) {flow : Flow} {own all : List TimelineEvent}
      → find_flow key flows ≡ some flow
      → flow_events fuel schema flow ≡ done own
      → collect_events fuel schema (get_flows flows) ≡ done all
      → HoldsBeside fuel schema key flows own all
  unfolding find_flow collect_events without
  collect-found key [] found made h = cc
  collect-found key ((j, f) ∷ flows) {flow} {own} {all} found made h =
      let (first, one, h1) = >>=-eq-done (flow_events fuel schema f) _ h in
      let (rest, later, last) = >>=-eq-done (collect_events fuel schema (get_flows flows)) _ h1 in
      let whole : Perm all (first ++ rest) = perm_same (sym (done_injective last)) in
      elim (Bool-cases (key_eq j key)) [
        | inl hit ↦
            let same : f ≡ flow = ground (arith, hit, found) in
            let own_first : first ≡ own =
              done_injective (sym one ∙ ap (flow_events fuel schema) same ∙ made) in
            (
              rest,
              rw hit later,
              Perm.trans whole (perm_same (ap (λ (es : List TimelineEvent). es ++ rest) own_first)),
            )
        | inr miss ↦
            let (others, collected, perm) = collect-found key flows (rw miss at found) made later in
            (
              first ++ others,
              rw (miss, one, collected) refl,
              Perm.trans whole
                  (Perm.trans (Perm.append_left first perm) (perm_parts first own others)),
            )
      ]

  -- The timeline holds the events of a flow that the tracker finds, besides those of the other flows.
  pub build_found :
      (key : FlowKey) (flows : Flows) {flow : Flow} {own events : List TimelineEvent}
      → find_flow key flows ≡ some flow
      → flow_events fuel schema flow ≡ done own
      → build fuel schema (get_flows flows) ≡ done events
      → HoldsBeside fuel schema key flows own events
  build_found key flows found made h =
      let (_, (all, collected, perm)) = build_sorted fuel schema (get_flows flows) h in
      let (others, rest, split) = collect-found key flows found made collected in
      (others, rest, Perm.trans perm split)
