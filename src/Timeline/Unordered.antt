-- ===== src/Timeline/Unordered.antt =====
-- The order of the flows, which the hash map of the tracker leaves open, is not seen in the timeline.
use mathlib.Core.List.{Perm, Permᴰ}
use mathlib.Core.List.Perm
use gateway_forge.Common.{ℕ, ◌≡◌, refl, sym, ap, ◌∙◌, List, ◌∷◌, ◌++◌}
use gateway_forge.Common.Outcome.{done, >>=-eq-done, done_injective}
use gateway_forge.Protocol.Schema.{ProtocolSchema}
use gateway_forge.Flow.FlowTracker.{Flow}
use gateway_forge.Timeline.Builder.{TimelineEvent, flow_events, collect_events, sort_events, build}
use gateway_forge.Timeline.Order.{sort_events_lem, perm_same, perm_parts, IsChronological}

module _ (fuel : ℕ) (schema : ProtocolSchema) where
  abbrev Collected : List Flow → List TimelineEvent → Type 0
  Collected flows es = collect_events fuel schema flows ≡ done es

  collect-cons :
      (f : Flow) (flows : List Flow) {es : List TimelineEvent}
      → Collected (f ∷ flows) es
      → (first rest : List TimelineEvent) × (flow_events fuel schema f ≡ done first)
        × Collected flows rest
        × (es ≡ first ++ rest)
  unfolding collect_events
  collect-cons f flows h =
      let (first, one, h1) = >>=-eq-done (flow_events fuel schema f) _ h in
      let (rest, later, last) = >>=-eq-done (collect_events fuel schema flows) _ h1 in
      (first, rest, one, later, sym (done_injective last))

  cons-collect :
      (f : Flow) (flows : List Flow) {first rest : List TimelineEvent}
      → flow_events fuel schema f ≡ done first
      → Collected flows rest
      → Collected (f ∷ flows) (first ++ rest)
  unfolding collect_events
  cons-collect f flows one later = rw (one, later) refl

  collect-perm :
      {flows flows' : List Flow} {es : List TimelineEvent}
      → Permᴰ flows flows'
      → Collected flows es
      → (es' : List TimelineEvent) × Collected flows' es' × Perm es es'
  collect-perm Permᴰ.nil h = (_, h, Perm.refl _)
  collect-perm (Permᴰ.cons {b = b} {l₂ = flows'} e p) h =
      let (first, rest, one, later, whole) = collect-cons _ _ h in
      let (rest', later', perm) = collect-perm p later in
      (
        first ++ rest',
        cons-collect b flows' (ap (flow_events fuel schema) (sym e) ∙ one) later',
        Perm.trans (perm_same whole) (Perm.append_left first perm),
      )
  collect-perm (Permᴰ.swap {a' = a'} {b' = b'} {l = flows} e e') h =
      let (first, rest, one, later, whole) = collect-cons _ _ h in
      let (second, rest', two, later', whole') = collect-cons _ _ later in
      (
        second ++ (first ++ rest'),
        cons-collect a' (b' ∷ flows) (ap (flow_events fuel schema) (sym e') ∙ two)
            (cons-collect b' flows (ap (flow_events fuel schema) (sym e) ∙ one) later'),
        Perm.trans (perm_same (whole ∙ ap (λ (es : List TimelineEvent). first ++ es) whole'))
            (perm_parts first second rest'),
      )
  collect-perm (Permᴰ.trans p q) h =
      let (es', mid, pm) = collect-perm p h in
      let (es'', last, pl) = collect-perm q mid in (es'', last, Perm.trans pm pl)

  -- If the timeline is built of some flows, it is also built of the same flows in another order, is
  -- in the order of time, and holds the same events, each as often.
  pub build_permuted :
      {flows flows' : List Flow} {events : List TimelineEvent}
      → Permᴰ flows flows'
      → build fuel schema flows ≡ done events
      → (events' : List TimelineEvent) × (build fuel schema flows' ≡ done events')
        × IsChronological events'
        × Perm events events'
  unfolding build
  build_permuted p h =
      let (es, collected, last) = >>=-eq-done (collect_events fuel schema _) _ h in
      let (es', collected', perm) = collect-perm p collected in
      let (sorted', perm') = sort_events_lem es' in
      (
        sort_events es',
        rw collected' refl,
        sorted',
        Perm.trans (perm_same (sym (done_injective last)))
            (Perm.trans (sort_events_lem es).1 (Perm.trans perm (Perm.symm perm'))),
      )
