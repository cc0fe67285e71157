-- ===== src/Flow/FlowTracker/History.antt =====
-- What the tracker promises of a key: the flow that the packets of this key alone make, whatever
-- packets of other keys come between them.
use gateway_forge.Common.{
  ◌≡◌, refl, sym, ap, ◌∙◌, Option, some, List, [], ◌∷◌, arith, if◌then◌else◌, inl, inr, Bool-cases,
}
use gateway_forge.Common.Outcome.{Outcome, done, ◌>>=◌, >>=-eq-done, done_injective}
use gateway_forge.Pcap.Packet.{Packet}
use gateway_forge.Flow.FlowKey.{FlowKey, key_eq, key_eq_iff}
use gateway_forge.Flow.FlowTracker.{
  Flow, Flows, flow_on_packet, find_flow, set_flow, make_key, target_flow, on_packet,
}
use gateway_forge.Flow.FlowTracker.Keys.{find_flow-set_flow}
use gateway_forge.Flow.FlowTracker.Totals.{on_packets}

-- The packets of one key, in order.
unfoldable pub with_key : FlowKey → List Packet → List Packet
with_key key [] = []
with_key key (p ∷ ps) =
    let rest = with_key key ps in if key_eq (make_key p) key then p ∷ rest else rest

-- One flow with its packets, made at the first of them.
unfoldable pub run_flow : Option Flow → List Packet → Outcome (Option Flow)
run_flow found [] = done found
run_flow found (p ∷ ps) = do
  target ← target_flow (make_key p) p.protocol found
  flow ← flow_on_packet target p
  run_flow (some flow) ps

-- The step of the tracker, for the flow of its packet.
pub on_packet-inverted :
    (flows : Flows) (p : Packet) {flows' : Flows}
    → on_packet flows p ≡ done flows'
    → (target flow : Flow) × (target_flow (make_key p) p.protocol (find_flow (make_key p) flows)
        ≡ done target)
      × (flow_on_packet target p ≡ done flow)
      × (flows' ≡ set_flow (make_key p) flow flows)
unfolding on_packet
on_packet-inverted flows p h =
    let (target, found, rest) =
      >>=-eq-done (target_flow (make_key p) p.protocol (find_flow (make_key p) flows)) _ h in
    let (flow, stepped, written) = >>=-eq-done (flow_on_packet target p) _ rest in
    (target, flow, found, stepped, cc)

run_flow-step :
    (key : FlowKey) (flows : Flows) (p : Packet) (ps : List Packet) {flows' : Flows}
    → on_packet flows p ≡ done flows'
    → run_flow (find_flow key flows) (with_key key (p ∷ ps))
      ≡ run_flow (find_flow key flows') (with_key key ps)
unfolding run_flow with_key
run_flow-step key flows p ps h =
    let (target, flow, found, stepped, written) = on_packet-inverted flows p h in
    let seen = ap (find_flow key) written ∙ find_flow-set_flow (make_key p) key flow flows in
    elim (Bool-cases (key_eq (make_key p) key)) [
      | inl own ↦
          let same = (key_eq_iff (make_key p) key).0 own in
          let found' : target_flow (make_key p) p.protocol (find_flow key flows) ≡ done target =
            ap (λ (j : FlowKey). target_flow (make_key p) p.protocol (find_flow j flows)) (sym same)
            ∙ found in
          rw (seen, own) (rw (found', stepped) refl)
      | inr other ↦ rw (seen, other) refl
    ]

-- Whatever packets the tracker has taken: the flow that a key finds then is the one that it found
-- before, made if need be, after exactly the packets of this key, in their order.
pub find_flow-on_packets :
    (key : FlowKey) (flows : Flows) (ps : List Packet) {flows' : Flows}
    → on_packets flows ps ≡ done flows'
    → run_flow (find_flow key flows) (with_key key ps) ≡ done (find_flow key flows')
unfolding on_packets
find_flow-on_packets key flows [] h = unfold run_flow with_key in ground arith
find_flow-on_packets key flows (p ∷ ps) h =
    let (next, first, rest) = >>=-eq-done (on_packet flows p) (λ fs. on_packets fs ps) h in
    run_flow-step key flows p ps first ∙ find_flow-on_packets key next ps rest

-- Two captures, both of which an empty tracker takes, whose packets have the same order within each
-- key: they leave the same flow under each key, however the packets of different keys are
-- interleaved.
pub on_packets_interleaved :
    (ps qs : List Packet) {flows flows' : Flows}
    → on_packets [] ps ≡ done flows
    → on_packets [] qs ≡ done flows'
    → ((key : FlowKey) → with_key key ps ≡ with_key key qs)
    → (key : FlowKey) → find_flow key flows ≡ find_flow key flows'
on_packets_interleaved ps qs {flows} {flows'} h h' same key = done_injective (
    sym (find_flow-on_packets key [] ps h)
    ∙ ap (run_flow (find_flow key [])) (same key)
    ∙ find_flow-on_packets key [] qs h')
