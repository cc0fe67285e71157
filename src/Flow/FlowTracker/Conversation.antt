-- ===== src/Flow/FlowTracker/Conversation.antt =====
-- A TCP connection among all packets of a capture: what the tracker and the reassemblers together
-- make of it.
use gateway_forge.Common.{
  ◌≡◌, ◌≢◌, refl, sym, ap, ◌∙◌, ◌⊎◌, inl, inr, Option, none, some, List, [], ◌∷◌, Bool-cases,
}
use gateway_forge.Common.Outcome.{Outcome, done, ◌>>=◌, >>=-eq-done, done_injective}
use gateway_forge.Pcap.Packet.{Packet, tcp}
use gateway_forge.Flow.FlowKey.{FlowKey, key_eq, key_eq_iff}
use gateway_forge.Flow.TcpFlow.{TcpFlow, new_tcp_flow, tcp_on_packet}
use gateway_forge.Flow.TcpFlow.Directions.{run_tcp}
use gateway_forge.Flow.FlowTracker.{
  Flow, of_tcp, Flows, flow_on_packet, find_flow, make_key, target_flow,
}
use gateway_forge.Flow.FlowTracker.Keys.{make_key_protocol}
use gateway_forge.Flow.FlowTracker.Totals.{on_packets}
use gateway_forge.Flow.FlowTracker.History.{with_key, run_flow, find_flow-on_packets}

run_flow_tcp :
    (f : TcpFlow) (ps : List Packet) {found : Option Flow}
    → run_flow (some (of_tcp f)) ps ≡ done found
    → (g : TcpFlow) × (found ≡ some (of_tcp g)) × (run_tcp f ps ≡ done g)
unfolding run_flow run_tcp flow_on_packet
run_flow_tcp f [] h = (f, sym (done_injective h), refl)
run_flow_tcp f (p ∷ ps) h =
    let (flow, stepped, rest) = >>=-eq-done (flow_on_packet (of_tcp f) p) _ h in
    let (next, first, made) = >>=-eq-done (tcp_on_packet f p) _ stepped in
    let (g, e, run) =
      run_flow_tcp next ps (ap (λ (x : Flow). run_flow (some x) ps) (done_injective made) ∙ rest) in
    (g, e, ap (λ (m : Outcome TcpFlow). m >>= λ f'. run_tcp f' ps) first ∙ run)

-- The first packet of a key makes the flow for it.
pub run_flow_new :
    (key : FlowKey) (new : Flow) (ps : List Packet)
    → target_flow key key.protocol none ≡ done new
    → (with_key key ps ≡ [])
      ⊎ (run_flow none (with_key key ps) ≡ run_flow (some new) (with_key key ps))
unfolding run_flow with_key
run_flow_new key new [] fresh = inl refl
run_flow_new key new (p ∷ ps) fresh = elim (Bool-cases (key_eq (make_key p) key)) [
  | inl own ↦
      let same = (key_eq_iff (make_key p) key).0 own in
      let protocol = sym (make_key_protocol p) ∙ ap (λ (k : FlowKey). k.protocol) same in
      inr (
        rw own (
          ap
            (λ (m : Outcome Flow). m >>= λ target.
              flow_on_packet target p >>= λ flow. run_flow (some flow) (with_key key ps))
            ((λ i. target_flow (same i) (protocol i) none) ∙ fresh)))
  | inr other ↦ rw other (run_flow_new key new ps fresh)
]

-- The tracker's flow for a TCP key that has packets is made of these packets alone.
pub tracked_flow :
    (key : FlowKey) (ps : List Packet) {flows : Flows}
    → key.protocol ≡ tcp
    → on_packets [] ps ≡ done flows
    → with_key key ps ≢ []
    → (f : TcpFlow) × (find_flow key flows ≡ some (of_tcp f))
      × (run_tcp (new_tcp_flow key) (with_key key ps) ≡ done f)
unfolding find_flow
tracked_flow key ps is_tcp h some_packet =
    elim (run_flow_new key (of_tcp (new_tcp_flow key)) ps (rw is_tcp refl)) [
      | inl nothing ↦ absurd (some_packet nothing)
      | inr made ↦
          run_flow_tcp (new_tcp_flow key) (with_key key ps)
            (sym made ∙ find_flow-on_packets key [] ps h)
    ]
