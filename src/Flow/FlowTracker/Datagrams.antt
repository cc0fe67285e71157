-- ===== src/Flow/FlowTracker/Datagrams.antt =====
-- A UDP flow among the other traffic of a capture.
use gateway_forge.Common.{
  ◌≡◌, ◌≢◌, refl, sym, ap, ◌∙◌, Option, some, List, [], ◌∷◌, ◌++◌, append-nil, append_assoc, inl,
  inr,
}
use gateway_forge.Common.Outcome.{done, >>=-eq-done, done_injective}
use gateway_forge.Pcap.Packet.{Packet, udp, HasPayload, AllPayloads, copy_packet_lem}
use gateway_forge.Flow.FlowKey.{FlowKey}
use gateway_forge.Flow.UdpFlow.{UdpFlow, new_udp_flow, add_datagram, udp_on_packet}
use gateway_forge.Flow.FlowTracker.{Flow, of_udp, Flows, find_flow, flow_on_packet}
use gateway_forge.Flow.FlowTracker.Totals.{on_packets}
use gateway_forge.Flow.FlowTracker.History.{with_key, run_flow, find_flow-on_packets}
use gateway_forge.Flow.FlowTracker.Conversation.{run_flow_new}

udp_on_packet_kept :
    (f : UdpFlow) (p : Packet) {g : UdpFlow}
    → HasPayload p
    → udp_on_packet f p ≡ done g
    → g.tracker.datagrams ≡ f.tracker.datagrams ++ (p ∷ [])
unfolding udp_on_packet add_datagram
udp_on_packet_kept f p h e =
    ap (λ (g : UdpFlow). g.tracker.datagrams) (sym (done_injective (rw (copy_packet_lem p h) at e)))

-- The flow of a UDP key keeps its packets.
run_flow_udp :
    (f : UdpFlow) (ps : List Packet) {found : Option Flow}
    → AllPayloads ps
    → run_flow (some (of_udp f)) ps ≡ done found
    → (g : UdpFlow) × (found ≡ some (of_udp g)) × (g.tracker.datagrams ≡ f.tracker.datagrams ++ ps)
unfolding run_flow flow_on_packet
run_flow_udp f [] all h = (f, sym (done_injective h), sym (append-nil f.tracker.datagrams))
run_flow_udp f (p ∷ ps) (payload, all) h =
    let (flow, stepped, rest) = >>=-eq-done (flow_on_packet (of_udp f) p) _ h in
    let (next, first, made) = >>=-eq-done (udp_on_packet f p) _ stepped in
    let (g, e, kept) =
      run_flow_udp next ps all
        (ap (λ (x : Flow). run_flow (some x) ps) (done_injective made) ∙ rest) in
    (
      g,
      e,
      kept
          ∙ ap (λ (ds : List Packet). ds ++ ps) (udp_on_packet_kept f p payload first)
          ∙ append_assoc f.tracker.datagrams (p ∷ []) ps,
    )

-- The tracker's flow for a UDP key that has packets keeps these packets, in order.
pub tracked_datagrams :
    (key : FlowKey) (ps : List Packet) {flows : Flows}
    → key.protocol ≡ udp
    → on_packets [] ps ≡ done flows
    → AllPayloads (with_key key ps)
    → with_key key ps ≢ []
    → (f : UdpFlow) × (find_flow key flows ≡ some (of_udp f))
      × (f.tracker.datagrams ≡ with_key key ps)
unfolding find_flow
tracked_datagrams key ps is_udp h all some_packet =
    elim (run_flow_new key (of_udp (new_udp_flow key)) ps (rw is_udp refl)) [
      | inl nothing ↦ absurd (some_packet nothing)
      | inr made ↦
          run_flow_udp (new_udp_flow key) (with_key key ps) all
            (sym made ∙ find_flow-on_packets key [] ps h)
    ]
