-- ===== src/Flow/FlowTracker/Totals.antt =====
-- What the tracker counts.
use gateway_forge.Common.{
  ℕ, ◌+◌, ◌≡◌, sym, ap, subst, ◌∙◌, List, [], ◌∷◌, arith, Bool-cases, inl, inr, length,
}
use gateway_forge.Common.Outcome.{Outcome, done, ◌>>=◌, >>=-eq-done}
use gateway_forge.Pcap.Packet.{Packet}
use gateway_forge.Flow.FlowKey.{FlowKey, key_eq}
use gateway_forge.Flow.FlowTracker.{
  Flow, of_tcp, of_udp, Flows, packet_count, find_flow, set_flow, make_key, on_packet, flow_count,
  protocol_count, tcp_flow_count, udp_flow_count,
}
use gateway_forge.Flow.FlowTracker.Keys.{
  IsTracker, on_packet_lem, on_packet-IsTracker, target_flow_count, counted,
}

-- The packets that all flows have counted.
abbrev pub total_packets : Flows → ℕ
total_packets [] = 0
total_packets ((j, f) ∷ flows) = packet_count f + total_packets flows

total-set_flow :
    (key : FlowKey) (flow : Flow) (flows : Flows)
    → total_packets (set_flow key flow flows) + counted (find_flow key flows)
      ≡ total_packets flows + packet_count flow
unfolding set_flow find_flow
total-set_flow key flow [] = omega arith
total-set_flow key flow ((i, f) ∷ flows) = elim (Bool-cases (key_eq i key)) [
  | inl hit ↦ rw hit (omega arith)
  | inr miss ↦ rw miss (omega (arith, total-set_flow key flow flows))
]

-- `OnPacket` counts the packet once, in one flow.
pub total-on_packet :
    (flows : Flows) (p : Packet) {flows' : Flows}
    → IsTracker flows
    → on_packet flows p ≡ done flows'
    → total_packets flows' ≡ total_packets flows + 1
total-on_packet flows p t h =
    let (target, flow, found, entry, plus_one, written) = on_packet_lem flows p t h in
    rw written (
      omega (
        arith,
        total-set_flow (make_key p) flow flows,
        plus_one,
        target_flow_count _ _ (find_flow (make_key p) flows) found,
      ))

-- The packets of a capture, one after the other.
unfoldable pub on_packets : Flows → List Packet → Outcome Flows
on_packets flows [] = done flows
on_packets flows (p ∷ ps) = do flows' ← on_packet flows p; on_packets flows' ps

protocol_counts : (flows : Flows) → tcp_flow_count flows + udp_flow_count flows ≡ flow_count flows
unfolding protocol_count
protocol_counts [] = omega arith
protocol_counts ((j, of_tcp f) ∷ flows) = omega (arith, protocol_counts flows)
protocol_counts ((j, of_udp f) ∷ flows) = omega (arith, protocol_counts flows)

on_packets_keep :
    (flows : Flows) (ps : List Packet) {flows' : Flows}
    → IsTracker flows
    → on_packets flows ps ≡ done flows'
    → IsTracker flows' × (total_packets flows' ≡ total_packets flows + length ps)
unfolding on_packets
on_packets_keep flows [] {flows'} t h =
    (subst IsTracker same t, ap total_packets (sym same) ∙ omega arith)
  where
    same : flows ≡ flows'
    same = cc
on_packets_keep flows (p ∷ ps) t h =
    let (flows', first, rest) = >>=-eq-done (on_packet flows p) (λ fs. on_packets fs ps) h in
    let later = on_packets_keep flows' ps (on_packet-IsTracker flows p t first) rest in
    (later.0, omega (arith, later.1, total-on_packet flows p t first))

-- Once a tracker that was empty has taken these packets, its map is well formed, the packet counts
-- of its flows add up to the number of the packets, and the counts of TCP and of UDP flows add up
-- to the number of all flows.
pub on_packets_from_empty :
    (ps : List Packet) {flows : Flows}
    → on_packets [] ps ≡ done flows
    → IsTracker flows
      × (total_packets flows ≡ length ps)
      × (tcp_flow_count flows + udp_flow_count flows ≡ flow_count flows)
on_packets_from_empty ps {flows} h =
    let kept = on_packets_keep [] ps tt h in (kept.0, omega (arith, kept.1), protocol_counts flows)
