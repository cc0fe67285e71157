-- ===== src/Flow/FlowTracker/Packets.antt =====
-- Which packets the tracker can take, and where they go.
use gateway_forge.Common.{
  ℕ, ◌^◌, ◌<◌, ◌≡◌, ◌≢◌, refl, ◌∙◌, inl, inr, true, false, Option, none, some, [], arith, length,
  Bool-cases,
}
use gateway_forge.Common.Outcome.{
  done, fails, null_dereference, Returns, Returns-bind, Returns-value,
}
use gateway_forge.Pcap.Packet.{
  Packet, TransportProtocol, tcp, udp, unknown, HasPayload, set_timestamp, copy_packet_lem,
}
use gateway_forge.Pcap.Parser.{parse}
use gateway_forge.Pcap.Parser.Wire.{Datagram, IsDatagram, Segment, IsSegment, tcp_frame}
use gateway_forge.Pcap.Parser.RoundTrip.{tcp_packet, parse-tcp_frame}
use gateway_forge.Flow.FlowKey.{FlowKey}
use gateway_forge.Flow.FlowKey.Normal.{normalized-swapped}
use gateway_forge.Flow.TcpReassembler.{add_segment}
use gateway_forge.Flow.TcpReassembler.Stream.{add_segment_lem}
use gateway_forge.Flow.TcpFlow.{tcp_on_packet, is_client_side}
use gateway_forge.Flow.UdpFlow.{udp_on_packet}
use gateway_forge.Flow.FlowTracker.{
  Flow, of_tcp, of_udp, Flows, flow_protocol, flow_on_packet, find_flow, make_key, target_flow,
  on_packet,
}
use gateway_forge.Flow.FlowTracker.Keys.{IsTracker, target_flow-IsEntry, make_key_protocol}

-- The packet that goes the other way.
abbrev pub reply_of : Packet → Packet
reply_of p = record p {
  src_ip = p.dst_ip;
  dst_ip = p.src_ip;
  src_port = p.dst_port;
  dst_port = p.src_port;
}

-- A packet and the packet that goes the other way have one key.
pub make_key-reply_of : (p : Packet) → make_key (reply_of p) ≡ make_key p
unfolding make_key
make_key-reply_of p = normalized-swapped _

target_flow-Returns :
    (key : FlowKey) (protocol : TransportProtocol) (found : Option Flow)
    → protocol ≢ unknown
    → Returns (target_flow key protocol found)
target_flow-Returns key protocol (some f) k = tt
target_flow-Returns key tcp none k = tt
target_flow-Returns key udp none k = tt
target_flow-Returns key unknown none k = absurd (k refl)

flow_on_packet-Returns : (f : Flow) (p : Packet) → HasPayload p → Returns (flow_on_packet f p)
unfolding flow_on_packet tcp_on_packet udp_on_packet
flow_on_packet-Returns (of_tcp f) p h = elim (Bool-cases (is_client_side f p)) [
  | inl client ↦ rw (client, add_segment_lem f.client_to_server p true h) tt
  | inr server ↦ rw (server, add_segment_lem f.server_to_client p false h) tt
]
flow_on_packet-Returns (of_udp f) p h = rw (copy_packet_lem p h) tt

-- `OnPacket` returns on every packet of a known protocol that has a payload, whatever flows there
-- are.
pub on_packet-Returns :
    (flows : Flows) (p : Packet)
    → p.protocol ≢ unknown
    → HasPayload p
    → (flows' : Flows) × (on_packet flows p ≡ done flows')
unfolding on_packet
on_packet-Returns flows p known h = Returns-value _ (
    Returns-bind _ _ (target_flow-Returns _ p.protocol (find_flow (make_key p) flows) known)
      λ target found. Returns-bind _ _ (flow_on_packet-Returns target p h) λ flow stepped. tt)

tcp_flow_null :
    (f : Flow) (p : Packet)
    → flow_protocol f ≡ tcp
    → p.payload ≡ none
    → flow_on_packet f p ≡ fails null_dereference
unfolding flow_on_packet tcp_on_packet add_segment
tcp_flow_null (of_tcp f) p e h = ground arith
tcp_flow_null (of_udp f) p e h = cc

-- A TCP packet with no payload object makes the tracker dereference a null pointer.
on_packet_null :
    (flows : Flows) (p : Packet)
    → IsTracker flows
    → p.protocol ≡ tcp
    → p.payload ≡ none
    → on_packet flows p ≡ fails null_dereference
unfolding on_packet
on_packet_null flows p t is_tcp bare =
    let (target, found) =
      Returns-value _
        (target_flow-Returns (make_key p) p.protocol (find_flow (make_key p) flows) (λ e. cc)) in
    let entry = target_flow-IsEntry flows p t found in
    rw found (rw (tcp_flow_null target p (entry.own_protocol ∙ make_key_protocol p ∙ is_tcp) bare))

-- A bare TCP segment (a SYN, an ACK or a FIN without data, in a frame without padding) parses to a
-- packet, and whatever flows a well-formed tracker holds, handing it that packet dereferences a
-- null pointer.
pub bare_segment_null :
    (flows : Flows) (d : Datagram) (s : Segment) (ts_us : ℕ)
    → IsTracker flows
    → IsDatagram d
    → IsSegment s
    → length (tcp_frame d s []) < 2 ^ 64
    → (p : Packet) × (parse (some (tcp_frame d s [])) (length (tcp_frame d s [])) ≡ done (some p))
      × (on_packet flows (set_timestamp p ts_us) ≡ fails null_dereference)
bare_segment_null flows d s ts_us t v w small =
    (tcp_packet d s none, parse-tcp_frame d s [] v w small, on_packet_null flows _ t refl refl)
