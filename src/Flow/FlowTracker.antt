-- ===== src/Flow/FlowTracker.antt =====
-- flow/FlowTracker. The hash map is an association list with one entry for a key; where the source
-- walks through it, the order of the list stands for the unspecified order of the map.
pub mod Keys
pub mod Totals
pub mod Packets
pub mod History
pub mod Conversation
pub mod Datagrams
pub mod Sizes
use gateway_forge.Common.{
  ℕ, ◌+◌, ◌≡◌, refl, Bool, true, false, Option, none, some, List, [], ◌∷◌, map, arith,
  if◌then◌else◌, length,
}
use gateway_forge.Common.Outcome.{Outcome, done, fails, null_dereference, ◌>>=◌}
use gateway_forge.Pcap.Packet.{Packet, TransportProtocol, tcp, udp, unknown, protocol_eq}
use gateway_forge.Flow.FlowKey.{FlowKey, key_eq, normalized}
use gateway_forge.Flow.TcpFlow.{TcpFlow, new_tcp_flow, tcp_on_packet, tcp_byte_count}
use gateway_forge.Flow.UdpFlow.{UdpFlow, new_udp_flow, udp_on_packet, count}

-- The two classes that derive from `Flow`.
pub data Flow : Type 0 where
  of_tcp : TcpFlow → Flow
  of_udp : UdpFlow → Flow

abbrev pub flow_protocol : Flow → TransportProtocol
flow_protocol (of_tcp f) = tcp
flow_protocol (of_udp f) = udp

abbrev pub flow_key : Flow → FlowKey
flow_key (of_tcp f) = f.key
flow_key (of_udp f) = f.key

abbrev pub packet_count : Flow → ℕ
packet_count (of_tcp f) = f.packet_count
packet_count (of_udp f) = count f.tracker

-- The virtual `OnPacket`.
unfoldable pub flow_on_packet : Flow → Packet → Outcome Flow
flow_on_packet (of_tcp f) packet = do g ← tcp_on_packet f packet; done (of_tcp g)
flow_on_packet (of_udp f) packet = do g ← udp_on_packet f packet; done (of_udp g)

abbrev pub Flows : Type 0
Flows = List (FlowKey × Flow)

-- `flows_.find(key)`.
unfoldable pub find_flow : FlowKey → Flows → Option Flow
find_flow key [] = none
find_flow key ((j, f) ∷ flows) = if key_eq j key then some f else find_flow key flows

-- `flows_[key] = flow`.
unfoldable pub set_flow : FlowKey → Flow → Flows → Flows
set_flow key flow [] = (key, flow) ∷ []
set_flow key flow ((j, f) ∷ flows) =
    if key_eq j key then (j, flow) ∷ flows else (j, f) ∷ set_flow key flow flows

-- `MakeKey`.
unfoldable pub make_key : Packet → FlowKey
make_key packet = normalized (record {
  src_ip = packet.src_ip;
  src_port = packet.src_port;
  dst_ip = packet.dst_ip;
  dst_port = packet.dst_port;
  protocol = packet.protocol;
})

-- The flow that `OnPacket` makes for a new key; none for a protocol other than TCP and UDP.
abbrev pub new_flow : TransportProtocol → FlowKey → Option Flow
new_flow tcp key = some (of_tcp (new_tcp_flow key))
new_flow udp key = some (of_udp (new_udp_flow key))
new_flow unknown key = none

-- The flow that `OnPacket` hands the packet to: `flows_[key]` is null where none was made.
abbrev pub target_flow : FlowKey → TransportProtocol → Option Flow → Outcome Flow
target_flow key protocol (some f) = done f
target_flow key protocol none = elim (new_flow protocol key) [
  | none ↦ fails null_dereference
  | some f ↦ done f
]

-- `FlowTracker::OnPacket`.
unfoldable pub on_packet : Flows → Packet → Outcome Flows
on_packet flows packet = do
  target ← target_flow (make_key packet) packet.protocol (find_flow (make_key packet) flows)
  flow ← flow_on_packet target packet
  done (set_flow (make_key packet) flow flows)

-- `GetFlows`.
abbrev pub get_flows : Flows → List Flow
get_flows = map λ (entry : FlowKey × Flow). entry.1

abbrev pub flow_count : Flows → ℕ
flow_count flows = length flows

-- The number of flows of one protocol: `TcpFlowCount` and `UdpFlowCount`.
unfoldable pub protocol_count : TransportProtocol → Flows → ℕ
protocol_count protocol [] = 0
protocol_count protocol ((j, f) ∷ flows) =
    (if protocol_eq (flow_protocol f) protocol then 1 else 0) + protocol_count protocol flows

abbrev pub tcp_flow_count : Flows → ℕ
tcp_flow_count = protocol_count tcp

abbrev pub udp_flow_count : Flows → ℕ
udp_flow_count = protocol_count udp
