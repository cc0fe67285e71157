-- ===== src/Flow/TcpFlow.antt =====
-- flow/TcpFlow.
pub mod Directions
pub mod Lossy
use gateway_forge.Common.{ℕ, ◌+◌, Bool, true, false, ◌&&◌, List, ◌++◌, ◌==◌, if◌then◌else◌}
use gateway_forge.Common.Text.{text_eq}
use gateway_forge.Common.Outcome.{Outcome, done, ◌>>=◌}
use gateway_forge.Pcap.Packet.{Packet}
use gateway_forge.Flow.FlowKey.{FlowKey}
use gateway_forge.Flow.TcpReassembler.{
  TcpReassembler, empty_reassembler, add_segment, byte_count, stream_messages,
}
use gateway_forge.Protocol.Message.{Message}

pub record TcpFlow : Type 0 where
  pub key : FlowKey
  pub client_to_server : TcpReassembler
  pub server_to_client : TcpReassembler
  pub packet_count : ℕ
  pub first_seen : ℕ
  pub last_seen : ℕ

-- `TcpFlow(key)`.
abbrev pub new_tcp_flow : FlowKey → TcpFlow
new_tcp_flow key = record {
  key = key;
  client_to_server = empty_reassembler;
  server_to_client = empty_reassembler;
  packet_count = 0;
  first_seen = 0;
  last_seen = 0;
}

abbrev pub is_client_side : TcpFlow → Packet → Bool
is_client_side f packet = text_eq packet.src_ip f.key.src_ip && packet.src_port == f.key.src_port

-- The times and the count, which `OnPacket` sets first.
abbrev pub tcp_seen : TcpFlow → Packet → TcpFlow
tcp_seen f packet = record f {
  first_seen = if f.packet_count == 0 then packet.timestamp_us else f.first_seen;
  last_seen = packet.timestamp_us;
  packet_count = f.packet_count + 1;
}

unfoldable pub tcp_on_packet : TcpFlow → Packet → Outcome TcpFlow
tcp_on_packet f packet =
    if is_client_side f packet
    then (do
      r ← add_segment f.client_to_server packet true
      done (record (tcp_seen f packet) { client_to_server = r }))
    else do
      r ← add_segment f.server_to_client packet false
      done (record (tcp_seen f packet) { server_to_client = r })

abbrev pub tcp_byte_count : TcpFlow → ℕ
tcp_byte_count f = byte_count f.client_to_server + byte_count f.server_to_client

-- `Messages`: those of the client's stream first.
unfoldable pub tcp_messages : TcpFlow → List Message
tcp_messages f = stream_messages f.client_to_server ++ stream_messages f.server_to_client
