-- ===== src/Tests/Flow.antt =====
-- Instances for the directory flow.
use gateway_forge.Common.{
  ℕ, ◌+◌, ◌≡◌, refl, ◌↔◌, ◌⊎◌, true, none, some, List, [], ◌∷◌, arith, length,
}
use gateway_forge.Common.Words.{Bytes}
use gateway_forge.Common.Text.{lit, text_eq, text_lt}
use gateway_forge.Common.Outcome.{done, fails, null_dereference}
use gateway_forge.Common.Memory.{memcpy}
use gateway_forge.Buffer.{of_data}
use gateway_forge.Pcap.Packet.{
  Packet, tcp, udp, empty_packet, HasPayload, set_timestamp, copy_packet,
}
use gateway_forge.Pcap.Parser.{parse}
use gateway_forge.Pcap.Parser.Wire.{tcp_frame}
use gateway_forge.Flow.FlowKey.{FlowKey, key_eq, normalized, swapped}
use gateway_forge.Flow.FlowKey.Normal.{normalized-eq_iff}
use gateway_forge.Flow.TcpReassembler.{TcpReassembler, empty_reassembler}
use gateway_forge.Flow.TcpReassembler.Stream.{add_segments, end_seq, reassemble-InOrder}
use gateway_forge.Flow.TcpReassembler.Handshake.{add_segments_after_gap}
use gateway_forge.Flow.UdpFlow.{udp_on_packet, add_datagram}
use gateway_forge.Flow.FlowTracker.{
  of_udp, Flows, find_flow, set_flow, make_key, flow_on_packet, on_packet, flow_count,
  tcp_flow_count, udp_flow_count,
}
use gateway_forge.Flow.FlowTracker.Keys.{IsTracker}
use gateway_forge.Flow.FlowTracker.Totals.{total_packets, on_packets, on_packets_from_empty}
use gateway_forge.Flow.FlowTracker.Packets.{bare_segment_null}
use gateway_forge.Flow.FlowTracker.History.{with_key, run_flow, find_flow-on_packets}
use gateway_forge.Flow.FlowTracker.Sizes.{AreSound, AllWithin, on_packets-AllWithin}
use gateway_forge.Tests.Pcap.{datagram_1, datagram_1-IsDatagram, segment_1, segment_1-IsSegment}

-- A segment from "b" to "a" with these bytes.
abbrev pub segment_at : ℕ → Bytes → Packet
segment_at seq bytes = record empty_packet {
  src_ip = lit "b";
  dst_ip = lit "a";
  src_port = 2;
  dst_port = 1;
  protocol = tcp;
  payload = some (record { block = some bytes; size = length bytes });
  tcp_seq = seq;
}

pub segment_at-HasPayload : (seq : ℕ) (bytes : Bytes) → HasPayload (segment_at seq bytes)
segment_at-HasPayload seq bytes = record {
  buffer = record { block = some bytes; size = length bytes };
  present = refl;
  valid = record { bytes = bytes; allocated = refl; sized = refl };
}

-- The numbers wrap around between these two.
reassemble-InOrder_example :
    add_segments empty_reassembler (segment_at 4294967295 (1 ∷ 2 ∷ []) ∷ segment_at 1 (3 ∷ []) ∷ [])
    ≡ done (record {
      stream = 1 ∷ 2 ∷ 3 ∷ [];
      next_seq = end_seq 4294967295 (1 ∷ 2 ∷ 3 ∷ []);
      initialized = true;
    })
reassemble-InOrder_example =
    reassemble-InOrder (segment_at 4294967295 (1 ∷ 2 ∷ [])) (segment_at 1 (3 ∷ []) ∷ [])
      (omega arith)
      (
        segment_at-HasPayload 4294967295 (1 ∷ 2 ∷ []),
        refl,
        (segment_at-HasPayload 1 (3 ∷ []), refl, tt),
      )

abbrev two_bytes : TcpReassembler
two_bytes = record { stream = 1 ∷ 2 ∷ []; next_seq = 102; initialized = true }

add_segments_after_gap_example :
    add_segments two_bytes (segment_at 103 (4 ∷ []) ∷ segment_at 104 (5 ∷ []) ∷ []) ≡ done two_bytes
add_segments_after_gap_example =
    add_segments_after_gap two_bytes 1 (segment_at 103 (4 ∷ []) ∷ segment_at 104 (5 ∷ []) ∷ []) refl
      (omega arith) (omega arith) (omega arith)
      (segment_at-HasPayload 103 (4 ∷ []), refl, (segment_at-HasPayload 104 (5 ∷ []), refl, tt))

abbrev key_ab : FlowKey
key_ab = record { src_ip = lit "a"; src_port = 1; dst_ip = lit "b"; dst_port = 2; protocol = tcp }

normalized-eq_iff_example :
    (normalized key_ab ≡ normalized (swapped key_ab))
    ↔ ((swapped key_ab ≡ key_ab) ⊎ (swapped key_ab ≡ swapped key_ab))
normalized-eq_iff_example = normalized-eq_iff key_ab (swapped key_ab)

abbrev pub datagram_at : Bytes → Packet
datagram_at bytes = record (segment_at 0 bytes) { protocol = udp }

datagram_at-HasPayload : (bytes : Bytes) → HasPayload (datagram_at bytes)
datagram_at-HasPayload bytes = record {
  buffer = record { block = some bytes; size = length bytes };
  present = refl;
  valid = record { bytes = bytes; allocated = refl; sized = refl };
}

-- The tracker after one datagram.
abbrev one_flow : Flows
one_flow =
    (
      record { src_ip = lit "a"; src_port = 1; dst_ip = lit "b"; dst_port = 2; protocol = udp },
      of_udp (record {
        key = record {
          src_ip = lit "a";
          src_port = 1;
          dst_ip = lit "b";
          dst_port = 2;
          protocol = udp;
        };
        tracker = record {
          datagrams = datagram_at (1 ∷ []) ∷ [];
          missing_seq_count = none;
          out_of_order_count = none;
          duplicate_count = none;
        };
        first_seen = 0;
        last_seen = 0;
      }),
    )
    ∷ []

one_flow_lem : on_packet [] (datagram_at (1 ∷ [])) ≡ done one_flow
unfolding on_packet find_flow set_flow make_key flow_on_packet udp_on_packet add_datagram
    copy_packet of_data memcpy normalized text_eq text_lt key_eq
one_flow_lem = refl

one_packet_lem : on_packets [] (datagram_at (1 ∷ []) ∷ []) ≡ done one_flow
unfolding on_packets
one_packet_lem = rw one_flow_lem

on_packets_from_empty_example :
    IsTracker one_flow
    × (total_packets one_flow ≡ 1)
    × (tcp_flow_count one_flow + udp_flow_count one_flow ≡ flow_count one_flow)
on_packets_from_empty_example = on_packets_from_empty (datagram_at (1 ∷ []) ∷ []) one_packet_lem

bare_segment_null_example :
    (p : Packet) × (parse (some (tcp_frame datagram_1 segment_1 [])) 58 ≡ done (some p))
    × (on_packet [] (set_timestamp p 7) ≡ fails null_dereference)
bare_segment_null_example =
    bare_segment_null [] datagram_1 segment_1 7 tt datagram_1-IsDatagram segment_1-IsSegment
      (omega arith)

udp_key : FlowKey
udp_key = make_key (datagram_at (1 ∷ []))

find_flow-on_packets_example :
    run_flow (find_flow udp_key []) (with_key udp_key (datagram_at (1 ∷ []) ∷ []))
    ≡ done (find_flow udp_key one_flow)
find_flow-on_packets_example =
    find_flow-on_packets udp_key [] (datagram_at (1 ∷ []) ∷ []) one_packet_lem

abbrev mixed_packets : List Packet
mixed_packets = datagram_at (1 ∷ []) ∷ segment_at 5 (2 ∷ []) ∷ []

mixed-AreSound : AreSound mixed_packets
mixed-AreSound =
    ((λ e. cc), datagram_at-HasPayload (1 ∷ []), ((λ e. cc), segment_at-HasPayload 5 (2 ∷ []), tt))

on_packets-AllWithin_example :
    (flows' : Flows) × (on_packets [] mixed_packets ≡ done flows') × AllWithin (0 + 2) flows'
on_packets-AllWithin_example = on_packets-AllWithin 0 [] mixed_packets mixed-AreSound tt
