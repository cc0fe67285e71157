-- ===== src/Flow/UdpFlow.antt =====
-- flow/UdpDatagramTracker and flow/UdpFlow. No constructor of the tracker sets its three counters,
-- and nothing writes them later: `none` is such an indeterminate value.
use gateway_forge.Common.{
  ℕ, ◌+◌, Option, none, some, List, [], ◌∷◌, ◌++◌, ◌==◌, if◌then◌else◌, length,
}
use gateway_forge.Common.Text.{Text, lit, to_string}
use gateway_forge.Common.Outcome.{Outcome, done, fails, indeterminate, ◌>>=◌}
use gateway_forge.Pcap.Packet.{Packet, payload_size, copy_packet}
use gateway_forge.Flow.FlowKey.{FlowKey}
use gateway_forge.Protocol.Message.{Message}

pub record UdpDatagramTracker : Type 0 where
  pub datagrams : List Packet
  pub missing_seq_count : Option ℕ
  pub out_of_order_count : Option ℕ
  pub duplicate_count : Option ℕ

abbrev pub new_tracker : UdpDatagramTracker
new_tracker = record {
  datagrams = [];
  missing_seq_count = none;
  out_of_order_count = none;
  duplicate_count = none;
}

-- `AddDatagram`: the packet is copied.
unfoldable pub add_datagram : UdpDatagramTracker → Packet → Outcome UdpDatagramTracker
add_datagram t packet = do
  copied ← copy_packet packet
  done (record t { datagrams = t.datagrams ++ (copied ∷ []) })

abbrev pub count : UdpDatagramTracker → ℕ
count t = length t.datagrams

-- The sum of the payload sizes of these datagrams.
unfoldable pub sum_sizes : List Packet → Outcome ℕ
sum_sizes [] = done 0
sum_sizes (d ∷ ds) = do size ← payload_size d; rest ← sum_sizes ds; done (size + rest)

-- `ByteCount`.
abbrev pub datagram_bytes : UdpDatagramTracker → Outcome ℕ
datagram_bytes t = sum_sizes t.datagrams

-- A counter that is read: `MissingSeqCount()` and its kind, and the numerators of the rates.
abbrev pub read_counter : Option ℕ → Outcome ℕ
read_counter none = fails indeterminate
read_counter (some n) = done n

-- `LossRate()` and `ReorderRate()` as the two numbers that are divided, or zero.
unfoldable pub rate : UdpDatagramTracker → Option ℕ → Outcome (ℕ × ℕ)
rate t counter =
    if count t == 0 then done (0, 1) else do n ← read_counter counter; done (n, count t)

pub record UdpFlow : Type 0 where
  pub key : FlowKey
  pub tracker : UdpDatagramTracker
  pub first_seen : ℕ
  pub last_seen : ℕ

-- `UdpFlow(key)`.
abbrev pub new_udp_flow : FlowKey → UdpFlow
new_udp_flow key = record { key = key; tracker = new_tracker; first_seen = 0; last_seen = 0 }

unfoldable pub udp_on_packet : UdpFlow → Packet → Outcome UdpFlow
unfolding add_datagram
udp_on_packet f packet = do
  t ← add_datagram f.tracker packet
  done (record f {
    tracker = t;
    first_seen = if count f.tracker == 0 then packet.timestamp_us else f.first_seen;
    last_seen = packet.timestamp_us;
  })

-- "host:port" of the two ends of a packet, as the source spells it in several places.
abbrev pub source_of : Packet → Text
source_of d = d.src_ip ++ (lit ":" ++ to_string d.src_port)

abbrev pub destination_of : Packet → Text
destination_of d = d.dst_ip ++ (lit ":" ++ to_string d.dst_port)

-- The messages for the datagrams from number `i` on.
unfoldable pub messages_from : ℕ → List Packet → Outcome (List Message)
messages_from i [] = done []
messages_from i (d ∷ ds) = do
  size ← payload_size d
  rest ← messages_from (i + 1) ds
  done (
      record {
        timestamp_us = d.timestamp_us;
        direction = source_of d ++ (lit " -> " ++ destination_of d);
        type = lit "UDP_DATAGRAM";
        summary =
            lit "datagram #"
            ++ (to_string (i + 1) ++ (lit " (" ++ (to_string size ++ lit " bytes)")));
      }
      ∷ rest)

-- `Messages`.
abbrev pub udp_messages : UdpFlow → Outcome (List Message)
udp_messages f = messages_from 0 f.tracker.datagrams
