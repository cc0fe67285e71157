-- ===== src/Tests/Timeline.antt =====
-- Instances for the directory timeline.
use mathlib.Core.List.{Perm, Permᴰ}
use gateway_forge.Common.{ℕ, ◌≡◌, refl, [], ◌∷◌, List, arith}
use gateway_forge.Common.Text.{Text, lit, to_string, text_eq}
use gateway_forge.Common.Outcome.{done}
use gateway_forge.Protocol.Schema.{ProtocolSchema, default_framing, default_field}
use gateway_forge.Timeline.Builder.{
  TimelineEvent, collect_events, sort_events, build, flow_events, datagram_events,
}
use gateway_forge.Common.Memory.{memcpy}
use gateway_forge.Pcap.Packet.{udp}
use gateway_forge.Flow.UdpFlow.{new_tracker}
use gateway_forge.Flow.FlowTracker.{Flow, of_udp}
use gateway_forge.Tests.Flow.{datagram_at}
use gateway_forge.Protocol.FieldType.{field_type_size}
use gateway_forge.Protocol.FieldValue.{value_to_string}
use gateway_forge.Protocol.BinaryDecoder.{
  decode_to_messages, decode, decode_datagram, decode_fields, value_of, put, get, to_message,
  summary_of,
}
use gateway_forge.Timeline.Order.{IsChronological, build_sorted}
use gateway_forge.Timeline.Unordered.{build_permuted}
use gateway_forge.Timeline.Printer.{format_delta, print_events}
use gateway_forge.Timeline.Printer.Lines.{ArePrinted, print_events-ArePrinted}

-- Two datagrams of one byte, the later one first.
abbrev number_schema : ProtocolSchema
number_schema = record {
  name = lit "number";
  transport = lit "udp";
  endian = lit "big";
  framing = default_framing;
  fields = record default_field { name = lit "n" } ∷ [];
  length_from = [];
  analysis_sequence_field = [];
  analysis_timestamp_field = [];
  analysis_device_id_field = [];
}

abbrev number_flow : Flow
number_flow = of_udp (record {
  key = record { src_ip = lit "b"; src_port = 2; dst_ip = lit "a"; dst_port = 1; protocol = udp };
  tracker = record new_tracker {
    datagrams =
        record (datagram_at (7 ∷ [])) { timestamp_us = 20 }
        ∷ record (datagram_at (8 ∷ [])) { timestamp_us = 10 }
        ∷ [];
  };
  first_seen = 10;
  last_seen = 20;
})

abbrev number_event : ℕ → Text → TimelineEvent
number_event t details = record {
  timestamp_us = t;
  transport = lit "UDP";
  src = lit "b:2";
  dst = lit "a:1";
  message_type = lit "DATA";
  details = details;
}

abbrev number_events : List TimelineEvent
number_events = number_event 10 (lit "n=8 ") ∷ number_event 20 (lit "n=7 ") ∷ []

build_numbers : build 2 number_schema (number_flow ∷ []) ≡ done number_events
unfolding build collect_events flow_events datagram_events sort_events decode_to_messages decode
    decode_datagram decode_fields field_type_size value_of put get to_message summary_of
    value_to_string text_eq to_string memcpy
build_numbers = refl

build_sorted_example :
    IsChronological number_events
    × ((collected : List TimelineEvent) × (collect_events 2 number_schema (number_flow ∷ [])
          ≡ done collected)
        × Perm number_events collected)
build_sorted_example = build_sorted 2 number_schema (number_flow ∷ []) build_numbers

abbrev other_flow : Flow
other_flow = of_udp (record {
  key = record { src_ip = lit "b"; src_port = 2; dst_ip = lit "a"; dst_port = 1; protocol = udp };
  tracker = record new_tracker {
    datagrams = record (datagram_at (9 ∷ [])) { timestamp_us = 15 } ∷ [];
  };
  first_seen = 15;
  last_seen = 15;
})

abbrev all_events : List TimelineEvent
all_events =
    number_event 10 (lit "n=8 ") ∷ number_event 15 (lit "n=9 ") ∷ number_event 20 (lit "n=7 ") ∷ []

build_both : build 2 number_schema (number_flow ∷ other_flow ∷ []) ≡ done all_events
unfolding build collect_events flow_events datagram_events sort_events decode_to_messages decode
    decode_datagram decode_fields field_type_size value_of put get to_message summary_of
    value_to_string text_eq to_string memcpy
build_both = refl

build_permuted_example :
    (events' : List TimelineEvent) × (build 2 number_schema (other_flow ∷ number_flow ∷ [])
      ≡ done events')
    × IsChronological events'
    × Perm all_events events'
build_permuted_example = build_permuted 2 number_schema (Permᴰ.swap refl refl) build_both

abbrev event_at : ℕ → TimelineEvent
event_at t = record {
  timestamp_us = t;
  transport = lit "TCP";
  src = lit "a:1";
  dst = lit "b:2";
  message_type = lit "DATA";
  details = [];
}

abbrev two_events : List TimelineEvent
two_events = event_at 100 ∷ event_at 61001100 ∷ []

print_events-ArePrinted_example : ArePrinted 100 two_events (print_events two_events)
print_events-ArePrinted_example =
    print_events-ArePrinted (event_at 100) (event_at 61001100 ∷ []) ((omega arith, tt), (tt, tt))
      (omega arith, (omega arith, tt))

format_delta_lem : format_delta 61001000 ≡ lit "01:01.001"
unfolding format_delta to_string
format_delta_lem = refl
