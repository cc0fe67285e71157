-- ===== src/Tests/Datagrams.antt =====
-- Instances for cli/Commands: a capture with two datagrams of one flow, one in each direction.
use gateway_forge.Common.{◌≡◌, refl, sym, ap, subst, ◌∙◌, Option, some, List, [], ◌∷◌, ◌++◌, arith}
use gateway_forge.Common.Words.{Bytes}
use gateway_forge.Common.Text.{Text, lit, to_string, text_eq, text_lt}
use gateway_forge.Common.Outcome.{done}
use gateway_forge.Pcap.Packet.{Packet, HasPayload, udp, set_timestamp}
use gateway_forge.Pcap.Parser.Wire.{udp_frame}
use gateway_forge.Pcap.Parser.RoundTrip.{udp_packet, payload_buffer, parse-udp_frame}
use gateway_forge.Pcap.Reader.{PacketHeader, NextResult, end_of_file}
use gateway_forge.Pcap.Reader.Loop.{successes, packets_of}
use gateway_forge.Flow.FlowKey.{FlowKey, key_eq, normalized}
use gateway_forge.Flow.FlowTracker.{Flows, make_key}
use gateway_forge.Flow.FlowTracker.History.{with_key}
use gateway_forge.Flow.FlowTracker.Sizes.{AreSound, total_bytes}
use gateway_forge.Timeline.Builder.{TimelineEvent}
use gateway_forge.Timeline.Order.{IsChronological}
use gateway_forge.Timeline.Printer.{print_events}
use gateway_forge.Flow.FlowTracker.Totals.{on_packets}
use gateway_forge.Timeline.Found.{HoldsBeside}
use gateway_forge.Timeline.Datagrams.{Carries, all_datagram_events}
use gateway_forge.Cli.Commands.{decode_capture, flow_summary}
use gateway_forge.Cli.Commands.Datagrams.{decode_datagrams}
use gateway_forge.Tests.Pcap.{
  datagram_1, datagram_1-IsDatagram, segment_1, segment_1-IsSegment, header_at,
}
use gateway_forge.Tests.Decoder.{
  datagram_schema, header_fields, payload_field, frame_two, frame_two-IsMessage,
}
use gateway_forge.Tests.Commands.{
  message_bytes, datagram_2, datagram_2-IsDatagram, segment_2, segment_2-IsSegment,
}

abbrev udp_frames : List (PacketHeader × Bytes)
udp_frames =
    (header_at 51, udp_frame datagram_1 segment_1 13 message_bytes)
    ∷ (header_at 51, udp_frame datagram_2 segment_2 13 message_bytes)
    ∷ []

abbrev question : Packet
question = set_timestamp (udp_packet datagram_1 segment_1 (payload_buffer message_bytes)) 1000005

abbrev answer : Packet
answer = set_timestamp (udp_packet datagram_2 segment_2 (payload_buffer message_bytes)) 1000005

udp_packets_lem : packets_of udp_frames ≡ question ∷ answer ∷ []
unfolding packets_of
udp_packets_lem =
    rw
      (
        parse-udp_frame datagram_1 segment_1 13 message_bytes datagram_1-IsDatagram
            segment_1-IsSegment (omega arith),
        parse-udp_frame datagram_2 segment_2 13 message_bytes datagram_2-IsDatagram
            segment_2-IsSegment (omega arith),
      )
      refl

abbrev udp_capture : Text → Option (List NextResult)
udp_capture path = some (successes udp_frames ++ (end_of_file ∷ []))

question-HasPayload : HasPayload question
question-HasPayload = record {
  buffer = record { block = some message_bytes; size = 5 };
  present = refl;
  valid = record { bytes = message_bytes; allocated = refl; sized = refl };
}

answer-HasPayload : HasPayload answer
answer-HasPayload = record {
  buffer = record { block = some message_bytes; size = 5 };
  present = refl;
  valid = record { bytes = message_bytes; allocated = refl; sized = refl };
}

udp_frames-AreSound : AreSound (packets_of udp_frames)
udp_frames-AreSound =
    subst AreSound (sym udp_packets_lem)
      ((λ e. cc), question-HasPayload, ((λ e. cc), answer-HasPayload, tt))

total_lem : total_bytes (packets_of udp_frames) ≡ 10
total_lem = ap total_bytes udp_packets_lem

abbrev question_key : FlowKey
question_key = record {
  src_ip = lit "10.0.0.1";
  src_port = 40000;
  dst_ip = lit "10.0.0.2";
  dst_port = 9000;
  protocol = udp;
}

with_key_lem : with_key question_key (question ∷ answer ∷ []) ≡ question ∷ answer ∷ []
unfolding with_key make_key normalized key_eq text_eq text_lt to_string
with_key_lem = refl

carries :
    (p : Packet)
    → HasPayload p
    → p.payload ≡ payload_buffer message_bytes
    → Carries header_fields payload_field p frame_two
carries p h e = record {
  payload = h;
  bytes_are = ground (arith, e);
  message = frame_two-IsMessage;
  some_bytes = omega arith;
  small = omega arith;
}

decode_datagrams_example :
    (flows : Flows) × (events : List TimelineEvent) × (on_packets [] (packets_of udp_frames)
      ≡ done flows)
    × (decode_capture 11 udp_capture datagram_schema (lit "a.pcap")
        ≡ done (record { code = 0; out = flow_summary flows ++ print_events events; error = [] }))
    × IsChronological events
    × HoldsBeside 11 datagram_schema question_key flows
        (all_datagram_events payload_field (question ∷ answer ∷ []) (frame_two ∷ frame_two ∷ []))
        events
decode_datagrams_example =
    decode_datagrams datagram_schema header_fields payload_field
      (record { udp = refl; fields_are = refl }) 11 udp_capture (lit "a.pcap") udp_frames []
      question_key question (answer ∷ []) (frame_two ∷ frame_two ∷ [])
      (ap (with_key question_key) udp_packets_lem ∙ with_key_lem)
      (carries question question-HasPayload refl, (carries answer answer-HasPayload refl, tt)) refl
      refl (refl, omega arith, (λ _. omega arith), (refl, omega arith, (λ _. omega arith), tt))
      udp_frames-AreSound (omega (arith, total_lem)) (omega (arith, total_lem))
