-- ===== src/Tests/Commands.antt =====
-- Instances for cli/Commands: a capture with one message of a client and one of the server.
use gateway_forge.Common.{
  inl, ◌≡◌, refl, sym, ap, subst, ◌∙◌, true, false, Option, some, List, [], ◌∷◌, ◌++◌, arith,
}
use gateway_forge.Common.Words.{Bytes}
use gateway_forge.Common.Text.{Text, lit, to_string, text_eq, text_lt}
use gateway_forge.Common.Outcome.{done}
use gateway_forge.Pcap.Packet.{Packet, HasPayload, tcp, set_timestamp}
use gateway_forge.Pcap.Parser.Wire.{Datagram, IsDatagram, Segment, IsSegment, tcp_frame}
use gateway_forge.Pcap.Parser.RoundTrip.{tcp_packet, payload_buffer, parse-tcp_frame}
use gateway_forge.Pcap.Reader.{PacketHeader, NextResult, end_of_file}
use gateway_forge.Pcap.Reader.Loop.{AreComplete, successes, packets_of}
use gateway_forge.Flow.FlowKey.{FlowKey, key_eq, normalized}
use gateway_forge.Flow.FlowTracker.{Flows, make_key}
use gateway_forge.Flow.FlowTracker.Totals.{on_packets}
use gateway_forge.Flow.FlowTracker.History.{with_key}
use gateway_forge.Flow.FlowTracker.Sizes.{AreSound, total_bytes}
use gateway_forge.Flow.TcpFlow.Directions.{side_packets, ordered}
use gateway_forge.Timeline.Builder.{TimelineEvent}
use gateway_forge.Timeline.Order.{IsChronological}
use gateway_forge.Timeline.Printer.{print_events}
use gateway_forge.Timeline.Found.{HoldsBeside}
use gateway_forge.Timeline.Conversation.{IsEncoded}
use gateway_forge.Cli.Commands.{decode_capture, flow_summary}
use gateway_forge.Cli.Commands.Conversation.{IsConversation, expected_events, decode_conversation}
use gateway_forge.Tests.Pcap.{
  datagram_1, datagram_1-IsDatagram, segment_1, segment_1-IsSegment, header_at,
}
use gateway_forge.Tests.Decoder.{
  stream_schema, header_fields, payload_field, stream_schema-IsStreamSchema, frame_two,
  frame_two-IsMessage, frame_two-IsFramed,
}

-- The other direction.
abbrev pub datagram_2 : Datagram
datagram_2 = record datagram_1 { src = 167772162; dst = 167772161 }

pub datagram_2-IsDatagram : IsDatagram datagram_2
datagram_2-IsDatagram = record {
  link_length = refl;
  options_length = refl;
  few_options = omega arith;
}

abbrev pub segment_2 : Segment
segment_2 = record segment_1 { src_port = 9000; dst_port = 40000; seq = 2000; ack = 1005 }

pub segment_2-IsSegment : IsSegment segment_2
segment_2-IsSegment = record {
  src_port_u16 = omega arith;
  dst_port_u16 = omega arith;
  seq_u32 = omega arith;
  ack_u32 = omega arith;
  reserved_u4 = omega arith;
  few_options = omega arith;
  options_length = refl;
}

-- The bytes of `frame_two`.
abbrev pub message_bytes : Bytes
message_bytes = 0 ∷ 2 ∷ 9 ∷ 65 ∷ 66 ∷ []

-- Two milliseconds after the first frame.
abbrev header_later : PacketHeader
header_later = record { tv_sec = 1; tv_usec = 2005; len = 63 }

abbrev pub two_frames : List (PacketHeader × Bytes)
two_frames =
    (header_at 63, tcp_frame datagram_1 segment_1 message_bytes)
    ∷ (header_later, tcp_frame datagram_2 segment_2 message_bytes)
    ∷ []

abbrev pub call : Packet
call = set_timestamp (tcp_packet datagram_1 segment_1 (payload_buffer message_bytes)) 1000005

abbrev pub reply : Packet
reply = set_timestamp (tcp_packet datagram_2 segment_2 (payload_buffer message_bytes)) 1002005

pub packets_lem : packets_of two_frames ≡ call ∷ reply ∷ []
unfolding packets_of
packets_lem =
    rw
      (
        parse-tcp_frame datagram_1 segment_1 message_bytes datagram_1-IsDatagram segment_1-IsSegment
            (omega arith),
        parse-tcp_frame datagram_2 segment_2 message_bytes datagram_2-IsDatagram segment_2-IsSegment
            (omega arith),
      )
      refl

-- Every path is a capture of these frames.
abbrev pub two_capture : Text → Option (List NextResult)
two_capture path = some (successes two_frames ++ (end_of_file ∷ []))

pub two_frames-AreComplete : AreComplete two_frames
two_frames-AreComplete =
    (refl, omega arith, (λ _. omega arith), (refl, omega arith, (λ _. omega arith), tt))

pub call-HasPayload : HasPayload call
call-HasPayload = record {
  buffer = record { block = some message_bytes; size = 5 };
  present = refl;
  valid = record { bytes = message_bytes; allocated = refl; sized = refl };
}

pub reply-HasPayload : HasPayload reply
reply-HasPayload = record {
  buffer = record { block = some message_bytes; size = 5 };
  present = refl;
  valid = record { bytes = message_bytes; allocated = refl; sized = refl };
}

pub packets-AreSound : AreSound (packets_of two_frames)
packets-AreSound =
    subst AreSound (sym packets_lem) ((λ e. cc), call-HasPayload, ((λ e. cc), reply-HasPayload, tt))

pub total_lem : total_bytes (packets_of two_frames) ≡ 10
total_lem = ap total_bytes packets_lem

abbrev pub call_key : FlowKey
call_key = record {
  src_ip = lit "10.0.0.1";
  src_port = 40000;
  dst_ip = lit "10.0.0.2";
  dst_port = 9000;
  protocol = tcp;
}

pub with_key_lem : with_key call_key (call ∷ reply ∷ []) ≡ call ∷ reply ∷ []
unfolding with_key make_key normalized key_eq text_eq text_lt to_string
with_key_lem = refl

pub call_side : side_packets call_key true (call ∷ reply ∷ []) ≡ call ∷ []
unfolding side_packets text_eq to_string
call_side = refl

pub reply_side : side_packets call_key false (call ∷ reply ∷ []) ≡ reply ∷ []
unfolding side_packets text_eq to_string
reply_side = refl

message-IsEncoded :
    IsEncoded stream_schema header_fields payload_field 11 message_bytes (frame_two ∷ [])
message-IsEncoded = record {
  tail = [];
  is_stream = refl;
  described = (frame_two-IsMessage, frame_two-IsFramed, tt);
  cut = inl (omega arith);
  small = omega arith;
  enough_fuel = omega arith;
}

abbrev call_conversation :
    IsConversation stream_schema header_fields payload_field 11 call_key
      (packets_of two_frames)
      (frame_two ∷ [])
      (frame_two ∷ [])
call_conversation = record {
  first = call;
  later = reply ∷ [];
  packets_are = ap (with_key call_key) packets_lem ∙ with_key_lem;
  client_bytes = message_bytes;
  server_bytes = message_bytes;
  client_side = ordered call [] call_side (omega arith) (call-HasPayload, refl, tt) refl;
  server_side = ordered reply [] reply_side (omega arith) (reply-HasPayload, refl, tt) refl;
  client_messages = message-IsEncoded;
  server_messages = message-IsEncoded;
}

decode_conversation_example :
    (flows : Flows) × (events : List TimelineEvent) × (on_packets [] (packets_of two_frames)
      ≡ done flows)
    × (decode_capture 11 two_capture stream_schema (lit "a.pcap")
        ≡ done (record { code = 0; out = flow_summary flows ++ print_events events; error = [] }))
    × IsChronological events
    × HoldsBeside 11 stream_schema call_key flows
        (expected_events call_key payload_field 1000005 (frame_two ∷ []) (frame_two ∷ []))
        events
decode_conversation_example =
    decode_conversation stream_schema header_fields payload_field stream_schema-IsStreamSchema 11
      two_capture (lit "a.pcap") two_frames [] call_key (frame_two ∷ []) (frame_two ∷ [])
      call_conversation refl refl two_frames-AreComplete packets-AreSound (omega (arith, total_lem))
      (omega (arith, total_lem))
