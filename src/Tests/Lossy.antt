-- ===== src/Tests/Lossy.antt =====
-- Instances for captures in which segments are lost and repeated.
use gateway_forge.Common.{inr, ◌≡◌, refl, ap, ◌∙◌, List, [], ◌∷◌, ◌++◌, arith}
use gateway_forge.Common.Text.{lit}
use gateway_forge.Common.Outcome.{done}
use gateway_forge.Pcap.Reader.Loop.{packets_of}
use gateway_forge.Flow.TcpReassembler.{TcpReassembler, empty_reassembler}
use gateway_forge.Flow.TcpReassembler.Stream.{add_segments}
use gateway_forge.Flow.TcpReassembler.Prefix.{IsSlice, IsPrefix, reassemble-IsPrefix}
use gateway_forge.Flow.TcpReassembler.Retransmission.{
  IsPartOf, in_turn, between, nothing, reassemble_retransmitted,
}
use gateway_forge.Flow.FlowTracker.{Flows}
use gateway_forge.Flow.FlowTracker.Totals.{on_packets}
use gateway_forge.Flow.FlowTracker.History.{with_key}
use gateway_forge.Timeline.Builder.{TimelineEvent}
use gateway_forge.Timeline.Order.{IsChronological}
use gateway_forge.Timeline.Printer.{print_events}
use gateway_forge.Cli.Commands.{decode_capture, flow_summary}
use gateway_forge.Cli.Commands.Lossy.{IsLossyConversation, HoldsPrefixes, decode_lossy}
use gateway_forge.Tests.Flow.{segment_at, segment_at-HasPayload}
use gateway_forge.Tests.Decoder.{
  stream_schema, header_fields, payload_field, stream_schema-IsStreamSchema, frame_two,
  frame_two-IsMessage, frame_two-IsFramed,
}
use gateway_forge.Tests.Commands.{
  two_frames, two_capture, call, reply, packets_lem, two_frames-AreComplete, packets-AreSound,
  total_lem, call_key, with_key_lem, call_side, reply_side, call-HasPayload, reply-HasPayload,
  message_bytes,
}

start : IsSlice 100 (1 ∷ 2 ∷ 3 ∷ 4 ∷ []) (segment_at 100 (1 ∷ 2 ∷ []))
start = record {
  has_payload = segment_at-HasPayload 100 (1 ∷ 2 ∷ []);
  before = [];
  behind = 3 ∷ 4 ∷ [];
  is_part = refl;
  numbered = refl;
}

fourth : IsSlice 100 (1 ∷ 2 ∷ 3 ∷ 4 ∷ []) (segment_at 103 (4 ∷ []))
fourth = record {
  has_payload = segment_at-HasPayload 103 (4 ∷ []);
  before = 1 ∷ 2 ∷ 3 ∷ [];
  behind = [];
  is_part = refl;
  numbered = refl;
}

-- The fourth byte comes early, and the first two come twice; the third is lost.
reassemble-IsPrefix_example :
    (r : TcpReassembler) × (add_segments empty_reassembler
        (segment_at 100 (1 ∷ 2 ∷ []) ∷ segment_at 103 (4 ∷ []) ∷ segment_at 100 (1 ∷ 2 ∷ []) ∷ [])
      ≡ done r)
    × IsPrefix 100 (1 ∷ 2 ∷ 3 ∷ 4 ∷ []) r
reassemble-IsPrefix_example =
    reassemble-IsPrefix 100 (1 ∷ 2 ∷ 3 ∷ 4 ∷ []) (omega arith) (segment_at 100 (1 ∷ 2 ∷ []))
      (segment_at 103 (4 ∷ []) ∷ segment_at 100 (1 ∷ 2 ∷ []) ∷ []) refl (omega arith)
      (start, (fourth, (start, tt)))

last_part : IsPartOf 100 ((1 ∷ 2 ∷ []) ∷ (3 ∷ []) ∷ (4 ∷ []) ∷ []) (segment_at 103 (4 ∷ []))
last_part = record {
  has_payload = segment_at-HasPayload 103 (4 ∷ []);
  before = (1 ∷ 2 ∷ []) ∷ (3 ∷ []) ∷ [];
  behind = [];
  is_part = refl;
  numbered = refl;
}

-- The third part comes early, and again in its turn.
reassemble_retransmitted_example :
    (r : TcpReassembler) × (add_segments empty_reassembler (
        segment_at 100 (1 ∷ 2 ∷ [])
        ∷ segment_at 103 (4 ∷ [])
        ∷ segment_at 102 (3 ∷ [])
        ∷ segment_at 103 (4 ∷ [])
        ∷ [])
      ≡ done r)
    × (r.stream ≡ 1 ∷ 2 ∷ 3 ∷ 4 ∷ [])
reassemble_retransmitted_example =
    reassemble_retransmitted 100 ((1 ∷ 2 ∷ []) ∷ (3 ∷ []) ∷ (4 ∷ []) ∷ []) (omega arith)
      (omega arith) (segment_at 100 (1 ∷ 2 ∷ []))
      (segment_at 103 (4 ∷ []) ∷ segment_at 102 (3 ∷ []) ∷ segment_at 103 (4 ∷ []) ∷ []) refl
      (omega arith)
      (
        record {
          has_payload = segment_at-HasPayload 100 (1 ∷ 2 ∷ []);
          before = [];
          behind = (3 ∷ []) ∷ (4 ∷ []) ∷ [];
          is_part = refl;
          numbered = refl;
        },
        (
          last_part,
          (
            record {
              has_payload = segment_at-HasPayload 102 (3 ∷ []);
              before = (1 ∷ 2 ∷ []) ∷ [];
              behind = (4 ∷ []) ∷ [];
              is_part = refl;
              numbered = refl;
            },
            (last_part, tt),
          ),
        ),
      )
      (in_turn 100 (segment_at 100 (1 ∷ 2 ∷ [])) refl (
        between (segment_at 103 (4 ∷ [])) (
          in_turn 102 (segment_at 102 (3 ∷ [])) refl
            (in_turn 103 (segment_at 103 (4 ∷ [])) refl (nothing 104 [])))))

-- Of the two messages of the client the second one is lost.
abbrev lossy_call :
    IsLossyConversation stream_schema header_fields payload_field 11 call_key
      (packets_of two_frames)
      (frame_two ∷ frame_two ∷ [])
      (frame_two ∷ [])
lossy_call = record {
  first = call;
  later = reply ∷ [];
  packets_are = ap (with_key call_key) packets_lem ∙ with_key_lem;
  client_side = record {
    is_side = inr (
      call,
      [],
      call_side,
      omega arith,
      (
        record {
          has_payload = call-HasPayload;
          before = [];
          behind = message_bytes;
          is_part = refl;
          numbered = refl;
        },
        tt,
      ),
    );
    described =
        (frame_two-IsMessage, frame_two-IsFramed, (frame_two-IsMessage, frame_two-IsFramed, tt));
    small = omega arith;
    enough_fuel = omega arith;
  };
  server_side = record {
    is_side = inr (
      reply,
      [],
      reply_side,
      omega arith,
      (
        record {
          has_payload = reply-HasPayload;
          before = [];
          behind = [];
          is_part = refl;
          numbered = refl;
        },
        tt,
      ),
    );
    described = (frame_two-IsMessage, frame_two-IsFramed, tt);
    small = omega arith;
    enough_fuel = omega arith;
  };
}

decode_lossy_example :
    (flows : Flows) × (events : List TimelineEvent) × (on_packets [] (packets_of two_frames)
      ≡ done flows)
    × (decode_capture 11 two_capture stream_schema (lit "a.pcap")
        ≡ done (record { code = 0; out = flow_summary flows ++ print_events events; error = [] }))
    × IsChronological events
    × HoldsPrefixes 11 stream_schema payload_field call_key flows 1000005
        (frame_two ∷ frame_two ∷ [])
        (frame_two ∷ [])
        events
decode_lossy_example =
    decode_lossy stream_schema header_fields payload_field stream_schema-IsStreamSchema 11
      two_capture (lit "a.pcap") two_frames [] call_key (frame_two ∷ frame_two ∷ [])
      (frame_two ∷ []) lossy_call refl refl two_frames-AreComplete packets-AreSound
      (omega (arith, total_lem)) (omega (arith, total_lem))
