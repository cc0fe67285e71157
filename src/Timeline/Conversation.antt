-- ===== src/Timeline/Conversation.antt =====
-- From the streams of a TCP connection to the events of the timeline.
use gateway_forge.Common.{
  ℕ, ◌^◌, ◌<◌, ◌≡◌, refl, sym, ap, ◌∙◌, some, List, [], ◌∷◌, ◌++◌, map, arith, length,
  length-append,
}
use gateway_forge.Common.Words.{Bytes}
use gateway_forge.Common.Text.{Text, lit}
use gateway_forge.Common.Outcome.{done}
use gateway_forge.Protocol.Schema.{ProtocolSchema, FieldDef}
use gateway_forge.Protocol.BinaryDecoder.{decode, to_messages, decode_to_messages}
use gateway_forge.Protocol.BinaryDecoder.Layout.{encode_fields}
use gateway_forge.Protocol.BinaryDecoder.Framing.{
  Frame, stream_of, message_of, AreFrames, IsStreamSchema,
}
use gateway_forge.Protocol.BinaryDecoder.Cut.{IsCut}
use gateway_forge.Protocol.BinaryDecoder.RoundTrip.{decode-stream_of}
use gateway_forge.Flow.FlowKey.{FlowKey}
use gateway_forge.Flow.TcpFlow.{TcpFlow}
use gateway_forge.Flow.FlowTracker.{of_tcp, Flows, find_flow, get_flows}
use gateway_forge.Timeline.Builder.{
  TimelineEvent, events_of, key_source, key_destination, stream_events, flow_events, build,
}
use gateway_forge.Timeline.Found.{HoldsBeside, build_found}

-- A stream of whole messages with less than one header, or a message that breaks off, behind them.
pub record IsEncoded (schema : ProtocolSchema) (fields more : List FieldDef) (fuel : ℕ)
    (bytes : Bytes) (frames : List Frame) : Type 0 where
  pub tail : Bytes
  pub is_stream : bytes ≡ stream_of frames ++ tail
  pub described : AreFrames schema fields more frames
  pub cut : IsCut schema fields more tail
  pub small : length bytes < 2 ^ 62
  pub enough_fuel : length frames < fuel

-- The events of these messages, as those of a direction from `src` to `dst`.
abbrev pub message_events : List FieldDef → List Frame → ℕ → Text → Text → Text → List TimelineEvent
message_events more frames time direction src dst =
    events_of (to_messages time direction (map (message_of more) frames)) (lit "TCP") src dst

module _ (schema : ProtocolSchema) (fields more : List FieldDef)
    (s : IsStreamSchema schema fields more) (fuel : ℕ) where
  no_frames :
      (frames : List Frame) (tail : Bytes)
      → AreFrames schema fields more frames
      → [] ≡ stream_of frames ++ tail
      → frames ≡ []
  no_frames [] tail d e = refl
  no_frames (f ∷ frames) tail (m, w, d) e = absurd (
      omega (
        arith,
        ap length e,
        w.header_length,
        s.some_header,
        length-append (encode_fields f.header) f.payload,
        length-append (encode_fields f.header ++ f.payload) (stream_of frames),
        length-append ((encode_fields f.header ++ f.payload) ++ stream_of frames) tail,
      ))

  pub stream_events_lem :
      (bytes : Bytes) (frames : List Frame) (time : ℕ) (direction src dst : Text)
      → IsEncoded schema fields more fuel bytes frames
      → stream_events fuel schema bytes time direction src dst
        ≡ done (message_events more frames time direction src dst)
  unfolding stream_events decode_to_messages
  stream_events_lem [] frames time direction src dst c =
      ap (λ (fs : List Frame). done (message_events more fs time direction src dst))
        (sym (no_frames frames c.tail c.described c.is_stream))
  stream_events_lem (b ∷ bs) frames time direction src dst c = rw decoded refl
    where
      decoded :
          decode fuel schema (some (b ∷ bs)) (length (b ∷ bs)) ≡ done (map (message_of more) frames)
      decoded =
          ap (λ (bytes : Bytes). decode fuel schema (some bytes) (length bytes)) c.is_stream
          ∙ decode-stream_of schema fields more frames c.tail fuel s c.described c.cut
              (omega (arith, ap length c.is_stream)) (omega (arith, ap length c.is_stream, c.small))
              c.enough_fuel

  -- The events of a flow, the client's direction first.
  abbrev pub conversation_events : TcpFlow → List Frame → List Frame → List TimelineEvent
  conversation_events f to_server to_client =
      message_events more to_server f.first_seen (lit "C->S") (key_source f.key)
        (key_destination f.key)
      ++ message_events more to_client f.first_seen (lit "S->C") (key_destination f.key)
          (key_source f.key)

  flow_events_lem :
      (f : TcpFlow) (to_server to_client : List Frame)
      → IsEncoded schema fields more fuel f.client_to_server.stream to_server
      → IsEncoded schema fields more fuel f.server_to_client.stream to_client
      → flow_events fuel schema (of_tcp f) ≡ done (conversation_events f to_server to_client)
  unfolding flow_events
  flow_events_lem f to_server to_client c d =
      rw
        (
          stream_events_lem f.client_to_server.stream to_server f.first_seen (lit "C->S")
              (key_source f.key) (key_destination f.key) c,
          stream_events_lem f.server_to_client.stream to_client f.first_seen (lit "S->C")
              (key_destination f.key) (key_source f.key) d,
        )
        refl

  -- Where the tracker's flow for a connection has two streams of whole messages, the timeline, if it
  -- is built, holds one event for each message of either direction, with the flow's first time and
  -- the ends in the direction's order, besides exactly the events of the
  -- other flows.
  pub build_conversation :
      (key : FlowKey) (flows : Flows) (f : TcpFlow) (to_server to_client : List Frame)
      {events : List TimelineEvent}
      → find_flow key flows ≡ some (of_tcp f)
      → IsEncoded schema fields more fuel f.client_to_server.stream to_server
      → IsEncoded schema fields more fuel f.server_to_client.stream to_client
      → build fuel schema (get_flows flows) ≡ done events
      → HoldsBeside fuel schema key flows (conversation_events f to_server to_client) events
  build_conversation key flows f to_server to_client found c d h =
      build_found fuel schema key flows found (flow_events_lem f to_server to_client c d) h
