-- ===== src/Cli/Commands/Conversation.antt =====
-- The whole way of one TCP connection: from the frames of a capture to the timeline that the command
-- `decode` prints.
use gateway_forge.Common.{
  inl, ℕ, ◌≡◌, ◌<◌, ◌^◌, arith, sym, ap, subst, ◌∙◌, true, false, Option, some, List, [], ◌∷◌, ◌++◌,
}
use gateway_forge.Common.Words.{Bytes}
use gateway_forge.Common.Text.{Text, lit}
use gateway_forge.Common.Outcome.{done}
use gateway_forge.Pcap.Packet.{Packet, tcp}
use gateway_forge.Pcap.Reader.{PacketHeader, NextResult, end_of_file}
use gateway_forge.Pcap.Reader.Loop.{AreComplete, successes, packets_of}
use gateway_forge.Protocol.Schema.{ProtocolSchema, FieldDef}
use gateway_forge.Protocol.BinaryDecoder.Framing.{Frame, IsStreamSchema}
use gateway_forge.Flow.FlowKey.{FlowKey}
use gateway_forge.Flow.TcpFlow.{TcpFlow, new_tcp_flow}
use gateway_forge.Flow.TcpFlow.Directions.{
  IsSide, run_tcp, reassembled_side, run_tcp-side, run_tcp-new_times,
}
use gateway_forge.Flow.FlowTracker.{of_tcp, Flows, find_flow, get_flows}
use gateway_forge.Flow.FlowTracker.Totals.{on_packets}
use gateway_forge.Flow.FlowTracker.History.{with_key}
use gateway_forge.Flow.FlowTracker.Conversation.{tracked_flow}
use gateway_forge.Flow.FlowTracker.Sizes.{AreSound, total_bytes}
use gateway_forge.Timeline.Total.{IsProgressing}
use gateway_forge.Cli.Commands.Total.{decode_capture_total}
use gateway_forge.Timeline.Builder.{TimelineEvent, build, key_source, key_destination}
use gateway_forge.Timeline.Order.{IsChronological, build_sorted}
use gateway_forge.Timeline.Printer.{print_events}
use gateway_forge.Timeline.Found.{HoldsBeside}
use gateway_forge.Timeline.Conversation.{IsEncoded, message_events, build_conversation}
use gateway_forge.Cli.Commands.{flow_summary, decode_capture}

-- The connection in the capture: its packets, the bytes that each side sent in order, and the
-- messages that these bytes are.
pub record IsConversation (schema : ProtocolSchema) (fields more : List FieldDef) (fuel : ℕ)
    (key : FlowKey) (packets : List Packet) (to_server to_client : List Frame) : Type 0 where
  pub first : Packet
  pub later : List Packet
  pub packets_are : with_key key packets ≡ first ∷ later
  pub client_bytes : Bytes
  pub server_bytes : Bytes
  pub client_side : IsSide key true (first ∷ later) client_bytes
  pub server_side : IsSide key false (first ∷ later) server_bytes
  pub client_messages : IsEncoded schema fields more fuel client_bytes to_server
  pub server_messages : IsEncoded schema fields more fuel server_bytes to_client

-- The events of these messages: those of the client first, all at the time of the first packet.
abbrev pub expected_events :
    FlowKey → List FieldDef → ℕ → List Frame → List Frame → List TimelineEvent
expected_events key more time to_server to_client =
    message_events more to_server time (lit "C->S") (key_source key) (key_destination key)
    ++ message_events more to_client time (lit "S->C") (key_destination key) (key_source key)

module _ (schema : ProtocolSchema) (fields more : List FieldDef)
    (s : IsStreamSchema schema fields more) (fuel : ℕ) where
  -- The timeline of a connection whose streams are whole messages, as far as they go.
  pub flow_conversation :
      (key : FlowKey) (flows : Flows) (f : TcpFlow) (first : Packet) (later : List Packet)
      (to_server to_client : List Frame) {events : List TimelineEvent}
      → find_flow key flows ≡ some (of_tcp f)
      → run_tcp (new_tcp_flow key) (first ∷ later) ≡ done f
      → IsEncoded schema fields more fuel f.client_to_server.stream to_server
      → IsEncoded schema fields more fuel f.server_to_client.stream to_client
      → build fuel schema (get_flows flows) ≡ done events
      → HoldsBeside fuel schema key flows
          (expected_events key more first.timestamp_us to_server to_client)
          events
  flow_conversation key flows f first later to_server to_client {events} found run c d built =
      let kept = (run_tcp-side true (new_tcp_flow key) (first ∷ later) run).0 in
      let (_, seen, _) = run_tcp-new_times key first later run in
      subst (λ (own : List TimelineEvent). HoldsBeside fuel schema key flows own events)
        (λ i. expected_events (kept i) more (seen i) to_server to_client)
        (build_conversation schema fields more s fuel key flows f to_server to_client found c d
          built)

  tracked_conversation :
      (key : FlowKey) (packets : List Packet) (to_server to_client : List Frame)
      (c : IsConversation schema fields more fuel key packets to_server to_client) {flows : Flows}
      {events : List TimelineEvent}
      → key.protocol ≡ tcp
      → on_packets [] packets ≡ done flows
      → build fuel schema (get_flows flows) ≡ done events
      → HoldsBeside fuel schema key flows
          (expected_events key more c.first.timestamp_us to_server to_client)
          events
  tracked_conversation key packets to_server to_client c {flows} {events} is_tcp tracked built =
      let (f, found, run) = tracked_flow key packets is_tcp tracked (λ e. cc) in
      let run' : run_tcp (new_tcp_flow key) (c.first ∷ c.later) ≡ done f =
        ap (run_tcp (new_tcp_flow key)) (sym c.packets_are) ∙ run in
      let encoded =
        λ (frames : List Frame) (bytes : Bytes). IsEncoded schema fields more fuel bytes frames in
      flow_conversation key flows f c.first c.later to_server to_client found run'
        (subst (encoded to_server)
          (sym (reassembled_side key true (c.first ∷ c.later) c.client_bytes run' c.client_side))
          c.client_messages)
        (subst (encoded to_client)
          (sym (reassembled_side key false (c.first ∷ c.later) c.server_bytes run' c.server_side))
          c.server_messages)
        built

  -- A capture of complete frames that ends, all packets of which have a payload, with a TCP
  -- connection among other traffic, each side of which sends whole messages of the schema, with
  -- less than one header or a message that breaks off behind them, in segments that arrive in order
  -- or, as non-empty parts of fewer than 2 ^ 32 bytes, are repeated until each part has come in its
  -- turn, under a framing whose length does not count the header: on more fuel than all payloads
  -- have bytes and than a side has whole messages (fewer than 2 ^ 62 bytes on each side and 2 ^ 63
  -- in all), the command `decode` returns the exit code 0 and prints a timeline in the order of time
  -- that holds one event for each of these messages, with the time of the connection's first packet,
  -- and besides exactly the events of the tracker's other flows.
  pub decode_conversation :
      (pcap_open_offline : Text → Option (List NextResult)) (pcap_path : Text)
      (frames : List (PacketHeader × Bytes)) (rest : List NextResult) (key : FlowKey)
      (to_server to_client : List Frame)
      (c : IsConversation schema fields more fuel key (packets_of frames) to_server to_client)
      → key.protocol ≡ tcp
      → pcap_open_offline pcap_path ≡ some (successes frames ++ (end_of_file ∷ rest))
      → AreComplete frames
      → AreSound (packets_of frames)
      → total_bytes (packets_of frames) < fuel
      → total_bytes (packets_of frames) < 2 ^ 63
      → (flows : Flows) × (events : List TimelineEvent) × (on_packets [] (packets_of frames)
          ≡ done flows)
        × (decode_capture fuel pcap_open_offline schema pcap_path
            ≡ done
                (record { code = 0; out = flow_summary flows ++ print_events events; error = [] }))
        × IsChronological events
        × HoldsBeside fuel schema key flows
            (expected_events key more c.first.timestamp_us to_server to_client)
            events
  decode_conversation pcap_open_offline pcap_path frames rest key to_server to_client c is_tcp
        opened complete sound enough small =
      let progress : IsProgressing schema = record {
        counts_payload = s.counts_payload;
        some_header = s.some_header;
        header_small = omega (arith, s.header_small);
      } in
      let (flows, events, tracked, built, ran) =
        decode_capture_total fuel pcap_open_offline schema pcap_path frames rest (inl progress)
          opened complete sound enough small in
      (
        flows,
        events,
        tracked,
        ran,
        (build_sorted fuel schema (get_flows flows) built).0,
        tracked_conversation key (packets_of frames) to_server to_client c is_tcp tracked built,
      )
