-- ===== src/Cli/Commands/Lossy.antt =====
-- The command `decode` on a TCP connection whose segments a network has lost, repeated and put out of
-- order.
use gateway_forge.Common.{
  Bool, ℕ, ◌≡◌, ◌<◌, ◌^◌, inl, arith, sym, ap, ◌∙◌, true, false, Option, some, List, [], ◌∷◌, ◌++◌,
  length, length-append,
}
use gateway_forge.Common.Words.{Bytes}
use gateway_forge.Common.Text.{Text}
use gateway_forge.Common.Outcome.{done}
use gateway_forge.Pcap.Packet.{Packet, tcp}
use gateway_forge.Pcap.Reader.{PacketHeader, NextResult, end_of_file}
use gateway_forge.Pcap.Reader.Loop.{AreComplete, successes, packets_of}
use gateway_forge.Protocol.Schema.{ProtocolSchema, FieldDef}
use gateway_forge.Protocol.BinaryDecoder.Framing.{Frame, stream_of, AreFrames, IsStreamSchema}
use gateway_forge.Protocol.BinaryDecoder.Cut.{cut_stream}
use gateway_forge.Flow.FlowKey.{FlowKey}
use gateway_forge.Flow.TcpFlow.{new_tcp_flow}
use gateway_forge.Flow.TcpFlow.Directions.{run_tcp}
use gateway_forge.Flow.TcpFlow.Lossy.{IsLossySide, lossy_side}
use gateway_forge.Flow.FlowTracker.{Flows, get_flows}
use gateway_forge.Flow.FlowTracker.Totals.{on_packets}
use gateway_forge.Flow.FlowTracker.History.{with_key}
use gateway_forge.Flow.FlowTracker.Conversation.{tracked_flow}
use gateway_forge.Flow.FlowTracker.Sizes.{AreSound, total_bytes}
use gateway_forge.Timeline.Total.{IsProgressing}
use gateway_forge.Timeline.Builder.{TimelineEvent, build}
use gateway_forge.Timeline.Order.{IsChronological, build_sorted}
use gateway_forge.Timeline.Printer.{print_events}
use gateway_forge.Timeline.Found.{HoldsBeside}
use gateway_forge.Timeline.Conversation.{IsEncoded}
use gateway_forge.Cli.Commands.{flow_summary, decode_capture}
use gateway_forge.Cli.Commands.Total.{decode_capture_total}
use gateway_forge.Cli.Commands.Conversation.{expected_events, flow_conversation}

-- The messages that one side sends, and what the capture has of them.
pub record IsLossy (schema : ProtocolSchema) (fields more : List FieldDef) (fuel : ℕ)
    (key : FlowKey) (side : Bool) (ps : List Packet) (frames : List Frame) : Type 0 where
  pub is_side : IsLossySide key side ps (stream_of frames)
  pub described : AreFrames schema fields more frames
  pub small : length (stream_of frames) < 2 ^ 32
  pub enough_fuel : length frames < fuel

-- The connection in the capture: its packets, and what they are of the messages of both sides.
pub record IsLossyConversation (schema : ProtocolSchema) (fields more : List FieldDef) (fuel : ℕ)
    (key : FlowKey) (packets : List Packet) (to_server to_client : List Frame) : Type 0 where
  pub first : Packet
  pub later : List Packet
  pub packets_are : with_key key packets ≡ first ∷ later
  pub client_side : IsLossy schema fields more fuel key true (first ∷ later) to_server
  pub server_side : IsLossy schema fields more fuel key false (first ∷ later) to_client

-- The timeline has, for this connection, the events of the first messages of either side, in the
-- order in which they were sent, and none of the others.
pub record HoldsPrefixes (fuel : ℕ) (schema : ProtocolSchema) (more : List FieldDef) (key : FlowKey)
    (flows : Flows) (time : ℕ) (to_server to_client : List Frame) (events : List TimelineEvent)
    : Type 0 where
  pub client_seen : List Frame
  pub client_unseen : List Frame
  pub server_seen : List Frame
  pub server_unseen : List Frame
  pub client_sent : to_server ≡ client_seen ++ client_unseen
  pub server_sent : to_client ≡ server_seen ++ server_unseen
  pub shown :
      HoldsBeside fuel schema key flows
        (expected_events key more time client_seen server_seen)
        events

module _ (schema : ProtocolSchema) (fields more : List FieldDef)
    (s : IsStreamSchema schema fields more) (fuel : ℕ) where
  -- What is reassembled of one side.
  seen_frames :
      (key : FlowKey) (side : Bool) (ps : List Packet) (frames : List Frame) (bytes missing : Bytes)
      → IsLossy schema fields more fuel key side ps frames
      → stream_of frames ≡ bytes ++ missing
      → (seen : List Frame) × (unseen : List Frame) × (frames ≡ seen ++ unseen)
        × IsEncoded schema fields more fuel bytes seen
  seen_frames key side ps frames bytes missing c e =
      let cut =
        cut_stream schema fields more frames bytes missing s.some_header c.described
          (omega (arith, c.small)) e in
      (
        cut.whole,
        cut.later,
        cut.frames_are,
        record {
          tail = cut.tail;
          is_stream = cut.bytes_are;
          described = cut.described;
          cut = cut.cut;
          small = omega (arith, c.small, ap length e, length-append bytes missing);
          enough_fuel =
              omega
                (arith, c.enough_fuel, ap length cut.frames_are, length-append cut.whole cut.later);
        },
      )

  tracked_prefixes :
      (key : FlowKey) (packets : List Packet) (to_server to_client : List Frame)
      (c : IsLossyConversation schema fields more fuel key packets to_server to_client)
      {flows : Flows} {events : List TimelineEvent}
      → key.protocol ≡ tcp
      → on_packets [] packets ≡ done flows
      → build fuel schema (get_flows flows) ≡ done events
      → HoldsPrefixes fuel schema more key flows c.first.timestamp_us to_server to_client events
  tracked_prefixes key packets to_server to_client c {flows} {events} is_tcp tracked built =
      let (f, found, run) = tracked_flow key packets is_tcp tracked (λ e. cc) in
      let run' : run_tcp (new_tcp_flow key) (c.first ∷ c.later) ≡ done f =
        ap (run_tcp (new_tcp_flow key)) (sym c.packets_are) ∙ run in
      let (client_missing, client) =
        lossy_side key true (c.first ∷ c.later) (stream_of to_server) c.client_side.small run'
          c.client_side.is_side in
      let (server_missing, server) =
        lossy_side key false (c.first ∷ c.later) (stream_of to_client) c.server_side.small run'
          c.server_side.is_side in
      let (client_seen, client_unseen, client_sent, client_encoded) =
        seen_frames key true (c.first ∷ c.later) to_server f.client_to_server.stream client_missing
          c.client_side client in
      let (server_seen, server_unseen, server_sent, server_encoded) =
        seen_frames key false (c.first ∷ c.later) to_client f.server_to_client.stream server_missing
          c.server_side server in
      record {
        client_seen = client_seen;
        client_unseen = client_unseen;
        server_seen = server_seen;
        server_unseen = server_unseen;
        client_sent = client_sent;
        server_sent = server_sent;
        shown =
            flow_conversation schema fields more s fuel key flows f c.first c.later client_seen
              server_seen found run' client_encoded server_encoded built;
      }

  -- A capture of complete frames that ends, all packets of which have a payload, with a TCP
  -- connection among other traffic, each side of which sends messages of the schema (fewer than
  -- 2 ^ 32 bytes), under a framing whose length does not count the header. If every segment of it
  -- carries a part of the bytes that its side sent, under that part's sequence number, and the first
  -- one of a side carries their start, then, whatever else was lost, repeated, cut differently or put
  -- out of order, on more fuel than all payloads have bytes (fewer than 2 ^ 63) and than a side sent
  -- messages, the command `decode` returns the exit code 0 and prints a timeline
  -- in the order of time that holds, for this connection, one event for each of the first so many
  -- messages of either side, as they were sent, and no other event, besides exactly the events of
  -- the tracker's other flows.
  pub decode_lossy :
      (pcap_open_offline : Text → Option (List NextResult)) (pcap_path : Text)
      (frames : List (PacketHeader × Bytes)) (rest : List NextResult) (key : FlowKey)
      (to_server to_client : List Frame)
      (c : IsLossyConversation schema fields more fuel key (packets_of frames) to_server to_client)
      → key.protocol ≡ tcp
      → pcap_open_offline pcap_path ≡ some (successes frames ++ (end_of_file ∷ rest))
      → AreComplete frames
      → AreSound (packets_of frames)
      → total_bytes (packets_of frames) < fuel
      → total_bytes (packets_of frames) < 2 ^ 63
      → (flows : Flows) × (events : List TimelineEvent) × (on_packets [] (packets_of frames)
          ≡ done flows)
        × (decode_capture fuel pcap_open_offline schema pcap_path
            ≡ done
                (record { code = 0; out = flow_summary flows ++ print_events events; error = [] }))
        × IsChronological events
        × HoldsPrefixes fuel schema more key flows c.first.timestamp_us to_server to_client events
  decode_lossy pcap_open_offline pcap_path frames rest key to_server to_client c is_tcp opened
        complete sound enough small =
      let progress : IsProgressing schema = record {
        counts_payload = s.counts_payload;
        some_header = s.some_header;
        header_small = omega (arith, s.header_small);
      } in
      let (flows, events, tracked, built, ran) =
        decode_capture_total fuel pcap_open_offline schema pcap_path frames rest (inl progress)
          opened complete sound enough small in
      (
        flows,
        events,
        tracked,
        ran,
        (build_sorted fuel schema (get_flows flows) built).0,
        tracked_prefixes key (packets_of frames) to_server to_client c is_tcp tracked built,
      )
