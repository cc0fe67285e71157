-- ===== src/Cli/Commands/Datagrams.antt =====
-- The whole way of the datagrams of one UDP flow: from the frames of a capture to the timeline that the
-- command `decode` prints.
use gateway_forge.Common.{
  ℕ, ◌≡◌, ◌≢◌, ◌<◌, ◌^◌, sym, ap, subst, ◌∙◌, inr, false, Option, some, List, [], ◌∷◌, ◌++◌,
}
use gateway_forge.Common.Words.{Bytes}
use gateway_forge.Common.Text.{Text, lit, text_eq}
use gateway_forge.Common.Outcome.{done}
use gateway_forge.Pcap.Packet.{Packet, udp, AllPayloads}
use gateway_forge.Pcap.Reader.{PacketHeader, NextResult, end_of_file}
use gateway_forge.Pcap.Reader.Loop.{AreComplete, successes, packets_of}
use gateway_forge.Protocol.Schema.{ProtocolSchema, FieldDef}
use gateway_forge.Protocol.BinaryDecoder.Framing.{Frame}
use gateway_forge.Flow.FlowKey.{FlowKey}
use gateway_forge.Flow.FlowTracker.{Flows, get_flows}
use gateway_forge.Flow.FlowTracker.History.{with_key}
use gateway_forge.Flow.FlowTracker.Datagrams.{tracked_datagrams}
use gateway_forge.Flow.FlowTracker.Sizes.{AreSound, total_bytes}
use gateway_forge.Timeline.Builder.{TimelineEvent}
use gateway_forge.Timeline.Order.{IsChronological, build_sorted}
use gateway_forge.Timeline.Printer.{print_events}
use gateway_forge.Flow.FlowTracker.Totals.{on_packets}
use gateway_forge.Timeline.Found.{HoldsBeside}
use gateway_forge.Timeline.Datagrams.{
  IsDatagramSchema, CarryAll, CarryAll-payloads, all_datagram_events, build_datagrams,
}
use gateway_forge.Cli.Commands.{flow_summary, decode_capture}
use gateway_forge.Cli.Commands.Total.{decode_capture_total}

-- A schema for UDP, and a capture of complete frames that ends, all packets of which have a
-- payload, with a UDP flow among other traffic, each datagram of which is one message of the schema
-- with fewer than 2 ^ 62 bytes: on more fuel than all payloads have bytes, fewer than 2 ^ 63, the
-- command `decode` returns the exit code 0 and prints a timeline in the order of time that holds
-- one event for each of these messages, with the time and the ends of its own packet, and besides
-- exactly the events of the tracker's other flows.
pub decode_datagrams :
    (schema : ProtocolSchema) (fields more : List FieldDef)
    (s : IsDatagramSchema schema fields more) (fuel : ℕ)
    (pcap_open_offline : Text → Option (List NextResult)) (pcap_path : Text)
    (frames : List (PacketHeader × Bytes)) (rest : List NextResult) (key : FlowKey) (first : Packet)
    (later : List Packet) (messages : List Frame)
    → with_key key (packets_of frames) ≡ first ∷ later
    → CarryAll fields more (first ∷ later) messages
    → key.protocol ≡ udp
    → pcap_open_offline pcap_path ≡ some (successes frames ++ (end_of_file ∷ rest))
    → AreComplete frames
    → AreSound (packets_of frames)
    → total_bytes (packets_of frames) < fuel
    → total_bytes (packets_of frames) < 2 ^ 63
    → (flows : Flows) × (events : List TimelineEvent) × (on_packets [] (packets_of frames)
        ≡ done flows)
      × (decode_capture fuel pcap_open_offline schema pcap_path
          ≡ done (record { code = 0; out = flow_summary flows ++ print_events events; error = [] }))
      × IsChronological events
      × HoldsBeside fuel schema key flows (all_datagram_events more (first ∷ later) messages) events
unfolding text_eq
decode_datagrams schema fields more s fuel pcap_open_offline pcap_path frames rest key first later
      messages own carried is_udp opened complete sound enough small =
    let other : text_eq schema.transport (lit "tcp") ≡ false =
      ap (λ (t : Text). text_eq t (lit "tcp")) s.udp in
    let (flows, events, tracked, built, ran) =
      decode_capture_total fuel pcap_open_offline schema pcap_path frames rest (inr other) opened
        complete sound enough small in
    let (f, found, kept) =
      tracked_datagrams key (packets_of frames) is_udp tracked
        (subst AllPayloads (sym own)
          (CarryAll-payloads fields more (first ∷ later) messages carried))
        (λ e. not_empty (sym own ∙ e)) in
    (
      flows,
      events,
      tracked,
      ran,
      (build_sorted fuel schema (get_flows flows) built).0,
      build_datagrams schema fields more s fuel key flows f (first ∷ later) messages found
          (kept ∙ own) carried built,
    )
  where
    not_empty : first ∷ later ≢ []
    not_empty e = cc
