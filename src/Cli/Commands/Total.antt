-- ===== src/Cli/Commands/Total.antt =====
-- That the command `decode` returns.
use gateway_forge.Common.{ℕ, ◌+◌, ◌^◌, ◌<◌, ◌≡◌, ap, ◌∙◌, Option, some, List, [], ◌∷◌, ◌++◌, arith}
use gateway_forge.Common.Words.{Bytes}
use gateway_forge.Common.Text.{Text}
use gateway_forge.Common.Outcome.{Outcome, done, ◌>>=◌}
use gateway_forge.Pcap.Reader.{PacketHeader, NextResult, end_of_file}
use gateway_forge.Pcap.Reader.Loop.{AreComplete, successes, packets_of}
use gateway_forge.Protocol.Schema.{ProtocolSchema}
use gateway_forge.Flow.FlowTracker.{Flows, get_flows}
use gateway_forge.Flow.FlowTracker.Totals.{on_packets}
use gateway_forge.Flow.FlowTracker.Sizes.{AreSound, total_bytes, on_packets-AllWithin}
use gateway_forge.Timeline.Builder.{TimelineEvent, build}
use gateway_forge.Timeline.Printer.{print_events}
use gateway_forge.Timeline.Total.{IsDecodable, build_total}
use gateway_forge.Cli.Commands.{flow_summary, decode_capture}
use gateway_forge.Cli.Commands.Decode.{report, decode_capture_complete}

-- The command `decode` on a capture of complete frames that ends, all packets of which have a
-- payload: under a framing whose length does not count the header, and a header of at least one
-- byte and less than 2 ^ 63, or under a schema for another transport than TCP, it takes all
-- packets, builds the timeline and returns the exit code 0 with the summary of the flows and the
-- timeline, on more fuel than all payloads have bytes, which are fewer than 2 ^ 63.
pub decode_capture_total :
    (fuel : ℕ) (pcap_open_offline : Text → Option (List NextResult)) (schema : ProtocolSchema)
    (pcap_path : Text) (frames : List (PacketHeader × Bytes)) (rest : List NextResult)
    → IsDecodable schema
    → pcap_open_offline pcap_path ≡ some (successes frames ++ (end_of_file ∷ rest))
    → AreComplete frames
    → AreSound (packets_of frames)
    → total_bytes (packets_of frames) < fuel
    → total_bytes (packets_of frames) < 2 ^ 63
    → (flows : Flows) × (events : List TimelineEvent) × (on_packets [] (packets_of frames)
        ≡ done flows)
      × (build fuel schema (get_flows flows) ≡ done events)
      × (decode_capture fuel pcap_open_offline schema pcap_path
          ≡ done (record { code = 0; out = flow_summary flows ++ print_events events; error = [] }))
decode_capture_total fuel pcap_open_offline schema pcap_path frames rest s opened complete sound
      enough small =
    let (flows, tracked, within) = on_packets-AllWithin 0 [] (packets_of frames) sound tt in
    let (events, built) =
      build_total fuel schema s (0 + total_bytes (packets_of frames)) (omega arith) (omega arith)
        flows within in
    (
      flows,
      events,
      tracked,
      built,
      decode_capture_complete fuel pcap_open_offline schema pcap_path frames rest opened complete
          ∙ ap (λ (m : Outcome Flows). m >>= report fuel schema) tracked
          ∙ ap
              (λ (m : Outcome (List TimelineEvent)). m >>= λ es.
                done (record { code = 0; out = flow_summary flows ++ print_events es; error = [] }))
              built,
    )
