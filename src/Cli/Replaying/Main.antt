-- ===== src/Cli/Replaying/Main.antt =====
-- The whole program, from its arguments to its exit code, for the command `decode`.
use gateway_forge.Common.{
  ℕ, ◌≡◌, ◌<◌, ◌^◌, refl, ap, ◌∙◌, false, Option, none, some, List, [], ◌∷◌, ◌++◌,
}
use gateway_forge.Common.Words.{Bytes, ℤ}
use gateway_forge.Common.Text.{Text, lit, text_eq}
use gateway_forge.Common.Outcome.{Outcome, done}
use gateway_forge.Common.Result.{Result, ok, err}
use gateway_forge.Pcap.Reader.{PacketHeader, NextResult, end_of_file}
use gateway_forge.Pcap.Reader.Loop.{AreComplete, successes, packets_of}
use gateway_forge.Protocol.Schema.{ProtocolSchema}
use gateway_forge.Protocol.SchemaLoader.{YamlCpp, load_from_yaml}
use gateway_forge.Flow.FlowTracker.{Flows, get_flows}
use gateway_forge.Flow.FlowTracker.Totals.{on_packets}
use gateway_forge.Flow.FlowTracker.Sizes.{AreSound, total_bytes}
use gateway_forge.Timeline.Builder.{TimelineEvent, build}
use gateway_forge.Timeline.Order.{IsChronological, build_sorted}
use gateway_forge.Timeline.Printer.{print_events}
use gateway_forge.Timeline.Total.{IsDecodable}
use gateway_forge.Replay.{Os}
use gateway_forge.Cli.CommandLine.{CommandLine, get_option, get_option_or}
use gateway_forge.Cli.CommandLine.RoundTrip.{args_of, ArePlain, last_given, parse-args_of}
use gateway_forge.Cli.Commands.{Exit, is_empty, flow_summary, decode_capture, cmd_decode}
use gateway_forge.Cli.Commands.Total.{decode_capture_total}
use gateway_forge.Cli.Replaying.{execute, main}

get_option_or_lem :
    (cmd : CommandLine) (key default_value value : Text)
    → get_option cmd key ≡ some value
    → get_option_or cmd key default_value ≡ value
get_option_or_lem cmd key default_value value e = rw (get_option_or, e) refl

-- A command line that names a capture and a schema.
pub record NamesFiles (given : List (Text × Text)) (pcap_path schema_path : Text) : Type 0 where
  pub plain : ArePlain given
  pub pcap_given : last_given (lit "pcap") given none ≡ some pcap_path
  pub schema_given : last_given (lit "schema") given none ≡ some schema_path
  pub pcap_named : is_empty pcap_path ≡ false
  pub schema_named : is_empty schema_path ≡ false

module _ {World Node : Type 0} (os : Os World) (yaml : YamlCpp Node)
    (pcap_open_offline : Text → Option (List NextResult)) (stod : Text → Outcome (ℕ → ℕ))
    (stoi : Text → Outcome ℤ) (fuel : ℕ) where
  -- What the command does with the schema that is loaded, or with its absence.
  abbrev pub decode_loaded : Text → Result ProtocolSchema → Outcome Exit
  decode_loaded pcap_path (err what) =
      done
        (record { code = 1; out = []; error = lit "Failed to load schema: " ++ (what ++ lit "\n") })
  decode_loaded pcap_path (ok schema) = decode_capture fuel pcap_open_offline schema pcap_path

  cmd_decode_lem :
      (cmd : CommandLine) (pcap_path schema_path : Text)
      → get_option_or cmd (lit "pcap") [] ≡ pcap_path
      → get_option_or cmd (lit "schema") [] ≡ schema_path
      → is_empty pcap_path ≡ false
      → is_empty schema_path ≡ false
      → cmd_decode fuel yaml pcap_open_offline cmd
        ≡ decode_loaded pcap_path (load_from_yaml yaml schema_path)
  unfolding cmd_decode
  cmd_decode_lem cmd pcap_path schema_path p s np ns =
      rw (ap is_empty p ∙ np, ap is_empty s ∙ ns)
        (by_result (get_option_or cmd (lit "pcap") [])
          (load_from_yaml yaml (get_option_or cmd (lit "schema") [])))
      ∙ (λ i. decode_loaded (p i) (load_from_yaml yaml (s i)))
    where
      by_result :
          (path : Text) (r : Result ProtocolSchema)
          → elim r [
            | err what ↦ done (record {
              code = 1;
              out = [];
              error = lit "Failed to load schema: " ++ (what ++ lit "\n");
            })
            | ok schema ↦ decode_capture fuel pcap_open_offline schema path
          ]
            ≡ decode_loaded path r
      by_result path (err what) = refl
      by_result path (ok schema) = refl

  is_decode :
      (cmd : CommandLine) (world : World)
      → cmd.command ≡ lit "decode"
      → execute os yaml pcap_open_offline stod stoi fuel cmd world
        ≡ cmd_decode fuel yaml pcap_open_offline cmd
  unfolding execute text_eq
  is_decode cmd world e = rw e refl

  -- `main` on a program name, the command `decode` and options that name a capture and a schema.
  pub main_decode :
      (program : Text) (given : List (Text × Text)) (pcap_path schema_path : Text) (world : World)
      → NamesFiles given pcap_path schema_path
      → main os yaml pcap_open_offline stod stoi fuel (program ∷ lit "decode" ∷ args_of given) world
        ≡ decode_loaded pcap_path (load_from_yaml yaml schema_path)
  unfolding main
  main_decode program given pcap_path schema_path world n =
      let (cmd, parsed, command, options) = parse-args_of program (lit "decode") given n.plain in
      rw (main, parsed)
        (is_decode cmd world command
          ∙ cmd_decode_lem cmd pcap_path schema_path
              (get_option_or_lem cmd (lit "pcap") [] pcap_path
                (options (lit "pcap") ∙ n.pcap_given))
              (get_option_or_lem cmd (lit "schema") [] schema_path
                (options (lit "schema") ∙ n.schema_given))
              n.pcap_named n.schema_named)

  -- The whole program on the command `decode`, with options, no value of which begins with two
  -- dashes, in any order and the last of each kind counting, that name a capture and a schema by
  -- paths that are not empty: where the schema loads, under a framing whose length does not count
  -- the header, with a header of at least one byte and less than 2 ^ 63, or for another transport
  -- than TCP, and the capture has complete frames, all packets of which have a payload, and ends, it
  -- exits with 0, writes no error, and prints the summary of the flows that all packets make and the
  -- timeline of these flows, in the order of time, on more fuel than all payloads have bytes, which
  -- are fewer than 2 ^ 63.
  pub main_decodes :
      (program : Text) (given : List (Text × Text)) (pcap_path schema_path : Text) (world : World)
      (schema : ProtocolSchema) (frames : List (PacketHeader × Bytes)) (rest : List NextResult)
      → NamesFiles given pcap_path schema_path
      → load_from_yaml yaml schema_path ≡ ok schema
      → IsDecodable schema
      → pcap_open_offline pcap_path ≡ some (successes frames ++ (end_of_file ∷ rest))
      → AreComplete frames
      → AreSound (packets_of frames)
      → total_bytes (packets_of frames) < fuel
      → total_bytes (packets_of frames) < 2 ^ 63
      → (flows : Flows) × (events : List TimelineEvent) × (on_packets [] (packets_of frames)
          ≡ done flows)
        × (build fuel schema (get_flows flows) ≡ done events)
        × IsChronological events
        × (main os yaml pcap_open_offline stod stoi fuel
              (program ∷ lit "decode" ∷ args_of given)
              world
            ≡ done
                (record { code = 0; out = flow_summary flows ++ print_events events; error = [] }))
  main_decodes program given pcap_path schema_path world schema frames rest n loaded decodable
        opened complete sound enough small =
      let (flows, events, tracked, built, ran) =
        decode_capture_total fuel pcap_open_offline schema pcap_path frames rest decodable opened
          complete sound enough small in
      (
        flows,
        events,
        tracked,
        built,
        (build_sorted fuel schema (get_flows flows) built).0,
        main_decode program given pcap_path schema_path world n
            ∙ ap (decode_loaded pcap_path) loaded
            ∙ ran,
      )
