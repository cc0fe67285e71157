-- ===== src/Cli/Commands.antt =====
-- cli/Commands: the command `decode`. The file system is what the YAML library and libpcap give for
-- a path, as arguments; a run gives its exit code and what it writes to the two streams.
pub mod Decode
pub mod Total
pub mod Conversation
pub mod Lossy
pub mod Datagrams
use gateway_forge.Common.{
  ℕ, Bool, true, false, ◌||◌, not, Option, List, [], ◌∷◌, ◌++◌, if◌then◌else◌,
}
use gateway_forge.Common.Text.{Text, lit, to_string}
use gateway_forge.Common.Outcome.{Outcome, done, ◌>>=◌}
use gateway_forge.Common.Result.{Result, ok, err}
use gateway_forge.Pcap.Packet.{Packet, unknown, protocol_eq}
use gateway_forge.Pcap.Reader.{NextResult, PcapReader, closed_reader, open_reader, for_each_packet}
use gateway_forge.Protocol.Schema.{ProtocolSchema}
use gateway_forge.Protocol.SchemaLoader.{YamlCpp, load_from_yaml}
use gateway_forge.Flow.FlowTracker.{
  Flows, on_packet, get_flows, flow_count, tcp_flow_count, udp_flow_count,
}
use gateway_forge.Timeline.Builder.{build}
use gateway_forge.Timeline.Printer.{print_events}
use gateway_forge.Cli.CommandLine.{CommandLine, get_option_or}

pub record Exit : Type 0 where
  pub code : ℕ
  pub out : Text
  pub error : Text

-- `std::string::empty`.
abbrev pub is_empty : Text → Bool
is_empty [] = true
is_empty (c ∷ s) = false

-- The callback that is given to the reader; the reader never hands over a null pointer.
unfoldable pub track : Flows → Packet → Outcome Flows
track tracker packet =
    if not (protocol_eq packet.protocol unknown) then on_packet tracker packet else done tracker

abbrev pub flow_summary : Flows → Text
flow_summary tracker =
    lit "\n=== Flow Summary ===\n"
    ++ (lit "Total flows: "
        ++ (to_string (flow_count tracker)
            ++ (lit "\nTCP flows: "
                ++ (to_string (tcp_flow_count tracker)
                    ++ (lit "\nUDP flows: "
                        ++ (to_string (udp_flow_count tracker) ++ lit "\n\n"))))))

-- `CmdDecode` from the result of `Open` on; `fuel` is that of the decoder's loop.
unfoldable pub decode_opened : ℕ → ProtocolSchema → Text → PcapReader → Bool → Outcome Exit
decode_opened fuel schema pcap_path reader false =
    done (record {
      code = 1;
      out = [];
      error = lit "Failed to open PCAP: " ++ (pcap_path ++ lit "\n");
    })
decode_opened fuel schema pcap_path reader true = do
  result ← for_each_packet track reader []
  events ← build fuel schema (get_flows result.1)
  done (record { code = 0; out = flow_summary result.1 ++ print_events events; error = [] })

-- `CmdDecode` from the loaded schema on.
unfoldable pub decode_capture :
    ℕ → (Text → Option (List NextResult)) → ProtocolSchema → Text → Outcome Exit
decode_capture fuel pcap_open_offline schema pcap_path =
    let result = open_reader pcap_open_offline closed_reader pcap_path in
    decode_opened fuel schema pcap_path result.0 result.1

-- `CmdDecode`.
unfoldable pub cmd_decode :
    {Node : Type 0}
    → ℕ
    → YamlCpp Node
    → (Text → Option (List NextResult))
    → CommandLine
    → Outcome Exit
cmd_decode fuel yaml pcap_open_offline args =
    let pcap_path = get_option_or args (lit "pcap") [] in
    let schema_path = get_option_or args (lit "schema") [] in
    if is_empty pcap_path || is_empty schema_path
    then done (record {
      code = 1;
      out = [];
      error = lit "Usage: gatewayforge decode --pcap <path> --schema <path>\n";
    })
    else elim (load_from_yaml yaml schema_path) [
      | err what ↦ done (record {
        code = 1;
        out = [];
        error = lit "Failed to load schema: " ++ (what ++ lit "\n");
      })
      | ok schema ↦ decode_capture fuel pcap_open_offline schema pcap_path
    ]
