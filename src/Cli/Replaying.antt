-- ===== src/Cli/Replaying.antt =====
-- cli/Commands: the command `replay`, the choice of the command, and main. What `std::stod` makes of
-- the speed is the division by it, an argument like `std::stoi`; an `int` is cast to uint16_t.
pub mod Target
pub mod Main
use gateway_forge.Common.{
  ℕ, ◌-◌, ◌%◌, ◌^◌, Bool, true, false, ◌||◌, Option, none, some, List, [], ◌∷◌, ◌++◌, ◌==◌,
  if◌then◌else◌,
}
use gateway_forge.Common.Words.{ℤ, pos, negsuc, to_u16}
use gateway_forge.Common.Text.{Text, lit, text_eq}
use gateway_forge.Common.Outcome.{Outcome, done, ◌>>=◌}
use gateway_forge.Pcap.Reader.{NextResult}
use gateway_forge.Protocol.SchemaLoader.{YamlCpp}
use gateway_forge.Replay.{Os, ReplayOptions, replay_once}
use gateway_forge.Cli.CommandLine.{CommandLine, get_option_or, parse_command_line}
use gateway_forge.Cli.Commands.{Exit, is_empty, cmd_decode}

-- `find(':')` with the two calls of `substr`.
abbrev pub with_char : ℕ → Option (Text × Text) → Option (Text × Text)
with_char c none = none
with_char c (some (host, port)) = some (c ∷ host, port)

unfoldable pub split_target : Text → Option (Text × Text)
split_target [] = none
split_target (c ∷ s) =
    let rest = split_target s in if c == b':' then some ([], s) else with_char c rest

abbrev pub port_of : ℤ → ℕ
port_of (pos n) = to_u16 n
port_of (negsuc n) = 2 ^ 16 - 1 - n % 2 ^ 16

abbrev pub help_text : Text
help_text =
    lit "GatewayForge - custom TCP/UDP protocol debugging toolkit\n\n"
    ++ (lit "Commands:\n"
        ++ (lit "  decode       Decode TCP/UDP packets from PCAP\n"
            ++ (lit "  replay       Replay TCP/UDP traffic from PCAP\n\n"
                ++ (lit "Options:\n"
                    ++ (lit "  --pcap <path>         Path to PCAP file\n"
                        ++ (lit "  --schema <path>       Path to YAML protocol schema\n"
                            ++ (lit "  --target <host:port>  Target host:port for replay\n"
                                ++ (lit "  --transport <tcp|udp> Transport protocol\n"
                                    ++ (lit
                                          "  --speed <value>       Replay speed multiplier (default: 1.0)\n\n"
                                        ++ (lit "Examples:\n"
                                            ++ (lit
                                                  "  gatewayforge decode --pcap sample.pcap --schema schema.yaml\n"
                                                ++ lit
                                                    "  gatewayforge replay --pcap sample.pcap --target 127.0.0.1:9000 --transport tcp\n")))))))))))

module _ {World Node : Type 0} (os : Os World) (yaml : YamlCpp Node)
    (pcap_open_offline : Text → Option (List NextResult)) (stod : Text → Outcome (ℕ → ℕ))
    (stoi : Text → Outcome ℤ) where
  -- `CmdReplay` with a target that has a colon.
  unfoldable pub replay_target : (ℕ → ℕ) → Text → Text → Text × Text → World → Outcome Exit
  replay_target over_speed pcap_path transport target world = do
    port ← stoi target.1
    let options : ReplayOptions = record {
      pcap_path = pcap_path;
      target_host = target.0;
      target_port = port_of port;
      transport = transport;
    } in
        do
          world' ← replay_once os over_speed pcap_open_offline options world
          done (record { code = 0; out = []; error = [] })

  -- `CmdReplay`.
  unfoldable pub cmd_replay : CommandLine → World → Outcome Exit
  cmd_replay args world = do
    over_speed ← stod (get_option_or args (lit "speed") (lit "1.0"))
    let pcap_path = get_option_or args (lit "pcap") [] in
        let target = get_option_or args (lit "target") [] in
        if is_empty pcap_path || is_empty target
        then done (record {
          code = 1;
          out = [];
          error =
              lit
                "Usage: gatewayforge replay --pcap <path> --target <host:port> [--transport tcp|udp]\n";
        })
        else elim (split_target target) [
          | none ↦
              done (record {
                code = 1;
                out = [];
                error = lit "Invalid target format. Use host:port\n";
              })
          | some parts ↦
              replay_target over_speed pcap_path (get_option_or args (lit "transport") (lit "tcp"))
                parts world
        ]

  -- `Execute`; `fuel` is that of the decoder's loop.
  unfoldable pub execute : ℕ → CommandLine → World → Outcome Exit
  execute fuel args world =
      if text_eq args.command (lit "help")
        || (text_eq args.command (lit "--help") || text_eq args.command (lit "-h"))
      then done (record { code = 0; out = help_text; error = [] })
      else if text_eq args.command (lit "decode")
      then cmd_decode fuel yaml pcap_open_offline args
      else if text_eq args.command (lit "replay")
      then cmd_replay args world
      else done (record {
        code = 1;
        out = help_text;
        error = lit "Unknown command: " ++ (args.command ++ lit "\n");
      })

  -- `main`.
  unfoldable pub main : ℕ → List Text → World → Outcome Exit
  main fuel argv world = elim (parse_command_line argv) [
    | none ↦ done (record { code = 1; out = help_text; error = [] })
    | some cmd ↦ execute fuel cmd world
  ]
