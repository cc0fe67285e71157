-- ===== src/Cli/Replaying/Target.antt =====
-- The target of a replay, and the exit code of the command.
use gateway_forge.Common.{◌≡◌, ◌≢◌, refl, some, [], ◌∷◌, ◌++◌, arith}
use gateway_forge.Common.Text.{Text, lit}
use gateway_forge.Common.Outcome.{Outcome}
use gateway_forge.Cli.CommandLine.{CommandLine}
use gateway_forge.Cli.Commands.{Exit}
use gateway_forge.Cli.Replaying.{split_target}

-- No character is a colon.
abbrev pub NoColon : Text → Type 0
NoColon [] = Unit {0}
NoColon (c ∷ s) = (c ≢ b':') × NoColon s

-- A target written as a host without a colon, a colon and a port is taken apart into these two.
pub split_target-joined :
    (host port : Text) → NoColon host → split_target (host ++ (lit ":" ++ port)) ≡ some (host, port)
unfolding split_target
split_target-joined [] port n = refl
split_target-joined (c ∷ host) port (ne, n) = rw (split_target-joined host port n) (ground arith)

abbrev usage_exit : Exit
usage_exit = record {
  code = 1;
  out = [];
  error =
      lit "Usage: gatewayforge replay --pcap <path> --target <host:port> [--transport tcp|udp]\n";
}

abbrev target_exit : Exit
target_exit = record { code = 1; out = []; error = lit "Invalid target format. Use host:port\n" }
