-- ===== src/Demo/Startup.antt =====
-- What the two servers' `main` have in common before their loops (tcp_demo_server.cpp and
-- udp_demo_server.cpp in examples/demo-server). `std::stoi` and the system's answers are arguments.
use gateway_forge.Common.{ℕ, List, [], ◌∷◌, ◌++◌}
use gateway_forge.Common.Words.{ℤ, pos}
use gateway_forge.Protocol.FieldValue.{signed_to_string}
use gateway_forge.Common.Text.{Text, lit}
use gateway_forge.Common.Outcome.{Outcome, done}

-- A step of the start: it works, or the error's text.
pub data Opened : Type 0 where
  opened : Opened
  failed : Text → Opened

-- Where `main` is after the start: at its end with the exit code 1 and a text on the standard error,
-- or in the loop after a text on the standard output.
pub data Started : Type 0 where
  exits : Text → Started
  listens : Text → Started

module _ (stoi : Text → Outcome ℤ) (default_port : ℕ) where
  -- `port`, from the arguments behind the program's name.
  unfoldable pub port_argument : List Text → Outcome ℤ
  port_argument [] = done (pos default_port)
  port_argument (arg ∷ more) = stoi arg

-- The checks of the calls, in their order: the prefix of the message and the answer. The system gets
-- the port's low 16 bits, on every address of the host.
unfoldable pub start_on : Text → List (Text × Opened) → ℤ → Started
start_on greeting [] port = listens (greeting ++ (signed_to_string port ++ lit "...\n"))
start_on greeting ((what, opened) ∷ calls) port = start_on greeting calls port
start_on greeting ((what, failed error) ∷ calls) port = exits (what ++ (error ++ lit "\n"))
