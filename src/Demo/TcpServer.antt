-- ===== src/Demo/TcpServer.antt =====
-- examples/demo-server/tcp_demo_server.cpp. The server is a machine that makes a call of the system
-- and goes on with its answer.
pub mod Connections
pub mod Ack
use gateway_forge.Common.{
  ℕ, ◌+◌, ◌%◌, ◌^◌, ◌≡◌, Bool, true, false, Option, none, some, List, [], ◌∷◌, ◌++◌, arith, ltb,
  if◌then◌else◌, length, take, drop,
}
use gateway_forge.Common.Words.{Bytes, ℤ, be_value}
use gateway_forge.Common.Text.{Text, lit, to_string}
use gateway_forge.Common.Outcome.{Outcome, done, ◌>>=◌}
use gateway_forge.Demo.Startup.{Opened, Started, port_argument, start_on}

-- `main` up to its loop.
unfoldable pub start_tcp :
    (Text → Outcome ℤ) → Opened → Opened → Opened → List Text → Outcome Started
start_tcp stoi socket bind listen args = do
  port ← port_argument stoi 9000 args
  done (
      start_on (lit "GatewayForge TCP Demo Server listening on port ")
        ((lit "Failed to create socket: ", socket)
          ∷ (lit "Bind failed: ", bind)
          ∷ (lit "Listen failed: ", listen)
          ∷ [])
        port)

-- The answers of `accept` (a failure, or a peer with its address and port) and of `recv` (some
-- bytes, or none or an error).
pub data Answer : Type 0 where
  refused : Answer
  accepted : Text → ℕ → Answer
  received : Bytes → Answer
  ended : Answer

-- The call that the server waits in: `accept`, or `recv` on a client's socket.
pub data Phase : Type 0 where
  accepting : Phase
  serving : Phase

-- Where the server is, what it has printed, the acknowledgements it has sent, and how many clients'
-- sockets it has closed.
pub record TcpServer : Type 0 where
  pub phase : Phase
  pub out : Text
  pub acks : List Bytes
  pub closed : ℕ

abbrev pub new_tcp_server : TcpServer
new_tcp_server = record { phase = accepting; out = []; acks = []; closed = 0 }

-- `n` bytes of the buffer from `offset` on, in network order.
abbrev pub word_at : Bytes → ℕ → ℕ → ℕ
word_at buf offset n = be_value (take n (drop offset buf))

abbrev pub seq_of : Bytes → ℕ
seq_of buf = word_at buf 4 4

unfoldable pub report_of : Bytes → Text
report_of buf =
    lit "  msg_type="
    ++ (to_string (word_at buf 3 1)
        ++ (lit " seq="
            ++ (to_string (seq_of buf)
                ++ (lit " payload_len="
                    ++ (to_string (word_at buf 8 2)
                        ++ (lit " total=" ++ (to_string (length buf) ++ lit " bytes\n")))))))

-- `ack`: the sequence number's last byte is the only one that is set.
unfoldable pub ack_of : Bytes → Bytes
ack_of buf = 202 ∷ 254 ∷ word_at buf 2 1 ∷ 2 ∷ 0 ∷ 0 ∷ 0 ∷ (seq_of buf + 1) % 2 ^ 8 ∷ 0 ∷ 0 ∷ []

-- The body of the inner loop, on the bytes received.
unfoldable pub on_received : TcpServer → Bytes → TcpServer
on_received st buf =
    if ltb (length buf) 10
    then st
    else record st { out = st.out ++ report_of buf; acks = st.acks ++ (ack_of buf ∷ []) }

-- The end of the inner loop.
abbrev pub disconnected : TcpServer → TcpServer
disconnected st = record st {
  phase = accepting;
  out = st.out ++ lit "[TCP] Client disconnected\n";
  closed = st.closed + 1;
}

-- One step of the two loops, from where the server is; nothing for an answer to another call.
unfoldable pub on_answer_in : Phase → Answer → TcpServer → Option TcpServer
on_answer_in accepting refused st = some st
on_answer_in accepting (accepted address port) st = some (record st {
  phase = serving;
  out =
      st.out
      ++ (lit "[TCP] Client connected from "
          ++ (address ++ (lit ":" ++ (to_string port ++ lit "\n"))));
})
on_answer_in serving (received buf) st = some (on_received st buf)
on_answer_in serving ended st = some (disconnected st)
on_answer_in _ _ st = none

abbrev pub on_answer : TcpServer → Answer → Option TcpServer
on_answer st answer = on_answer_in st.phase answer st

-- The runs of the server: it starts in `accept`, and takes one step on each answer.
pub data Serves : List Answer → TcpServer → Type 0 where
  at_start : Serves [] new_tcp_server
  step :
      (answers : List Answer) (answer : Answer) {st next : TcpServer}
      → Serves answers st
      → on_answer st answer ≡ some next
      → Serves (answers ++ (answer ∷ [])) next
