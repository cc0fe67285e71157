-- ===== src/Demo/UdpServer.antt =====
-- examples/demo-server/udp_demo_server.cpp. The buffer stands outside of the loop, so that it keeps
-- what earlier datagrams have left; it is unset at first. Only its first bytes are ever set, and the
-- list holds these.
pub mod Reports
use gateway_forge.Common.{
  ℕ, ◌+◌, ◌≡◌, Bool, true, false, Option, none, some, List, [], ◌∷◌, ◌++◌, arith, ltb, ◌==◌,
  if◌then◌else◌, length, take, drop,
}
use gateway_forge.Common.Words.{Bytes, ℤ, be_value}
use gateway_forge.Common.Text.{Text, lit, to_string}
use gateway_forge.Common.Outcome.{Outcome, done, fails, indeterminate, ◌>>=◌}
use gateway_forge.Demo.Startup.{Opened, Started, port_argument, start_on}

-- `main` up to its loop.
unfoldable pub start_udp : (Text → Outcome ℤ) → Opened → Opened → List Text → Outcome Started
start_udp stoi socket bind args = do
  port ← port_argument stoi 9001 args
  done (
      start_on (lit "GatewayForge UDP Demo Server listening on port ")
        ((lit "Failed to create socket: ", socket) ∷ (lit "Bind failed: ", bind) ∷ []) port)

-- What `recvfrom` gives: an error, or a datagram (of at most 4096 bytes, the rest is cut) and where
-- it comes from.
pub data Arrival : Type 0 where
  failed : Arrival
  datagram : Text → ℕ → Bytes → Arrival

-- The set part of the buffer, and what the server has printed.
pub record UdpServer : Type 0 where
  pub buf : Bytes
  pub out : Text

abbrev pub new_udp_server : UdpServer
new_udp_server = record { buf = []; out = [] }

-- The kernel writes the datagram to the front of the buffer.
abbrev pub written : Bytes → Bytes → Bytes
written bytes buf = bytes ++ drop (length bytes) buf

-- `n` bytes of the buffer from `offset` on, in network order.
unfoldable pub read_word : Bytes → ℕ → ℕ → Outcome ℕ
read_word buf offset n =
    if ltb (length buf) (offset + n)
    then fails indeterminate
    else done (be_value (take n (drop offset buf)))

-- What is printed of a device's message.
abbrev pub device_text : ℕ → ℕ → ℕ → Text
device_text device_id msg_type seq =
    lit "device="
    ++ (to_string device_id
        ++ (lit " msg_type=" ++ (to_string msg_type ++ (lit " seq=" ++ to_string seq))))

unfoldable pub device_report : Bytes → Outcome Text
device_report buf = do
  version ← read_word buf 2 1
  msg_type ← read_word buf 3 1
  device_id ← read_word buf 4 8
  seq ← read_word buf 12 4
  done (device_text device_id msg_type seq)

-- What is printed of a datagram of `n` bytes: the device's message, if it has the magic number.
unfoldable pub datagram_report : Bytes → ℕ → Outcome Text
datagram_report buf n =
    if ltb n 10
    then done []
    else do magic ← read_word buf 0 2; if magic == 51966 then device_report buf else done []

abbrev pub arrival_text : Text → ℕ → ℕ → Text → Text
arrival_text address port n report =
    lit "[UDP] Packet from "
    ++ (address
        ++ (lit ":"
            ++ (to_string port
                ++ (lit " (" ++ (to_string n ++ (lit " bytes) " ++ (report ++ lit "\n")))))))

-- The state after a datagram with this report.
abbrev pub arrived : UdpServer → Text → ℕ → Bytes → Text → UdpServer
arrived st address port bytes report = record {
  buf = written bytes st.buf;
  out = st.out ++ arrival_text address port (length bytes) report;
}

-- The body of the loop.
unfoldable pub on_arrival : UdpServer → Arrival → Outcome UdpServer
on_arrival st failed = done st
on_arrival st (datagram address port bytes) = do
  report ← datagram_report (written bytes st.buf) (length bytes)
  done (arrived st address port bytes report)

unfoldable pub on_arrivals : UdpServer → List Arrival → Outcome UdpServer
on_arrivals st [] = done st
on_arrivals st (a ∷ arrivals) = do next ← on_arrival st a; on_arrivals next arrivals
