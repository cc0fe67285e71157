-- ===== src/Pcap/Packet.antt =====
-- pcap/Packet: the packet that the parser builds. `payload` is the owning pointer: `none` is null.
use gateway_forge.Common.{
  ℕ, ◌/◌, ◌%◌, ◌≡◌, Bool, true, false, Option, none, some, List, [], ◌∷◌, arith, ltb, ◌==◌,
  if◌then◌else◌,
}
use gateway_forge.Common.Words.{Bytes}
use gateway_forge.Common.Text.{Text}
use gateway_forge.Common.Outcome.{Outcome, done, fails, null_dereference, ◌>>=◌}
use gateway_forge.Buffer.{Buffer, zeroed, of_data, IsValid}
use gateway_forge.Buffer.Bounds.{copy-IsValid}

pub data TransportProtocol : Type 0 where
  tcp udp unknown : TransportProtocol

abbrev pub protocol_eq : TransportProtocol → TransportProtocol → Bool
protocol_eq tcp tcp = true
protocol_eq udp udp = true
protocol_eq unknown unknown = true
protocol_eq _ _ = false

pub record Packet : Type 0 where
  pub timestamp_us : ℕ
  pub src_ip : Text
  pub dst_ip : Text
  pub src_port : ℕ
  pub dst_port : ℕ
  pub protocol : TransportProtocol
  pub payload : Option Buffer
  pub tcp_seq : ℕ
  pub tcp_ack : ℕ
  pub tcp_flags : ℕ

-- `Packet()`.
abbrev pub empty_packet : Packet
empty_packet = record {
  timestamp_us = 0;
  src_ip = [];
  dst_ip = [];
  src_port = 0;
  dst_port = 0;
  protocol = unknown;
  payload = none;
  tcp_seq = 0;
  tcp_ack = 0;
  tcp_flags = 0;
}

abbrev pub set_timestamp : Packet → ℕ → Packet
set_timestamp p ts_us = record p { timestamp_us = ts_us }

abbrev pub set_src_ip : Packet → Text → Packet
set_src_ip p ip = record p { src_ip = ip }

abbrev pub set_dst_ip : Packet → Text → Packet
set_dst_ip p ip = record p { dst_ip = ip }

abbrev pub set_src_port : Packet → ℕ → Packet
set_src_port p port = record p { src_port = port }

abbrev pub set_dst_port : Packet → ℕ → Packet
set_dst_port p port = record p { dst_port = port }

abbrev pub set_protocol : Packet → TransportProtocol → Packet
set_protocol p proto = record p { protocol = proto }

abbrev pub set_tcp_seq : Packet → ℕ → Packet
set_tcp_seq p seq = record p { tcp_seq = seq }

abbrev pub set_tcp_ack : Packet → ℕ → Packet
set_tcp_ack p ack = record p { tcp_ack = ack }

abbrev pub set_tcp_flags : Packet → ℕ → Packet
set_tcp_flags p flags = record p { tcp_flags = flags }

-- `*payload_`.
abbrev pub payload_ref : Packet → Outcome Buffer
payload_ref p = elim p.payload [ none ↦ fails null_dereference | some b ↦ done b ]

abbrev pub payload_size : Packet → Outcome ℕ
payload_size p = elim p.payload [ none ↦ fails null_dereference | some b ↦ done b.size ]

-- `SetPayload(data, len)`.
unfoldable pub set_payload : Packet → Option Bytes → ℕ → Outcome Packet
set_payload p none len = done (record p { payload = some (zeroed 0) })
set_payload p (some bytes) len =
    if ltb 0 len
    then (do b ← of_data (some bytes) len; done (record p { payload = some b }))
    else done (record p { payload = some (zeroed 0) })

-- The payload of a copied packet.
abbrev pub copy_payload : Option Buffer → Outcome (Option Buffer)
copy_payload none = done none
copy_payload (some other) = do b ← of_data other.block other.size; done (some b)

-- The copy constructor and the copy assignment to another object.
unfoldable pub copy_packet : Packet → Outcome Packet
copy_packet other = do
  payload' ← copy_payload other.payload
  done (record other { payload = payload' })

-- `IsSyn()` and its kind: one bit of the flags.
abbrev pub is_syn : Packet → Bool
is_syn p = p.tcp_flags / 2 % 2 == 1

abbrev pub is_fin : Packet → Bool
is_fin p = p.tcp_flags % 2 == 1

abbrev pub is_rst : Packet → Bool
is_rst p = p.tcp_flags / 4 % 2 == 1

abbrev pub is_ack : Packet → Bool
is_ack p = p.tcp_flags / 16 % 2 == 1

-- The packet has a payload, and that is a valid buffer.
pub record HasPayload (p : Packet) : Type 0 where
  pub buffer : Buffer
  pub present : p.payload ≡ some buffer
  pub valid : IsValid buffer

abbrev pub AllPayloads : List Packet → Type 0
AllPayloads [] = Unit {0}
AllPayloads (p ∷ ps) = HasPayload p × AllPayloads ps

pub payload_ref_lem : (p : Packet) (h : HasPayload p) → payload_ref p ≡ done h.buffer
payload_ref_lem p h = ground (arith, h.present)

-- A copy of a packet that has a payload equals the packet.
pub copy_packet_lem : (p : Packet) → HasPayload p → copy_packet p ≡ done p
unfolding copy_packet
copy_packet_lem p h = ground (arith, h.present, copy-IsValid h.buffer h.valid)
