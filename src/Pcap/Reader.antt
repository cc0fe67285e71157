-- ===== src/Pcap/Reader.antt =====
-- pcap/PcapReader. libpcap is not in the repository: opening a capture gives the results of the
-- successive calls of `pcap_next_ex`, which the model takes as a list, or nothing.
pub mod Loop
use gateway_forge.Common.{
  ℕ, ◌+◌, ◌*◌, ◌%◌, ◌^◌, Bool, true, false, Option, none, some, List, [], ◌∷◌,
}
use gateway_forge.Common.Words.{Bytes}
use gateway_forge.Common.Text.{Text}
use gateway_forge.Common.Outcome.{Outcome, done, fails, indeterminate, ◌>>=◌}
use gateway_forge.Pcap.Packet.{Packet, set_timestamp}
use gateway_forge.Pcap.Parser.{parse}

-- `pcap_pkthdr`; the captured length is that of the bytes that come with it.
pub record PacketHeader : Type 0 where
  pub tv_sec : ℕ
  pub tv_usec : ℕ
  pub len : ℕ

-- What a call of `pcap_next_ex` gives: 1 with a packet, 0 for a timeout, -1 and -2.
pub data NextResult : Type 0 where
  success : PacketHeader → Bytes → NextResult
  timeout : NextResult
  failure : NextResult
  end_of_file : NextResult

pub record PcapReader : Type 0 where
  pub handle : Option (List NextResult)
  pub packet_count : ℕ

abbrev pub closed_reader : PcapReader
closed_reader = record { handle = none; packet_count = 0 }

-- `Open`, with `pcap_open_offline` as an argument.
unfoldable pub open_reader :
    (Text → Option (List NextResult)) → PcapReader → Text → PcapReader × Bool
open_reader pcap_open_offline r filepath = elim (pcap_open_offline filepath) [
  | none ↦ (record r { handle = none }, false)
  | some results ↦ (record r { handle = some results }, true)
]

abbrev pub close_reader : PcapReader → PcapReader
close_reader r = record r { handle = none }

abbrev pub is_open : PcapReader → Bool
is_open r = elim r.handle [ none ↦ false | some _ ↦ true ]

-- `header->ts.tv_sec * 1'000'000 + header->ts.tv_usec`.
abbrev pub timestamp_of : PacketHeader → ℕ
timestamp_of header = (header.tv_sec * 1000000 + header.tv_usec) % 2 ^ 64

-- The callback is a function on the state `S` of its captures.
module _ {S : Type 0} (callback : S → Packet → Outcome S) where
  -- `if (packet) { packet->SetTimestamp(…); callback(std::move(packet)); }`.
  abbrev pub deliver : S → PacketHeader → Option Packet → Outcome S
  deliver s header none = done s
  deliver s header (some packet) = callback s (set_timestamp packet (timestamp_of header))

  -- The loop. `ret` is the truth value of `pcap_next_ex(…) >= 0`, so a timeout does not reach the
  -- `continue`: the body runs with pointers that this call did not set. The model takes them to be
  -- indeterminate, also where an earlier call has set them.
  unfoldable pub read_loop : List NextResult → ℕ → S → Outcome (ℕ × S)
  read_loop [] count s = done (count, s)
  read_loop (success header bytes ∷ rest) count s = do
    packet ← parse (some bytes) header.len
    s' ← deliver s header packet
    read_loop rest (count + 1) s'
  read_loop (timeout ∷ rest) count s = fails indeterminate
  read_loop (failure ∷ rest) count s = done (count, s)
  read_loop (end_of_file ∷ rest) count s = done (count, s)

  -- `ForEachPacket`. A capture that has been read gives nothing more.
  unfoldable pub for_each_packet : PcapReader → S → Outcome (PcapReader × S)
  unfolding read_loop
  for_each_packet r s = elim r.handle [
    | none ↦ done (r, s)
    | some results ↦ do
      result ← read_loop results 0 s
      done (record { handle = some []; packet_count = result.0 }, result.1)
  ]
