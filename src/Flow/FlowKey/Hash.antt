-- ===== src/Flow/FlowKey/Hash.antt =====
-- The hash of a key. The library's hashes of strings and of integers are arguments.
use Prim.Native.Nat.{bit_xor}
use gateway_forge.Common.{ℕ, ◌+◌, ◌*◌, ◌/◌, ◌%◌, ◌^◌}
use gateway_forge.Common.Text.{Text}
use gateway_forge.Pcap.Packet.{TransportProtocol, tcp, udp, unknown}
use gateway_forge.Flow.FlowKey.{FlowKey}

-- `static_cast<int>(protocol)`.
abbrev pub protocol_number : TransportProtocol → ℕ
protocol_number tcp = 0
protocol_number udp = 1
protocol_number unknown = 2

-- `h ^= part + 0x9e3779b9 + (h << 6) + (h >> 2)` on a size_t.
abbrev pub mixed : ℕ → ℕ → ℕ
mixed h part = bit_xor h ((part + 0x9e3779b9 + h * 64 % 2 ^ 64 + h / 4) % 2 ^ 64)

module _ (hash_string : Text → ℕ) (hash_u16 hash_int : ℕ → ℕ) where
  -- `hash<FlowKey>::operator()`.
  unfoldable pub key_hash : FlowKey → ℕ
  key_hash k =
      mixed
        (mixed (mixed (mixed (hash_string k.src_ip) (hash_u16 k.src_port)) (hash_string k.dst_ip))
          (hash_u16 k.dst_port))
        (hash_int (protocol_number k.protocol))
