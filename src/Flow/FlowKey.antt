-- ===== src/Flow/FlowKey.antt =====
-- flow/FlowKey.
pub mod Normal
pub mod Hash
pub mod Undirected
use gateway_forge.Common.{
  ℕ, ◌+◌, ◌≡◌, refl, ◌↔◌, Bool, true, false, ◌&&◌, ◌||◌, List, ◌++◌, arith, ltb, ◌==◌,
  if◌then◌else◌,
}
use gateway_forge.Common.Text.{Text, lit, text_eq, text_eq_iff, text_lt, to_string}
use gateway_forge.Pcap.Packet.{TransportProtocol, tcp, udp, unknown, protocol_eq}

pub record FlowKey : Type 0 where
  pub src_ip : Text
  pub src_port : ℕ
  pub dst_ip : Text
  pub dst_port : ℕ
  pub protocol : TransportProtocol

-- `operator==`.
unfoldable pub key_eq : FlowKey → FlowKey → Bool
key_eq k other =
    text_eq k.src_ip other.src_ip
    && (k.src_port == other.src_port
        && (text_eq k.dst_ip other.dst_ip
            && (k.dst_port == other.dst_port && protocol_eq k.protocol other.protocol)))

-- The two exchanges of `Normalized`.
abbrev pub swapped : FlowKey → FlowKey
swapped k = record k {
  src_ip = k.dst_ip;
  dst_ip = k.src_ip;
  src_port = k.dst_port;
  dst_port = k.src_port;
}

unfoldable pub normalized : FlowKey → FlowKey
normalized k =
    if text_lt k.dst_ip k.src_ip || (text_eq k.src_ip k.dst_ip && ltb k.dst_port k.src_port)
    then swapped k
    else k

-- `ToString`: everything that is not TCP is written as UDP.
unfoldable pub key_to_string : FlowKey → Text
key_to_string k =
    k.src_ip
    ++ (lit ":"
        ++ (to_string k.src_port
            ++ (lit " -> "
                ++ (k.dst_ip
                    ++ (lit ":"
                        ++ (to_string k.dst_port
                            ++ (lit " ["
                                ++ ((if protocol_eq k.protocol tcp then lit "TCP" else lit "UDP")
                                    ++ lit "]"))))))))

protocol_eq_iff : (p q : TransportProtocol) → (protocol_eq p q ≡ true) ↔ (p ≡ q)
protocol_eq_iff tcp tcp = ground arith
protocol_eq_iff udp udp = ground arith
protocol_eq_iff unknown unknown = ground arith
protocol_eq_iff _ _ = ground arith

-- `operator==` is equality.
pub key_eq_iff : (k j : FlowKey) → (key_eq k j ≡ true) ↔ (k ≡ j)
unfolding key_eq
key_eq_iff k j = ground (
  arith,
  text_eq_iff k.src_ip j.src_ip,
  text_eq_iff k.dst_ip j.dst_ip,
  protocol_eq_iff k.protocol j.protocol,
)
