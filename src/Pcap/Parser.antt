-- ===== src/Pcap/Parser.antt =====
-- pcap/PacketParser. A frame is the block of bytes that the caller has and the length that it
-- passes, which may differ; `offset` is where `data + offset` points, and sizes are size_t.
pub mod Safety
pub mod Wire
pub mod RoundTrip
use gateway_forge.Common.{
  ℕ, ◌+◌, ◌*◌, ◌/◌, ◌%◌, ◌^◌, ◌≡◌, refl, Option, none, some, [], ◌∷◌, ◌++◌, ltb, ◌==◌, not,
  if◌then◌else◌, Bool, drop,
}
use gateway_forge.Common.Words.{Bytes, sub64, ntohs, ntohl}
use gateway_forge.Common.Text.{Text, lit, to_string}
use gateway_forge.Common.Outcome.{Outcome, done, fails, ◌>>=◌}
use gateway_forge.Common.Memory.{memcpy}
use gateway_forge.Pcap.Headers.{
  EthernetHeader, ethernet_of, Ipv4Header, ipv4_of, TcpHeader, tcp_of, UdpHeader, udp_of, proto_tcp,
  proto_udp,
}
use gateway_forge.Pcap.Packet.{
  Packet, empty_packet, set_payload, set_src_ip, set_dst_ip, set_protocol, set_src_port,
  set_dst_port, set_tcp_seq, set_tcp_ack, set_tcp_flags, tcp, udp,
}

unfoldable pub parse_ethernet : Bytes → ℕ → ℕ → Outcome (Option EthernetHeader)
parse_ethernet block offset len =
    if ltb len 14 then done none else do raw ← memcpy block offset 14; done (some (ethernet_of raw))

unfoldable pub parse_ipv4 : Bytes → ℕ → ℕ → Outcome (Option Ipv4Header)
parse_ipv4 block offset len = if ltb len 20 then done none else do
  raw ← memcpy block offset 20
  done (if (ipv4_of raw).version_ihl / 16 == 4 then some (ipv4_of raw) else none)

unfoldable pub parse_tcp : Bytes → ℕ → ℕ → Outcome (Option TcpHeader)
parse_tcp block offset len =
    if ltb len 20 then done none else do raw ← memcpy block offset 20; done (some (tcp_of raw))

unfoldable pub parse_udp : Bytes → ℕ → ℕ → Outcome (Option UdpHeader)
parse_udp block offset len =
    if ltb len 8 then done none else do raw ← memcpy block offset 8; done (some (udp_of raw))

-- Four octets in decimal with dots between them.
abbrev pub dotted : ℕ → ℕ → ℕ → ℕ → Text
dotted a b c d =
    to_string a
    ++ (lit "." ++ (to_string b ++ (lit "." ++ (to_string c ++ (lit "." ++ to_string d)))))

-- `inet_ntoa`: the octets in memory order.
unfoldable pub ip_to_string : ℕ → Text
ip_to_string ip = dotted (ip % 256) (ip / 256 % 256) (ip / 65536 % 256) (ip / 16777216 % 256)

-- `if (!header) return nullptr;` and what follows with the header.
abbrev pub or_null :
    {A B : Type 0} → Outcome (Option A) → (A → Outcome (Option B)) → Outcome (Option B)
or_null m f = m >>= elim [ none ↦ done none | some a ↦ f a ]

-- The end of `Parse`: what lies behind the headers is the payload, and a packet with nothing there
-- keeps its null payload.
unfoldable pub finish_payload : Bytes → ℕ → ℕ → Packet → Outcome (Option Packet)
finish_payload block len offset packet =
    if ltb offset len
    then (do p ← set_payload packet (some (drop offset block)) (sub64 len offset); done (some p))
    else done (some packet)

-- The branches of `Parse` on the transport protocol, from the offset behind the IP header.
unfoldable pub parse_transport : Bytes → ℕ → ℕ → ℕ → Packet → Outcome (Option Packet)
parse_transport block len offset protocol packet =
    if protocol == proto_tcp
    then or_null (parse_tcp block offset (sub64 len offset)) (λ header.
      finish_payload block len (offset + header.data_offset_reserved / 16 % 16 * 4) (
        let p1 = set_protocol packet tcp in
        let p2 = set_src_port p1 (ntohs header.src_port) in
        let p3 = set_dst_port p2 (ntohs header.dst_port) in
        let p4 = set_tcp_seq p3 (ntohl header.seq) in
        let p5 = set_tcp_ack p4 (ntohl header.ack) in set_tcp_flags p5 header.flags))
    else if protocol == proto_udp
    then or_null (parse_udp block offset (sub64 len offset)) (λ header.
      finish_payload block len (offset + 8) (
        let p1 = set_protocol packet udp in
        let p2 = set_src_port p1 (ntohs header.src_port) in
        set_dst_port p2 (ntohs header.dst_port)))
    else done none

-- `Parse` from the IP header on.
unfoldable pub parse_network : Bytes → ℕ → Outcome (Option Packet)
parse_network block len = or_null (parse_ipv4 block 14 (sub64 len 14)) (λ ip.
    parse_transport block len (14 + ip.version_ihl % 16 * 4) ip.protocol
      (set_dst_ip (set_src_ip empty_packet (ip_to_string ip.src_ip)) (ip_to_string ip.dst_ip)))

-- `Parse(data, len)`; `none` is a null pointer.
unfoldable pub parse : Option Bytes → ℕ → Outcome (Option Packet)
unfolding parse_network
parse none len = done none
parse (some block) len =
    if len == 0
    then done none
    else or_null (parse_ethernet block 0 len) (λ eth. parse_network block len)
