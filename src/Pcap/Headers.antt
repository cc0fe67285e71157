-- ===== src/Pcap/Headers.antt =====
-- The header structs of include/gatewayforge/pcap, as `memcpy` fills them from the raw bytes of a
-- frame: each integer holds its octets in host order, so that `ntohs` and `ntohl` are still to come.
use gateway_forge.Common.{ℕ, take, drop}
use gateway_forge.Common.Words.{Bytes, le_value}

-- The integer of `width` octets at an offset of a struct.
abbrev pub field_at : Bytes → ℕ → ℕ → ℕ
field_at raw offset width = le_value (take width (drop offset raw))

pub record EthernetHeader : Type 0 where
  pub dst_mac : Bytes
  pub src_mac : Bytes
  pub ethertype : ℕ

abbrev pub ethernet_of : Bytes → EthernetHeader
ethernet_of raw = record {
  dst_mac = take 6 raw;
  src_mac = take 6 (drop 6 raw);
  ethertype = field_at raw 12 2;
}

pub record Ipv4Header : Type 0 where
  pub version_ihl : ℕ
  pub dscp_ecn : ℕ
  pub total_length : ℕ
  pub identification : ℕ
  pub flags_fragment : ℕ
  pub ttl : ℕ
  pub protocol : ℕ
  pub checksum : ℕ
  pub src_ip : ℕ
  pub dst_ip : ℕ

abbrev pub proto_tcp : ℕ
proto_tcp = 6

abbrev pub proto_udp : ℕ
proto_udp = 17

abbrev pub ipv4_of : Bytes → Ipv4Header
ipv4_of raw = record {
  version_ihl = field_at raw 0 1;
  dscp_ecn = field_at raw 1 1;
  total_length = field_at raw 2 2;
  identification = field_at raw 4 2;
  flags_fragment = field_at raw 6 2;
  ttl = field_at raw 8 1;
  protocol = field_at raw 9 1;
  checksum = field_at raw 10 2;
  src_ip = field_at raw 12 4;
  dst_ip = field_at raw 16 4;
}

pub record TcpHeader : Type 0 where
  pub src_port : ℕ
  pub dst_port : ℕ
  pub seq : ℕ
  pub ack : ℕ
  pub data_offset_reserved : ℕ
  pub flags : ℕ
  pub window : ℕ
  pub checksum : ℕ
  pub urgent_pointer : ℕ

abbrev pub tcp_of : Bytes → TcpHeader
tcp_of raw = record {
  src_port = field_at raw 0 2;
  dst_port = field_at raw 2 2;
  seq = field_at raw 4 4;
  ack = field_at raw 8 4;
  data_offset_reserved = field_at raw 12 1;
  flags = field_at raw 13 1;
  window = field_at raw 14 2;
  checksum = field_at raw 16 2;
  urgent_pointer = field_at raw 18 2;
}

pub record UdpHeader : Type 0 where
  pub src_port : ℕ
  pub dst_port : ℕ
  pub length : ℕ
  pub checksum : ℕ

abbrev pub udp_of : Bytes → UdpHeader
udp_of raw = record {
  src_port = field_at raw 0 2;
  dst_port = field_at raw 2 2;
  length = field_at raw 4 2;
  checksum = field_at raw 6 2;
}
