-- ===== src/Pcap/Parser/Wire.antt =====
-- The layout of frames on the wire, and where the parser finds their headers.
use gateway_forge.Common.{
  ℕ, ◌+◌, ◌*◌, ◌/◌, ◌%◌, ◌^◌, ◌≤◌, ◌<◌, ◌≡◌, ap, ◌∙◌, sym, ◌∷◌, ◌++◌, arith, length, take, drop,
  length-append, drop-append_at, append_assoc,
}
use gateway_forge.Common.Words.{Bytes, be_bytes, le_value}
use gateway_forge.Common.Text.{Text}
use gateway_forge.Pcap.Headers.{ipv4_of, Ipv4Header}
use gateway_forge.Pcap.Packet.{empty_packet}
use gateway_forge.Pcap.Parser.{dotted, ip_to_string}
use gateway_forge.Pcap.Parser.Safety.{ip_header, ip_end, addressed}

-- An IPv4 datagram on an Ethernet link; numbers are in host order here.
pub record Datagram : Type 0 where
  pub link : Bytes
  pub dscp_ecn : ℕ
  pub total_length : ℕ
  pub identification : ℕ
  pub flags_fragment : ℕ
  pub ttl : ℕ
  pub checksum : ℕ
  pub src : ℕ
  pub dst : ℕ
  pub option_words : ℕ
  pub options : Bytes

pub record IsDatagram (d : Datagram) : Type 0 where
  pub link_length : length d.link ≡ 14
  pub options_length : length d.options ≡ 4 * d.option_words
  pub few_options : d.option_words ≤ 10

-- The header, with its fields in network order.
abbrev pub ip_bytes : Datagram → ℕ → Bytes
ip_bytes d protocol =
    (69 + d.option_words)
    ∷ d.dscp_ecn
    ∷ (be_bytes 2 d.total_length
        ++ (be_bytes 2 d.identification
            ++ (be_bytes 2 d.flags_fragment
                ++ (d.ttl
                    ∷ protocol
                    ∷ (be_bytes 2 d.checksum ++ (be_bytes 4 d.src ++ be_bytes 4 d.dst))))))

abbrev pub on_link : Datagram → ℕ → Bytes → Bytes
on_link d protocol rest = d.link ++ (ip_bytes d protocol ++ (d.options ++ rest))

abbrev pub address : ℕ → Text
address ip = dotted (ip / 16777216 % 256) (ip / 65536 % 256) (ip / 256 % 256) (ip % 256)

pub ip_to_string_lem : (ip : ℕ) → ip_to_string (le_value (be_bytes 4 ip)) ≡ address ip
unfolding ip_to_string
ip_to_string_lem ip =
    let w : ℕ = le_value (be_bytes 4 ip) in
    let a : w % 256 ≡ ip / 16777216 % 256 = omega arith in
    let b : w / 256 % 256 ≡ ip / 65536 % 256 = omega arith in
    let c : w / 65536 % 256 ≡ ip / 256 % 256 = omega arith in
    let d : w / 16777216 % 256 ≡ ip % 256 = omega arith in rw (a, b, c, d)

module _ (d : Datagram) (v : IsDatagram d) (protocol : ℕ) (rest : Bytes) where
  pub ip_header_lem : ip_header (on_link d protocol rest) ≡ ipv4_of (ip_bytes d protocol)
  ip_header_lem =
      ap (λ (raw : Bytes). ipv4_of (take 20 raw))
        (drop-append_at 14 d.link (ip_bytes d protocol ++ (d.options ++ rest)) (sym v.link_length))

  pub ip_end_lem : ip_end (on_link d protocol rest) ≡ 34 + 4 * d.option_words
  ip_end_lem =
      ap (λ (h : Ipv4Header). 14 + h.version_ihl % 16 * 4) ip_header_lem
      ∙ omega (arith, v.few_options)

  pub drop_headers : drop (34 + 4 * d.option_words) (on_link d protocol rest) ≡ rest
  drop_headers =
      ap (drop (34 + 4 * d.option_words)) regroup
      ∙ drop-append_at (34 + 4 * d.option_words) (d.link ++ (ip_bytes d protocol ++ d.options)) rest
          (omega (
            arith,
            length-append d.link (ip_bytes d protocol ++ d.options),
            v.link_length,
            v.options_length,
          ))
    where
      regroup : on_link d protocol rest ≡ (d.link ++ (ip_bytes d protocol ++ d.options)) ++ rest
      regroup = simp append_assoc

  pub length-on_link : length (on_link d protocol rest) ≡ 34 + 4 * d.option_words + length rest
  length-on_link = omega (
    arith,
    length-append d.link (ip_bytes d protocol ++ (d.options ++ rest)),
    length-append d.options rest,
    v.link_length,
    v.options_length,
  )

  -- The packet of such a frame before its transport header is read.
  pub addressed_lem :
      addressed (on_link d protocol rest)
      ≡ record empty_packet { src_ip = address d.src; dst_ip = address d.dst }
  addressed_lem =
      ap
        (λ (h : Ipv4Header). record empty_packet {
          src_ip = ip_to_string h.src_ip;
          dst_ip = ip_to_string h.dst_ip;
        })
        ip_header_lem
      ∙ (λ i. record empty_packet {
        src_ip = ip_to_string_lem d.src i;
        dst_ip = ip_to_string_lem d.dst i;
      })

-- A TCP segment; a UDP datagram.
pub record Segment : Type 0 where
  pub src_port : ℕ
  pub dst_port : ℕ
  pub seq : ℕ
  pub ack : ℕ
  pub reserved : ℕ
  pub flags : ℕ
  pub window : ℕ
  pub checksum : ℕ
  pub urgent_pointer : ℕ
  pub option_words : ℕ
  pub options : Bytes

pub record IsSegment (s : Segment) : Type 0 where
  pub src_port_u16 : s.src_port < 2 ^ 16
  pub dst_port_u16 : s.dst_port < 2 ^ 16
  pub seq_u32 : s.seq < 2 ^ 32
  pub ack_u32 : s.ack < 2 ^ 32
  pub reserved_u4 : s.reserved < 16
  pub few_options : s.option_words ≤ 10
  pub options_length : length s.options ≡ 4 * s.option_words

abbrev pub tcp_bytes : Segment → Bytes
tcp_bytes s =
    be_bytes 2 s.src_port
    ++ (be_bytes 2 s.dst_port
        ++ (be_bytes 4 s.seq
            ++ (be_bytes 4 s.ack
                ++ ((16 * (5 + s.option_words) + s.reserved)
                    ∷ s.flags
                    ∷ (be_bytes 2 s.window
                        ++ (be_bytes 2 s.checksum ++ be_bytes 2 s.urgent_pointer))))))

abbrev pub tcp_frame : Datagram → Segment → Bytes → Bytes
tcp_frame d s payload = on_link d 6 (tcp_bytes s ++ (s.options ++ payload))

-- A UDP datagram on the wire.
abbrev pub udp_bytes : Segment → ℕ → Bytes
udp_bytes s udp_length =
    be_bytes 2 s.src_port
    ++ (be_bytes 2 s.dst_port ++ (be_bytes 2 udp_length ++ be_bytes 2 s.checksum))

abbrev pub udp_frame : Datagram → Segment → ℕ → Bytes → Bytes
udp_frame d s udp_length payload = on_link d 17 (udp_bytes s udp_length ++ payload)
