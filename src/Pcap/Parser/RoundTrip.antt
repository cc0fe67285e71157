-- ===== src/Pcap/Parser/RoundTrip.antt =====
-- `PacketParser::Parse` against the layout of frames on the wire: Ethernet, IPv4 with options, TCP
-- with options or UDP, and what follows.
use gateway_forge.Common.{
  ℕ, ◌+◌, ◌-◌, ◌*◌, ◌/◌, ◌%◌, ◌^◌, ◌≤◌, ◌<◌, ◌≡◌, refl, ap, ◌∙◌, Option, none, some, [], ◌∷◌, ◌++◌,
  arith, length, take, drop, length-append, take-append, drop-append_at, drop-drop, take-length,
  append_assoc,
}
use gateway_forge.Common.Words.{Bytes, be_bytes, le_value, ntohs, ntohl}
use gateway_forge.Common.Outcome.{done}
use gateway_forge.Buffer.{Buffer}
use gateway_forge.Pcap.Headers.{Ipv4Header, tcp_of, udp_of}
use gateway_forge.Pcap.Packet.{Packet, empty_packet, tcp, udp}
use gateway_forge.Pcap.Parser.{parse, parse_transport, finish_payload}
use gateway_forge.Pcap.Parser.Safety.{
  ip_header, parse-parse_transport, parse_tcp_value, parse_udp_value, finish_payload_inside,
  finish_payload_empty,
}
use gateway_forge.Pcap.Parser.Wire.{
  Datagram, IsDatagram, on_link, address, ip_header_lem, ip_end_lem, drop_headers, length-on_link,
  addressed_lem, Segment, IsSegment, tcp_bytes, tcp_frame, udp_bytes, udp_frame,
}

module _ (d : Datagram) (v : IsDatagram d) (protocol : ℕ) (rest : Bytes) where
  -- `Parse` comes to the transport header with the addresses and the protocol of the datagram.
  parse-on_link :
      length (on_link d protocol rest) < 2 ^ 64
      → parse (some (on_link d protocol rest)) (length (on_link d protocol rest))
        ≡ parse_transport
            (on_link d protocol rest)
            (length (on_link d protocol rest))
            (34 + 4 * d.option_words)
            protocol
            (record empty_packet { src_ip = address d.src; dst_ip = address d.dst })
  parse-on_link small =
      parse-parse_transport _ _ small (omega (arith, (length-on_link d v protocol rest)))
        (omega (arith, (length-on_link d v protocol rest)))
        (ap (λ (h : Ipv4Header). h.version_ihl / 16) (ip_header_lem d v protocol rest)
          ∙ omega (arith, v.few_options))
      ∙ (λ i.
          parse_transport (on_link d protocol rest) (length (on_link d protocol rest))
            (ip_end_lem d v protocol rest i) (protocol_lem i) ((addressed_lem d v protocol rest) i))
    where
      protocol_lem : (ip_header (on_link d protocol rest)).protocol ≡ protocol
      protocol_lem =
          ap (λ (h : Ipv4Header). h.protocol) (ip_header_lem d v protocol rest) ∙ omega arith

-- What `SetPayload` leaves in a packet: nothing if there are no bytes behind the headers.
abbrev pub payload_buffer : Bytes → Option Buffer
payload_buffer [] = none
payload_buffer (x ∷ xs) = some (record { block = some (x ∷ xs); size = length (x ∷ xs) })

finish_payload_tail :
    (block payload : Bytes) (offset : ℕ) (packet : Packet)
    → length block < 2 ^ 64
    → length block ≡ offset + length payload
    → drop offset block ≡ payload
    → packet.payload ≡ none
    → finish_payload block (length block) offset packet
      ≡ done (some (record packet { payload = payload_buffer payload }))
finish_payload_tail block [] offset packet small e h fresh =
    finish_payload_empty block (length block) small offset packet (omega arith) ∙ ground arith
finish_payload_tail block (x ∷ xs) offset packet small e h fresh =
    finish_payload_inside block (length block) small offset packet (omega arith) (omega arith)
    ∙ rw (part (length block - offset) (drop offset block) (omega arith) h)
  where
    part :
        (n : ℕ) (tail : Bytes)
        → n ≡ length (x ∷ xs)
        → tail ≡ x ∷ xs
        → ◌≡◌ {A = Buffer}
            (record { block = some (take n tail); size = n })
            (record { block = some (x ∷ xs); size = length (x ∷ xs) })
    part n tail p q = rw (p, q, take-length (x ∷ xs))

ntohs_lem : (n : ℕ) → n < 2 ^ 16 → ntohs (le_value (be_bytes 2 n)) ≡ n
ntohs_lem n h = omega arith

ntohl_lem : (n : ℕ) → n < 2 ^ 32 → ntohl (le_value (be_bytes 4 n)) ≡ n
ntohl_lem n h = omega arith

-- A transport header that lies in the frame is read as it was written.
module _ (block raw tail : Bytes) (offset : ℕ) (packet : Packet) (small : length block < 2 ^ 64)
    (inside : offset + length raw ≤ length block)
    (at_offset : drop offset block ≡ raw ++ tail) where
  take_raw : (n : ℕ) → length raw ≡ n → take n (drop offset block) ≡ raw
  take_raw n e = rw (← e, at_offset) (take-append raw tail)

  parse_transport_tcp :
      length raw ≡ 20
      → parse_transport block (length block) offset 6 packet
        ≡ finish_payload block
            (length block)
            (offset + (tcp_of raw).data_offset_reserved / 16 % 16 * 4)
            (record packet {
              protocol = tcp;
              src_port = ntohs (tcp_of raw).src_port;
              dst_port = ntohs (tcp_of raw).dst_port;
              tcp_seq = ntohl (tcp_of raw).seq;
              tcp_ack = ntohl (tcp_of raw).ack;
              tcp_flags = (tcp_of raw).flags;
            })
  unfolding parse_transport
  parse_transport_tcp e =
      rw (
        parse_tcp_value block (length block) small offset (omega arith) (omega arith),
        take_raw 20 e,
      )

  parse_transport_udp :
      length raw ≡ 8
      → parse_transport block (length block) offset 17 packet
        ≡ finish_payload block (length block) (offset + 8) (record packet {
          protocol = udp;
          src_port = ntohs (udp_of raw).src_port;
          dst_port = ntohs (udp_of raw).dst_port;
        })
  unfolding parse_transport
  parse_transport_udp e =
      rw (
        parse_udp_value block (length block) small offset (omega arith) (omega arith),
        take_raw 8 e,
      )

octet_lem : (n : ℕ) → le_value (n ∷ []) ≡ n
octet_lem n = omega arith

-- The packet that a frame with this datagram and this segment stands for.
abbrev pub tcp_packet : Datagram → Segment → Option Buffer → Packet
tcp_packet d s payload = record {
  timestamp_us = 0;
  src_ip = address d.src;
  dst_ip = address d.dst;
  src_port = s.src_port;
  dst_port = s.dst_port;
  protocol = tcp;
  payload = payload;
  tcp_seq = s.seq;
  tcp_ack = s.ack;
  tcp_flags = s.flags;
}

module _ (d : Datagram) (s : Segment) (payload : Bytes) (v : IsDatagram d) (w : IsSegment s) where
  length-tcp_frame :
      length (tcp_frame d s payload) ≡ 54 + 4 * d.option_words + 4 * s.option_words + length payload
  length-tcp_frame = omega (
    arith,
    length-on_link d v 6 (tcp_bytes s ++ (s.options ++ payload)),
    length-append s.options payload,
    w.options_length,
  )

  drop-tcp_frame :
      drop (54 + 4 * d.option_words + 4 * s.option_words) (tcp_frame d s payload) ≡ payload
  drop-tcp_frame =
      drop-drop (34 + 4 * d.option_words) (20 + 4 * s.option_words) _ (tcp_frame d s payload)
        (omega arith)
      ∙ ap (drop (20 + 4 * s.option_words)) (drop_headers d v 6 _ ∙ regroup)
      ∙ drop-append_at (20 + 4 * s.option_words) (tcp_bytes s ++ s.options) payload
          (omega (arith, w.options_length))
    where
      regroup : tcp_bytes s ++ (s.options ++ payload) ≡ (tcp_bytes s ++ s.options) ++ payload
      regroup = simp append_assoc

  -- `Parse` of a whole frame of less than 2 ^ 64 bytes with IP options and TCP options gives the
  -- addresses, the ports, the sequence and acknowledgement numbers and the flags that were put in,
  -- and all that follows the TCP options as the payload, whatever the IP header says of its total
  -- length. With no bytes there, the packet has no payload at all.
  pub parse-tcp_frame :
      length (tcp_frame d s payload) < 2 ^ 64
      → parse (some (tcp_frame d s payload)) (length (tcp_frame d s payload))
        ≡ done (some (tcp_packet d s (payload_buffer payload)))
  parse-tcp_frame small =
      parse-on_link d v 6 _ small
      ∙ parse_transport_tcp (tcp_frame d s payload) (tcp_bytes s) (s.options ++ payload) _ _ small
          (omega (arith, length-tcp_frame)) (drop_headers d v 6 _) refl
      ∙ (λ i.
          finish_payload (tcp_frame d s payload) (length (tcp_frame d s payload)) (offset i)
            (record (tcp_packet d s none) {
              src_port = ntohs_lem s.src_port w.src_port_u16 i;
              dst_port = ntohs_lem s.dst_port w.dst_port_u16 i;
              tcp_seq = ntohl_lem s.seq w.seq_u32 i;
              tcp_ack = ntohl_lem s.ack w.ack_u32 i;
              tcp_flags = octet_lem s.flags i;
            }))
      ∙ finish_payload_tail _ payload _ _ small (omega (arith, length-tcp_frame)) drop-tcp_frame
          refl
    where
      offset :
          34 + 4 * d.option_words + (tcp_of (tcp_bytes s)).data_offset_reserved / 16 % 16 * 4
          ≡ 54 + 4 * d.option_words + 4 * s.option_words
      offset = omega (arith, w.reserved_u4, w.few_options)

abbrev pub udp_packet : Datagram → Segment → Option Buffer → Packet
udp_packet d s payload = record empty_packet {
  src_ip = address d.src;
  dst_ip = address d.dst;
  src_port = s.src_port;
  dst_port = s.dst_port;
  protocol = udp;
  payload = payload;
}

module _ (d : Datagram) (s : Segment) (udp_length : ℕ) (payload : Bytes) (v : IsDatagram d)
    (w : IsSegment s) where
  length-udp_frame :
      length (udp_frame d s udp_length payload) ≡ 42 + 4 * d.option_words + length payload
  length-udp_frame = omega (arith, length-on_link d v 17 (udp_bytes s udp_length ++ payload))

  -- `Parse` of a whole UDP frame of less than 2 ^ 64 bytes with IP options gives the addresses and
  -- the ports, and all that follows the UDP header as the payload, whatever the length fields of
  -- the two headers say.
  pub parse-udp_frame :
      length (udp_frame d s udp_length payload) < 2 ^ 64
      → parse (some (udp_frame d s udp_length payload)) (length (udp_frame d s udp_length payload))
        ≡ done (some (udp_packet d s (payload_buffer payload)))
  parse-udp_frame small =
      parse-on_link d v 17 _ small
      ∙ parse_transport_udp (udp_frame d s udp_length payload) (udp_bytes s udp_length) payload _ _
          small (omega (arith, length-udp_frame)) (drop_headers d v 17 _) refl
      ∙ (λ i.
          finish_payload (udp_frame d s udp_length payload)
            (length (udp_frame d s udp_length payload)) (34 + 4 * d.option_words + 8)
            (record (udp_packet d s none) {
              src_port = ntohs_lem s.src_port w.src_port_u16 i;
              dst_port = ntohs_lem s.dst_port w.dst_port_u16 i;
            }))
      ∙ finish_payload_tail _ payload _ _ small (omega (arith, length-udp_frame))
          (drop-drop (34 + 4 * d.option_words) 8 _ (udp_frame d s udp_length payload) refl
            ∙ ap (drop 8) (drop_headers d v 17 _))
          refl
