-- ===== src/Pcap/Parser/Safety.antt =====
-- Which memory `PacketParser::Parse` reads.
use gateway_forge.Common.{
  ℕ, ◌+◌, ◌-◌, ◌*◌, ◌/◌, ◌%◌, ◌^◌, ◌≤◌, ◌<◌, ◌≡◌, ◌∙◌, ◌⊎◌, inl, inr, Option, none, some, arith,
  ltb, ◌==◌, Bool-cases, length, take, drop, length-drop, ltb→lt, ltb-false→le, if◌then◌else◌,
}
use gateway_forge.Common.Words.{Bytes, sub64}
use gateway_forge.Common.Outcome.{Outcome, done, fails, over_read, Returns, Returns-value}
use gateway_forge.Common.Memory.{memcpy_inside, memcpy_outside}
use gateway_forge.Buffer.{of_data}
use gateway_forge.Buffer.Bounds.{part_of}
use gateway_forge.Pcap.Headers.{Ipv4Header, ipv4_of, tcp_of, udp_of, proto_tcp, proto_udp}
use gateway_forge.Pcap.Packet.{Packet, empty_packet, set_payload}
use gateway_forge.Pcap.Parser.{
  parse, parse_network, parse_ethernet, parse_ipv4, parse_tcp, parse_udp, parse_transport,
  finish_payload, or_null, ip_to_string,
}

-- The IP header of a frame, and the offset behind it that its IHL field names.
abbrev pub ip_header : Bytes → Ipv4Header
ip_header block = ipv4_of (take 20 (drop 14 block))

abbrev pub ip_end : Bytes → ℕ
ip_end block = 14 + (ip_header block).version_ihl % 16 * 4

-- The offset behind the transport header.
abbrev pub transport_end : Bytes → ℕ
transport_end block =
    if (ip_header block).protocol == proto_tcp
    then ip_end block
      + (tcp_of (take 20 (drop (ip_end block) block))).data_offset_reserved / 16 % 16 * 4
    else ip_end block + 8

-- A frame that the parser takes for IPv4 with TCP or UDP inside.
pub record IsTransportFrame (block : Bytes) : Type 0 where
  pub long_enough : 34 ≤ length block
  pub version_4 : (ip_header block).version_ihl / 16 ≡ 4
  pub transport :
      ((ip_header block).protocol ≡ proto_tcp) ⊎ ((ip_header block).protocol ≡ proto_udp)

or_null-Returns :
    {A B : Type 0} (m : Outcome (Option A)) (f : A → Outcome (Option B))
    → Returns m
    → ((a : A) → Returns (f a))
    → Returns (or_null m f)
or_null-Returns (done none) f r k = tt
or_null-Returns (done (some a)) f r k = k a
or_null-Returns (fails e) f r k = absurd r

module _ (block : Bytes) (len : ℕ) (small : len < 2 ^ 64) where
  pub finish_payload_inside :
      (offset : ℕ) (packet : Packet)
      → len ≤ length block
      → offset < len
      → finish_payload block len offset packet
        ≡ done (some (record packet { payload = some (part_of block offset (len - offset)) }))
  unfolding finish_payload set_payload of_data
  finish_payload_inside offset packet held h =
      ground (arith, memcpy_inside (drop offset block) 0 (len - offset), length-drop offset block)

  pub finish_payload_empty :
      (offset : ℕ) (packet : Packet)
      → len ≤ offset
      → finish_payload block len offset packet ≡ done (some packet)
  unfolding finish_payload
  finish_payload_empty offset packet h = ground arith

  -- Where the caller's length is more than the block holds, the copy of the payload leaves the block.
  finish_payload_outside :
      (offset : ℕ) (packet : Packet)
      → length block < len
      → offset < len
      → finish_payload block len offset packet ≡ fails over_read
  unfolding finish_payload set_payload of_data
  finish_payload_outside offset packet held h =
      ground (arith, memcpy_outside (drop offset block) 0 (len - offset), length-drop offset block)

  finish_payload-Returns :
      (offset : ℕ) (packet : Packet)
      → len ≤ length block
      → Returns (finish_payload block len offset packet)
  finish_payload-Returns offset packet held = elim (Bool-cases (ltb offset len)) [
    | inl h ↦ rw (finish_payload_inside offset packet held (ltb→lt _ _ h)) tt
    | inr h ↦ rw (finish_payload_empty offset packet (ltb-false→le _ _ h)) tt
  ]

  parse_tcp-Returns :
      (offset : ℕ)
      → len ≤ length block
      → offset ≤ len
      → Returns (parse_tcp block offset (sub64 len offset))
  unfolding parse_tcp
  parse_tcp-Returns offset held h = ground (arith, memcpy_inside block offset 20)

  parse_udp-Returns :
      (offset : ℕ)
      → len ≤ length block
      → offset ≤ len
      → Returns (parse_udp block offset (sub64 len offset))
  unfolding parse_udp
  parse_udp-Returns offset held h = ground (arith, memcpy_inside block offset 8)

  parse_transport-Returns :
      (offset protocol : ℕ) (packet : Packet)
      → len ≤ length block
      → offset ≤ len
      → Returns (parse_transport block len offset protocol packet)
  unfolding parse_transport
  parse_transport-Returns offset protocol packet held h =
      elim (Bool-cases (protocol == proto_tcp)) [
        | inl is_tcp ↦ rw is_tcp (
            or_null-Returns _ _ (parse_tcp-Returns offset held h)
              (λ header. finish_payload-Returns _ _ held))
        | inr not_tcp ↦ rw not_tcp (elim (Bool-cases (protocol == proto_udp)) [
          | inl is_udp ↦ rw is_udp (
              or_null-Returns _ _ (parse_udp-Returns offset held h)
                (λ header. finish_payload-Returns _ _ held))
          | inr not_udp ↦ rw not_udp tt
        ])
      ]

  pub parse_tcp_value :
      (offset : ℕ)
      → offset + 20 ≤ length block
      → offset + 20 ≤ len
      → parse_tcp block offset (sub64 len offset)
        ≡ done (some (tcp_of (take 20 (drop offset block))))
  unfolding parse_tcp
  parse_tcp_value offset held h = ground (arith, memcpy_inside block offset 20)

  pub parse_udp_value :
      (offset : ℕ)
      → offset + 8 ≤ length block
      → offset + 8 ≤ len
      → parse_udp block offset (sub64 len offset)
        ≡ done (some (udp_of (take 8 (drop offset block))))
  unfolding parse_udp
  parse_udp_value offset held h = ground (arith, memcpy_inside block offset 8)

  -- The network part of `Parse` at a length that the block holds.
  parse_ipv4_value :
      34 ≤ len
      → 34 ≤ length block
      → parse_ipv4 block 14 (sub64 len 14)
        ≡ done (if (ip_header block).version_ihl / 16 == 4 then some (ip_header block) else none)
  unfolding parse_ipv4
  parse_ipv4_value h held = ground (arith, memcpy_inside block 14 20)

  parse_ethernet-Returns : len ≤ length block → Returns (parse_ethernet block 0 len)
  unfolding parse_ethernet
  parse_ethernet-Returns held = ground (arith, memcpy_inside block 0 14)

  parse_network-Returns :
      len ≤ length block
      → (34 ≤ len → ip_end block ≤ len)
      → 14 ≤ len
      → Returns (parse_network block len)
  unfolding parse_network
  parse_network-Returns held announced h = elim (Bool-cases (ltb len 34)) [
    | inl short ↦ unfold parse_ipv4 in ground arith
    | inr long ↦
        rw (parse_ipv4_value (ltb-false→le _ _ long) (omega (arith, ltb-false→le _ _ long)))
          (elim (Bool-cases ((ip_header block).version_ihl / 16 == 4)) [
            | inl four ↦
                rw four (parse_transport-Returns _ _ _ held (announced (ltb-false→le _ _ long)))
            | inr other ↦ rw other tt
          ])
  ]

  -- `Parse` at a length that the block holds: it returns, whatever the bytes are, if the IP header
  -- that the IHL field announces lies inside of the frame (or the frame is too short to have one).
  pub parse-Returns :
      len ≤ length block
      → (34 ≤ len → ip_end block ≤ len)
      → (r : Option Packet) × (parse (some block) len ≡ done r)
  unfolding parse parse_ethernet
  parse-Returns held announced = Returns-value _ (elim (Bool-cases (ltb len 14)) [
    | inl short ↦ ground arith
    | inr long ↦ ground (arith, memcpy_inside block 0 14, parse_network-Returns held announced)
  ])

-- The packet as the IP header leaves it.
abbrev pub addressed : Bytes → Packet
addressed block = record empty_packet {
  src_ip = ip_to_string (ip_header block).src_ip;
  dst_ip = ip_to_string (ip_header block).dst_ip;
}

-- With both headers of the lower layers in the block, `Parse` comes to the transport header.
pub parse-parse_transport :
    (block : Bytes) (len : ℕ)
    → len < 2 ^ 64
    → 34 ≤ len
    → 34 ≤ length block
    → (ip_header block).version_ihl / 16 ≡ 4
    → parse (some block) len
      ≡ parse_transport block len (ip_end block) (ip_header block).protocol (addressed block)
unfolding parse parse_network parse_ethernet
parse-parse_transport block len small h held four =
    ground (arith, memcpy_inside block 0 14, parse_ipv4_value block len small h held)

-- A frame of at least 34 bytes of a transport protocol whose IHL announces a longer IP header than
-- the frame holds: the length left, a size_t, wraps below zero, the check on it passes, and the
-- transport header is read outside of the frame.
pub parse_truncated :
    (block : Bytes)
    → IsTransportFrame block
    → length block < ip_end block
    → parse (some block) (length block) ≡ fails over_read
unfolding parse_transport parse_tcp parse_udp
parse_truncated block f h =
    parse-parse_transport block (length block) (omega arith) f.long_enough f.long_enough f.version_4
    ∙ ground (
      arith,
      f.transport,
      memcpy_outside block (ip_end block) 20,
      memcpy_outside block (ip_end block) 8,
    )

-- A frame of which the block holds both headers, and less than the length that the caller passes (a
-- capture cut at the snapshot length): the copy of the payload reads outside of the block.
pub parse_cut :
    (block : Bytes) (len : ℕ)
    → len < 2 ^ 64
    → IsTransportFrame block
    → ip_end block + 20 ≤ length block
    → length block < len
    → transport_end block < len
    → parse (some block) len ≡ fails over_read
unfolding parse_transport
parse_cut block len small f headers cut payload =
    parse-parse_transport block len small (omega (arith, f.long_enough)) f.long_enough f.version_4
    ∙ branch f.transport payload
  where
    branch :
        ((ip_header block).protocol ≡ proto_tcp) ⊎ ((ip_header block).protocol ≡ proto_udp)
        → transport_end block < len
        → parse_transport block len (ip_end block) (ip_header block).protocol (addressed block)
          ≡ fails over_read
    branch (inl is_tcp) beyond =
        rw (is_tcp, parse_tcp_value block len small (ip_end block) headers (omega arith))
          (finish_payload_outside block len small _ _ cut (rw is_tcp at beyond))
    branch (inr is_udp) beyond =
        rw (is_udp, parse_udp_value block len small (ip_end block) (omega arith) (omega arith))
          (finish_payload_outside block len small _ _ cut (rw is_udp at beyond))
