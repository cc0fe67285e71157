-- ===== src/Tests/Pcap.antt =====
-- Instances for the directory pcap.
use gateway_forge.Common.{
  ℕ, ◌+◌, ◌≡◌, refl, inl, Option, none, some, List, [], ◌∷◌, ◌++◌, arith, length,
}
use gateway_forge.Common.Words.{Bytes}
use gateway_forge.Common.Text.{lit, to_string}
use gateway_forge.Common.Outcome.{Outcome, done, fails, over_read, ◌>>=◌}
use gateway_forge.Pcap.Packet.{Packet}
use gateway_forge.Pcap.Parser.{parse}
use gateway_forge.Pcap.Parser.Safety.{IsTransportFrame, parse-Returns, parse_truncated}
use gateway_forge.Pcap.Parser.Wire.{Datagram, IsDatagram, Segment, IsSegment, tcp_frame, udp_frame}
use gateway_forge.Pcap.Parser.RoundTrip.{
  tcp_packet, udp_packet, payload_buffer, parse-tcp_frame, parse-udp_frame,
}
use gateway_forge.Pcap.Reader.{PacketHeader, success, end_of_file, read_loop}
use gateway_forge.Pcap.Reader.Loop.{packets_of, call_all, read_loop_complete, read_loop_cut}

-- 10.0.0.1 to 10.0.0.2, with one word of options.
abbrev pub datagram_1 : Datagram
datagram_1 = record {
  link = 0 ∷ 0 ∷ 0 ∷ 0 ∷ 0 ∷ 0 ∷ 0 ∷ 0 ∷ 0 ∷ 0 ∷ 0 ∷ 0 ∷ 8 ∷ 0 ∷ [];
  dscp_ecn = 0;
  total_length = 47;
  identification = 1;
  flags_fragment = 0;
  ttl = 64;
  checksum = 0;
  src = 167772161;
  dst = 167772162;
  option_words = 1;
  options = 1 ∷ 1 ∷ 1 ∷ 1 ∷ [];
}

pub datagram_1-IsDatagram : IsDatagram datagram_1
datagram_1-IsDatagram = record {
  link_length = refl;
  options_length = refl;
  few_options = omega arith;
}

abbrev pub segment_1 : Segment
segment_1 = record {
  src_port = 40000;
  dst_port = 9000;
  seq = 1000;
  ack = 2000;
  reserved = 0;
  flags = 24;
  window = 512;
  checksum = 0;
  urgent_pointer = 0;
  option_words = 0;
  options = [];
}

pub segment_1-IsSegment : IsSegment segment_1
segment_1-IsSegment = record {
  src_port_u16 = omega arith;
  dst_port_u16 = omega arith;
  seq_u32 = omega arith;
  ack_u32 = omega arith;
  reserved_u4 = omega arith;
  few_options = omega arith;
  options_length = refl;
}

abbrev pub frame_1 : Bytes
frame_1 = tcp_frame datagram_1 segment_1 (5 ∷ 6 ∷ [])

frame_1_addresses : (tcp_packet datagram_1 segment_1 none).src_ip ≡ lit "10.0.0.1"
unfolding to_string
frame_1_addresses = refl

parse-tcp_frame_example :
    parse (some frame_1) (length frame_1)
    ≡ done (some (tcp_packet datagram_1 segment_1 (payload_buffer (5 ∷ 6 ∷ []))))
parse-tcp_frame_example =
    parse-tcp_frame datagram_1 segment_1 (5 ∷ 6 ∷ []) datagram_1-IsDatagram segment_1-IsSegment
      (omega arith)

parse-udp_frame_example :
    parse (some (udp_frame datagram_1 segment_1 10 (5 ∷ 6 ∷ []))) 48
    ≡ done (some (udp_packet datagram_1 segment_1 (payload_buffer (5 ∷ 6 ∷ []))))
parse-udp_frame_example =
    parse-udp_frame datagram_1 segment_1 10 (5 ∷ 6 ∷ []) datagram_1-IsDatagram segment_1-IsSegment
      (omega arith)

parse-Returns_example : (r : Option Packet) × (parse (some frame_1) 60 ≡ done r)
parse-Returns_example = parse-Returns frame_1 60 (omega arith) (omega arith) (λ _. omega arith)

-- A frame of 34 bytes whose IHL is 15.
abbrev truncated : Bytes
truncated =
    datagram_1.link
    ++ (79 ∷ 0 ∷ 0 ∷ 60 ∷ 0 ∷ 0 ∷ 0 ∷ 0 ∷ 64 ∷ 6 ∷ 0 ∷ 0 ∷ 10 ∷ 0 ∷ 0 ∷ 1 ∷ 10 ∷ 0 ∷ 0 ∷ 2 ∷ [])

truncated-IsTransportFrame : IsTransportFrame truncated
truncated-IsTransportFrame = record {
  long_enough = omega arith;
  version_4 = refl;
  transport = inl refl;
}

parse_truncated_example : parse (some truncated) 34 ≡ fails over_read
parse_truncated_example = parse_truncated truncated truncated-IsTransportFrame (omega arith)

frame_1-IsTransportFrame : IsTransportFrame frame_1
frame_1-IsTransportFrame = record {
  long_enough = omega arith;
  version_4 = refl;
  transport = inl refl;
}

abbrev pub header_at : ℕ → PacketHeader
header_at n = record { tv_sec = 1; tv_usec = 5; len = n }

-- A callback that keeps the packets.
abbrev keep : List Packet → Packet → Outcome (List Packet)
keep ps p = done (ps ++ (p ∷ []))

read_loop_complete_example :
    read_loop keep (success (header_at 60) frame_1 ∷ end_of_file ∷ []) 0 []
    ≡ (call_all keep [] (packets_of ((header_at 60, frame_1) ∷ [])) >>= λ s'. done (0 + 1, s'))
read_loop_complete_example =
    read_loop_complete keep ((header_at 60, frame_1) ∷ []) [] 0 []
      (refl, omega arith, λ _. omega arith, tt)

read_loop_cut_example :
    read_loop keep (success (header_at 1514) frame_1 ∷ []) 0 [] ≡ fails over_read
read_loop_cut_example =
    read_loop_cut keep (header_at 1514) frame_1 [] 0 [] (omega arith) frame_1-IsTransportFrame
      (omega arith) (omega arith) (omega arith)
