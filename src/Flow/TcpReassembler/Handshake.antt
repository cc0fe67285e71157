-- ===== src/Flow/TcpReassembler/Handshake.antt =====
-- What a gap in the sequence numbers does to a reassembler.
use gateway_forge.Common.{
  ℕ, ◌+◌, ◌%◌, ◌^◌, ◌<◌, ◌≡◌, ◌≢◌, refl, ap, ◌∙◌, true, List, [], ◌∷◌, arith, length, length-append,
}
use gateway_forge.Common.Outcome.{done}
use gateway_forge.Pcap.Packet.{Packet, HasPayload}
use gateway_forge.Flow.TcpReassembler.{TcpReassembler, started}
use gateway_forge.Flow.TcpReassembler.Stream.{
  add_segments, add_segment_lem, payload_bytes, concat_payloads, InOrder, absorb,
}

-- None of the segments starts at `seq`.
abbrev NoneAt : ℕ → List Packet → Type 0
NoneAt seq [] = Unit {0}
NoneAt seq (p ∷ ps) = HasPayload p × (p.tcp_seq ≢ seq) × NoneAt seq ps

add_segments_stuck :
    (r : TcpReassembler) (ps : List Packet)
    → r.initialized ≡ true
    → NoneAt r.next_seq ps
    → add_segments r ps ≡ done r
unfolding add_segments
add_segments_stuck r [] i n = refl
add_segments_stuck r (p ∷ ps) i (h, e, n) =
    rw (add_segment_lem r p true h ∙ ap done absorbed) (add_segments_stuck r ps i n)
  where
    absorbed : absorb (started r p) p.tcp_seq (payload_bytes p) ≡ r
    absorbed = ground arith

-- Segments in order that start behind `isn` do not come round to it.
InOrder-NoneAt :
    (isn seq gap : ℕ) (ps : List Packet)
    → isn < 2 ^ 32
    → seq ≡ (isn + gap) % 2 ^ 32
    → 0 < gap
    → gap + length (concat_payloads ps) < 2 ^ 32
    → InOrder seq ps
    → NoneAt isn ps
InOrder-NoneAt isn seq gap [] small e g l o = tt
InOrder-NoneAt isn seq gap (p ∷ ps) small e g l (h, at_seq, o) = (
  h,
  omega arith,
  InOrder-NoneAt isn ((seq + length (payload_bytes p)) % 2 ^ 32) (gap + length (payload_bytes p)) ps
      small (omega arith) (omega arith)
      (omega (arith, length-append (payload_bytes p) (concat_payloads ps))) o,
)

-- Once `gap` bytes are missing in a started direction, nothing that follows is taken up, though it
-- arrives in order: the reassembler keeps its state, as long as the gap and the bytes behind it are
-- fewer than 2 ^ 32.
pub add_segments_after_gap :
    (r : TcpReassembler) (gap : ℕ) (ps : List Packet)
    → r.initialized ≡ true
    → r.next_seq < 2 ^ 32
    → 0 < gap
    → gap + length (concat_payloads ps) < 2 ^ 32
    → InOrder ((r.next_seq + gap) % 2 ^ 32) ps
    → add_segments r ps ≡ done r
add_segments_after_gap r gap ps i small g l o =
    add_segments_stuck r ps i (InOrder-NoneAt r.next_seq _ gap ps small refl g l o)
