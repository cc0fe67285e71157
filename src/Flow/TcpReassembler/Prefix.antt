-- ===== src/Flow/TcpReassembler/Prefix.antt =====
-- What `AddSegment` makes of segments that a network loses, repeats and puts out of order.
use gateway_forge.Common.{
  ℕ, ◌^◌, ◌<◌, ◌≡◌, refl, ap, sym, ◌∙◌, inl, inr, true, List, [], ◌∷◌, ◌++◌, arith, ◌==◌, ==_iff,
  length, length-append, append_assoc, drop, drop-append_at, Bool-cases,
}
use gateway_forge.Common.Words.{Bytes}
use gateway_forge.Common.Outcome.{done}
use gateway_forge.Pcap.Packet.{Packet, HasPayload}
use gateway_forge.Flow.TcpReassembler.{TcpReassembler, empty_reassembler, started}
use gateway_forge.Flow.TcpReassembler.Stream.{
  add_segments, payload_bytes, absorb, end_seq, IsStream, absorb-IsStream, add_segment_lem,
  add_segment_later,
}

-- A segment that carries a part of the bytes that are sent, under the sequence number of its first
-- byte; that of the first byte of all is `isn`.
pub record IsSlice (isn : ℕ) (sent : Bytes) (p : Packet) : Type 0 where
  pub has_payload : HasPayload p
  pub before : Bytes
  pub behind : Bytes
  pub is_part : sent ≡ before ++ (payload_bytes p ++ behind)
  pub numbered : p.tcp_seq ≡ end_seq isn before

abbrev pub AreSlices : ℕ → Bytes → List Packet → Type 0
AreSlices isn sent [] = Unit {0}
AreSlices isn sent (p ∷ ps) = IsSlice isn sent p × AreSlices isn sent ps

-- A started reassembler with a prefix of the bytes that are sent.
pub record IsPrefix (isn : ℕ) (sent : Bytes) (r : TcpReassembler) : Type 0 where
  pub is_stream : IsStream isn r
  pub missing : Bytes
  pub is_prefix : sent ≡ r.stream ++ missing

-- Equal sequence numbers are equal places in a stream of less than 2 ^ 32 bytes.
same_place :
    (isn : ℕ) (sent xs xs' ys ys' : Bytes)
    → length sent < 2 ^ 32
    → sent ≡ xs ++ xs'
    → sent ≡ ys ++ ys'
    → end_seq isn xs ≡ end_seq isn ys
    → xs' ≡ ys'
same_place isn sent xs xs' ys ys' small e e' same =
    sym (drop-append_at (length xs) xs xs' refl)
    ∙ ap (drop (length xs)) (sym e ∙ e')
    ∙ drop-append_at (length xs) ys ys'
        (omega (arith, ap length e, ap length e', length-append xs xs', length-append ys ys'))

module _ (isn : ℕ) (sent : Bytes) (small : length sent < 2 ^ 32) where
  absorb-IsPrefix :
      (r : TcpReassembler) (p : Packet)
      → IsPrefix isn sent r
      → IsSlice isn sent p
      → IsPrefix isn sent (absorb r p.tcp_seq (payload_bytes p))
  absorb-IsPrefix r p k s = elim (Bool-cases (length (payload_bytes p) == 0)) [
    | inl nothing ↦ rw nothing k
    | inr some_byte ↦ elim (Bool-cases (p.tcp_seq == r.next_seq)) [
      | inr elsewhere ↦ rw (some_byte, elsewhere) k
      | inl next ↦ record {
        is_stream = (absorb-IsStream isn r p.tcp_seq (payload_bytes p) k.is_stream).0;
        missing = s.behind;
        is_prefix =
            rw (some_byte, next)
              (k.is_prefix
                ∙ ap (λ (bytes : Bytes). r.stream ++ bytes)
                    (same_place isn sent r.stream k.missing s.before (payload_bytes p ++ s.behind)
                      small k.is_prefix s.is_part
                      (sym k.is_stream.next_is
                        ∙ sym ((==_iff p.tcp_seq r.next_seq).0 next)
                        ∙ s.numbered))
                ∙ sym (append_assoc r.stream (payload_bytes p) s.behind));
      }
    ]
  ]

  add_segments-IsPrefix :
      (r : TcpReassembler) (ps : List Packet)
      → IsPrefix isn sent r
      → AreSlices isn sent ps
      → (r' : TcpReassembler) × (add_segments r ps ≡ done r') × IsPrefix isn sent r'
  unfolding add_segments
  add_segments-IsPrefix r [] k s = (r, refl, k)
  add_segments-IsPrefix r (p ∷ ps) k (s, slices) =
      rw (add_segment_later isn r p true k.is_stream s.has_payload) (
        add_segments-IsPrefix (absorb r p.tcp_seq (payload_bytes p)) ps (absorb-IsPrefix r p k s)
          slices)

  -- Whatever a network does to the segments of one direction: if each carries a part of the bytes
  -- that were sent (fewer than 2 ^ 32), under that part's sequence number, and the one that comes
  -- first carries their start, then, however many of the others are lost, repeated, cut differently
  -- or out of order, the reassembler takes them all and has a prefix of the bytes that were sent.
  pub reassemble-IsPrefix :
      (p : Packet) (ps : List Packet)
      → p.tcp_seq ≡ isn
      → isn < 2 ^ 32
      → AreSlices isn sent (p ∷ ps)
      → (r : TcpReassembler) × (add_segments empty_reassembler (p ∷ ps) ≡ done r)
        × IsPrefix isn sent r
  unfolding add_segments
  reassemble-IsPrefix p ps first in_range (s, slices) =
      rw (add_segment_lem empty_reassembler p true s.has_payload) (
        add_segments-IsPrefix (absorb (started empty_reassembler p) p.tcp_seq (payload_bytes p)) ps
          (absorb-IsPrefix (started empty_reassembler p) p begun s) slices)
    where
      begun : IsPrefix isn sent (started empty_reassembler p)
      begun = record {
        is_stream = record { is_started = refl; next_is = first ∙ omega arith };
        missing = sent;
        is_prefix = refl;
      }
