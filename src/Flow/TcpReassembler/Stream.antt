-- ===== src/Flow/TcpReassembler/Stream.antt =====
-- What `AddSegment` makes of a sequence of segments.
use gateway_forge.Common.{
  ℕ, ◌+◌, ◌%◌, ◌^◌, ◌<◌, ◌≡◌, refl, ap, sym, ◌∙◌, ◌⊎◌, Bool, true, none, some, List, [], ◌∷◌, ◌++◌,
  arith, ◌==◌, if◌then◌else◌, length, length-append, append-nil, append_assoc,
}
use gateway_forge.Common.Words.{Bytes}
use gateway_forge.Common.Outcome.{Outcome, done, ◌>>=◌}
use gateway_forge.Buffer.Bounds.{memcpy_whole}
use gateway_forge.Pcap.Packet.{Packet, HasPayload}
use gateway_forge.Flow.TcpReassembler.{TcpReassembler, empty_reassembler, started, add_segment}

-- The segments of one direction, one after the other.
unfoldable pub add_segments : TcpReassembler → List Packet → Outcome TcpReassembler
add_segments r [] = done r
add_segments r (p ∷ ps) = do r' ← add_segment r p true; add_segments r' ps

-- The bytes of a packet's payload.
abbrev pub payload_bytes : Packet → Bytes
payload_bytes p = elim p.payload [
  | none ↦ []
  | some b ↦ elim b.block [ none ↦ [] | some bytes ↦ bytes ]
]

payload_bytes_lem : (p : Packet) (h : HasPayload p) → payload_bytes p ≡ h.valid.bytes
payload_bytes_lem p h = ground (arith, h.present, h.valid.allocated)

pub block_lem : (p : Packet) (h : HasPayload p) → h.buffer.block ≡ some (payload_bytes p)
block_lem p h = ground (arith, h.present, h.valid.allocated)

-- `AddSegment` on the plain bytes of a segment.
abbrev pub absorb : TcpReassembler → ℕ → Bytes → TcpReassembler
absorb r seq bytes =
    if length bytes == 0
    then r
    else if seq == r.next_seq
    then record r { stream = r.stream ++ bytes; next_seq = (seq + length bytes) % 2 ^ 32 }
    else r

pub add_segment_lem :
    (r : TcpReassembler) (p : Packet) (way : Bool)
    → HasPayload p
    → add_segment r p way ≡ done (absorb (started r p) p.tcp_seq (payload_bytes p))
unfolding add_segment
add_segment_lem r p way h =
    rw
      (
        payload_bytes_lem p h,
        h.present,
        h.valid.allocated,
        ← h.valid.sized,
        memcpy_whole h.valid.bytes (length h.valid.bytes) refl,
      )
      (ground arith)

-- Every segment has a payload, and each starts where the one before it ends, the first at `seq`.
abbrev pub InOrder : ℕ → List Packet → Type 0
InOrder seq [] = Unit {0}
InOrder seq (p ∷ ps) =
    HasPayload p × (p.tcp_seq ≡ seq) × InOrder ((seq + length (payload_bytes p)) % 2 ^ 32) ps

abbrev pub concat_payloads : List Packet → Bytes
concat_payloads [] = []
concat_payloads (p ∷ ps) = payload_bytes p ++ concat_payloads ps

-- The sequence number behind the bytes of a stream.
abbrev pub end_seq : ℕ → Bytes → ℕ
end_seq seq bytes = (seq + length bytes) % 2 ^ 32

-- A segment that starts at the number that is waited for is appended.
pub add_segment_next :
    (r : TcpReassembler) (p : Packet) (way : Bool)
    → r.initialized ≡ true
    → r.next_seq < 2 ^ 32
    → HasPayload p
    → p.tcp_seq ≡ r.next_seq
    → add_segment r p way
      ≡ done (record r {
        stream = r.stream ++ payload_bytes p;
        next_seq = end_seq r.next_seq (payload_bytes p);
      })
add_segment_next r p way i small h e =
    add_segment_lem r p way h ∙ ap done (absorbed (payload_bytes p))
  where
    absorbed :
        (bytes : Bytes)
        → absorb (started r p) p.tcp_seq bytes
          ≡ record r { stream = r.stream ++ bytes; next_seq = end_seq r.next_seq bytes }
    absorbed [] = ground (arith, append-nil r.stream)
    absorbed (b ∷ bytes) = ground arith

pub end_seq-append :
    (seq : ℕ) (xs ys : Bytes) → end_seq (end_seq seq xs) ys ≡ end_seq seq (xs ++ ys)
end_seq-append seq xs ys = omega (arith, length-append xs ys)

-- Segments that arrive in order, from the sequence number that is waited for, are all appended: the
-- stream grows by their payloads and the next number is the one behind them, modulo 2 ^ 32.
pub add_segments-InOrder :
    (r : TcpReassembler) (ps : List Packet)
    → r.initialized ≡ true
    → r.next_seq < 2 ^ 32
    → InOrder r.next_seq ps
    → add_segments r ps
      ≡ done (record r {
        stream = r.stream ++ concat_payloads ps;
        next_seq = end_seq r.next_seq (concat_payloads ps);
      })
unfolding add_segments
add_segments-InOrder r [] i small o = ground (arith, append-nil r.stream)
add_segments-InOrder r (p ∷ ps) i small (h, e, o) = rw (add_segment_next r p true i small h e) (
    add_segments-InOrder
      (record r {
        stream = r.stream ++ payload_bytes p;
        next_seq = end_seq r.next_seq (payload_bytes p);
      })
      ps i (omega arith) o
    ∙ rw (
      append_assoc r.stream (payload_bytes p) (concat_payloads ps),
      end_seq-append r.next_seq (payload_bytes p) (concat_payloads ps),
    ))

-- A direction whose segments all arrive, in order, is reassembled to the concatenation of their
-- payloads, wherever the sequence numbers start and also across their wrap-around.
pub reassemble-InOrder :
    (p : Packet) (ps : List Packet)
    → p.tcp_seq < 2 ^ 32
    → InOrder p.tcp_seq (p ∷ ps)
    → add_segments empty_reassembler (p ∷ ps)
      ≡ done (record {
        stream = concat_payloads (p ∷ ps);
        next_seq = end_seq p.tcp_seq (concat_payloads (p ∷ ps));
        initialized = true;
      })
unfolding add_segments
reassemble-InOrder p ps small o =
    ap (λ (m : Outcome TcpReassembler). m >>= λ r'. add_segments r' ps) restart
    ∙ add_segments-InOrder (started empty_reassembler p) (p ∷ ps) refl small o
  where
    restart :
        add_segment empty_reassembler p true ≡ add_segment (started empty_reassembler p) p true
    restart =
        add_segment_lem empty_reassembler p true o.0
        ∙ sym (add_segment_lem (started empty_reassembler p) p true o.0)

-- The state of a reassembler whose first segment had the number `isn`: the next number is the one
-- behind the bytes of the stream.
pub record IsStream (isn : ℕ) (r : TcpReassembler) : Type 0 where
  pub is_started : r.initialized ≡ true
  pub next_is : r.next_seq ≡ end_seq isn r.stream

pub absorb-IsStream :
    (isn : ℕ) (r : TcpReassembler) (seq : ℕ) (bytes : Bytes)
    → IsStream isn r
    → IsStream isn (absorb r seq bytes)
      × (((absorb r seq bytes).stream ≡ r.stream)
          ⊎ ((absorb r seq bytes).stream ≡ r.stream ++ bytes))
absorb-IsStream isn r seq bytes s = ground (arith, length-append r.stream bytes)

absorb_twice :
    (isn : ℕ) (r : TcpReassembler) (seq : ℕ) (bytes : Bytes)
    → IsStream isn r
    → length bytes < 2 ^ 32
    → absorb (absorb r seq bytes) seq bytes ≡ absorb r seq bytes
absorb_twice isn r seq bytes s small = ground (arith, length-append r.stream bytes)

pub add_segment_later :
    (isn : ℕ) (r : TcpReassembler) (p : Packet) (way : Bool)
    → IsStream isn r
    → HasPayload p
    → add_segment r p way ≡ done (absorb r p.tcp_seq (payload_bytes p))
add_segment_later isn r p way s h =
    add_segment_lem r p way h
    ∙ ap (λ (q : TcpReassembler). done (absorb q p.tcp_seq (payload_bytes p))) (started_lem r refl)
  where
    started_lem : (q : TcpReassembler) → q ≡ r → started q p ≡ r
    started_lem q e = ground (arith, s.is_started)

-- Whatever segment with a payload comes to a started direction, `AddSegment` returns, the stream
-- stays as it is or grows by exactly the payload, and the next number stays the one behind the
-- stream.
pub add_segment-IsStream :
    (isn : ℕ) (r : TcpReassembler) (p : Packet) (way : Bool)
    → IsStream isn r
    → HasPayload p
    → (r' : TcpReassembler) × (add_segment r p way ≡ done r')
      × IsStream isn r'
      × ((r'.stream ≡ r.stream) ⊎ (r'.stream ≡ r.stream ++ payload_bytes p))
add_segment-IsStream isn r p way s h =
    let (kept, grown) = absorb-IsStream isn r p.tcp_seq (payload_bytes p) s in
    (absorb r p.tcp_seq (payload_bytes p), add_segment_later isn r p way s h, kept, grown)

-- A segment with a payload of less than 2 ^ 32 bytes that comes to a started direction and at once
-- comes again changes nothing the second time.
pub add_segment_twice :
    (isn : ℕ) (r : TcpReassembler) (p : Packet) (way : Bool)
    → IsStream isn r
    → HasPayload p
    → length (payload_bytes p) < 2 ^ 32
    → (r' : TcpReassembler) × (add_segment r p way ≡ done r') × (add_segment r' p way ≡ done r')
add_segment_twice isn r p way s h small =
    let kept = (absorb-IsStream isn r p.tcp_seq (payload_bytes p) s).0 in
    (
      absorb r p.tcp_seq (payload_bytes p),
      add_segment_later isn r p way s h,
      add_segment_later isn (absorb r p.tcp_seq (payload_bytes p)) p way kept h
          ∙ ap done (absorb_twice isn r p.tcp_seq (payload_bytes p) s small),
    )
