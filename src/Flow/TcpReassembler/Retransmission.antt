-- ===== src/Flow/TcpReassembler/Retransmission.antt =====
-- What `AddSegment` makes of segments that a sender repeats until each has come in its turn.
use gateway_forge.Common.{
  ℕ, ◌^◌, ◌<◌, ◌≡◌, ◌≢◌, refl, ap, sym, ◌∙◌, subst, inl, inr, true, false, List, [], ◌∷◌, ◌++◌,
  arith, ◌==◌, ==_iff, length, length-append, append_assoc, append-nil, Bool-cases,
}
use gateway_forge.Common.Words.{Bytes}
use gateway_forge.Common.Outcome.{done}
use gateway_forge.Pcap.Packet.{Packet, HasPayload}
use gateway_forge.Flow.TcpReassembler.{TcpReassembler, empty_reassembler, started}
use gateway_forge.Flow.TcpReassembler.Stream.{
  add_segments, payload_bytes, absorb, end_seq, IsStream, absorb-IsStream, add_segment_lem,
  add_segment_later,
}

-- The bytes that a sender cuts into these parts.
abbrev pub join : List Bytes → Bytes
join [] = []
join (part ∷ parts) = part ++ join parts

-- A segment with one of the parts, under its sequence number; that of the first part is `isn`.
pub record IsPartOf (isn : ℕ) (parts : List Bytes) (p : Packet) : Type 0 where
  pub has_payload : HasPayload p
  pub before : List Bytes
  pub behind : List Bytes
  pub is_part : parts ≡ before ++ (payload_bytes p ∷ behind)
  pub numbered : p.tcp_seq ≡ end_seq isn (join before)

abbrev pub AreParts : ℕ → List Bytes → List Packet → Type 0
AreParts isn parts [] = Unit {0}
AreParts isn parts (p ∷ ps) = IsPartOf isn parts p × AreParts isn parts ps

-- Each of these parts comes in its turn, the first under the number `seq`, whatever comes between.
pub data Delivers : ℕ → List Bytes → List Packet → Type 0 where
  nothing : (seq : ℕ) (ps : List Packet) → Delivers seq [] ps
  between :
      {seq : ℕ} {parts : List Bytes} {ps : List Packet} (p : Packet)
      → Delivers seq parts ps
      → Delivers seq parts (p ∷ ps)
  in_turn :
      {parts : List Bytes} {ps : List Packet} (seq : ℕ) (p : Packet)
      → p.tcp_seq ≡ seq
      → Delivers (end_seq seq (payload_bytes p)) parts ps
      → Delivers seq (payload_bytes p ∷ parts) (p ∷ ps)

later_parts :
    {seq : ℕ} {part : Bytes} {parts : List Bytes} {ps : List Packet}
    → Delivers seq (part ∷ parts) ps
    → Delivers (end_seq seq part) parts ps
later_parts (between p d) = between p (later_parts d)
later_parts (in_turn seq p e d) = between p d

taken :
    {seq : ℕ} {part : Bytes} {parts : List Bytes} {p : Packet} {ps : List Packet}
    → Delivers seq (part ∷ parts) (p ∷ ps)
    → Delivers (end_seq seq part) parts ps
taken (between p d) = later_parts d
taken (in_turn seq p e d) = d

passed_by :
    {seq : ℕ} {parts : List Bytes} {p : Packet} {ps : List Packet}
    → p.tcp_seq ≢ seq
    → Delivers seq parts (p ∷ ps)
    → Delivers seq parts ps
passed_by other (nothing seq ps) = nothing seq _
passed_by other (between p d) = d
passed_by other (in_turn seq p e d) = absurd (other e)

all_delivered : {seq : ℕ} {parts : List Bytes} → Delivers seq parts [] → parts ≡ []
all_delivered (nothing seq ps) = refl

abbrev pub NoneEmpty : List Bytes → Type 0
NoneEmpty [] = Unit {0}
NoneEmpty (part ∷ parts) = (0 < length part) × NoneEmpty parts

join-append : (xs ys : List Bytes) → join (xs ++ ys) ≡ join xs ++ join ys
join-append [] ys = refl
join-append (x ∷ xs) ys =
    ap (λ (bytes : Bytes). x ++ bytes) (join-append xs ys)
    ∙ sym (append_assoc x (join xs) (join ys))

-- Where no part is empty, the number of bytes before a part says which part it is.
same_part :
    (before : List Bytes) (x : Bytes) (behind so_far to_come : List Bytes)
    → NoneEmpty (so_far ++ to_come)
    → so_far ++ to_come ≡ before ++ (x ∷ behind)
    → length (join before) ≡ length (join so_far)
    → to_come ≡ x ∷ behind
same_part [] x behind [] to_come n e l = e
same_part [] x behind (y ∷ so_far) to_come (some_byte, n) e l =
    absurd (omega (arith, length-append y (join so_far)))
same_part (y ∷ before) x behind [] [] n e l = cc
same_part (y ∷ before) x behind [] (z ∷ to_come) (some_byte, n) e l =
    let same : z ≡ y = cc in absurd (omega (arith, ap length same, length-append y (join before)))
same_part (y ∷ before) x behind (z ∷ so_far) to_come (some_byte, n) e l =
    let same : z ≡ y = cc in
    same_part before x behind so_far to_come n (cc)
      (omega (arith, ap length same, length-append y (join before), length-append z (join so_far)))

-- The reassembler has the parts up to here, and those to come are still delivered.
record IsWaiting (isn : ℕ) (parts : List Bytes) (r : TcpReassembler) (ps : List Packet)
    : Type 0 where
  is_stream : IsStream isn r
  so_far : List Bytes
  to_come : List Bytes
  all_parts : so_far ++ to_come ≡ parts
  has : r.stream ≡ join so_far
  delivers : Delivers r.next_seq to_come ps

part_NoneEmpty :
    (before : List Bytes) (x : Bytes) (behind : List Bytes)
    → NoneEmpty (before ++ (x ∷ behind))
    → 0 < length x
part_NoneEmpty [] x behind (some_byte, n) = some_byte
part_NoneEmpty (y ∷ before) x behind (some_byte, n) = part_NoneEmpty before x behind n

absorb_elsewhere :
    (r : TcpReassembler) (seq : ℕ) (bytes : Bytes)
    → (seq == r.next_seq) ≡ false
    → absorb r seq bytes ≡ r
absorb_elsewhere r seq bytes e = ground (arith, e)

absorb_next :
    (r : TcpReassembler) (seq : ℕ) (bytes : Bytes)
    → (seq == r.next_seq) ≡ true
    → 0 < length bytes
    → ((absorb r seq bytes).stream ≡ r.stream ++ bytes)
      × ((absorb r seq bytes).next_seq ≡ end_seq r.next_seq bytes)
absorb_next r seq bytes e l = ground (arith, e)

join_one : (so_far : List Bytes) (x : Bytes) → join (so_far ++ (x ∷ [])) ≡ join so_far ++ x
join_one so_far x =
    join-append so_far (x ∷ []) ∙ ap (λ (bytes : Bytes). join so_far ++ bytes) (append-nil x)

module _ (isn : ℕ) (parts : List Bytes) (n : NoneEmpty parts)
    (small : length (join parts) < 2 ^ 32) where
  -- The part that comes is the one that is waited for.
  next_part :
      (r : TcpReassembler) (p : Packet) (ps : List Packet) (k : IsWaiting isn parts r (p ∷ ps))
      (s : IsPartOf isn parts p)
      → p.tcp_seq ≡ r.next_seq
      → k.to_come ≡ payload_bytes p ∷ s.behind
  next_part r p ps k s e =
      same_part s.before (payload_bytes p) s.behind k.so_far k.to_come
        (subst NoneEmpty (sym k.all_parts) n) (k.all_parts ∙ s.is_part)
        (omega (
          arith,
          e,
          s.numbered,
          k.is_stream.next_is,
          ap length k.has,
          ap (λ (l : List Bytes). length (join l)) s.is_part,
          ap (λ (l : List Bytes). length (join l)) k.all_parts,
          ap length (join-append s.before (payload_bytes p ∷ s.behind)),
          ap length (join-append k.so_far k.to_come),
          length-append (join s.before) (join (payload_bytes p ∷ s.behind)),
          length-append (join k.so_far) (join k.to_come),
        ))

  absorb-IsWaiting :
      (r : TcpReassembler) (p : Packet) (ps : List Packet)
      → IsWaiting isn parts r (p ∷ ps)
      → IsPartOf isn parts p
      → IsWaiting isn parts (absorb r p.tcp_seq (payload_bytes p)) ps
  absorb-IsWaiting r p ps k s = elim (Bool-cases (p.tcp_seq == r.next_seq)) [
    | inr elsewhere ↦
        subst (λ (q : TcpReassembler). IsWaiting isn parts q ps)
          (sym (absorb_elsewhere r p.tcp_seq (payload_bytes p) elsewhere))
          (record {
            is_stream = k.is_stream;
            so_far = k.so_far;
            to_come = k.to_come;
            all_parts = k.all_parts;
            has = k.has;
            delivers = passed_by (ground (arith, elsewhere)) k.delivers;
          })
    | inl next ↦
        let e = (==_iff p.tcp_seq r.next_seq).0 next in
        let own = next_part r p ps k s e in
        let (longer, further) =
          absorb_next r p.tcp_seq (payload_bytes p) next
            (part_NoneEmpty s.before (payload_bytes p) s.behind (subst NoneEmpty s.is_part n)) in
        record {
          is_stream = (absorb-IsStream isn r p.tcp_seq (payload_bytes p) k.is_stream).0;
          so_far = k.so_far ++ (payload_bytes p ∷ []);
          to_come = s.behind;
          all_parts =
              append_assoc k.so_far (payload_bytes p ∷ []) s.behind
              ∙ ap (λ (l : List Bytes). k.so_far ++ l) (sym own)
              ∙ k.all_parts;
          has =
              longer
              ∙ ap (λ (bytes : Bytes). bytes ++ payload_bytes p) k.has
              ∙ sym (join_one k.so_far (payload_bytes p));
          delivers =
              subst (λ (seq : ℕ). Delivers seq s.behind ps) (sym further)
                (taken (subst (λ (l : List Bytes). Delivers r.next_seq l (p ∷ ps)) own k.delivers));
        }
  ]

  add_segments_waiting :
      (r : TcpReassembler) (ps : List Packet)
      → IsWaiting isn parts r ps
      → AreParts isn parts ps
      → (r' : TcpReassembler) × (add_segments r ps ≡ done r') × (r'.stream ≡ join parts)
  unfolding add_segments
  add_segments_waiting r [] k s = (
    r,
    refl,
    k.has
        ∙ ap join (
            sym (append-nil k.so_far)
            ∙ ap (λ (l : List Bytes). k.so_far ++ l) (sym (all_delivered k.delivers))
            ∙ k.all_parts),
  )
  add_segments_waiting r (p ∷ ps) k (s, own) =
      rw (add_segment_later isn r p true k.is_stream s.has_payload) (
        add_segments_waiting (absorb r p.tcp_seq (payload_bytes p)) ps (absorb-IsWaiting r p ps k s)
          own)

  -- A sender cuts its bytes (fewer than 2 ^ 32) into parts, none of them empty, and sends each as
  -- often as it likes, the first one before all others: if each part comes at some time after the
  -- one before it did, then the reassembler has all the bytes, whatever repeated or early segments
  -- come between.
  pub reassemble_retransmitted :
      (p : Packet) (ps : List Packet)
      → p.tcp_seq ≡ isn
      → isn < 2 ^ 32
      → AreParts isn parts (p ∷ ps)
      → Delivers isn parts (p ∷ ps)
      → (r : TcpReassembler) × (add_segments empty_reassembler (p ∷ ps) ≡ done r)
        × (r.stream ≡ join parts)
  unfolding add_segments
  reassemble_retransmitted p ps first in_range (s, own) d =
      rw (add_segment_lem empty_reassembler p true s.has_payload) (
        add_segments_waiting (absorb (started empty_reassembler p) p.tcp_seq (payload_bytes p)) ps
          (absorb-IsWaiting (started empty_reassembler p) p ps begun s) own)
    where
      begun : IsWaiting isn parts (started empty_reassembler p) (p ∷ ps)
      begun = record {
        is_stream = record { is_started = refl; next_is = first ∙ omega arith };
        so_far = [];
        to_come = parts;
        all_parts = refl;
        has = refl;
        delivers = subst (λ (seq : ℕ). Delivers seq parts (p ∷ ps)) (sym first) d;
      }
