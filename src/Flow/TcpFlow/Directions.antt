-- ===== src/Flow/TcpFlow/Directions.antt =====
-- A TCP flow and its packets: each direction is a reassembler of its own.
use gateway_forge.Common.{
  ℕ, ◌+◌, ◌^◌, ◌<◌, ◌≡◌, ◌==◌, length, refl, sym, ap, ◌∙◌, Bool, true, false, List, [], ◌∷◌, arith,
  not, ◌&&◌, if◌then◌else◌, inl, inr, Bool-cases,
}
use gateway_forge.Common.Words.{Bytes}
use gateway_forge.Common.Text.{text_eq}
use gateway_forge.Common.Outcome.{Outcome, done, ◌>>=◌, >>=-eq-done, done_injective}
use gateway_forge.Pcap.Packet.{Packet}
use gateway_forge.Flow.FlowKey.{FlowKey}
use gateway_forge.Flow.TcpReassembler.{TcpReassembler, empty_reassembler, add_segment}
use gateway_forge.Flow.TcpReassembler.Stream.{
  add_segments, InOrder, concat_payloads, reassemble-InOrder,
}
use gateway_forge.Flow.TcpReassembler.Retransmission.{
  join, NoneEmpty, AreParts, Delivers, reassemble_retransmitted,
}
use gateway_forge.Flow.TcpFlow.{TcpFlow, new_tcp_flow, is_client_side, tcp_on_packet}

unfoldable pub run_tcp : TcpFlow → List Packet → Outcome TcpFlow
run_tcp f [] = done f
run_tcp f (p ∷ ps) = do g ← tcp_on_packet f p; run_tcp g ps

-- The packets that come from the key's source, and the others.
abbrev pub is_side : FlowKey → Bool → Packet → Bool
is_side key true p = text_eq p.src_ip key.src_ip && p.src_port == key.src_port
is_side key false p = not (text_eq p.src_ip key.src_ip && p.src_port == key.src_port)

-- The packets of one direction, in order.
unfoldable pub side_packets : FlowKey → Bool → List Packet → List Packet
side_packets key side [] = []
side_packets key side (p ∷ ps) =
    let rest = side_packets key side ps in if is_side key side p then p ∷ rest else rest

abbrev pub side_of : Bool → TcpFlow → TcpReassembler
side_of true f = f.client_to_server
side_of false f = f.server_to_client

add_segment_either :
    (r : TcpReassembler) (p : Packet) (way : Bool) → add_segment r p way ≡ add_segment r p true
unfolding add_segment
add_segment_either r p way = refl

abbrev pub StepOf : Bool → TcpFlow → Packet → TcpFlow → Type 0
StepOf side f p g =
    (g.key ≡ f.key)
    × ((if is_side f.key side p then add_segment (side_of side f) p true else done (side_of side f))
        ≡ done (side_of side g))

pub tcp_on_packet-side :
    (side : Bool) (f : TcpFlow) (p : Packet) {g : TcpFlow}
    → tcp_on_packet f p ≡ done g
    → StepOf side f p g
unfolding tcp_on_packet
tcp_on_packet-side true f p h = elim (Bool-cases (is_client_side f p)) [
  | inl client ↦
      let (r, added, made) =
        >>=-eq-done (add_segment f.client_to_server p true) _ (rw client at h) in
      ground (arith, client, added, made)
  | inr server ↦
      let (r, added, made) =
        >>=-eq-done (add_segment f.server_to_client p false) _ (rw server at h) in
      ground (arith, server, made)
]
tcp_on_packet-side false f p h = elim (Bool-cases (is_client_side f p)) [
  | inl client ↦
      let (r, added, made) =
        >>=-eq-done (add_segment f.client_to_server p true) _ (rw client at h) in
      ground (arith, client, made)
  | inr server ↦
      let (r, added, made) =
        >>=-eq-done (add_segment f.server_to_client p false) _ (rw server at h) in
      ground (arith, server, add_segment_either f.server_to_client p false, added, made)
]

-- Each direction of a flow is what its own packets make of it, in their order, whatever packets of
-- the other direction come between them.
pub run_tcp-side :
    (side : Bool) (f : TcpFlow) (ps : List Packet) {g : TcpFlow}
    → run_tcp f ps ≡ done g
    → (g.key ≡ f.key)
      × (add_segments (side_of side f) (side_packets f.key side ps) ≡ done (side_of side g))
unfolding run_tcp side_packets add_segments
run_tcp-side side f [] h =
    let same = done_injective h in
    (ap (λ (e : TcpFlow). e.key) (sym same), ap (λ (e : TcpFlow). done (side_of side e)) same)
run_tcp-side side f (p ∷ ps) {g} h =
    let (next, first, rest) = >>=-eq-done (tcp_on_packet f p) _ h in
    let (kept, step) = tcp_on_packet-side side f p first in
    let (kept', steps) = run_tcp-side side next ps rest in
    let later : add_segments (side_of side next) (side_packets f.key side ps)
        ≡ done (side_of side g) =
      ap (λ (k : FlowKey). add_segments (side_of side next) (side_packets k side ps)) (sym kept)
      ∙ steps in
    (
      kept' ∙ kept,
      elim (Bool-cases (is_side f.key side p)) [
        | inl own ↦ rw own (rw (rw own at step) later)
        | inr other ↦ rw other (
            ap (λ (r : TcpReassembler). add_segments r (side_packets f.key side ps))
              (done_injective (rw other at step))
            ∙ later)
      ],
    )

pub side_of-new :
    (key : FlowKey) (side : Bool) → side_of side (new_tcp_flow key) ≡ empty_reassembler
side_of-new key true = refl
side_of-new key false = refl

-- A direction of a new flow is what its packets make of an empty reassembler.
pub side_reassembled :
    (key : FlowKey) (side : Bool) (ps : List Packet) {qs : List Packet} {f : TcpFlow}
    {r : TcpReassembler}
    → run_tcp (new_tcp_flow key) ps ≡ done f
    → side_packets key side ps ≡ qs
    → add_segments empty_reassembler qs ≡ done r
    → r ≡ side_of side f
side_reassembled key side ps run own made = done_injective (
    sym made
    ∙ sym (λ i. add_segments (side_of-new key side i) (own i))
    ∙ (run_tcp-side side (new_tcp_flow key) ps run).1)

-- What a capture may have of one direction whose bytes it has in full: no packet, and there are no
-- bytes; packets in order with these bytes; or packets with parts of them, repeated until each has
-- come in its turn.
pub data IsSide (key : FlowKey) (side : Bool) (ps : List Packet) (bytes : Bytes) : Type 0 where
  silent : side_packets key side ps ≡ [] → bytes ≡ [] → IsSide key side ps bytes
  ordered :
      (p : Packet) (rest : List Packet)
      → side_packets key side ps ≡ p ∷ rest
      → p.tcp_seq < 2 ^ 32
      → InOrder p.tcp_seq (p ∷ rest)
      → bytes ≡ concat_payloads (p ∷ rest)
      → IsSide key side ps bytes
  repeated :
      (p : Packet) (rest : List Packet) (parts : List Bytes)
      → side_packets key side ps ≡ p ∷ rest
      → p.tcp_seq < 2 ^ 32
      → NoneEmpty parts
      → length (join parts) < 2 ^ 32
      → AreParts p.tcp_seq parts (p ∷ rest)
      → Delivers p.tcp_seq parts (p ∷ rest)
      → bytes ≡ join parts
      → IsSide key side ps bytes

pub reassembled_side :
    (key : FlowKey) (side : Bool) (ps : List Packet) (bytes : Bytes) {f : TcpFlow}
    → run_tcp (new_tcp_flow key) ps ≡ done f
    → IsSide key side ps bytes
    → (side_of side f).stream ≡ bytes
unfolding add_segments
reassembled_side key side ps bytes {f} run (silent own e) =
    sym (ap (λ (r : TcpReassembler). r.stream) (side_reassembled key side ps run own refl)) ∙ sym e
reassembled_side key side ps bytes {f} run (ordered p rest own small o e) =
    sym (
      ap (λ (r : TcpReassembler). r.stream)
        (side_reassembled key side ps run own (reassemble-InOrder p rest small o)))
    ∙ sym e
reassembled_side key side ps bytes {f} run (repeated p rest parts own small n short a d e) =
    let (r, made, all) = reassemble_retransmitted p.tcp_seq parts n short p rest refl small a d in
    sym (ap (λ (q : TcpReassembler). q.stream) (side_reassembled key side ps run own made))
    ∙ all
    ∙ sym e

tcp_on_packet_times :
    (f : TcpFlow) (p : Packet) {g : TcpFlow}
    → tcp_on_packet f p ≡ done g
    → (g.packet_count ≡ f.packet_count + 1)
      × (g.first_seen ≡ (if f.packet_count == 0 then p.timestamp_us else f.first_seen))
      × (g.last_seen ≡ p.timestamp_us)
unfolding tcp_on_packet
tcp_on_packet_times f p h = elim (Bool-cases (is_client_side f p)) [
  | inl client ↦
      let (r, added, made) =
        >>=-eq-done (add_segment f.client_to_server p true) _ (rw client at h) in
      ground (arith, made)
  | inr server ↦
      let (r, added, made) =
        >>=-eq-done (add_segment f.server_to_client p false) _ (rw server at h) in
      ground (arith, made)
]

abbrev last_time : ℕ → List Packet → ℕ
last_time t [] = t
last_time t (p ∷ ps) = last_time p.timestamp_us ps

run_tcp_times :
    (f : TcpFlow) (ps : List Packet) {g : TcpFlow}
    → run_tcp f ps ≡ done g
    → 0 < f.packet_count
    → (g.packet_count ≡ f.packet_count + length ps)
      × (g.first_seen ≡ f.first_seen)
      × (g.last_seen ≡ last_time f.last_seen ps)
unfolding run_tcp
run_tcp_times f [] h some_before = ground (arith, done_injective h)
run_tcp_times f (p ∷ ps) h some_before =
    let (next, first, rest) = >>=-eq-done (tcp_on_packet f p) _ h in
    let (one, kept, last) = tcp_on_packet_times f p first in
    let (count, kept', last') = run_tcp_times next ps rest (omega (arith, one)) in
    (
      omega (arith, count, one),
      kept' ∙ ground (arith, kept),
      last' ∙ ap (λ (t : ℕ). last_time t ps) last,
    )

-- A flow that has taken these packets since it was made has counted them, and has the times of the
-- first and of the last of them.
pub run_tcp-new_times :
    (key : FlowKey) (p : Packet) (ps : List Packet) {g : TcpFlow}
    → run_tcp (new_tcp_flow key) (p ∷ ps) ≡ done g
    → (g.packet_count ≡ 1 + length ps)
      × (g.first_seen ≡ p.timestamp_us)
      × (g.last_seen ≡ last_time p.timestamp_us ps)
unfolding run_tcp
run_tcp-new_times key p ps h =
    let (next, first, rest) = >>=-eq-done (tcp_on_packet (new_tcp_flow key) p) _ h in
    let (one, seen, last) = tcp_on_packet_times (new_tcp_flow key) p first in
    let (count, kept, last') = run_tcp_times next ps rest (omega (arith, one)) in
    (omega (arith, count, one), kept ∙ seen, last' ∙ ap (λ (t : ℕ). last_time t ps) last)
