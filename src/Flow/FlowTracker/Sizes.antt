-- ===== src/Flow/FlowTracker/Sizes.antt =====
-- How much the flows can hold: never more than the payloads of the packets that came.
use gateway_forge.Common.{
  ℕ, ◌+◌, ◌≤◌, ◌≡◌, ◌≢◌, refl, Bool, sym, ap, subst, ◌∙◌, true, false, none, some, List, [], ◌∷◌,
  ◌++◌, arith, inl, inr, Bool-cases, Option-cases, length, length-append,
}
use gateway_forge.Common.Words.{Bytes}
use gateway_forge.Common.Outcome.{Outcome, done, ◌>>=◌, >>=-eq-done, done_injective}
use gateway_forge.Pcap.Packet.{
  Packet, TransportProtocol, tcp, udp, unknown, HasPayload, copy_packet_lem,
}
use gateway_forge.Flow.FlowKey.{FlowKey, key_eq}
use gateway_forge.Flow.TcpReassembler.{TcpReassembler, started, add_segment}
use gateway_forge.Flow.TcpReassembler.Stream.{payload_bytes, absorb, add_segment_lem}
use gateway_forge.Flow.TcpFlow.{TcpFlow, tcp_on_packet}
use gateway_forge.Flow.TcpFlow.Directions.{is_side, side_of, tcp_on_packet-side}
use gateway_forge.Flow.UdpFlow.{add_datagram, udp_on_packet}
use gateway_forge.Flow.FlowTracker.{
  Flow, of_tcp, of_udp, Flows, flow_on_packet, find_flow, set_flow, make_key, target_flow,
  on_packet,
}
use gateway_forge.Flow.FlowTracker.Totals.{on_packets}
use gateway_forge.Flow.FlowTracker.Packets.{on_packet-Returns}
use gateway_forge.Flow.FlowTracker.History.{on_packet-inverted}

-- Packets that the tracker can take.
abbrev pub AreSound : List Packet → Type 0
AreSound [] = Unit {0}
AreSound (p ∷ ps) = (p.protocol ≢ unknown) × HasPayload p × AreSound ps

abbrev pub total_bytes : List Packet → ℕ
total_bytes [] = 0
total_bytes (p ∷ ps) = length (payload_bytes p) + total_bytes ps

-- Datagrams with payloads of at most `n` bytes.
abbrev pub AreWithin : ℕ → List Packet → Type 0
AreWithin n [] = Unit {0}
AreWithin n (d ∷ ds) = ((h : HasPayload d) × (h.buffer.size ≤ n)) × AreWithin n ds

-- No stream and no datagram of the flow is longer than this.
abbrev pub IsWithin : ℕ → Flow → Type 0
IsWithin n (of_tcp f) =
    (length f.client_to_server.stream ≤ n) × (length f.server_to_client.stream ≤ n)
IsWithin n (of_udp f) = AreWithin n f.tracker.datagrams

abbrev pub AllWithin : ℕ → Flows → Type 0
AllWithin n [] = Unit {0}
AllWithin n ((key, f) ∷ flows) = IsWithin n f × AllWithin n flows

AreWithin-mono : (n m : ℕ) (ds : List Packet) → n ≤ m → AreWithin n ds → AreWithin m ds
AreWithin-mono n m [] le w = tt
AreWithin-mono n m (d ∷ ds) le ((h, small), w) = ((h, omega arith), AreWithin-mono n m ds le w)

AreWithin-append :
    (n : ℕ) (ds : List Packet) (p : Packet) (h : HasPayload p)
    → h.buffer.size ≤ n
    → AreWithin n ds
    → AreWithin n (ds ++ (p ∷ []))
AreWithin-append n [] p h small w = ((h, small), tt)
AreWithin-append n (d ∷ ds) p h small (v, w) = (v, AreWithin-append n ds p h small w)

IsWithin-mono : (n m : ℕ) (f : Flow) → n ≤ m → IsWithin n f → IsWithin m f
IsWithin-mono n m (of_tcp f) le (c, s) = (omega arith, omega arith)
IsWithin-mono n m (of_udp f) le w = AreWithin-mono n m f.tracker.datagrams le w

AllWithin-mono : (n m : ℕ) (flows : Flows) → n ≤ m → AllWithin n flows → AllWithin m flows
AllWithin-mono n m [] le w = tt
AllWithin-mono n m ((key, f) ∷ flows) le (v, w) =
    (IsWithin-mono n m f le v, AllWithin-mono n m flows le w)

absorb_length :
    (r : TcpReassembler) (p : Packet) (bytes : Bytes)
    → length (absorb (started r p) p.tcp_seq bytes).stream ≤ length r.stream + length bytes
absorb_length r p bytes = ground (arith, length-append r.stream bytes)

add_segment_length :
    (r : TcpReassembler) (p : Packet) (way : Bool) {r' : TcpReassembler}
    → HasPayload p
    → add_segment r p way ≡ done r'
    → length r'.stream ≤ length r.stream + length (payload_bytes p)
add_segment_length r p way h e =
    subst (λ (q : TcpReassembler). length q.stream ≤ length r.stream + length (payload_bytes p))
      (done_injective (sym (add_segment_lem r p way h) ∙ e)) (absorb_length r p (payload_bytes p))

pub payload_size_lem : (p : Packet) (h : HasPayload p) → h.buffer.size ≡ length (payload_bytes p)
payload_size_lem p h = ground (arith, h.present, h.valid.allocated, h.valid.sized)

side_length :
    (n : ℕ) (side : Bool) (f : TcpFlow) (p : Packet) {g : TcpFlow}
    → HasPayload p
    → tcp_on_packet f p ≡ done g
    → length (side_of side f).stream ≤ n
    → length (side_of side g).stream ≤ n + length (payload_bytes p)
side_length n side f p {g} h e small =
    let (_, step) = tcp_on_packet-side side f p e in
    elim (Bool-cases (is_side f.key side p)) [
      | inl own ↦ omega (arith, add_segment_length (side_of side f) p true h (rw own at step))
      | inr other ↦
          omega (
            arith,
            ap (λ (r : TcpReassembler). length r.stream) (done_injective (rw other at step)),
          )
    ]

flow_on_packet-IsWithin :
    (n : ℕ) (f : Flow) (p : Packet) {g : Flow}
    → HasPayload p
    → IsWithin n f
    → flow_on_packet f p ≡ done g
    → IsWithin (n + length (payload_bytes p)) g
unfolding flow_on_packet udp_on_packet add_datagram
flow_on_packet-IsWithin n (of_tcp f) p h (c, s) e =
    let (g, step, made) = >>=-eq-done (tcp_on_packet f p) _ e in
    subst (IsWithin (n + length (payload_bytes p))) (done_injective made)
      (side_length n true f p h step c, side_length n false f p h step s)
flow_on_packet-IsWithin n (of_udp f) p h w e =
    subst (IsWithin (n + length (payload_bytes p))) (done_injective (rw (copy_packet_lem p h) at e))
      (AreWithin-append _ f.tracker.datagrams p h (omega (arith, payload_size_lem p h))
        (AreWithin-mono n _ f.tracker.datagrams (omega arith) w))

set_flow-AllWithin :
    (n : ℕ) (key : FlowKey) (flow : Flow) (flows : Flows)
    → IsWithin n flow
    → AllWithin n flows
    → AllWithin n (set_flow key flow flows)
unfolding set_flow
set_flow-AllWithin n key flow [] v w = (v, tt)
set_flow-AllWithin n key flow ((j, f) ∷ flows) v (v', w) = elim (Bool-cases (key_eq j key)) [
  | inl hit ↦ rw hit (v, w)
  | inr miss ↦ rw miss (v', set_flow-AllWithin n key flow flows v w)
]

find_flow-IsWithin :
    (n : ℕ) (key : FlowKey) (flows : Flows) {f : Flow}
    → AllWithin n flows
    → find_flow key flows ≡ some f
    → IsWithin n f
unfolding find_flow
find_flow-IsWithin n key [] w h = cc
find_flow-IsWithin n key ((j, g) ∷ flows) {f} (v, w) h = elim (Bool-cases (key_eq j key)) [
  | inl hit ↦ subst (IsWithin n) (ground (arith, hit, h)) v
  | inr miss ↦ find_flow-IsWithin n key flows w (rw miss at h)
]

target_flow-IsWithin :
    (n : ℕ) (key : FlowKey) (protocol : TransportProtocol) (flows : Flows) {f : Flow}
    → AllWithin n flows
    → target_flow key protocol (find_flow key flows) ≡ done f
    → IsWithin n f
target_flow-IsWithin n key protocol flows {f} w h = elim (Option-cases (find_flow key flows)) [
  | inl new ↦ fresh protocol (ap (target_flow key protocol) (sym new) ∙ h)
  | inr (g, old) ↦
      find_flow-IsWithin n key flows w
        (old ∙ ap some (done_injective (ap (target_flow key protocol) (sym old) ∙ h)))
]
  where
    fresh : (t : TransportProtocol) → target_flow key t none ≡ done f → IsWithin n f
    fresh tcp e = subst (IsWithin n) (done_injective e) (omega arith, omega arith)
    fresh udp e = subst (IsWithin n) (done_injective e) tt
    fresh unknown e = cc

on_packet-AllWithin :
    (n : ℕ) (flows : Flows) (p : Packet) {flows' : Flows}
    → HasPayload p
    → AllWithin n flows
    → on_packet flows p ≡ done flows'
    → AllWithin (n + length (payload_bytes p)) flows'
on_packet-AllWithin n flows p h w e =
    let (target, flow, found, stepped, written) = on_packet-inverted flows p e in
    subst (AllWithin (n + length (payload_bytes p))) (sym written) (
      set_flow-AllWithin _ (make_key p) flow flows
        (flow_on_packet-IsWithin n target p h
          (target_flow-IsWithin n (make_key p) p.protocol flows w found) stepped)
        (AllWithin-mono n _ flows (omega arith) w))

-- Whatever flows there are, with no stream and no datagram longer than `n`: the tracker takes any
-- packets of known protocols that have payloads, and then no stream and no datagram is longer than
-- `n` and all their payloads together.
pub on_packets-AllWithin :
    (n : ℕ) (flows : Flows) (ps : List Packet)
    → AreSound ps
    → AllWithin n flows
    → (flows' : Flows) × (on_packets flows ps ≡ done flows') × AllWithin (n + total_bytes ps) flows'
unfolding on_packets
on_packets-AllWithin n flows [] s w = (flows, refl, AllWithin-mono n _ flows (omega arith) w)
on_packets-AllWithin n flows (p ∷ ps) (known, h, s) w =
    let (next, first) = on_packet-Returns flows p known h in
    let (flows', rest, within) =
      on_packets-AllWithin (n + length (payload_bytes p)) next ps s
        (on_packet-AllWithin n flows p h w first) in
    (
      flows',
      ap (λ (m : Outcome Flows). m >>= λ fs. on_packets fs ps) first ∙ rest,
      AllWithin-mono _ _ flows' (omega arith) within,
    )
