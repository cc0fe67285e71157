-- ===== src/Flow/FlowTracker/Keys.antt =====
-- The map of the tracker: which flow a key finds, and that every flow stands under its own key.
use gateway_forge.Common.{
  ℕ, ◌+◌, ◌≡◌, ◌≢◌, refl, sym, ap, subst, ◌∙◌, ◌⊎◌, inl, inr, Option, none, some, [], ◌∷◌, arith,
  if◌then◌else◌, Bool-cases, Option-cases, length-append,
}
use gateway_forge.Common.Outcome.{done, >>=-eq-done, Outcome-cases}
use gateway_forge.Pcap.Packet.{Packet, TransportProtocol, tcp, udp, unknown, copy_packet}
use gateway_forge.Flow.FlowKey.{FlowKey, key_eq, key_eq_iff, normalized}
use gateway_forge.Flow.FlowKey.Normal.{normalized_idem, normalized_protocol}
use gateway_forge.Flow.TcpFlow.{tcp_on_packet}
use gateway_forge.Flow.UdpFlow.{udp_on_packet}
use gateway_forge.Flow.FlowTracker.{
  Flow, of_tcp, of_udp, Flows, flow_key, flow_protocol, packet_count, flow_on_packet, find_flow,
  set_flow, make_key, new_flow, target_flow, on_packet,
}

-- A flow keeps its class and its key, and counts the packet.
pub flow_on_packet_keeps :
    (f : Flow) (p : Packet) {g : Flow}
    → flow_on_packet f p ≡ done g
    → (flow_key g ≡ flow_key f)
      × (flow_protocol g ≡ flow_protocol f)
      × (packet_count g ≡ packet_count f + 1)
unfolding flow_on_packet tcp_on_packet udp_on_packet
flow_on_packet_keeps (of_tcp f) p h = ground arith
flow_on_packet_keeps (of_udp f) p h = elim (Outcome-cases (copy_packet p)) [
  | inl (c, e) ↦ ground (arith, length-append f.tracker.datagrams (c ∷ []))
  | inr (x, e) ↦ ground arith
]

-- What a key finds after a write.
pub find_flow-set_flow :
    (key j : FlowKey) (flow : Flow) (flows : Flows)
    → find_flow j (set_flow key flow flows)
      ≡ (if key_eq key j then some flow else find_flow j flows)
unfolding find_flow set_flow
find_flow-set_flow key j flow [] = refl
find_flow-set_flow key j flow ((i, f) ∷ flows) =
    ground (
      arith,
      key_eq_iff i key,
      key_eq_iff i j,
      key_eq_iff key j,
      find_flow-set_flow key j flow flows,
    )

abbrev Absent : FlowKey → Flows → Type 0
Absent key [] = Unit {0}
Absent key ((j, f) ∷ flows) = (j ≢ key) × Absent key flows

-- A flow of the class that the protocol of its key names, under its own key, which is normalised.
pub record IsEntry (key : FlowKey) (f : Flow) : Type 0 where
  pub own_key : flow_key f ≡ key
  pub own_protocol : flow_protocol f ≡ key.protocol
  pub is_normal : normalized key ≡ key

-- Every key has one entry, and every flow stands under its own key.
abbrev pub IsTracker : Flows → Type 0
IsTracker [] = Unit {0}
IsTracker ((j, f) ∷ flows) = IsEntry j f × Absent j flows × IsTracker flows

set_flow-Absent :
    (key j : FlowKey) (flow : Flow) (flows : Flows)
    → key ≢ j
    → Absent j flows
    → Absent j (set_flow key flow flows)
unfolding set_flow
set_flow-Absent key j flow [] ne a = (ne, tt)
set_flow-Absent key j flow ((i, f) ∷ flows) ne a =
    ground (arith, set_flow-Absent key j flow flows ne a.1)

set_flow-IsTracker :
    (key : FlowKey) (flow : Flow) (flows : Flows)
    → IsEntry key flow
    → IsTracker flows
    → IsTracker (set_flow key flow flows)
unfolding set_flow
set_flow-IsTracker key flow [] e t = (e, tt, tt)
set_flow-IsTracker key flow ((i, f) ∷ flows) e (g, a, t) = elim (Bool-cases (key_eq i key)) [
  | inl hit ↦
      rw hit (subst (λ (k : FlowKey). IsEntry k flow) (sym ((key_eq_iff i key).0 hit)) e, a, t)
  | inr miss ↦ rw miss (
    g,
    set_flow-Absent key i flow flows (λ p. ground (arith, key_eq_iff i key)) a,
    set_flow-IsTracker key flow flows e t,
  )
]

pub find_flow-IsEntry :
    (key : FlowKey) (flows : Flows) {f : Flow}
    → IsTracker flows
    → find_flow key flows ≡ some f
    → IsEntry key f
unfolding find_flow
find_flow-IsEntry key [] t h = cc
find_flow-IsEntry key ((i, g) ∷ flows) (e, a, t) h = elim (Bool-cases (key_eq i key)) [
  | inl hit ↦ ground (arith, key_eq_iff i key)
  | inr miss ↦ find_flow-IsEntry key flows t (rw miss at h)
]

pub make_key_protocol : (p : Packet) → (make_key p).protocol ≡ p.protocol
unfolding make_key
make_key_protocol p = normalized_protocol _

pub make_key_normal : (p : Packet) → normalized (make_key p) ≡ make_key p
unfolding make_key
make_key_normal p = normalized_idem _

new_flow-IsEntry :
    (protocol : TransportProtocol) (key : FlowKey) {f : Flow}
    → key.protocol ≡ protocol
    → normalized key ≡ key
    → new_flow protocol key ≡ some f
    → IsEntry key f
new_flow-IsEntry tcp key e n h = ground arith
new_flow-IsEntry udp key e n h = ground arith
new_flow-IsEntry unknown key e n h = cc

pub target_flow-IsEntry :
    (flows : Flows) (p : Packet) {f : Flow}
    → IsTracker flows
    → target_flow (make_key p) p.protocol (find_flow (make_key p) flows) ≡ done f
    → IsEntry (make_key p) f
target_flow-IsEntry flows p {f} t h = elim (Option-cases (find_flow (make_key p) flows)) [
  | inl new ↦
      new_flow-IsEntry p.protocol (make_key p) (make_key_protocol p) (make_key_normal p)
        (ground (arith, new, h))
  | inr (g, old) ↦ find_flow-IsEntry (make_key p) flows t (ground (arith, old, h))
]

-- `OnPacket` that returns: the packet's flow, made or found, after the packet, is written back.
pub on_packet_lem :
    (flows : Flows) (p : Packet) {flows' : Flows}
    → IsTracker flows
    → on_packet flows p ≡ done flows'
    → (target flow : Flow) × (target_flow (make_key p) p.protocol (find_flow (make_key p) flows)
        ≡ done target)
      × IsEntry (make_key p) flow
      × (packet_count flow ≡ packet_count target + 1)
      × (flows' ≡ set_flow (make_key p) flow flows)
unfolding on_packet
on_packet_lem flows p t h =
    let (target, found, rest) =
      >>=-eq-done (target_flow (make_key p) p.protocol (find_flow (make_key p) flows)) _ h in
    let (flow, stepped, written) = >>=-eq-done (flow_on_packet target p) _ rest in
    let e = target_flow-IsEntry flows p t found in
    let k = flow_on_packet_keeps target p stepped in
    (
      target,
      flow,
      found,
      record {
        own_key = k.0 ∙ e.own_key;
        own_protocol = k.1 ∙ e.own_protocol;
        is_normal = e.is_normal;
      },
      k.2,
      cc,
    )

-- `OnPacket`, when it returns, keeps the map well formed: one entry for each key, every key
-- normalised, and under it a flow with that key and of the class that the key's protocol names.
pub on_packet-IsTracker :
    (flows : Flows) (p : Packet) {flows' : Flows}
    → IsTracker flows
    → on_packet flows p ≡ done flows'
    → IsTracker flows'
on_packet-IsTracker flows p t h =
    let (_, flow, _, entry, _, written) = on_packet_lem flows p t h in
    rw written (set_flow-IsTracker (make_key p) flow flows entry t)

abbrev pub counted : Option Flow → ℕ
counted none = 0
counted (some f) = packet_count f

pub target_flow_count :
    (key : FlowKey) (protocol : TransportProtocol) (found : Option Flow) {target : Flow}
    → target_flow key protocol found ≡ done target
    → packet_count target ≡ counted found
target_flow_count key protocol (some f) h = ground arith
target_flow_count key tcp none h = ground arith
target_flow_count key udp none h = ground arith
target_flow_count key unknown none h = cc

-- `OnPacket` on a well-formed map, when it returns, counts the packet in the flow of its own key,
-- which is made if need be, and every other key finds the flow that it found before.
pub find_flow-on_packet :
    (flows : Flows) (p : Packet) {flows' : Flows}
    → IsTracker flows
    → on_packet flows p ≡ done flows'
    → ((flow : Flow) × (find_flow (make_key p) flows' ≡ some flow)
        × (flow_key flow ≡ make_key p)
        × (flow_protocol flow ≡ p.protocol)
        × (packet_count flow ≡ counted (find_flow (make_key p) flows) + 1))
      × ((j : FlowKey) → (j ≡ make_key p) ⊎ (find_flow j flows' ≡ find_flow j flows))
find_flow-on_packet flows p t h =
    let (target, flow, found, entry, plus_one, written) = on_packet_lem flows p t h in
    let own = find_flow-set_flow (make_key p) (make_key p) flow flows in
    (
      (
        flow,
        ground (arith, written, own, key_eq_iff (make_key p) (make_key p)),
        entry.own_key,
        entry.own_protocol ∙ make_key_protocol p,
        plus_one
            ∙ ap (λ (n : ℕ). n + 1) (target_flow_count _ _ (find_flow (make_key p) flows) found),
      ),
      λ j.
          ground (
            arith,
            written,
            find_flow-set_flow (make_key p) j flow flows,
            key_eq_iff (make_key p) j,
          ),
    )
