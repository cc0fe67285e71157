-- ===== src/Cli/Commands/Decode.antt =====
-- The command `decode` from the capture to the text that it writes.
use gateway_forge.Common.{
  ℕ, ◌+◌, ◌≡◌, ◌≢◌, refl, drop, ap, ◌∙◌, Bool, not, Option, none, some, List, [], ◌∷◌, ◌++◌, arith,
  ltb, ◌==◌, if◌then◌else◌, length, Bool-cases, inl, inr,
}
use gateway_forge.Common.Words.{Bytes, sub64}
use gateway_forge.Common.Text.{Text}
use gateway_forge.Common.Outcome.{Outcome, done, fails, ◌>>=◌, >>=-eq-done}
use gateway_forge.Buffer.{of_data}
use gateway_forge.Pcap.Packet.{
  Packet, TransportProtocol, tcp, udp, unknown, protocol_eq, set_payload,
}
use gateway_forge.Pcap.Headers.{proto_tcp, proto_udp}
use gateway_forge.Pcap.Parser.{
  parse, parse_network, parse_ethernet, parse_ipv4, parse_transport, parse_tcp, parse_udp,
  finish_payload, or_null,
}
use gateway_forge.Pcap.Reader.{PacketHeader, PcapReader, NextResult, end_of_file, for_each_packet}
use gateway_forge.Pcap.Reader.Loop.{
  AreComplete, successes, packets_of, prepend, call_all, read_loop_complete, open_reader_lem,
}
use gateway_forge.Protocol.Schema.{ProtocolSchema}
use gateway_forge.Flow.FlowTracker.{Flows, on_packet, get_flows}
use gateway_forge.Flow.FlowTracker.Totals.{on_packets}
use gateway_forge.Timeline.Builder.{build}
use gateway_forge.Timeline.Printer.{print_events}
use gateway_forge.Cli.Commands.{Exit, track, flow_summary, decode_opened, decode_capture}

or_null-eq-some :
    {A B : Type 0} (m : Outcome (Option A)) (f : A → Outcome (Option B)) {b : B}
    → or_null m f ≡ done (some b)
    → (a : A) × (f a ≡ done (some b))
or_null-eq-some (done none) f h = cc
or_null-eq-some (done (some a)) f h = (a, h)
or_null-eq-some (fails e) f h = cc

set_payload-protocol :
    (p : Packet) (block : Bytes) (len : ℕ) {q : Packet}
    → set_payload p (some block) len ≡ done q
    → q.protocol ≡ p.protocol
unfolding set_payload
set_payload-protocol p block len h = elim (Bool-cases (ltb 0 len)) [
  | inl some_bytes ↦
      let (b, copied, last) = >>=-eq-done (of_data (some block) len) _ (rw some_bytes at h) in
      ground (arith, last)
  | inr no_bytes ↦ ground (arith, no_bytes, h)
]

finish_payload-protocol :
    (block : Bytes) (len offset : ℕ) (packet : Packet) {p : Packet}
    → finish_payload block len offset packet ≡ done (some p)
    → p.protocol ≡ packet.protocol
unfolding finish_payload
finish_payload-protocol block len offset packet h = elim (Bool-cases (ltb offset len)) [
  | inl more ↦
      let (q, set, last) =
        >>=-eq-done (set_payload packet (some (drop offset block)) (sub64 len offset)) _
          (rw more at h) in
      ground (arith, last, set_payload-protocol packet (drop offset block) (sub64 len offset) set)
  | inr nothing ↦ ground (arith, nothing, h)
]

parse_transport_known :
    (block : Bytes) (len offset protocol : ℕ) (packet : Packet) {p : Packet}
    → parse_transport block len offset protocol packet ≡ done (some p)
    → p.protocol ≢ unknown
unfolding parse_transport
parse_transport_known block len offset protocol packet h =
    elim (Bool-cases (protocol == proto_tcp)) [
      | inl is_tcp ↦
          let (header, e) =
            or_null-eq-some (parse_tcp block offset (sub64 len offset)) _ (rw is_tcp at h) in
          λ u. ground (arith, finish_payload-protocol block len _ _ e)
      | inr not_tcp ↦ elim (Bool-cases (protocol == proto_udp)) [
        | inl is_udp ↦
            let (header, e) =
              or_null-eq-some (parse_udp block offset (sub64 len offset)) _
                (rw (not_tcp, is_udp) at h) in
            λ u. ground (arith, finish_payload-protocol block len _ _ e)
        | inr not_udp ↦ absurd (ground (arith, not_tcp, not_udp))
      ]
    ]

-- A packet that the parser gives is TCP or UDP.
parse_known :
    (block : Option Bytes) (len : ℕ) {p : Packet}
    → parse block len ≡ done (some p)
    → p.protocol ≢ unknown
unfolding parse parse_network
parse_known none len h = cc
parse_known (some block) len h = elim (Bool-cases (len == 0)) [
  | inl empty ↦ absurd (ground (arith, empty))
  | inr some_data ↦
      let (eth, h1) = or_null-eq-some (parse_ethernet block 0 len) _ (rw some_data at h) in
      let (ip, h2) = or_null-eq-some (parse_ipv4 block 14 (sub64 len 14)) _ h1 in
      parse_transport_known block len _ _ _ h2
]

abbrev AllKnown : List Packet → Type 0
AllKnown [] = Unit {0}
AllKnown (p ∷ ps) = (p.protocol ≢ unknown) × AllKnown ps

packets_of-AllKnown : (frames : List (PacketHeader × Bytes)) → AllKnown (packets_of frames)
unfolding packets_of
packets_of-AllKnown [] = tt
packets_of-AllKnown ((header, bytes) ∷ frames) =
    first (parse (some bytes) header.len) refl (packets_of-AllKnown frames)
  where
    first :
        (m : Outcome (Option Packet))
        → parse (some bytes) header.len ≡ m
        → AllKnown (packets_of frames)
        → AllKnown (prepend header m (packets_of frames))
    first (done (some p)) e known = (parse_known (some bytes) header.len e, known)
    first (done none) e known = known
    first (fails x) e known = known

track_known :
    (flows : Flows) (p : Packet) → p.protocol ≢ unknown → track flows p ≡ on_packet flows p
unfolding track
track_known flows p known = by_protocol p.protocol known
  where
    by_protocol :
        (t : TransportProtocol)
        → t ≢ unknown
        → (if not (protocol_eq t unknown) then on_packet flows p else done flows)
          ≡ on_packet flows p
    by_protocol tcp k = refl
    by_protocol udp k = refl
    by_protocol unknown k = absurd (k refl)

bind_ext :
    {A B : Type 0} (m : Outcome A) {f g : A → Outcome B}
    → ((a : A) → f a ≡ g a)
    → (m >>= f) ≡ (m >>= g)
bind_ext (done a) h = h a
bind_ext (fails e) h = refl

-- With packets of known protocols the callback is `OnPacket`.
call_all-track :
    (flows : Flows) (ps : List Packet) → AllKnown ps → call_all track flows ps ≡ on_packets flows ps
unfolding call_all on_packets
call_all-track flows [] known = refl
call_all-track flows (p ∷ ps) (k, known) =
    rw (track_known flows p k)
      (bind_ext (on_packet flows p) (λ flows'. call_all-track flows' ps known))

-- What the command writes for the flows of the tracker.
abbrev pub report : ℕ → ProtocolSchema → Flows → Outcome Exit
report fuel schema flows = do
  events ← build fuel schema (get_flows flows)
  done (record { code = 0; out = flow_summary flows ++ print_events events; error = [] })

-- The command `decode` on a capture of complete frames that ends: it writes the summary and the
-- timeline of the flows that the tracker has after all packets of the capture, in order, and its
-- exit code is 0; where one of the parts does not return, neither does the command.
pub decode_capture_complete :
    (fuel : ℕ) (pcap_open_offline : Text → Option (List NextResult)) (schema : ProtocolSchema)
    (pcap_path : Text) (frames : List (PacketHeader × Bytes)) (rest : List NextResult)
    → pcap_open_offline pcap_path ≡ some (successes frames ++ (end_of_file ∷ rest))
    → AreComplete frames
    → decode_capture fuel pcap_open_offline schema pcap_path
      ≡ (on_packets [] (packets_of frames) >>= report fuel schema)
unfolding decode_capture decode_opened for_each_packet
decode_capture_complete fuel pcap_open_offline schema pcap_path frames rest opened complete =
    ap (λ (r : PcapReader × Bool). decode_opened fuel schema pcap_path r.0 r.1)
      (open_reader_lem pcap_open_offline pcap_path (successes frames ++ (end_of_file ∷ rest))
        opened)
    ∙ rw
        (
          read_loop_complete track frames rest 0 [] complete,
          call_all-track [] (packets_of frames) (packets_of-AllKnown frames),
        )
        (finish (on_packets [] (packets_of frames)))
  where
    finish :
        (m : Outcome Flows)
        → (((m >>= λ (flows : Flows). done (0 + length frames, flows)) >>= λ (result : ℕ × Flows).
              done (record { handle = some []; packet_count = result.0 }, result.1))
            >>= λ (result : PcapReader × Flows). report fuel schema result.1)
          ≡ (m >>= report fuel schema)
    finish (done flows) = refl
    finish (fails e) = refl
