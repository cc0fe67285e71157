-- ===== src/Replay/Sends.antt =====
-- What a replay hands to a system that sends everything.
use gateway_forge.Common.{
  ℕ, ◌+◌, ◌≡◌, refl, sym, ap, ◌∙◌, true, false, Option, some, List, [], ◌∷◌, ◌++◌, arith, ltb, ◌==◌,
  ==_refl, if◌then◌else◌, length, length-append, append-nil, append_assoc, Bool-cases, inl, inr,
}
use gateway_forge.Common.Words.{Bytes}
use gateway_forge.Common.Text.{Text}
use gateway_forge.Common.Outcome.{Outcome, done, ◌>>=◌}
use gateway_forge.Pcap.Packet.{
  Packet, HasPayload, AllPayloads, unknown, protocol_eq, payload_ref_lem, payload_size,
}
use gateway_forge.Pcap.Reader.{PacketHeader, NextResult, end_of_file, for_each_packet}
use gateway_forge.Pcap.Reader.Loop.{
  AreComplete, successes, packets_of, call_all, read_loop_complete, open_reader_lem,
}
use gateway_forge.Flow.TcpReassembler.Stream.{payload_bytes, block_lem}
use gateway_forge.Flow.FlowTracker.Sizes.{payload_size_lem}
use gateway_forge.Replay.{
  Os, Replayer, tcp_replayer, udp_replayer, ReplayState, replayer_send, replay_payload,
  replay_packet, run, now_us, paused, start_of, target_of, base_of,
}

-- A system that sends every payload whole; `sent` is its log, with an `entry` for each call, which the
-- clock and the sleep leave alone.
pub record IsSending {World A : Type 0} (os : Os World) (entry : World → Bytes → A)
    (sent : World → List A) : Type 0 where
  pub clock : (world : World) → sent (os.now_ns world).1 ≡ sent world
  pub sleeps : (us : ℕ) (world : World) → sent (os.sleep_us us world) ≡ sent world
  pub stream_sends :
      (bytes : Bytes) (world : World)
      → ((os.send (some bytes) (length bytes) world).0 ≡ some (length bytes))
        × (sent (os.send (some bytes) (length bytes) world).1
            ≡ sent world ++ (entry world bytes ∷ []))
  pub datagram_sends :
      (host : Text) (port : ℕ) (bytes : Bytes) (world : World)
      → ((os.send_to host port (some bytes) (length bytes) world).0 ≡ some (length bytes))
        × (sent (os.send_to host port (some bytes) (length bytes) world).1
            ≡ sent world ++ (entry world bytes ∷ []))

-- The replayer has its socket.
abbrev pub IsUp : Replayer → Type 0
IsUp (tcp_replayer connected) = connected ≡ true
IsUp (udp_replayer opened host port) = opened ≡ true

-- The payloads of the TCP and UDP packets that have bytes in them.
abbrev pub wanted : Packet → List Bytes
wanted p =
    if length (payload_bytes p) == 0
    then []
    else if protocol_eq p.protocol unknown
    then []
    else payload_bytes p ∷ []

abbrev pub all_wanted : List Packet → List Bytes
all_wanted [] = []
all_wanted (p ∷ ps) = wanted p ++ all_wanted ps

pub payload_ref_size :
    (p : Packet) (h : HasPayload p) → payload_size p ≡ done (length (payload_bytes p))
payload_ref_size p h = ground (arith, h.present, payload_size_lem p h)

module _ {World A : Type 0} (os : Os World) (entry : World → Bytes → A) (sent : World → List A)
    (s : IsSending os entry sent) where
  pub replayer_send_lem :
      (replayer : Replayer) (p : Packet) (world : World)
      → IsUp replayer
      → HasPayload p
      → (world' : World) × (replayer_send os replayer p world ≡ done (true, world'))
        × (sent world' ≡ sent world ++ (entry world (payload_bytes p) ∷ []))
  unfolding replayer_send
  replayer_send_lem (tcp_replayer false) p world up h = cc
  replayer_send_lem (tcp_replayer true) p world up h =
      let (all, more) = s.stream_sends (payload_bytes p) world in
      (
        (os.send (some (payload_bytes p)) (length (payload_bytes p)) world).1,
        rw
            (
              payload_ref_lem p h,
              block_lem p h,
              payload_size_lem p h,
              all,
              ==_refl (length (payload_bytes p)),
            )
            refl,
        more,
      )
  replayer_send_lem (udp_replayer false host port) p world up h = cc
  replayer_send_lem (udp_replayer true host port) p world up h =
      let (all, more) = s.datagram_sends host port (payload_bytes p) world in
      (
        (os.send_to host port (some (payload_bytes p)) (length (payload_bytes p)) world).1,
        rw
            (
              payload_ref_lem p h,
              block_lem p h,
              payload_size_lem p h,
              all,
              ==_refl (length (payload_bytes p)),
            )
            refl,
        more,
      )

  module _ (over_speed : ℕ → ℕ) (replayer : Replayer) where
    -- The clock and the sleep before a packet.
    pub paused_lem :
        (now target : ℕ) (world : World)
        → sent (paused os over_speed replayer now target world) ≡ sent world
    paused_lem now target world = elim (Bool-cases (ltb now target)) [
      | inl early ↦ rw early (s.sleeps _ world)
      | inr late ↦ rw late refl
    ]

module _ {World : Type 0} (os : Os World) (sent : World → List Bytes)
    (s : IsSending os (λ world bytes. bytes) sent) where
  module _ (over_speed : ℕ → ℕ) (replayer : Replayer) (up : IsUp replayer) where
    replay_payload_lem :
        (st : ReplayState World) (p : Packet)
        → HasPayload p
        → (next : ReplayState World) × (replay_payload os over_speed replayer st p ≡ done next)
          × (next.sent_count ≡ st.sent_count + 1)
          × (sent next.world ≡ sent st.world ++ (payload_bytes p ∷ []))
    unfolding replay_payload
    replay_payload_lem st p h =
        let clock = now_us os st.world in
        let start = start_of os over_speed replayer st clock.0 in
        let target =
          target_of os over_speed replayer start (base_of os over_speed replayer st p) p in
        let (world, ran, more) =
          replayer_send_lem os (λ world bytes. bytes) sent s replayer p
            (paused os over_speed replayer clock.0 target clock.1) up h in
        (
          record {
            base_ts = base_of os over_speed replayer st p;
            start_us = some start;
            sent_count = st.sent_count + 1;
            world = world;
          },
          rw ran refl,
          refl,
          more
              ∙ ap (λ (before : List Bytes). before ++ (payload_bytes p ∷ []))
                  (paused_lem os (λ world bytes. bytes) sent s over_speed replayer clock.0 target
                      clock.1
                    ∙ s.clock st.world),
        )

    replay_packet_lem :
        (st : ReplayState World) (p : Packet)
        → HasPayload p
        → (next : ReplayState World) × (replay_packet os over_speed replayer st p ≡ done next)
          × (next.sent_count ≡ st.sent_count + length (wanted p))
          × (sent next.world ≡ sent st.world ++ wanted p)
    unfolding replay_packet
    replay_packet_lem st p h = elim (Bool-cases (length (payload_bytes p) == 0)) [
      | inl empty ↦ (
        st,
        rw (payload_ref_size p h, empty) refl,
        rw empty (omega arith),
        rw empty (sym (append-nil (sent st.world))),
      )
      | inr some_bytes ↦ elim (Bool-cases (protocol_eq p.protocol unknown)) [
        | inl other ↦ (
          st,
          rw (payload_ref_size p h, some_bytes, other) refl,
          rw (some_bytes, other) (omega arith),
          rw (some_bytes, other) (sym (append-nil (sent st.world))),
        )
        | inr known ↦
            let (next, ran, count, more) = replay_payload_lem st p h in
            (
              next,
              rw (payload_ref_size p h, some_bytes, known) ran,
              rw (some_bytes, known) count,
              rw (some_bytes, known) more,
            )
      ]
    ]

    -- On a system that sends everything, with a socket, and packets that all have a payload object: the
    -- replay goes through all packets, sends the payload of each TCP and UDP packet that has bytes in
    -- it exactly once, in order, and nothing else, and counts them.
    pub replay_all :
        (st : ReplayState World) (packets : List Packet)
        → AllPayloads packets
        → (last : ReplayState World) × (call_all (replay_packet os over_speed replayer) st packets
            ≡ done last)
          × (last.sent_count ≡ st.sent_count + length (all_wanted packets))
          × (sent last.world ≡ sent st.world ++ all_wanted packets)
    unfolding call_all
    replay_all st [] all = (st, refl, omega arith, sym (append-nil (sent st.world)))
    replay_all st (p ∷ ps) (h, all) =
        let (next, first, count, more) = replay_packet_lem st p h in
        let (last, rest, count', more') = replay_all next ps all in
        (
          last,
          ap
                (λ (m : Outcome (ReplayState World)).
                  m >>= λ st'. call_all (replay_packet os over_speed replayer) st' ps)
                first
              ∙ rest,
          omega (arith, count, count', length-append (wanted p) (all_wanted ps)),
          more'
              ∙ ap (λ (before : List Bytes). before ++ all_wanted ps) more
              ∙ append_assoc (sent st.world) (wanted p) (all_wanted ps),
        )

    -- Any run on a capture of complete frames that ends, whose packets all have a payload object, on a
    -- system that sends everything and with a socket: it returns, and the system has sent the payload
    -- of each TCP and UDP packet of the capture that has bytes in it, once, in order, and nothing
    -- else; the count grows by the number of these payloads.
    pub run_sends :
        (pcap_open_offline : Text → Option (List NextResult)) (pcap_path : Text)
        (frames : List (PacketHeader × Bytes)) (rest : List NextResult) (start_us : Option ℕ)
        (count : ℕ) (world : World)
        → pcap_open_offline pcap_path ≡ some (successes frames ++ (end_of_file ∷ rest))
        → AreComplete frames
        → AllPayloads (packets_of frames)
        → (last : ReplayState World) × (run os over_speed replayer pcap_open_offline pcap_path
              start_us count world
            ≡ done last)
          × (last.sent_count ≡ count + length (all_wanted (packets_of frames)))
          × (sent last.world ≡ sent world ++ all_wanted (packets_of frames))
    unfolding run for_each_packet
    run_sends pcap_open_offline pcap_path frames rest start_us count world opened complete all =
        let begun : ReplayState World = record {
          base_ts = 0;
          start_us = start_us;
          sent_count = count;
          world = world;
        } in
        let (last, ran, count, more) = replay_all begun (packets_of frames) all in
        (
          last,
          rw
              (
                open_reader_lem pcap_open_offline pcap_path
                    (successes frames ++ (end_of_file ∷ rest)) opened,
                read_loop_complete (replay_packet os over_speed replayer) frames rest 0 begun
                    complete,
                ran,
              )
              refl,
          omega (arith, count),
          more,
        )
