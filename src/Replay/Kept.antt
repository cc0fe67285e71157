-- ===== src/Replay/Kept.antt =====
-- What a run of the replay leaves alone, and that it returns.
use gateway_forge.Common.{
  ℕ, ◌+◌, ◌≡◌, refl, ap, ◌∙◌, ◌⊎◌, inl, inr, Bool, true, false, Option, none, some, List, [], ◌∷◌,
  ◌++◌, ltb, ◌==◌, if◌then◌else◌, length, Bool-cases,
}
use gateway_forge.Common.Words.{Bytes}
use gateway_forge.Common.Text.{Text}
use gateway_forge.Common.Outcome.{Outcome, done, ◌>>=◌}
use gateway_forge.Pcap.Packet.{
  Packet, HasPayload, AllPayloads, unknown, protocol_eq, payload_ref_lem,
}
use gateway_forge.Pcap.Reader.{PacketHeader, NextResult, end_of_file, for_each_packet, open_reader}
use gateway_forge.Pcap.Reader.Loop.{
  AreComplete, successes, packets_of, call_all, read_loop_complete, open_reader_lem,
}
use gateway_forge.Flow.TcpReassembler.Stream.{payload_bytes}
use gateway_forge.Replay.Sends.{payload_ref_size}
use gateway_forge.Replay.{
  Os, ReplayOptions, Replayer, tcp_replayer, udp_replayer, ReplayState, replayer_send,
  replay_payload, replay_packet, run, now_us, all_sent, paused, start_of, target_of, base_of,
  new_replayer, destroy_replayer, replay_once,
}

-- A capture that does not open, or one whose packets a replay can go through.
abbrev pub IsReplayable : (Text → Option (List NextResult)) → Text → Type 0
IsReplayable pcap_open_offline pcap_path =
    (pcap_open_offline pcap_path ≡ none)
    ⊎ ((frames : List (PacketHeader × Bytes)) × (rest : List NextResult) × (pcap_open_offline
            pcap_path
          ≡ some (successes frames ++ (end_of_file ∷ rest)))
        × AreComplete frames
        × AllPayloads (packets_of frames))

abbrev begun_state : {World : Type 0} → Option ℕ → ℕ → World → ReplayState World
begun_state start_us count world = record {
  base_ts = 0;
  start_us = start_us;
  sent_count = count;
  world = world;
}

-- What is seen of the world, and is left alone by the calls that a run makes.
pub record IsKept {World A : Type 0} (os : Os World) (view : World → A) : Type 0 where
  pub clock : (world : World) → view (os.now_ns world).1 ≡ view world
  pub sleeps : (us : ℕ) (world : World) → view (os.sleep_us us world) ≡ view world
  pub stream_sends :
      (block : Option Bytes) (size : ℕ) (world : World)
      → view (os.send block size world).1 ≡ view world
  pub datagram_sends :
      (host : Text) (port : ℕ) (block : Option Bytes) (size : ℕ) (world : World)
      → view (os.send_to host port block size world).1 ≡ view world

module _ {World A : Type 0} (os : Os World) (view : World → A) (k : IsKept os view) where
  replayer_send_kept :
      (replayer : Replayer) (p : Packet) (world : World)
      → HasPayload p
      → (sent : Bool) × (world' : World) × (replayer_send os replayer p world ≡ done (sent, world'))
        × (view world' ≡ view world)
  unfolding replayer_send
  replayer_send_kept (tcp_replayer false) p world h = (false, world, refl, refl)
  replayer_send_kept (udp_replayer false host port) p world h = (false, world, refl, refl)
  replayer_send_kept (tcp_replayer true) p world h =
      let sent = os.send h.buffer.block h.buffer.size world in
      (
        all_sent sent.0 h.buffer.size,
        sent.1,
        rw (payload_ref_lem p h) refl,
        k.stream_sends h.buffer.block h.buffer.size world,
      )
  replayer_send_kept (udp_replayer true host port) p world h =
      let sent = os.send_to host port h.buffer.block h.buffer.size world in
      (
        all_sent sent.0 h.buffer.size,
        sent.1,
        rw (payload_ref_lem p h) refl,
        k.datagram_sends host port h.buffer.block h.buffer.size world,
      )

  module _ (over_speed : ℕ → ℕ) (replayer : Replayer) where
    paused_kept :
        (now target : ℕ) (world : World)
        → view (paused os over_speed replayer now target world) ≡ view world
    paused_kept now target world = elim (Bool-cases (ltb now target)) [
      | inl early ↦ rw early (k.sleeps _ world)
      | inr late ↦ rw late refl
    ]

    replay_payload_kept :
        (st : ReplayState World) (p : Packet)
        → HasPayload p
        → (next : ReplayState World) × (replay_payload os over_speed replayer st p ≡ done next)
          × (view next.world ≡ view st.world)
    unfolding replay_payload
    replay_payload_kept st p h =
        let clock = now_us os st.world in
        let start = start_of os over_speed replayer st clock.0 in
        let base = base_of os over_speed replayer st p in
        let target = target_of os over_speed replayer start base p in
        let (sent, world, ran, kept) =
          replayer_send_kept replayer p (paused os over_speed replayer clock.0 target clock.1) h in
        (
          record {
            base_ts = base;
            start_us = some start;
            sent_count = if sent then st.sent_count + 1 else st.sent_count;
            world = world;
          },
          rw ran refl,
          kept ∙ paused_kept clock.0 target clock.1 ∙ k.clock st.world,
        )

    replay_packet_kept :
        (st : ReplayState World) (p : Packet)
        → HasPayload p
        → (next : ReplayState World) × (replay_packet os over_speed replayer st p ≡ done next)
          × (view next.world ≡ view st.world)
    unfolding replay_packet
    replay_packet_kept st p h = elim (Bool-cases (length (payload_bytes p) == 0)) [
      | inl empty ↦ (st, rw (payload_ref_size p h, empty) refl, refl)
      | inr some_bytes ↦ elim (Bool-cases (protocol_eq p.protocol unknown)) [
        | inl other ↦ (st, rw (payload_ref_size p h, some_bytes, other) refl, refl)
        | inr known ↦
            let (next, ran, kept) = replay_payload_kept st p h in
            (next, rw (payload_ref_size p h, some_bytes, known) ran, kept)
      ]
    ]

    call_all_kept :
        (st : ReplayState World) (packets : List Packet)
        → AllPayloads packets
        → (last : ReplayState World) × (call_all (replay_packet os over_speed replayer) st packets
            ≡ done last)
          × (view last.world ≡ view st.world)
    unfolding call_all
    call_all_kept st [] all = (st, refl, refl)
    call_all_kept st (p ∷ ps) (h, all) =
        let (next, first, kept) = replay_packet_kept st p h in
        let (last, rest, kept') = call_all_kept next ps all in
        (
          last,
          ap
                (λ (m : Outcome (ReplayState World)).
                  m >>= λ st'. call_all (replay_packet os over_speed replayer) st' ps)
                first
              ∙ rest,
          kept' ∙ kept,
        )

    pub run_kept :
        (pcap_open_offline : Text → Option (List NextResult)) (pcap_path : Text)
        (start_us : Option ℕ) (count : ℕ) (world : World)
        → IsReplayable pcap_open_offline pcap_path
        → (last : ReplayState World) × (run os over_speed replayer pcap_open_offline pcap_path
              start_us count world
            ≡ done last)
          × (view last.world ≡ view world)
    unfolding run for_each_packet open_reader
    run_kept pcap_open_offline pcap_path start_us count world (inl closed) =
        (begun_state start_us count world, rw (open_reader, closed) refl, refl)
    run_kept pcap_open_offline pcap_path start_us count world
          (inr (frames, rest, opened, complete, all)) =
        let (last, ran, kept) =
          call_all_kept (begun_state start_us count world) (packets_of frames) all in
        (
          last,
          rw
              (
                open_reader_lem pcap_open_offline pcap_path
                    (successes frames ++ (end_of_file ∷ rest)) opened,
                read_loop_complete (replay_packet os over_speed replayer) frames rest 0
                    (begun_state start_us count world) complete,
                ran,
              )
              refl,
          kept,
        )

-- A replay of a capture that does not open, or of one of complete frames that ends, whose packets all
-- have a payload object, returns.
pub replay_once_returns :
    {World : Type 0} (os : Os World) (over_speed : ℕ → ℕ)
    (pcap_open_offline : Text → Option (List NextResult)) (options : ReplayOptions) (world : World)
    → IsReplayable pcap_open_offline options.pcap_path
    → (after : World) × (replay_once os over_speed pcap_open_offline options world ≡ done after)
unfolding replay_once
replay_once_returns os over_speed pcap_open_offline options world r =
    let made = new_replayer os options world in
    let (last, ran, _) =
      run_kept {A = ℕ} os (λ world'. 0)
        (record {
          clock = λ _. refl;
          sleeps = λ _ _. refl;
          stream_sends = λ _ _ _. refl;
          datagram_sends = λ _ _ _ _ _. refl;
        })
        over_speed made.0 pcap_open_offline options.pcap_path none 0 made.1 r in
    (destroy_replayer os made.0 last.world, rw ran refl)
