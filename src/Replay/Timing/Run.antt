-- ===== src/Replay/Timing/Run.antt =====
-- `Run` on a system whose clock moves.
use gateway_forge.Common.{
  ℕ, ◌<◌, ◌≡◌, refl, sym, ap, ◌∙◌, true, false, Option, none, some, List, [], ◌∷◌, ◌++◌, arith,
  append-nil, append_assoc, Bool-cases, inl, inr, subst,
}
use gateway_forge.Common.Words.{Bytes}
use gateway_forge.Common.Text.{Text}
use gateway_forge.Common.Outcome.{done}
use gateway_forge.Pcap.Packet.{Packet, HasPayload, AllPayloads}
use gateway_forge.Pcap.Reader.{PacketHeader, NextResult, end_of_file, for_each_packet}
use gateway_forge.Pcap.Reader.Loop.{
  AreComplete, successes, packets_of, call_all, read_loop_complete, open_reader_lem,
}
use gateway_forge.Flow.TcpReassembler.Stream.{payload_bytes}
use gateway_forge.Replay.{Os, Replayer, ReplayState, replay_packet, run, now_us, start_of, base_of}
use gateway_forge.Replay.Sends.{IsUp}
use gateway_forge.Replay.Timing.{
  IsTimed, is_wanted, wanted_packets, AreTimely, AreOnTime, replay_packet_skip, replay_packet_take,
  replay_payload_timed,
}

head_injective : {p q : Packet} {ps qs : List Packet} → p ∷ ps ≡ q ∷ qs → p ≡ q
head_injective e = cc

module _ {World : Type 0} (os : Os World) (clock : World → ℕ) (sent : World → List (ℕ × Bytes))
    (s : IsTimed os clock sent) (over_speed : ℕ → ℕ) (replayer : Replayer)
    (up : IsUp replayer) where
  abbrev Timed : ℕ → ℕ → ReplayState World → List Packet → Type 0
  Timed start base st ps =
      (last : ReplayState World) × (call_all (replay_packet os over_speed replayer) st ps
        ≡ done last)
      × (log : List (ℕ × Bytes)) × (sent last.world ≡ sent st.world ++ log)
      × AreOnTime over_speed start base (wanted_packets ps) log

  -- A packet that is not wanted goes by.
  Timed-skip :
      (start base : ℕ) (st : ReplayState World) (p : Packet) (ps : List Packet)
      → HasPayload p
      → is_wanted p ≡ false
      → Timed start base st ps
      → Timed start base st (p ∷ ps)
  unfolding call_all
  Timed-skip start base st p ps h w (last, ran, log, more, on_time) = (
    last,
    rw (replay_packet_skip os clock sent s over_speed replayer up st p h w) ran,
    log,
    more,
    rw w on_time,
  )

  -- One that is wanted, and those behind it.
  Timed-take :
      (start base : ℕ) (st : ReplayState World) (p : Packet) (ps : List Packet)
      → HasPayload p
      → is_wanted p ≡ true
      → base_of os over_speed replayer st p ≡ base
      → start_of os over_speed replayer st (now_us os st.world).0 ≡ start
      → AreTimely over_speed start base (p ∷ [])
      → ((next : ReplayState World)
          → next.base_ts ≡ base
          → next.start_us ≡ some start
          → Timed start base next ps)
      → Timed start base st (p ∷ ps)
  unfolding call_all
  Timed-take start base st p ps h w eb es timely then_rest =
      let (next, one, kept, started, time, sent_one, late) =
        replay_payload_timed os clock sent s over_speed replayer up st p start base h eb es
          timely in
      let (last, rest, log, more, on_time) = then_rest next kept started in
      (
        last,
        rw (replay_packet_take os clock sent s over_speed replayer up st p h w, one) rest,
        (time, payload_bytes p) ∷ log,
        more
            ∙ ap (λ (before : List (ℕ × Bytes)). before ++ log) sent_one
            ∙ append_assoc (sent st.world) ((time, payload_bytes p) ∷ []) log,
        rw w (late, refl, on_time),
      )

  base_lem :
      (st : ReplayState World) (p : Packet) (base : ℕ)
      → st.base_ts ≡ base
      → 0 < base
      → base_of os over_speed replayer st p ≡ base
  base_lem st p base e positive = ground (arith, e, positive)

  -- From the second packet on.
  replay_later :
      (start base : ℕ) (st : ReplayState World) (ps : List Packet)
      → AllPayloads ps
      → 0 < base
      → st.base_ts ≡ base
      → st.start_us ≡ some start
      → AreTimely over_speed start base (wanted_packets ps)
      → Timed start base st ps
  unfolding call_all
  replay_later start base st [] all positive eb es timely =
      (st, refl, [], sym (append-nil (sent st.world)), tt)
  replay_later start base st (p ∷ ps) (h, all) positive eb es timely =
      elim (Bool-cases (is_wanted p)) [
        | inr unwanted ↦
            Timed-skip start base st p ps h unwanted
              (replay_later start base st ps all positive eb es (rw unwanted at timely))
        | inl now ↦
            let (order, small, fits, later) : AreTimely over_speed start base
                (p ∷ wanted_packets ps) =
              rw now at timely in
            Timed-take start base st p ps h now (base_lem st p base eb positive) (rw es refl)
              (order, small, fits, tt)
              (λ next eb' es'. replay_later start base next ps all positive eb' es' later)
      ]

  abbrev fresh : ℕ → World → ReplayState World
  fresh count world = record { base_ts = 0; start_us = none; sent_count = count; world = world }

  -- From the state that the first run of a process begins with.
  replay_fresh :
      (first : Packet) (later : List Packet) (count : ℕ) (world : World) (ps : List Packet)
      → AllPayloads ps
      → wanted_packets ps ≡ first ∷ later
      → 0 < first.timestamp_us
      → AreTimely over_speed (now_us os world).0 first.timestamp_us (wanted_packets ps)
      → Timed (now_us os world).0 first.timestamp_us (fresh count world) ps
  replay_fresh first later count world [] all e positive timely = cc
  replay_fresh first later count world (p ∷ ps) (h, all) e positive timely =
      elim (Bool-cases (is_wanted p)) [
        | inr unwanted ↦
            Timed-skip (now_us os world).0 first.timestamp_us (fresh count world) p ps h unwanted (
              replay_fresh first later count world ps all (rw unwanted at e) positive
                (rw unwanted at timely))
        | inl now ↦
            let same : p ∷ wanted_packets ps ≡ first ∷ later = rw now at e in
            let (order, small, fits, rest) : AreTimely over_speed (now_us os world).0
                first.timestamp_us (p ∷ wanted_packets ps) =
              rw now at timely in
            Timed-take (now_us os world).0 first.timestamp_us (fresh count world) p ps h now
              (ap (λ (q : Packet). q.timestamp_us) (head_injective same)) refl
              (order, small, fits, tt)
              (λ next eb' es'.
                replay_later (now_us os world).0 first.timestamp_us next ps all positive eb' es'
                  rest)
      ]

  -- `Run` in a process whose start time is still unset, as it is in the first run: on a capture of
  -- complete frames that ends, whose packets all have a payload object, over a system with a clock
  -- that sends every payload whole, and with a socket. The first packet that is to be sent has a time
  -- above 0, no other one is older, and the due times fit a uint64_t: then the replay returns, and the
  -- system has sent the payload of each TCP and UDP packet that has bytes in it, once, in order, and
  -- none before it is due, which is the time at which the run begins and the packet's scaled distance
  -- from the first one.
  pub run_on_time :
      (pcap_open_offline : Text → Option (List NextResult)) (pcap_path : Text)
      (frames : List (PacketHeader × Bytes)) (rest : List NextResult) (count : ℕ) (world : World)
      (first : Packet) (later : List Packet)
      → pcap_open_offline pcap_path ≡ some (successes frames ++ (end_of_file ∷ rest))
      → AreComplete frames
      → AllPayloads (packets_of frames)
      → wanted_packets (packets_of frames) ≡ first ∷ later
      → 0 < first.timestamp_us
      → AreTimely over_speed (now_us os world).0 first.timestamp_us (first ∷ later)
      → (last : ReplayState World) × (run os over_speed replayer pcap_open_offline pcap_path none
            count world
          ≡ done last)
        × (log : List (ℕ × Bytes)) × (sent last.world ≡ sent world ++ log)
        × AreOnTime over_speed (now_us os world).0 first.timestamp_us (first ∷ later) log
  unfolding run for_each_packet
  run_on_time pcap_open_offline pcap_path frames rest count world first later opened complete all e
        positive timely =
      let (last, ran, log, more, on_time) =
        replay_fresh first later count world (packets_of frames) all e positive
          (subst (AreTimely over_speed (now_us os world).0 first.timestamp_us) (sym e) timely) in
      (
        last,
        rw
            (
              open_reader_lem pcap_open_offline pcap_path (successes frames ++ (end_of_file ∷ rest))
                  opened,
              read_loop_complete (replay_packet os over_speed replayer) frames rest 0
                  (fresh count world) complete,
              ran,
            )
            refl,
        log,
        more,
        subst
            (λ (ps : List Packet).
              AreOnTime over_speed (now_us os world).0 first.timestamp_us ps log)
            e on_time,
      )
