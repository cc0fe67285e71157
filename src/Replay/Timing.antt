-- ===== src/Replay/Timing.antt =====
-- When a replay sends, on a system whose clock moves.
pub mod Run
use gateway_forge.Common.{
  ℕ, ◌+◌, ◌-◌, ◌*◌, ◌/◌, ◌^◌, ◌≤◌, ◌<◌, ◌≡◌, refl, sym, ap, ◌∙◌, Bool, true, false, not, Option,
  none, some, List, [], ◌∷◌, ◌++◌, arith, ltb, ◌==◌, if◌then◌else◌, length, append-nil,
  append_assoc, Bool-cases, inl, inr, subst, ltb-false→le,
}
use gateway_forge.Common.Words.{Bytes}
use gateway_forge.Common.Text.{Text}
use gateway_forge.Common.Outcome.{done}
use gateway_forge.Pcap.Packet.{Packet, HasPayload, AllPayloads, unknown, protocol_eq}
use gateway_forge.Pcap.Reader.{PacketHeader, NextResult, end_of_file, for_each_packet}
use gateway_forge.Pcap.Reader.Loop.{
  AreComplete, successes, packets_of, call_all, read_loop_complete, open_reader_lem,
}
use gateway_forge.Flow.TcpReassembler.Stream.{payload_bytes}
use gateway_forge.Replay.{
  Os, Replayer, ReplayState, replay_payload, replay_packet, run, now_us, paused, start_of,
  target_of, base_of,
}
use gateway_forge.Replay.Counts.{target_of_lem}
use gateway_forge.Replay.Sends.{IsSending, IsUp, payload_ref_size, replayer_send_lem, paused_lem}

-- A payload, with the microsecond of the call that sends it.
abbrev pub stamped : {World : Type 0} → (World → ℕ) → World → Bytes → ℕ × Bytes
stamped clock world bytes = (clock world / 1000, bytes)

-- A system that sends everything, with a clock in nanoseconds that does not go back while it is read,
-- and that sleeps at least as long as it is told to.
pub record IsTimed {World : Type 0} (os : Os World) (clock : World → ℕ)
    (sent : World → List (ℕ × Bytes)) : Type 0 where
  pub sends : IsSending os (stamped clock) sent
  pub reads : (world : World) → (os.now_ns world).0 ≡ clock world
  pub read_goes_on : (world : World) → clock world ≤ clock (os.now_ns world).1
  pub sleeps : (us : ℕ) (world : World) → clock world + 1000 * us ≤ clock (os.sleep_us us world)

-- The TCP and UDP packets that have bytes in them.
abbrev pub is_wanted : Packet → Bool
is_wanted p = if length (payload_bytes p) == 0 then false else not (protocol_eq p.protocol unknown)

abbrev pub wanted_packets : List Packet → List Packet
wanted_packets [] = []
wanted_packets (p ∷ ps) = let rest = wanted_packets ps in if is_wanted p then p ∷ rest else rest

-- When a packet is due: the start and its scaled distance from the first packet.
abbrev pub due_time : (ℕ → ℕ) → ℕ → ℕ → Packet → ℕ
due_time over_speed start base p = start + over_speed (p.timestamp_us - base)

-- Packets that are not older than the first one, whose times fit a uint64_t.
abbrev pub AreTimely : (ℕ → ℕ) → ℕ → ℕ → List Packet → Type 0
AreTimely over_speed start base [] = Unit {0}
AreTimely over_speed start base (p ∷ ps) =
    (base ≤ p.timestamp_us)
    × (p.timestamp_us < 2 ^ 64)
    × (due_time over_speed start base p < 2 ^ 64)
    × AreTimely over_speed start base ps

-- Each payload in turn, none sent before it is due.
abbrev pub AreOnTime : (ℕ → ℕ) → ℕ → ℕ → List Packet → List (ℕ × Bytes) → Type 0
AreOnTime over_speed start base [] [] = Unit {0}
AreOnTime over_speed start base (p ∷ ps) ((time, bytes) ∷ log) =
    (due_time over_speed start base p ≤ time)
    × (bytes ≡ payload_bytes p)
    × AreOnTime over_speed start base ps log
AreOnTime over_speed start base _ _ = ⊥

module _ {World : Type 0} (os : Os World) (clock : World → ℕ) (sent : World → List (ℕ × Bytes))
    (s : IsTimed os clock sent) (over_speed : ℕ → ℕ) (replayer : Replayer)
    (up : IsUp replayer) where
  pub replay_packet_skip :
      (st : ReplayState World) (p : Packet)
      → HasPayload p
      → is_wanted p ≡ false
      → replay_packet os over_speed replayer st p ≡ done st
  unfolding replay_packet
  replay_packet_skip st p h w = elim (Bool-cases (length (payload_bytes p) == 0)) [
    | inl empty ↦ rw (payload_ref_size p h, empty) refl
    | inr some_bytes ↦ elim (Bool-cases (protocol_eq p.protocol unknown)) [
      | inl other ↦ rw (payload_ref_size p h, some_bytes, other) refl
      | inr known ↦ absurd (ground (arith, some_bytes, known, w))
    ]
  ]

  pub replay_packet_take :
      (st : ReplayState World) (p : Packet)
      → HasPayload p
      → is_wanted p ≡ true
      → replay_packet os over_speed replayer st p ≡ replay_payload os over_speed replayer st p
  unfolding replay_packet
  replay_packet_take st p h w = elim (Bool-cases (length (payload_bytes p) == 0)) [
    | inl empty ↦ absurd (ground (arith, empty, w))
    | inr some_bytes ↦ elim (Bool-cases (protocol_eq p.protocol unknown)) [
      | inl other ↦ absurd (ground (arith, some_bytes, other, w))
      | inr known ↦ rw (payload_ref_size p h, some_bytes, known) refl
    ]
  ]

  -- After the reading of the clock and the sleep, the time that was asked for has come.
  paused_on_time :
      (target : ℕ) (world : World)
      → target
        ≤ clock (paused os over_speed replayer (now_us os world).0 target (now_us os world).1)
          / 1000
  paused_on_time target world = elim (Bool-cases (ltb (now_us os world).0 target)) [
    | inl early ↦ rw early (
        omega (
          arith,
          s.reads world,
          s.read_goes_on world,
          s.sleeps (target - (now_us os world).0) (now_us os world).1,
        ))
    | inr late ↦ rw late (omega (arith, ltb-false→le _ _ late, s.reads world, s.read_goes_on world))
  ]

  -- One packet that is wanted, in a state that has this base and this start.
  pub replay_payload_timed :
      (st : ReplayState World) (p : Packet) (start base : ℕ)
      → HasPayload p
      → base_of os over_speed replayer st p ≡ base
      → start_of os over_speed replayer st (now_us os st.world).0 ≡ start
      → AreTimely over_speed start base (p ∷ [])
      → (next : ReplayState World) × (replay_payload os over_speed replayer st p ≡ done next)
        × (next.base_ts ≡ base)
        × (next.start_us ≡ some start)
        × (time : ℕ) × (sent next.world ≡ sent st.world ++ ((time, payload_bytes p) ∷ []))
        × (due_time over_speed start base p ≤ time)
  unfolding replay_payload
  replay_payload_timed st p start base h eb es (order, small, fits, _) =
      let b = base_of os over_speed replayer st p in
      let a = start_of os over_speed replayer st (now_us os st.world).0 in
      let target = target_of os over_speed replayer a b p in
      let before =
        paused os over_speed replayer (now_us os st.world).0 target (now_us os st.world).1 in
      let (world, ran, more) =
        replayer_send_lem os (stamped clock) sent s.sends replayer p before up h in
      let kept =
        paused_lem os (stamped clock) sent s.sends over_speed replayer (now_us os st.world).0 target
          (now_us os st.world).1
        ∙ s.sends.clock st.world in
      let late = paused_on_time target st.world in
      let due : target ≡ due_time over_speed start base p =
        (λ i. target_of os over_speed replayer (es i) (eb i) p)
        ∙ target_of_lem os over_speed replayer start base p order small fits in
      (
        record { base_ts = b; start_us = some a; sent_count = st.sent_count + 1; world = world },
        rw ran refl,
        eb,
        ap (λ (n : ℕ). some n) es,
        clock before / 1000,
        more
            ∙ ap (λ (log : List (ℕ × Bytes)). log ++ ((clock before / 1000, payload_bytes p) ∷ []))
                kept,
        omega (arith, due, late),
      )
