-- ===== src/Replay/Counts.antt =====
-- What the replay counts, and how long it waits.
use gateway_forge.Common.{
  ℕ, ◌+◌, ◌-◌, ◌^◌, ◌≤◌, ◌<◌, ◌≡◌, ◌∙◌, false, List, [], ◌∷◌, arith, ltb, ◌==◌, if◌then◌else◌,
  length, Bool-cases, inl, inr,
}
use gateway_forge.Common.Words.{add64, sub64}
use gateway_forge.Common.Outcome.{done, >>=-eq-done}
use gateway_forge.Pcap.Packet.{Packet, unknown, protocol_eq, payload_size}
use gateway_forge.Pcap.Reader.Loop.{call_all}
use gateway_forge.Replay.{
  Os, Replayer, tcp_replayer, ReplayState, replayer_send, replay_payload, replay_packet, pause_us,
  target_of,
}

-- The due time, where nothing wraps.
pub target_of_lem :
    {World : Type 0} (os : Os World) (over_speed : ℕ → ℕ) (replayer : Replayer) (start base : ℕ)
    (packet : Packet)
    → base ≤ packet.timestamp_us
    → packet.timestamp_us < 2 ^ 64
    → start + over_speed (packet.timestamp_us - base) < 2 ^ 64
    → target_of os over_speed replayer start base packet
      ≡ start + over_speed (packet.timestamp_us - base)
target_of_lem os over_speed replayer start base packet order small fits = rw elapsed target
  where
    elapsed : sub64 packet.timestamp_us base ≡ packet.timestamp_us - base
    elapsed = omega arith

    target :
        add64 start (over_speed (packet.timestamp_us - base))
        ≡ start + over_speed (packet.timestamp_us - base)
    target = omega arith

-- A packet that is not older than the first one is sent no earlier than its time says: the time now
-- and the sleep together are the due time, or the time now where that has passed. The due time is
-- the start and the scaled distance from the first packet, if that fits a uint64_t.
pub pause_reaches :
    {World : Type 0} (os : Os World) (over_speed : ℕ → ℕ) (replayer : Replayer) (start base now : ℕ)
    (packet : Packet)
    → base ≤ packet.timestamp_us
    → packet.timestamp_us < 2 ^ 64
    → start + over_speed (packet.timestamp_us - base) < 2 ^ 64
    → (now + pause_us now (target_of os over_speed replayer start base packet) ≡ (
        if ltb now (start + over_speed (packet.timestamp_us - base))
        then start + over_speed (packet.timestamp_us - base)
        else now))
pause_reaches os over_speed replayer start base now packet order small fits =
    rw (target_of_lem os over_speed replayer start base packet order small fits) (ground arith)

module _ {World : Type 0} (os : Os World) (over_speed : ℕ → ℕ) where
  replay_payload_count :
      (replayer : Replayer) (st : ReplayState World) (packet : Packet) {st' : ReplayState World}
      → replay_payload os over_speed replayer st packet ≡ done st'
      → st'.sent_count ≤ st.sent_count + 1
  unfolding replay_payload
  replay_payload_count replayer st packet h =
      let (sent, _, last) = >>=-eq-done (replayer_send os replayer packet _) _ h in
      ground (arith, last)

  replay_packet_count :
      (replayer : Replayer) (st : ReplayState World) (packet : Packet) {st' : ReplayState World}
      → replay_packet os over_speed replayer st packet ≡ done st'
      → st'.sent_count ≤ st.sent_count + 1
  unfolding replay_packet
  replay_packet_count replayer st packet h =
      let (size, _, rest) = >>=-eq-done (payload_size packet) _ h in
      elim (Bool-cases (size == 0)) [
        | inl empty ↦ ground (arith, empty, rest)
        | inr some_bytes ↦ elim (Bool-cases (protocol_eq packet.protocol unknown)) [
          | inl other ↦ ground (arith, some_bytes, other, rest)
          | inr known ↦ replay_payload_count replayer st packet (rw (some_bytes, known) at rest)
        ]
      ]

  -- A replay never counts more packets as sent than the callback was given.
  pub replay_count :
      (replayer : Replayer) (st : ReplayState World) (packets : List Packet)
      {st' : ReplayState World}
      → call_all (replay_packet os over_speed replayer) st packets ≡ done st'
      → st'.sent_count ≤ st.sent_count + length packets
  unfolding call_all
  replay_count replayer st [] h = ground arith
  replay_count replayer st (p ∷ ps) h =
      let (next, first, rest) = >>=-eq-done (replay_packet os over_speed replayer st p) _ h in
      omega (arith, replay_packet_count replayer st p first, replay_count replayer next ps rest)

  replay_packet_unsent :
      (st : ReplayState World) (packet : Packet) {st' : ReplayState World}
      → replay_packet os over_speed (tcp_replayer false) st packet ≡ done st'
      → st'.sent_count ≡ st.sent_count
  unfolding replay_packet replay_payload replayer_send
  replay_packet_unsent st packet h =
      let (size, _, rest) = >>=-eq-done (payload_size packet) _ h in ground (arith, rest)

  -- A replay over TCP that has no connection goes through the packets and counts none as sent.
  pub replay_disconnected :
      (st : ReplayState World) (packets : List Packet) {st' : ReplayState World}
      → call_all (replay_packet os over_speed (tcp_replayer false)) st packets ≡ done st'
      → st'.sent_count ≡ st.sent_count
  unfolding call_all
  replay_disconnected st [] h = ground arith
  replay_disconnected st (p ∷ ps) h =
      let (next, first, rest) =
        >>=-eq-done (replay_packet os over_speed (tcp_replayer false) st p) _ h in
      replay_disconnected next ps rest ∙ replay_packet_unsent st p first
