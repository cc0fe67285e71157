-- ===== src/Replay/Sockets.antt =====
-- The sockets of a replay: each that is opened is closed.
use gateway_forge.Common.{
  ℕ, ◌+◌, ◌<◌, ◌≡◌, refl, ◌∙◌, inl, inr, true, false, Option, none, List, arith, if◌then◌else◌,
  Bool-cases,
}
use gateway_forge.Common.Words.{Bytes}
use gateway_forge.Common.Text.{Text, lit, text_eq}
use gateway_forge.Common.Outcome.{done}
use gateway_forge.Pcap.Reader.{NextResult}
use gateway_forge.Replay.Kept.{IsReplayable, IsKept, run_kept}
use gateway_forge.Replay.{
  Os, ReplayOptions, Replayer, tcp_replayer, udp_replayer, new_replayer, new_tcp_replayer,
  new_udp_replayer, destroy_replayer, replay_once,
}

-- A system in which `sockets` tells how many sockets are open: `socket` opens one, if it succeeds,
-- `close` closes one, if there is one, and no other call changes their number.
pub record CountsSockets {World : Type 0} (os : Os World) (sockets : World → ℕ) : Type 0 where
  pub opens :
      (world : World)
      → sockets (os.open_socket world).1
        ≡ sockets world + (if (os.open_socket world).0 then 1 else 0)
  pub closes : (world : World) → 0 < sockets world → sockets (os.close world) + 1 ≡ sockets world
  pub clock : (world : World) → sockets (os.now_ns world).1 ≡ sockets world
  pub sleeps : (us : ℕ) (world : World) → sockets (os.sleep_us us world) ≡ sockets world
  pub connects :
      (host : Text) (port : ℕ) (world : World)
      → sockets (os.connect host port world).1 ≡ sockets world
  pub stream_sends :
      (block : Option Bytes) (size : ℕ) (world : World)
      → sockets (os.send block size world).1 ≡ sockets world
  pub datagram_sends :
      (host : Text) (port : ℕ) (block : Option Bytes) (size : ℕ) (world : World)
      → sockets (os.send_to host port block size world).1 ≡ sockets world

-- The number of sockets that a replayer holds.
abbrev pub held : Replayer → ℕ
held (tcp_replayer connected) = if connected then 1 else 0
held (udp_replayer opened host port) = if opened then 1 else 0

module _ {World : Type 0} (os : Os World) (sockets : World → ℕ) (c : CountsSockets os sockets) where
  new_replayer_sockets :
      (options : ReplayOptions) (world : World)
      → sockets (new_replayer os options world).1
        ≡ sockets world + held (new_replayer os options world).0
  unfolding new_replayer new_tcp_replayer new_udp_replayer
  new_replayer_sockets options world = elim (Bool-cases (text_eq options.transport (lit "tcp"))) [
    | inr udp ↦ rw udp (c.opens world)
    | inl tcp ↦ elim (Bool-cases (os.open_socket world).0) [
      | inr failed ↦ rw (tcp, failed) (rw failed at (c.opens world))
      | inl opened ↦
          let connected =
            os.connect options.target_host options.target_port (os.open_socket world).1 in
          let grown = rw opened at (c.opens world) in
          let kept = c.connects options.target_host options.target_port (os.open_socket world).1 in
          elim (Bool-cases connected.0) [
            | inl up ↦ rw (tcp, opened, up) (kept ∙ grown)
            | inr down ↦
                rw (tcp, opened, down)
                  (omega (arith, kept, grown, c.closes connected.1 (omega (arith, kept, grown))))
          ]
    ]
  ]

  destroy_replayer_sockets :
      (replayer : Replayer) (world : World) (n : ℕ)
      → sockets world ≡ n + held replayer
      → sockets (destroy_replayer os replayer world) ≡ n
  unfolding destroy_replayer
  destroy_replayer_sockets (tcp_replayer false) world n e = omega (arith, e)
  destroy_replayer_sockets (tcp_replayer true) world n e =
      omega (arith, e, c.closes world (omega (arith, e)))
  destroy_replayer_sockets (udp_replayer false host port) world n e = omega (arith, e)
  destroy_replayer_sockets (udp_replayer true host port) world n e =
      omega (arith, e, c.closes world (omega (arith, e)))

  CountsSockets-IsKept : IsKept os sockets
  CountsSockets-IsKept = record {
    clock = c.clock;
    sleeps = c.sleeps;
    stream_sends = c.stream_sends;
    datagram_sends = c.datagram_sends;
  }

  -- A replay, from the making of the engine to its end, of a capture that does not open, or of one
  -- of complete frames that ends, whose packets all have a payload object: it returns, and as many
  -- sockets are open after it as before, whether or not the socket opened, connected and sent.
  pub replay_once_sockets :
      (over_speed : ℕ → ℕ) (pcap_open_offline : Text → Option (List NextResult))
      (options : ReplayOptions) (world : World)
      → IsReplayable pcap_open_offline options.pcap_path
      → (after : World) × (replay_once os over_speed pcap_open_offline options world ≡ done after)
        × (sockets after ≡ sockets world)
  unfolding replay_once
  replay_once_sockets over_speed pcap_open_offline options world r =
      let made = new_replayer os options world in
      let (last, ran, kept) =
        run_kept os sockets CountsSockets-IsKept over_speed made.0 pcap_open_offline
          options.pcap_path none 0 made.1 r in
      (
        destroy_replayer os made.0 last.world,
        rw ran refl,
        destroy_replayer_sockets made.0 last.world (sockets world)
            (kept ∙ new_replayer_sockets options world),
      )
