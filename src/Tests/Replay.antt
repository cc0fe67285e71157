-- ===== src/Tests/Replay.antt =====
-- Instances for the directory replay and the command `replay`. The world is the time in nanoseconds.
use gateway_forge.Common.{
  ℕ, ◌+◌, ◌*◌, ◌/◌, ◌≡◌, refl, sym, ap, subst, true, false, none, some, Option, List, [], ◌∷◌, ◌++◌,
  arith,
}
use gateway_forge.Common.Words.{Bytes, ℤ, pos}
use gateway_forge.Common.Text.{Text, lit, text_eq}
use gateway_forge.Common.Outcome.{Outcome, done}
use gateway_forge.Pcap.Reader.{NextResult}
use gateway_forge.Pcap.Reader.Loop.{call_all}
use gateway_forge.Replay.{
  Os, tcp_replayer, ReplayState, replayer_send, replay_payload, replay_packet, run,
}
use gateway_forge.Cli.CommandLine.{CommandLine, find_option}
use gateway_forge.Cli.Commands.{Exit}
use gateway_forge.Cli.Replaying.{cmd_replay}
use gateway_forge.Pcap.Packet.{AllPayloads}
use gateway_forge.Replay.Timing.{IsTimed, wanted_packets, AreOnTime}
use gateway_forge.Replay.Timing.Run.{run_on_time}
use gateway_forge.Pcap.Reader.Loop.{packets_of}
use gateway_forge.Tests.Commands.{
  two_frames, two_capture, call, reply, two_frames-AreComplete, call-HasPayload, reply-HasPayload,
  packets_lem,
}
use gateway_forge.Tests.Flow.{segment_at}
use gateway_forge.Tests.Schema.{small_yaml}

-- Sleeping moves the clock, and everything is sent whole.
abbrev pub small_os : Os ℕ
small_os = record {
  now_ns = λ world. (world, world);
  sleep_us = λ us world. world + 1000 * us;
  open_socket = λ world. (true, world);
  connect = λ host port world. (true, world);
  close = λ world. world;
  send = λ payload size world. (some size, world);
  send_to = λ host port payload size world. (some size, world);
}

abbrev log_at : ℕ → Option Bytes → List (ℕ × Bytes) → List (ℕ × Bytes)
log_at time none entries = entries
log_at time (some bytes) entries = entries ++ ((time, bytes) ∷ [])

abbrev pub same_speed : ℕ → ℕ
same_speed elapsed = elapsed

abbrev fresh_state : ReplayState ℕ
fresh_state = record { base_ts = 0; start_us = none; sent_count = 0; world = 5000 }

abbrev state_after : ℕ → ReplayState ℕ
state_after n = record { base_ts = 0; start_us = some 5; sent_count = n; world = 5000 }

one_sent :
    call_all
      (replay_packet small_os same_speed (tcp_replayer true))
      fresh_state
      (segment_at 1 (5 ∷ []) ∷ [])
    ≡ done (state_after 1)
unfolding call_all replay_packet replay_payload replayer_send
one_sent = refl

none_sent :
    call_all
      (replay_packet small_os same_speed (tcp_replayer false))
      fresh_state
      (segment_at 1 (5 ∷ []) ∷ [])
    ≡ done (state_after 0)
unfolding call_all replay_packet replay_payload replayer_send
none_sent = refl

-- A clock that only the sleep moves, beside what was sent.
abbrev timed_os : Os (ℕ × List (ℕ × Bytes))
timed_os = record {
  now_ns = λ world. (world.0, world);
  sleep_us = λ us world. (world.0 + 1000 * us, world.1);
  open_socket = λ world. (true, world);
  connect = λ host port world. (true, world);
  close = λ world. world;
  send = λ payload size world. (some size, (world.0, log_at (world.0 / 1000) payload world.1));
  send_to = λ host port payload size world.
      (some size, (world.0, log_at (world.0 / 1000) payload world.1));
}

timed_os-IsTimed : IsTimed timed_os (λ world. world.0) (λ world. world.1)
timed_os-IsTimed = record {
  sends = record {
    clock = λ world. refl;
    sleeps = λ us world. refl;
    stream_sends = λ bytes world. (refl, refl);
    datagram_sends = λ host port bytes world. (refl, refl);
  };
  reads = λ world. refl;
  read_goes_on = λ world. omega arith;
  sleeps = λ us world. omega arith;
}

wanted_packets_lem : wanted_packets (packets_of two_frames) ≡ call ∷ reply ∷ []
wanted_packets_lem = ap wanted_packets packets_lem

pub packets-AllPayloads : AllPayloads (packets_of two_frames)
packets-AllPayloads = subst AllPayloads (sym packets_lem) (call-HasPayload, (reply-HasPayload, tt))

-- At twice the speed, the reply is due a millisecond after the call.
run_on_time_example :
    (last : ReplayState (ℕ × List (ℕ × Bytes))) × (run timed_os
        (λ elapsed. elapsed / 2)
        (tcp_replayer true)
        two_capture
        (lit "a.pcap")
        none
        0
        (5000000, [])
      ≡ done last)
    × (log : List (ℕ × Bytes)) × (last.world.1 ≡ log)
    × AreOnTime (λ elapsed. elapsed / 2) 5000 1000005 (call ∷ reply ∷ []) log
run_on_time_example =
    run_on_time timed_os (λ world. world.0) (λ world. world.1) timed_os-IsTimed
      (λ elapsed. elapsed / 2) (tcp_replayer true) refl two_capture (lit "a.pcap") two_frames [] 0
      (5000000, []) call (reply ∷ []) refl two_frames-AreComplete packets-AllPayloads
      wanted_packets_lem (omega arith)
      (omega arith, omega arith, omega arith, (omega arith, omega arith, omega arith, tt))

abbrev no_captures : Text → Option (List NextResult)
no_captures path = none

abbrev pub any_speed : Text → Outcome (ℕ → ℕ)
any_speed text = done same_speed

abbrev pub any_port : Text → Outcome ℤ
any_port text = done (pos 9000)

abbrev no_target : CommandLine
no_target = record { command = lit "replay"; options = (lit "pcap", lit "a.pcap") ∷ [] }

abbrev usage_exit : Exit
usage_exit = record {
  code = 1;
  out = [];
  error =
      lit "Usage: gatewayforge replay --pcap <path> --target <host:port> [--transport tcp|udp]\n";
}

no_target_lem :
    cmd_replay small_os small_yaml no_captures any_speed any_port no_target 0 ≡ done usage_exit
unfolding cmd_replay find_option text_eq
no_target_lem = refl

abbrev with_target : CommandLine
with_target = record {
  command = lit "replay";
  options = (lit "pcap", lit "a.pcap") ∷ (lit "target", lit "h:90") ∷ [];
}
