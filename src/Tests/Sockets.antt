-- ===== src/Tests/Sockets.antt =====
-- An instance for the sockets of a replay: a system whose state is the number of open sockets.
use gateway_forge.Common.{ℕ, ◌+◌, ◌-◌, ◌≡◌, refl, inr, true, some, [], arith}
use gateway_forge.Common.Text.{lit}
use gateway_forge.Common.Outcome.{done}
use gateway_forge.Replay.{Os, ReplayOptions, replay_once}
use gateway_forge.Replay.Sockets.{CountsSockets, replay_once_sockets}
use gateway_forge.Tests.Commands.{two_frames, two_capture, two_frames-AreComplete}
use gateway_forge.Tests.Replay.{same_speed, packets-AllPayloads}

abbrev counting_os : Os ℕ
counting_os = record {
  now_ns = λ world. (7000, world);
  sleep_us = λ us world. world;
  open_socket = λ world. (true, world + 1);
  connect = λ host port world. (true, world);
  close = λ world. world - 1;
  send = λ payload size world. (some size, world);
  send_to = λ host port payload size world. (some size, world);
}

counting_os-CountsSockets : CountsSockets counting_os (λ world. world)
counting_os-CountsSockets = record {
  opens = λ world. refl;
  closes = λ world h. omega arith;
  clock = λ world. refl;
  sleeps = λ us world. refl;
  connects = λ host port world. refl;
  stream_sends = λ block size world. refl;
  datagram_sends = λ host port block size world. refl;
}

abbrev options : ReplayOptions
options = record {
  pcap_path = lit "a.pcap";
  target_host = lit "10.0.0.9";
  target_port = 9000;
  transport = lit "tcp";
}

replay_once_sockets_example :
    (after : ℕ) × (replay_once counting_os same_speed two_capture options 3 ≡ done after)
    × (after ≡ 3)
replay_once_sockets_example =
    replay_once_sockets counting_os (λ world. world) counting_os-CountsSockets same_speed
      two_capture options 3
      (inr (two_frames, [], refl, two_frames-AreComplete, packets-AllPayloads))
