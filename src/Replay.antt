-- ===== src/Replay.antt =====
-- The directory replay. The operating system is a record of operations on a state of the world, an
-- argument of the functions, and so is the division by the speed, which the source does with doubles.
pub mod Counts
pub mod Kept
pub mod Sends
pub mod Timing
pub mod Sockets
use gateway_forge.Common.{
  ℕ, ◌+◌, ◌-◌, ◌/◌, Bool, true, false, Option, none, some, List, [], ltb, ◌==◌, if◌then◌else◌,
}
use gateway_forge.Common.Words.{Bytes, add64, sub64}
use gateway_forge.Common.Text.{Text, lit, text_eq}
use gateway_forge.Common.Outcome.{Outcome, done, ◌>>=◌}
use gateway_forge.Pcap.Packet.{Packet, unknown, protocol_eq, payload_ref, payload_size}
use gateway_forge.Pcap.Reader.{NextResult, closed_reader, open_reader, for_each_packet, PcapReader}

-- The clock, the sleep, and the calls on one socket; a count that is sent is `none` for -1.
pub record Os (World : Type 0) : Type 0 where
  pub now_ns : World → ℕ × World
  pub sleep_us : ℕ → World → World
  pub open_socket : World → Bool × World
  pub connect : Text → ℕ → World → Bool × World
  pub close : World → World
  pub send : Option Bytes → ℕ → World → Option ℕ × World
  pub send_to : Text → ℕ → Option Bytes → ℕ → World → Option ℕ × World

-- The speed is the argument `over_speed` of what follows; no code reads `randomize_source_port`.
pub record ReplayOptions : Type 0 where
  pub pcap_path : Text
  pub target_host : Text
  pub target_port : ℕ
  pub transport : Text

-- The two replayers: is the stream socket connected, is the datagram socket open.
pub data Replayer : Type 0 where
  tcp_replayer : Bool → Replayer
  udp_replayer : Bool → Text → ℕ → Replayer

-- What `Run` changes: the time of the first packet, the start time, and the count.
pub record ReplayState (World : Type 0) : Type 0 where
  pub base_ts : ℕ
  pub start_us : Option ℕ
  pub sent_count : ℕ
  pub world : World

abbrev pub all_sent : Option ℕ → ℕ → Bool
all_sent none size = false
all_sent (some n) size = n == size

-- The time to sleep before a packet that is due at `target_us`.
abbrev pub pause_us : ℕ → ℕ → ℕ
pause_us now target_us = if ltb now target_us then target_us - now else 0

module _ {World : Type 0} (os : Os World) where
  -- `Time::NowUs`.
  abbrev pub now_us : World → ℕ × World
  now_us world = let reading = os.now_ns world in (reading.0 / 1000, reading.1)

  -- `TcpReplayer(host, port)`.
  unfoldable pub new_tcp_replayer : Text → ℕ → World → Replayer × World
  new_tcp_replayer host port world =
      let opened = os.open_socket world in
      let connected = os.connect host port opened.1 in
      if opened.0
      then (if connected.0
          then (tcp_replayer true, connected.1)
          else (tcp_replayer false, os.close connected.1))
      else (tcp_replayer false, opened.1)

  -- `UdpReplayer(host, port)`.
  unfoldable pub new_udp_replayer : Text → ℕ → World → Replayer × World
  new_udp_replayer host port world =
      let opened = os.open_socket world in (udp_replayer opened.0 host port, opened.1)

  -- `ReplayEngine(options)`.
  unfoldable pub new_replayer : ReplayOptions → World → Replayer × World
  new_replayer options world =
      if text_eq options.transport (lit "tcp")
      then new_tcp_replayer options.target_host options.target_port world
      else new_udp_replayer options.target_host options.target_port world

  -- `TcpReplayer::Send`.
  abbrev pub tcp_send : Bool → Packet → World → Outcome (Bool × World)
  tcp_send false packet world = done (false, world)
  tcp_send true packet world = do
    payload ← payload_ref packet
    let sent = os.send payload.block payload.size world in
        done (all_sent sent.0 payload.size, sent.1)

  -- `UdpReplayer::Send`.
  abbrev pub udp_send : Bool → Text → ℕ → Packet → World → Outcome (Bool × World)
  udp_send false host port packet world = done (false, world)
  udp_send true host port packet world = do
    payload ← payload_ref packet
    let sent = os.send_to host port payload.block payload.size world in
        done (all_sent sent.0 payload.size, sent.1)

  -- The virtual `Send`.
  unfoldable pub replayer_send : Replayer → Packet → World → Outcome (Bool × World)
  replayer_send (tcp_replayer connected) packet world = tcp_send connected packet world
  replayer_send (udp_replayer opened host port) packet world =
      udp_send opened host port packet world

  module _ (over_speed : ℕ → ℕ) (replayer : Replayer) where
    -- The time that a packet is due at.
    abbrev pub target_of : ℕ → ℕ → Packet → ℕ
    target_of start_us base_ts packet =
        add64 start_us (over_speed (sub64 packet.timestamp_us base_ts))

    abbrev pub base_of : ReplayState World → Packet → ℕ
    base_of st packet = if st.base_ts == 0 then packet.timestamp_us else st.base_ts

    abbrev pub start_of : ReplayState World → ℕ → ℕ
    start_of st now = elim st.start_us [ none ↦ now | some start ↦ start ]

    -- The world after the sleep, if there is one.
    abbrev pub paused : ℕ → ℕ → World → World
    paused now target_us world =
        if ltb now target_us then os.sleep_us (pause_us now target_us) world else world

    -- The rest of the callback, for a packet that is to be sent.
    unfoldable pub replay_payload : ReplayState World → Packet → Outcome (ReplayState World)
    replay_payload st packet =
        let clock = now_us st.world in
        let start = start_of st clock.0 in
        let world = paused clock.0 (target_of start (base_of st packet) packet) clock.1 in
        do
          sent ← replayer_send replayer packet world
          done (record {
            base_ts = base_of st packet;
            start_us = some start;
            sent_count = if sent.0 then st.sent_count + 1 else st.sent_count;
            world = sent.1;
          })

    -- The callback of `Run`.
    unfoldable pub replay_packet : ReplayState World → Packet → Outcome (ReplayState World)
    replay_packet st packet = do
      size ← payload_size packet
      if size == 0
          then done st
          else if protocol_eq packet.protocol unknown
          then done st
          else replay_payload st packet

    -- `Run`; a capture that does not open is only logged. The start time is a static of the process,
    -- unset before the first packet that a run of the process sends, and the count is a member of the
    -- engine: both are what the runs before have left, and only the first time is new.
    unfoldable pub run :
        (Text → Option (List NextResult))
        → Text
        → Option ℕ
        → ℕ
        → World
        → Outcome (ReplayState World)
    run pcap_open_offline pcap_path start_us sent_count world =
        let opened = open_reader pcap_open_offline closed_reader pcap_path in
        let begun : ReplayState World = record {
          base_ts = 0;
          start_us = start_us;
          sent_count = sent_count;
          world = world;
        } in
        if opened.1
        then (do result ← for_each_packet replay_packet opened.0 begun; done result.1)
        else done begun

  -- `~TcpReplayer`, `~UdpReplayer`, and the virtual destructor: an open socket is closed. A stream
  -- socket is open exactly where it is connected.
  abbrev pub destroy_tcp : Bool → World → World
  destroy_tcp connected world = if connected then os.close world else world

  abbrev pub destroy_udp : Bool → World → World
  destroy_udp opened world = if opened then os.close world else world

  unfoldable pub destroy_replayer : Replayer → World → World
  destroy_replayer (tcp_replayer connected) world = destroy_tcp connected world
  destroy_replayer (udp_replayer opened host port) world = destroy_udp opened world

  -- The life of the engine in `CmdReplay`: it is made, with a count of 0, it runs, and it is
  -- destroyed. The process runs one command, so this is the first run of the process.
  unfoldable pub replay_once :
      (ℕ → ℕ) → (Text → Option (List NextResult)) → ReplayOptions → World → Outcome World
  replay_once over_speed pcap_open_offline options world =
      let made = new_replayer options world in
      do
        st ← run over_speed made.0 pcap_open_offline options.pcap_path none 0 made.1
        done (destroy_replayer made.0 st.world)
