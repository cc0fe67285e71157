-- ===== src/Timeline/Builder.antt =====
-- timeline/TimelineEvent and timeline/TimelineBuilder. The flows come in the order in which
-- `GetFlows` gives them; `fuel` is that of the decoder's loop. `std::sort` is a stable insertion sort
-- here; the order of events of one time is not specified by the library.
use gateway_forge.Common.{ℕ, some, List, [], ◌∷◌, ◌++◌, ltb, if◌then◌else◌, length}
use gateway_forge.Common.Words.{Bytes}
use gateway_forge.Common.Text.{Text, lit, to_string}
use gateway_forge.Common.Outcome.{Outcome, done, ◌>>=◌}
use gateway_forge.Pcap.Packet.{Packet, payload_ref}
use gateway_forge.Protocol.Message.{Message}
use gateway_forge.Protocol.Schema.{ProtocolSchema}
use gateway_forge.Protocol.BinaryDecoder.{decode_to_messages}
use gateway_forge.Flow.FlowKey.{FlowKey}
use gateway_forge.Flow.UdpFlow.{source_of, destination_of}
use gateway_forge.Flow.FlowTracker.{Flow, of_tcp, of_udp}

pub record TimelineEvent : Type 0 where
  pub timestamp_us : ℕ
  pub transport : Text
  pub src : Text
  pub dst : Text
  pub message_type : Text
  pub details : Text

-- `FromMessage`.
abbrev pub from_message : Message → Text → Text → Text → TimelineEvent
from_message msg transport src dst = record {
  timestamp_us = msg.timestamp_us;
  transport = transport;
  src = src;
  dst = dst;
  message_type = msg.type;
  details = msg.summary;
}

abbrev pub events_of : List Message → Text → Text → Text → List TimelineEvent
events_of [] transport src dst = []
events_of (msg ∷ messages) transport src dst =
    from_message msg transport src dst ∷ events_of messages transport src dst

-- "host:port" of the two ends of a key.
abbrev pub key_source : FlowKey → Text
key_source k = k.src_ip ++ (lit ":" ++ to_string k.src_port)

abbrev pub key_destination : FlowKey → Text
key_destination k = k.dst_ip ++ (lit ":" ++ to_string k.dst_port)

module _ (fuel : ℕ) (schema : ProtocolSchema) where
  -- The events of one direction of a TCP flow.
  unfoldable pub stream_events : Bytes → ℕ → Text → Text → Text → Outcome (List TimelineEvent)
  stream_events [] first_seen direction src dst = done []
  stream_events (b ∷ bs) first_seen direction src dst = do
    messages ← decode_to_messages fuel schema (some (b ∷ bs)) (length (b ∷ bs)) first_seen direction
    done (events_of messages (lit "TCP") src dst)

  -- The events of the datagrams of a UDP flow.
  unfoldable pub datagram_events : List Packet → Outcome (List TimelineEvent)
  datagram_events [] = done []
  datagram_events (d ∷ ds) = do
    payload ← payload_ref d
    messages ←
        decode_to_messages fuel schema payload.block payload.size d.timestamp_us
          (source_of d ++ (lit " -> " ++ destination_of d))
    rest ← datagram_events ds
    done (events_of messages (lit "UDP") (source_of d) (destination_of d) ++ rest)

  -- The events of one flow.
  unfoldable pub flow_events : Flow → Outcome (List TimelineEvent)
  unfolding stream_events datagram_events
  flow_events (of_tcp f) = do
    c_events ←
        stream_events f.client_to_server.stream f.first_seen (lit "C->S") (key_source f.key)
          (key_destination f.key)
    s_events ←
        stream_events f.server_to_client.stream f.first_seen (lit "S->C") (key_destination f.key)
          (key_source f.key)
    done (c_events ++ s_events)
  flow_events (of_udp f) = datagram_events f.tracker.datagrams

  -- The loop over the flows.
  unfoldable pub collect_events : List Flow → Outcome (List TimelineEvent)
  collect_events [] = done []
  collect_events (flow ∷ flows) = do
    events ← flow_events flow
    rest ← collect_events flows
    done (events ++ rest)

-- The sort by time.
unfoldable pub insert_event : TimelineEvent → List TimelineEvent → List TimelineEvent
insert_event e [] = e ∷ []
insert_event e (x ∷ xs) =
    if ltb x.timestamp_us e.timestamp_us then x ∷ insert_event e xs else e ∷ x ∷ xs

unfoldable pub sort_events : List TimelineEvent → List TimelineEvent
unfolding insert_event
sort_events [] = []
sort_events (e ∷ es) = insert_event e (sort_events es)

-- `Build`: the events that it leaves.
unfoldable pub build : ℕ → ProtocolSchema → List Flow → Outcome (List TimelineEvent)
build fuel schema flows = do events ← collect_events fuel schema flows; done (sort_events events)
