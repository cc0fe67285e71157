-- ===== src/Timeline/Datagrams.antt =====
-- From the datagrams of a UDP flow to the events of the timeline.
use gateway_forge.Common.{ℕ, ◌^◌, ◌<◌, ◌≡◌, refl, ap, ◌∙◌, some, List, [], ◌∷◌, ◌++◌, length}
use gateway_forge.Common.Words.{Bytes}
use gateway_forge.Common.Text.{lit}
use gateway_forge.Common.Outcome.{done}
use gateway_forge.Pcap.Packet.{Packet, HasPayload, AllPayloads, payload_ref_lem}
use gateway_forge.Protocol.Schema.{ProtocolSchema, FieldDef}
use gateway_forge.Protocol.BinaryDecoder.{decode, to_messages, decode_to_messages}
use gateway_forge.Protocol.BinaryDecoder.Framing.{Frame, frame_bytes, message_of, IsMessage}
use gateway_forge.Protocol.BinaryDecoder.RoundTrip.{decode-frame_bytes}
use gateway_forge.Flow.TcpReassembler.Stream.{payload_bytes, block_lem}
use gateway_forge.Flow.FlowKey.{FlowKey}
use gateway_forge.Flow.UdpFlow.{UdpFlow, source_of, destination_of}
use gateway_forge.Flow.FlowTracker.{of_udp, Flows, find_flow, get_flows}
use gateway_forge.Flow.FlowTracker.Sizes.{payload_size_lem}
use gateway_forge.Timeline.Builder.{TimelineEvent, events_of, datagram_events, flow_events, build}
use gateway_forge.Timeline.Found.{HoldsBeside, build_found}

-- A schema for datagrams: the fields of the header, and those behind them.
pub record IsDatagramSchema (schema : ProtocolSchema) (fields more : List FieldDef) : Type 0 where
  pub udp : schema.transport ≡ lit "udp"
  pub fields_are : schema.fields ≡ fields ++ more

-- A packet whose payload is one message.
pub record Carries (fields more : List FieldDef) (p : Packet) (f : Frame) : Type 0 where
  pub payload : HasPayload p
  pub bytes_are : payload_bytes p ≡ frame_bytes f
  pub message : IsMessage fields more f
  pub some_bytes : 0 < length (frame_bytes f)
  pub small : length (frame_bytes f) < 2 ^ 62

abbrev pub CarryAll : List FieldDef → List FieldDef → List Packet → List Frame → Type 0
CarryAll fields more [] [] = Unit {0}
CarryAll fields more (p ∷ ps) (f ∷ fs) = Carries fields more p f × CarryAll fields more ps fs
CarryAll fields more _ _ = ⊥

-- The event of one such packet, at its own time.
abbrev pub datagram_event : List FieldDef → Packet → Frame → List TimelineEvent
datagram_event more p f =
    events_of
      (to_messages p.timestamp_us (source_of p ++ (lit " -> " ++ destination_of p))
        (message_of more f ∷ []))
      (lit "UDP") (source_of p) (destination_of p)

abbrev pub all_datagram_events : List FieldDef → List Packet → List Frame → List TimelineEvent
all_datagram_events more (p ∷ ps) (f ∷ fs) =
    datagram_event more p f ++ all_datagram_events more ps fs
all_datagram_events more _ _ = []

pub CarryAll-payloads :
    (fields more : List FieldDef) (ps : List Packet) (fs : List Frame)
    → CarryAll fields more ps fs
    → AllPayloads ps
CarryAll-payloads fields more [] [] c = tt
CarryAll-payloads fields more (p ∷ ps) (f ∷ fs) (one, c) =
    (one.payload, CarryAll-payloads fields more ps fs c)
CarryAll-payloads fields more [] (f ∷ fs) c = absurd c
CarryAll-payloads fields more (p ∷ ps) [] c = absurd c

module _ (schema : ProtocolSchema) (fields more : List FieldDef)
    (s : IsDatagramSchema schema fields more) (fuel : ℕ) where
  datagram_events_lem :
      (ps : List Packet) (fs : List Frame)
      → CarryAll fields more ps fs
      → datagram_events fuel schema ps ≡ done (all_datagram_events more ps fs)
  unfolding datagram_events decode_to_messages
  datagram_events_lem [] [] c = refl
  datagram_events_lem (p ∷ ps) (f ∷ fs) (one, c) =
      rw
        (
          payload_ref_lem p one.payload,
          block_lem p one.payload,
          payload_size_lem p one.payload,
          decoded,
          datagram_events_lem ps fs c,
        )
        refl
    where
      decoded :
          decode fuel schema (some (payload_bytes p)) (length (payload_bytes p))
          ≡ done (message_of more f ∷ [])
      decoded =
          ap (λ (bytes : Bytes). decode fuel schema (some bytes) (length bytes)) one.bytes_are
          ∙ decode-frame_bytes schema fields more f fuel s.udp s.fields_are one.message
              one.some_bytes one.small
  datagram_events_lem [] (f ∷ fs) c = absurd c
  datagram_events_lem (p ∷ ps) [] c = absurd c

  -- Where the tracker's flow for a key has datagrams that each are one message, the timeline, if it is
  -- built, holds one event for each of them, with its own time and ends, besides exactly the events of the
  -- other flows.
  pub build_datagrams :
      (key : FlowKey) (flows : Flows) (f : UdpFlow) (ps : List Packet) (fs : List Frame)
      {events : List TimelineEvent}
      → find_flow key flows ≡ some (of_udp f)
      → f.tracker.datagrams ≡ ps
      → CarryAll fields more ps fs
      → build fuel schema (get_flows flows) ≡ done events
      → HoldsBeside fuel schema key flows (all_datagram_events more ps fs) events
  unfolding flow_events
  build_datagrams key flows f ps fs found kept c h =
      build_found fuel schema key flows found
        (ap (datagram_events fuel schema) kept ∙ datagram_events_lem ps fs c) h
