-- ===== src/Timeline/Total.antt =====
-- That the timeline is built.
use gateway_forge.Common.{
  ◌⊎◌, inl, inr, ℕ, ◌^◌, ◌≤◌, ◌<◌, ◌≡◌, refl, sym, false, some, List, [], ◌∷◌, arith, length,
}
use gateway_forge.Common.Words.{Bytes}
use gateway_forge.Common.Text.{Text, lit, text_eq}
use gateway_forge.Common.Outcome.{done, Returns, Returns-value, Returns-bind}
use gateway_forge.Pcap.Packet.{Packet}
use gateway_forge.Protocol.Schema.{ProtocolSchema}
use gateway_forge.Protocol.BinaryDecoder.{Fields, decode, decode_to_messages}
use gateway_forge.Protocol.BinaryDecoder.Safety.{decode_total, decode_total_other}
use gateway_forge.Flow.FlowTracker.{Flow, of_tcp, of_udp, Flows, get_flows}
use gateway_forge.Flow.FlowTracker.Sizes.{AreWithin, IsWithin, AllWithin}
use gateway_forge.Timeline.Builder.{
  TimelineEvent, stream_events, datagram_events, flow_events, collect_events, build,
}

-- A framing that makes progress with each message.
pub record IsProgressing (schema : ProtocolSchema) : Type 0 where
  pub counts_payload : schema.framing.length_includes_header ≡ false
  pub some_header : 0 < schema.framing.header_len
  pub header_small : schema.framing.header_len < 2 ^ 63

-- The decoder ends: the framing makes progress, or the transport is not TCP.
abbrev pub IsDecodable : ProtocolSchema → Type 0
IsDecodable schema = IsProgressing schema ⊎ (text_eq schema.transport (lit "tcp") ≡ false)

module _ (fuel : ℕ) (schema : ProtocolSchema) (s : IsDecodable schema) (n : ℕ) (enough : n < fuel)
    (small : n < 2 ^ 63) where
  decode_to_messages-Returns :
      (bytes : Bytes) (len time : ℕ) (direction : Text)
      → len ≡ length bytes
      → len ≤ n
      → Returns (decode_to_messages fuel schema (some bytes) len time direction)
  unfolding decode_to_messages
  decode_to_messages-Returns bytes len time direction e fits =
      let (r, decoded) = decoded_at s in rw decoded tt
    where
      decoded_at :
          IsDecodable schema → (r : List Fields) × (decode fuel schema (some bytes) len ≡ done r)
      decoded_at (inl p) =
          decode_total bytes len (omega arith) (omega arith) fuel schema p.counts_payload
            p.some_header p.header_small (omega arith)
      decoded_at (inr other) =
          decode_total_other bytes len (omega arith) (omega arith) fuel schema other

  stream_events-Returns :
      (bytes : Bytes) (time : ℕ) (direction src dst : Text)
      → length bytes ≤ n
      → Returns (stream_events fuel schema bytes time direction src dst)
  unfolding stream_events
  stream_events-Returns [] time direction src dst fits = tt
  stream_events-Returns (b ∷ bs) time direction src dst fits =
      Returns-bind _ _
        (decode_to_messages-Returns (b ∷ bs) (length (b ∷ bs)) time direction refl fits)
        (λ messages _. tt)

  datagram_events-Returns :
      (ds : List Packet) → AreWithin n ds → Returns (datagram_events fuel schema ds)
  unfolding datagram_events
  datagram_events-Returns [] w = tt
  datagram_events-Returns (d ∷ ds) ((h, fits), w) =
      rw (h.present, h.valid.allocated)
        (Returns-bind _ _
          (decode_to_messages-Returns h.valid.bytes h.buffer.size d.timestamp_us _
            (sym h.valid.sized) fits)
          λ messages _. Returns-bind _ _ (datagram_events-Returns ds w) λ rest _. tt)

  flow_events-Returns : (f : Flow) → IsWithin n f → Returns (flow_events fuel schema f)
  unfolding flow_events
  flow_events-Returns (of_tcp f) (c, s) =
      Returns-bind _ _ (stream_events-Returns f.client_to_server.stream _ _ _ _ c) λ c_events _.
        Returns-bind _ _ (stream_events-Returns f.server_to_client.stream _ _ _ _ s)
          λ s_events _. tt
  flow_events-Returns (of_udp f) w = datagram_events-Returns f.tracker.datagrams w

  collect_events-Returns :
      (flows : Flows) → AllWithin n flows → Returns (collect_events fuel schema (get_flows flows))
  unfolding collect_events
  collect_events-Returns [] w = tt
  collect_events-Returns ((key, f) ∷ flows) (v, w) =
      Returns-bind _ _ (flow_events-Returns f v)
        λ events _. Returns-bind _ _ (collect_events-Returns flows w) λ rest _. tt

  -- If no stream and no datagram of the flows is longer than `n` bytes, and the fuel is more, the
  -- timeline is built.
  pub build_total :
      (flows : Flows)
      → AllWithin n flows
      → (events : List TimelineEvent) × (build fuel schema (get_flows flows) ≡ done events)
  unfolding build
  build_total flows w =
      Returns-value _ (Returns-bind _ _ (collect_events-Returns flows w) λ events _. tt)
