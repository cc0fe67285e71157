-- ===== src/Flow/TcpFlow/Lossy.antt =====
-- A TCP flow whose packets a network has lost, repeated and put out of order.
use gateway_forge.Common.{
  ◌^◌, ◌<◌, ◌≡◌, refl, ap, subst, ◌⊎◌, inl, inr, Bool, List, [], ◌∷◌, ◌++◌, length,
}
use gateway_forge.Common.Words.{Bytes}
use gateway_forge.Common.Outcome.{done}
use gateway_forge.Pcap.Packet.{Packet}
use gateway_forge.Flow.FlowKey.{FlowKey}
use gateway_forge.Flow.TcpReassembler.{TcpReassembler, empty_reassembler}
use gateway_forge.Flow.TcpReassembler.Stream.{add_segments}
use gateway_forge.Flow.TcpReassembler.Prefix.{AreSlices, reassemble-IsPrefix}
use gateway_forge.Flow.TcpFlow.{TcpFlow, new_tcp_flow}
use gateway_forge.Flow.TcpFlow.Directions.{run_tcp, side_packets, side_of, side_reassembled}

-- What a network may leave of one direction in which these bytes were sent: nothing, or segments with
-- parts of them, in any order and any number, the first of which carries their start.
abbrev pub IsLossySide : FlowKey → Bool → List Packet → Bytes → Type 0
IsLossySide key side ps sent =
    (side_packets key side ps ≡ [])
    ⊎ ((p : Packet) × (rest : List Packet) × (side_packets key side ps ≡ p ∷ rest)
        × (p.tcp_seq < 2 ^ 32)
        × AreSlices p.tcp_seq sent (p ∷ rest))

-- The stream of such a direction is a prefix of the bytes that were sent.
pub lossy_side :
    (key : FlowKey) (side : Bool) (ps : List Packet) (sent : Bytes) {f : TcpFlow}
    → length sent < 2 ^ 32
    → run_tcp (new_tcp_flow key) ps ≡ done f
    → IsLossySide key side ps sent
    → (missing : Bytes) × (sent ≡ (side_of side f).stream ++ missing)
unfolding add_segments
lossy_side key side ps sent {f} small run (inl none_there) = (
  sent,
  ap (λ (r : TcpReassembler). r.stream ++ sent)
      (side_reassembled key side ps {r = empty_reassembler} run none_there refl),
)
lossy_side key side ps sent {f} small run (inr (p, rest, own, in_range, slices)) =
    let (r, made, k) = reassemble-IsPrefix p.tcp_seq sent small p rest refl in_range slices in
    (
      k.missing,
      subst (λ (q : TcpReassembler). sent ≡ q.stream ++ k.missing)
          (side_reassembled key side ps run own made) k.is_prefix,
    )
