-- ===== src/Flow/TcpReassembler.antt =====
-- flow/TcpReassembler: one direction of a TCP flow.
pub mod Stream
pub mod Handshake
pub mod Prefix
pub mod Retransmission
use gateway_forge.Common.{
  ℕ, ◌+◌, Bool, true, false, List, [], ◌∷◌, ◌++◌, ◌==◌, if◌then◌else◌, length,
}
use gateway_forge.Common.Words.{Bytes, to_u32}
use gateway_forge.Common.Text.{lit, to_string}
use gateway_forge.Common.Outcome.{Outcome, done, ◌>>=◌}
use gateway_forge.Common.Memory.{memcpy}
use gateway_forge.Buffer.{Buffer, deref}
use gateway_forge.Pcap.Packet.{Packet, payload_ref}
use gateway_forge.Protocol.Message.{Message}

pub record TcpReassembler : Type 0 where
  pub stream : Bytes
  pub next_seq : ℕ
  pub initialized : Bool

abbrev pub empty_reassembler : TcpReassembler
empty_reassembler = record { stream = []; next_seq = 0; initialized = false }

-- The first segment sets the sequence number that is waited for.
abbrev pub started : TcpReassembler → Packet → TcpReassembler
started r packet =
    if r.initialized then r else record r { next_seq = packet.tcp_seq; initialized = true }

-- The part of `AddSegment` behind the payload's pointer and size.
unfoldable pub add_payload : TcpReassembler → ℕ → Buffer → Outcome TcpReassembler
add_payload r seg_seq payload =
    if payload.size == 0
    then done r
    else if seg_seq == r.next_seq
    then (do
      bytes ← deref payload.block
      segment ← memcpy bytes 0 payload.size
      done (record r { stream = r.stream ++ segment; next_seq = to_u32 (seg_seq + payload.size) }))
    else done r

-- `AddSegment`; its flag for the direction is not used.
unfoldable pub add_segment : TcpReassembler → Packet → Bool → Outcome TcpReassembler
unfolding add_payload
add_segment r packet is_client_to_server = do
  payload ← payload_ref packet
  add_payload (started r packet) packet.tcp_seq payload

abbrev pub byte_count : TcpReassembler → ℕ
byte_count r = length r.stream

-- `Messages`: one message for the whole stream, none for an empty one.
unfoldable pub stream_messages : TcpReassembler → List Message
stream_messages r = elim r.stream [
  | [] ↦ []
  | b ∷ bs ↦
      record {
        timestamp_us = 0;
        direction = lit "->";
        type = lit "TCP_STREAM";
        summary = lit "TCP stream (" ++ (to_string (length (b ∷ bs)) ++ lit " bytes)");
      }
      ∷ []
]
