-- ===== src/Demo/TcpServer/Ack.antt =====
-- The acknowledgement of the TCP demo server, as a client that knows the schema reads it.
use gateway_forge.Common.{inl, ℕ, ◌+◌, ◌%◌, ◌^◌, ◌<◌, ◌≡◌, sym, ap, ◌∙◌, some, [], ◌∷◌, ◌++◌, arith}
use gateway_forge.Common.Words.{Bytes, be_value, be_bytes}
use gateway_forge.Common.Outcome.{done}
use gateway_forge.Protocol.BinaryDecoder.{decode}
use gateway_forge.Protocol.BinaryDecoder.Framing.{frame_bytes}
use gateway_forge.Protocol.BinaryDecoder.RoundTrip.{decode-stream_of}
use gateway_forge.Demo.Vehicle.{
  vehicle_schema, vehicle_fields, vehicle_header, vehicle_frame, vehicle_schema-IsStreamSchema,
  vehicle_frame-IsMessage, vehicle_frame-IsFramed,
}
use gateway_forge.Demo.TcpServer.{seq_of, word_at, ack_of}

be_value_1 : (n : ℕ) → n < 2 ^ 8 → be_value (be_bytes 1 n) ≡ n
be_value_1 n h = omega arith

be_value_4 : (n : ℕ) → n < 2 ^ 32 → be_value (be_bytes 4 n) ≡ n
be_value_4 n h = omega arith

-- What the server reads of a whole message, with whatever follows it.
seq_of-frame :
    (version msg_type seq : ℕ) (payload rest : Bytes)
    → seq < 2 ^ 32
    → seq_of (frame_bytes (vehicle_frame version msg_type seq payload) ++ rest) ≡ seq
seq_of-frame version msg_type seq payload rest h = be_value_4 seq h

version_of-frame :
    (version msg_type seq : ℕ) (payload rest : Bytes)
    → version < 2 ^ 8
    → word_at (frame_bytes (vehicle_frame version msg_type seq payload) ++ rest) 2 1 ≡ version
version_of-frame version msg_type seq payload rest h = be_value_1 version h

ack_lem :
    (version version' a b c last last' : ℕ)
    → version ≡ version'
    → 0 ≡ a
    → 0 ≡ b
    → 0 ≡ c
    → last ≡ last'
    → ◌≡◌ {A = Bytes}
        (202 ∷ 254 ∷ version ∷ 2 ∷ 0 ∷ 0 ∷ 0 ∷ last ∷ 0 ∷ 0 ∷ [])
        (202 ∷ 254 ∷ version' ∷ 2 ∷ a ∷ b ∷ c ∷ last' ∷ 0 ∷ 0 ∷ [])
ack_lem version version' a b c last last' p q r s t = cc

ack_of-frame :
    (version msg_type seq : ℕ) (payload rest : Bytes)
    → version < 2 ^ 8
    → seq < 2 ^ 32
    → ack_of (frame_bytes (vehicle_frame version msg_type seq payload) ++ rest)
      ≡ frame_bytes (vehicle_frame version 2 ((seq + 1) % 2 ^ 8) []) ++ []
unfolding ack_of
ack_of-frame version msg_type seq payload rest v s =
    ack_lem _ _ _ _ _ _ _ (omega arith) (omega arith) (omega arith) (omega arith) (
      ap (λ (n : ℕ). (n + 1) % 256) (seq_of-frame version msg_type seq payload rest s)
      ∙ sym (omega arith))

-- A client sends a message of the schema, with a payload of less than 2 ^ 16 bytes, and the server
-- gets it in one piece, with whatever follows it: the acknowledgement decodes under the same schema to
-- one message, with the client's version, type 2, no payload, and of the sequence number after the
-- client's only the last byte.
pub decode-ack_of :
    (version msg_type seq : ℕ) (payload rest : Bytes) (fuel : ℕ)
    → version < 2 ^ 8
    → seq < 2 ^ 32
    → 1 < fuel
    → decode fuel vehicle_schema
        (some (ack_of (frame_bytes (vehicle_frame version msg_type seq payload) ++ rest)))
        10
      ≡ done (vehicle_header version 2 ((seq + 1) % 2 ^ 8) 0 ∷ [])
decode-ack_of version msg_type seq payload rest fuel v s f =
    ap (λ (bytes : Bytes). decode fuel vehicle_schema (some bytes) 10)
      (ack_of-frame version msg_type seq payload rest v s)
    ∙ decode-stream_of vehicle_schema vehicle_fields []
        (vehicle_frame version 2 ((seq + 1) % 2 ^ 8) [] ∷ []) [] fuel vehicle_schema-IsStreamSchema
        (
          vehicle_frame-IsMessage version 2 ((seq + 1) % 2 ^ 8) [] v (omega arith) (omega arith)
              (omega arith),
          vehicle_frame-IsFramed version 2 ((seq + 1) % 2 ^ 8) [],
          tt,
        )
        (inl (omega arith)) (omega arith) (omega arith) f
