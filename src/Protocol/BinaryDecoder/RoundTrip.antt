-- ===== src/Protocol/BinaryDecoder/RoundTrip.antt =====
-- `Decode` gives back what a sender encoded: each message is a header of fixed-size fields and a
-- payload, which the schema names by a last field of type bytes, or does not name.
use gateway_forge.Common.{
  ℕ, zero, suc, ◌+◌, ◌^◌, ◌≤◌, ◌<◌, ◌≡◌, refl, ap, sym, ◌∙◌, true, false, some, List, [], ◌∷◌, ◌++◌,
  arith, ltb, length, length-append, append_assoc, append-nil, le→ltb-false, lt→ltb, drop, map,
}
use gateway_forge.Common.Words.{Bytes, add64, sub64}
use gateway_forge.Common.Text.{Text, text_eq, lit}
use gateway_forge.Common.Outcome.{done}
use gateway_forge.Protocol.Schema.{ProtocolSchema, FieldDef}
use gateway_forge.Protocol.BinaryDecoder.{
  Fields, decode_fields, find_length, message_size, decode_frames, decode_datagram, decode,
}
use gateway_forge.Protocol.BinaryDecoder.Stall.{decode_tcp}
use gateway_forge.Protocol.BinaryDecoder.Layout.{encode_fields, drop_next}
use gateway_forge.Protocol.BinaryDecoder.Cut.{IsCut, decode_frames_cut}
use gateway_forge.Protocol.BinaryDecoder.Framing.{
  find_declared, Frame, frame_bytes, stream_of, message_of, IsMessage, IsFramed, AreFrames,
  IsStreamSchema, decode_message,
}

module _ (block : Bytes) (small : length block < 2 ^ 62) (schema : ProtocolSchema)
    (fields more : List FieldDef) (s : IsStreamSchema schema fields more) where
  -- One round of the loop, at a whole frame.
  decode_frames_next :
      (f : Frame) (fuel offset : ℕ) (messages : List Fields) (tail : Bytes)
      → IsMessage fields more f
      → IsFramed schema f
      → drop offset block ≡ frame_bytes f ++ tail
      → offset + length (frame_bytes f) ≤ length block
      → decode_frames schema block (length block) (suc fuel) offset messages
        ≡ decode_frames schema block
            (length block)
            fuel
            (offset + length (frame_bytes f))
            (messages ++ (message_of more f ∷ []))
  unfolding decode_frames
  decode_frames_next f fuel offset messages tail m w e l =
      rw (more_data, header_wrap, header_inside, found, size, size_wrap, inside, decoded)
    where
      both : length (frame_bytes f) ≡ schema.framing.header_len + length f.payload
      both = length-append (encode_fields f.header) f.payload ∙ omega (arith, w.header_length)

      at_header : drop offset block ≡ encode_fields f.header ++ (f.payload ++ tail)
      at_header = e ∙ append_assoc (encode_fields f.header) f.payload tail

      more_data : ltb offset (length block) ≡ true
      more_data = lt→ltb _ _ (omega (arith, both, s.some_header))

      header_wrap : add64 offset schema.framing.header_len ≡ offset + schema.framing.header_len
      header_wrap = omega (arith, both)

      header_inside : ltb (length block) (offset + schema.framing.header_len) ≡ false
      header_inside = le→ltb-false _ _ (omega (arith, both))

      found :
          find_length block (length block) schema.framing.length_field schema.fields offset 0
          ≡ done (length f.payload)
      found =
          find_declared block schema fields more f offset (f.payload ++ tail) small s.fields_are m w
            at_header (omega (arith, both))

      size : message_size schema.framing (length f.payload) ≡ length (frame_bytes f)
      size = rw s.counts_payload (omega (arith, both))

      size_wrap : add64 offset (length (frame_bytes f)) ≡ offset + length (frame_bytes f)
      size_wrap = omega arith

      inside : ltb (length block) (offset + length (frame_bytes f)) ≡ false
      inside = le→ltb-false _ _ l

      decoded :
          decode_fields block
            (λ _. length f.payload)
            (offset + length (frame_bytes f))
            schema.fields
            offset
            []
          ≡ done (message_of more f)
      decoded =
          ap
            (λ (fs : List FieldDef).
              decode_fields block (λ _. length f.payload) (offset + length (frame_bytes f)) fs
                offset [])
            s.fields_are
          ∙ decode_message block fields more f (λ _. length f.payload) _ offset tail small m e refl
              l refl

  -- A whole stream of frames, and what a stream that breaks off has behind them.
  decode_frames_all :
      (frames : List Frame) (fuel offset : ℕ) (messages : List Fields) (rest : Bytes)
      → AreFrames schema fields more frames
      → IsCut schema fields more rest
      → drop offset block ≡ stream_of frames ++ rest
      → offset + length (stream_of frames ++ rest) ≡ length block
      → length frames < fuel
      → decode_frames schema block (length block) fuel offset messages
        ≡ done (messages ++ map (message_of more) frames)
  decode_frames_all frames zero offset messages rest a c e l f = absurd (omega arith)
  decode_frames_all [] (suc fuel) offset messages rest a c e l f =
      decode_frames_cut block small schema fields more s fuel offset messages rest c e l
      ∙ ap done (sym (append-nil messages))
  decode_frames_all (frame ∷ frames) (suc fuel) offset messages rest (m, w, a) c e l f =
      decode_frames_next frame fuel offset messages (stream_of frames ++ rest) m w at_frame
        (omega (arith, both))
      ∙ decode_frames_all frames fuel (offset + length (frame_bytes frame))
          (messages ++ (message_of more frame ∷ [])) rest a c
          (drop_next block small offset (frame_bytes frame) (stream_of frames ++ rest) at_frame)
          (omega (arith, both)) (omega arith)
      ∙ ap done (append_assoc messages (message_of more frame ∷ []) (map (message_of more) frames))
    where
      at_frame : drop offset block ≡ frame_bytes frame ++ (stream_of frames ++ rest)
      at_frame = e ∙ append_assoc (frame_bytes frame) (stream_of frames) rest

      both :
          length (stream_of (frame ∷ frames) ++ rest)
          ≡ length (frame_bytes frame) + length (stream_of frames ++ rest)
      both =
          ap length (append_assoc (frame_bytes frame) (stream_of frames) rest)
          ∙ length-append (frame_bytes frame) (stream_of frames ++ rest)

-- A TCP stream of messages that the schema describes, shorter than 2 ^ 62 bytes, with less than one
-- header behind them or with a message that breaks off, under a framing whose length does not count
-- the header: the decoder gives exactly the whole messages, in order, each field under its name with
-- the value that was sent, on fuel for one round more than there are messages. 64-bit values are
-- sent least significant byte first.
pub decode-stream_of :
    (schema : ProtocolSchema) (fields more : List FieldDef) (frames : List Frame) (rest : Bytes)
    (fuel : ℕ)
    → IsStreamSchema schema fields more
    → AreFrames schema fields more frames
    → IsCut schema fields more rest
    → 0 < length (stream_of frames ++ rest)
    → length (stream_of frames ++ rest) < 2 ^ 62
    → length frames < fuel
    → decode fuel schema (some (stream_of frames ++ rest)) (length (stream_of frames ++ rest))
      ≡ done (map (message_of more) frames)
decode-stream_of schema fields more frames rest fuel s a c some_data small f =
    decode_tcp schema _ _ fuel s.tcp s.framed some_data
    ∙ decode_frames_all (stream_of frames ++ rest) small schema fields more s frames fuel 0 [] rest
        a c refl (omega arith) f

decode_udp :
    (schema : ProtocolSchema) (block : Bytes) (len fuel : ℕ)
    → schema.transport ≡ lit "udp"
    → 0 < len
    → decode fuel schema (some block) len ≡ decode_datagram schema block len
unfolding decode text_eq
decode_udp schema block len fuel udp some_data = ground (arith, not_tcp, is_udp)
  where
    not_tcp : text_eq schema.transport (lit "tcp") ≡ false
    not_tcp = ap (λ (t : Text). text_eq t (lit "tcp")) udp

    is_udp : text_eq schema.transport (lit "udp") ≡ true
    is_udp = ap (λ (t : Text). text_eq t (lit "udp")) udp

-- A UDP datagram of less than 2 ^ 62 bytes with one message that the schema describes: the decoder
-- gives that message, with all that follows the header as the payload.
pub decode-frame_bytes :
    (schema : ProtocolSchema) (fields more : List FieldDef) (f : Frame) (fuel : ℕ)
    → schema.transport ≡ lit "udp"
    → schema.fields ≡ fields ++ more
    → IsMessage fields more f
    → 0 < length (frame_bytes f)
    → length (frame_bytes f) < 2 ^ 62
    → decode fuel schema (some (frame_bytes f)) (length (frame_bytes f))
      ≡ done (message_of more f ∷ [])
unfolding decode_datagram
decode-frame_bytes schema fields more f fuel udp fields_are m some_data small =
    decode_udp schema (frame_bytes f) (length (frame_bytes f)) fuel udp some_data
    ∙ rw (
        ap
          (λ (fs : List FieldDef).
            decode_fields (frame_bytes f) (λ offset. sub64 (length (frame_bytes f)) offset)
              (length (frame_bytes f)) fs 0 [])
          fields_are
        ∙ decoded)
  where
    decoded :
        decode_fields
          (frame_bytes f)
          (λ offset. sub64 (length (frame_bytes f)) offset)
          (length (frame_bytes f))
          (fields ++ more)
          0
          []
        ≡ done (message_of more f)
    decoded =
        decode_message (frame_bytes f) fields more f
          (λ offset. sub64 (length (frame_bytes f)) offset) (length (frame_bytes f)) 0 [] small m
          (sym (append-nil (frame_bytes f))) (omega arith) (omega arith)
          (omega (arith, length-append (encode_fields f.header) f.payload))
