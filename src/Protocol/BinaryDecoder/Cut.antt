-- ===== src/Protocol/BinaryDecoder/Cut.antt =====
-- A stream of frames that breaks off: what is behind its whole messages, and what the loop over the
-- frames makes of that.
use gateway_forge.Common.{
  ℕ, suc, ◌+◌, ◌^◌, ◌≤◌, ◌<◌, ◌≡◌, refl, ap, sym, ◌∙◌, ◌⊎◌, inl, inr, true, false, List, [], ◌∷◌,
  ◌++◌, arith, ltb, length, length-append, append_assoc, append_later, le→ltb-false, lt→ltb, ltb→lt,
  ltb-false→le, Bool-cases, drop,
}
use gateway_forge.Common.Words.{Bytes, add64}
use gateway_forge.Common.Outcome.{done}
use gateway_forge.Protocol.Schema.{ProtocolSchema, FieldDef}
use gateway_forge.Protocol.BinaryDecoder.{Fields, find_length, message_size, decode_frames}
use gateway_forge.Protocol.BinaryDecoder.Layout.{encode_fields}
use gateway_forge.Protocol.BinaryDecoder.Framing.{
  find_declared, Frame, frame_bytes, stream_of, IsMessage, IsFramed, AreFrames, IsStreamSchema,
}

-- The start of a message, some bytes of which are missing.
pub record IsBroken (schema : ProtocolSchema) (fields more : List FieldDef) (tail : Bytes)
    : Type 0 where
  pub frame : Frame
  pub missing : Bytes
  pub message : IsMessage fields more frame
  pub framed : IsFramed schema frame
  pub frame_is : frame_bytes frame ≡ tail ++ missing
  pub lacks : 0 < length missing
  pub frame_small : length (frame_bytes frame) < 2 ^ 62

-- What may stand behind whole messages: less than one header, or a message that breaks off.
abbrev pub IsCut : ProtocolSchema → List FieldDef → List FieldDef → Bytes → Type 0
IsCut schema fields more tail =
    (length tail < schema.framing.header_len) ⊎ IsBroken schema fields more tail

module _ (block : Bytes) (small : length block < 2 ^ 62) (schema : ProtocolSchema)
    (fields more : List FieldDef) (s : IsStreamSchema schema fields more) where
  decode_frames_short :
      (fuel offset : ℕ) (messages : List Fields)
      → offset ≤ length block
      → length block < offset + schema.framing.header_len
      → decode_frames schema block (length block) (suc fuel) offset messages ≡ done messages
  unfolding decode_frames
  decode_frames_short fuel offset messages o l = ground (arith, s.header_small)

  -- A whole header, but too few bytes behind it.
  decode_frames_broken :
      (f : Frame) (fuel offset : ℕ) (messages : List Fields) (part : Bytes)
      → IsMessage fields more f
      → IsFramed schema f
      → drop offset block ≡ encode_fields f.header ++ part
      → offset + schema.framing.header_len ≤ length block
      → length (frame_bytes f) < 2 ^ 62
      → length block < offset + length (frame_bytes f)
      → decode_frames schema block (length block) (suc fuel) offset messages ≡ done messages
  unfolding decode_frames
  decode_frames_broken f fuel offset messages part m w e inside frame_small l =
      rw (more_data, header_wrap, header_inside, found, size, size_wrap, outside) refl
    where
      more_data : ltb offset (length block) ≡ true
      more_data = lt→ltb _ _ (omega (arith, s.some_header))

      header_wrap : add64 offset schema.framing.header_len ≡ offset + schema.framing.header_len
      header_wrap = omega arith

      header_inside : ltb (length block) (offset + schema.framing.header_len) ≡ false
      header_inside = le→ltb-false _ _ inside

      found :
          find_length block (length block) schema.framing.length_field schema.fields offset 0
          ≡ done (length f.payload)
      found = find_declared block schema fields more f offset part small s.fields_are m w e inside

      size : message_size schema.framing (length f.payload) ≡ length (frame_bytes f)
      size =
          rw s.counts_payload
            (omega (arith, w.header_length, length-append (encode_fields f.header) f.payload))

      size_wrap : add64 offset (length (frame_bytes f)) ≡ offset + length (frame_bytes f)
      size_wrap = omega arith

      outside : ltb (length block) (offset + length (frame_bytes f)) ≡ true
      outside = lt→ltb _ _ l

  pub decode_frames_cut :
      (fuel offset : ℕ) (messages : List Fields) (tail : Bytes)
      → IsCut schema fields more tail
      → drop offset block ≡ tail
      → offset + length tail ≡ length block
      → decode_frames schema block (length block) (suc fuel) offset messages ≡ done messages
  decode_frames_cut fuel offset messages tail (inl short) e l =
      decode_frames_short fuel offset messages (omega arith) (omega arith)
  decode_frames_cut fuel offset messages tail (inr b) e l =
      elim (Bool-cases (ltb (length tail) schema.framing.header_len)) [
        | inl short ↦
            decode_frames_short fuel offset messages (omega arith) (omega (arith, ltb→lt _ _ short))
        | inr header ↦
            let long = ltb-false→le _ _ header in
            let (part, split, rest) =
              append_later (encode_fields b.frame.header) b.frame.payload tail b.missing b.frame_is
                (omega (arith, b.framed.header_length)) in
            decode_frames_broken b.frame fuel offset messages part b.message b.framed (e ∙ split)
              (omega arith) b.frame_small
              (omega (arith, ap length b.frame_is, length-append tail b.missing, b.lacks))
      ]

-- The messages of which these bytes have all, and the bytes behind them.
pub record IsCutStream (schema : ProtocolSchema) (fields more : List FieldDef) (frames : List Frame)
    (bytes : Bytes) : Type 0 where
  pub whole : List Frame
  pub later : List Frame
  pub tail : Bytes
  pub frames_are : frames ≡ whole ++ later
  pub bytes_are : bytes ≡ stream_of whole ++ tail
  pub described : AreFrames schema fields more whole
  pub cut : IsCut schema fields more tail

-- The start of a stream of messages is a stream of the first of them, which breaks off.
pub cut_stream :
    (schema : ProtocolSchema) (fields more : List FieldDef) (frames : List Frame)
    (bytes missing : Bytes)
    → 0 < schema.framing.header_len
    → AreFrames schema fields more frames
    → length (stream_of frames) < 2 ^ 62
    → stream_of frames ≡ bytes ++ missing
    → IsCutStream schema fields more frames bytes
cut_stream schema fields more [] [] missing some_header a small e = record {
  whole = [];
  later = [];
  tail = [];
  frames_are = refl;
  bytes_are = refl;
  described = tt;
  cut = inl some_header;
}
cut_stream schema fields more [] (b ∷ bytes) missing some_header a small e = cc
cut_stream schema fields more (f ∷ frames) bytes missing some_header (m, w, a) small e =
    elim (Bool-cases (ltb (length bytes) (length (frame_bytes f)))) [
      | inl short ↦
          let (us, split, rest) =
            append_later bytes missing (frame_bytes f) (stream_of frames) (sym e)
              (omega (arith, ltb→lt _ _ short)) in
          record {
            whole = [];
            later = f ∷ frames;
            tail = bytes;
            frames_are = refl;
            bytes_are = refl;
            described = tt;
            cut = inr (record {
              frame = f;
              missing = us;
              message = m;
              framed = w;
              frame_is = split;
              lacks = omega (arith, ltb→lt _ _ short, ap length split, length-append bytes us);
              frame_small = omega (arith, length-append (frame_bytes f) (stream_of frames));
            });
          }
      | inr long ↦
          let (us, split, rest) =
            append_later (frame_bytes f) (stream_of frames) bytes missing e
              (ltb-false→le _ _ long) in
          let c =
            cut_stream schema fields more frames us missing some_header a
              (omega (arith, length-append (frame_bytes f) (stream_of frames))) rest in
          record {
            whole = f ∷ c.whole;
            later = c.later;
            tail = c.tail;
            frames_are = ap (◌∷◌ f) c.frames_are;
            bytes_are =
                split
                ∙ ap (λ (l : Bytes). frame_bytes f ++ l) c.bytes_are
                ∙ sym (append_assoc (frame_bytes f) (stream_of c.whole) c.tail);
            described = (m, w, c.described);
            cut = c.cut;
          }
    ]
