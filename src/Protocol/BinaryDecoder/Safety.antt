-- ===== src/Protocol/BinaryDecoder/Safety.antt =====
-- The decoder reads inside of its input and stops.
use gateway_forge.Common.{
  ℕ, zero, suc, ◌+◌, ◌^◌, ◌≤◌, ◌<◌, ◌≡◌, refl, ◌⊎◌, inl, inr, false, some, List, [], ◌∷◌, ◌++◌,
  arith, ltb, ◌==◌, ◌&&◌, Bool-cases, length, take, drop, ltb→lt, ltb-false→le,
}
use gateway_forge.Common.Words.{Bytes, add64, sub64, ntohs, le_value}
use gateway_forge.Common.Text.{Text, text_eq, lit}
use gateway_forge.Common.Outcome.{
  Outcome, done, fails, out_of_fuel, Returns, Returns-bind, Returns-value,
}
use gateway_forge.Common.Memory.{memcpy_inside}
use gateway_forge.Protocol.FieldType.{FieldType, u8, u16, bytes, string, field_type_size}
use gateway_forge.Protocol.Schema.{ProtocolSchema, FieldDef, is_length_field}
use gateway_forge.Protocol.BinaryDecoder.{
  Fields, size_in, decode_fields, length_of_type, length_of_field, find_length, message_size,
  decode_frames, decode_datagram, decode,
}

size_in_small : (v : ℕ) (t : FieldType) → v < 2 ^ 63 → size_in v t < 2 ^ 63
unfolding field_type_size
size_in_small v bytes h = h
size_in_small v string h = h
size_in_small v u8 h = omega arith
size_in_small v _ h = omega arith

field_type_size_small : (t : FieldType) → field_type_size t ≤ 8
unfolding field_type_size
field_type_size_small u8 = omega arith
field_type_size_small _ = omega arith

-- The code returns, or its fuel runs out.
abbrev IsSafe {ℓ} : {A : Type ℓ} → Outcome A → Type 0
IsSafe (done a) = Unit {0}
IsSafe (fails out_of_fuel) = Unit {0}
IsSafe (fails _) = ⊥

Returns-IsSafe {ℓ} : {A : Type ℓ} (m : Outcome A) → Returns m → IsSafe m
Returns-IsSafe (done a) r = tt
Returns-IsSafe (fails e) r = absurd r

IsSafe-cases {ℓ} :
    {A : Type ℓ} (m : Outcome A) → IsSafe m → ((a : A) × (m ≡ done a)) ⊎ (m ≡ fails out_of_fuel)
IsSafe-cases (done a) s = inl (a, refl)
IsSafe-cases (fails out_of_fuel) s = inr refl
IsSafe-cases (fails _) s = absurd s

module _ (block : Bytes) (len : ℕ) (held : len ≤ length block) (small : len < 2 ^ 63) where
  pub decode_fields-Returns :
      (var_len : ℕ → ℕ) (limit : ℕ) (fields : List FieldDef) (offset : ℕ) (message : Fields)
      → ((o : ℕ) → o ≤ len → var_len o < 2 ^ 63)
      → limit ≤ len
      → offset ≤ len
      → Returns (decode_fields block var_len limit fields offset message)
  unfolding decode_fields
  decode_fields-Returns var_len limit [] offset message v l o = tt
  decode_fields-Returns var_len limit (field ∷ fields) offset message v l o =
      elim (Bool-cases (ltb limit (add64 offset (size_in (var_len offset) field.type)))) [
        | inl stop ↦ rw stop tt
        | inr go ↦ rw go (
            rw
              (memcpy_inside block offset (size_in (var_len offset) field.type)
                (omega (arith, fits, ltb-false→le _ _ go)))
              (decode_fields-Returns var_len limit fields _ _ v l
                (omega (arith, ltb-false→le _ _ go))))
      ]
    where
      fits : size_in (var_len offset) field.type < 2 ^ 63
      fits = size_in_small (var_len offset) field.type (v offset o)

  -- What a field of this type, and of the length field's name, gives for the payload length.
  read_length :
      (t : FieldType) (offset payload_len : ℕ)
      → offset + field_type_size t ≤ len
      → payload_len < 2 ^ 16
      → (n : ℕ) × (length_of_type block t offset payload_len ≡ done n) × (n < 2 ^ 16)
  unfolding field_type_size
  read_length u16 offset payload_len h p = (
    ntohs (le_value (take 2 (drop offset block))),
    rw (memcpy_inside block offset 2 (omega arith)),
    omega arith,
  )
  read_length u8 offset payload_len h p = (payload_len, refl, p)
  read_length _ offset payload_len h p = (payload_len, refl, p)

  length_of_field_value :
      (length_field : Text) (field : FieldDef) (offset payload_len : ℕ)
      → offset + field_type_size field.type ≤ len
      → payload_len < 2 ^ 16
      → (n : ℕ) × (length_of_field block length_field field offset payload_len ≡ done n)
        × (n < 2 ^ 16)
  length_of_field_value length_field field offset payload_len h p =
      elim (Bool-cases (text_eq field.name length_field)) [
        | inl named ↦ rw named (read_length field.type offset payload_len h p)
        | inr other ↦ rw other (payload_len, refl, p)
      ]

  find_length_value :
      (length_field : Text) (fields : List FieldDef) (offset payload_len : ℕ)
      → offset ≤ len
      → payload_len < 2 ^ 16
      → (n : ℕ) × (find_length block len length_field fields offset payload_len ≡ done n)
        × (n < 2 ^ 16)
  unfolding find_length
  find_length_value length_field [] offset payload_len o p = (payload_len, refl, p)
  find_length_value length_field (field ∷ fields) offset payload_len o p =
      elim (Bool-cases (ltb len (add64 offset (field_type_size field.type)))) [
        | inl stop ↦ rw stop (payload_len, refl, p)
        | inr go ↦
            let inside = ltb-false→le _ _ go in
            let short = field_type_size_small field.type in
            let (n, read, n_small) =
              length_of_field_value length_field field offset payload_len (omega arith) p in
            rw (go, read)
              (find_length_value length_field fields (add64 offset (field_type_size field.type)) n
                inside n_small)
      ]

  -- A round of the loop stops, or goes on behind a message that lies in the input: whatever holds of
  -- the outcomes of both holds of its own.
  decode_frames_round :
      (P : Outcome (List Fields) → Type 0) (schema : ProtocolSchema) (fuel offset : ℕ)
      (messages : List Fields)
      → P (done messages)
      → ((n : ℕ) (message : Fields)
          → n < 2 ^ 16
          → offset < len
          → add64 offset schema.framing.header_len ≤ len
          → add64 offset (message_size schema.framing n) ≤ len
          → P (
              decode_frames schema block len fuel
                (add64 offset (message_size schema.framing n))
                (messages ++ (message ∷ []))))
      → P (decode_frames schema block len (suc fuel) offset messages)
  unfolding decode_frames
  decode_frames_round P schema fuel offset messages stops goes_on =
      elim (Bool-cases (ltb offset len)) [
        | inr ended ↦ rw ended stops
        | inl more ↦ elim (Bool-cases (ltb len (add64 offset schema.framing.header_len))) [
          | inl no_header ↦ rw (more, no_header) stops
          | inr header ↦
              let before_end = ltb→lt _ _ more in
              let (n, found, n_small) =
                find_length_value schema.framing.length_field schema.fields offset 0 (omega arith)
                  (omega arith) in
              elim (Bool-cases (ltb len (add64 offset (message_size schema.framing n)))) [
                | inl cut ↦ rw (more, header, found, cut) stops
                | inr whole ↦
                    let inside = ltb-false→le _ _ whole in
                    let (message, decoded) = Returns-value _ (
                      decode_fields-Returns (λ _. n) (add64 offset (message_size schema.framing n))
                        schema.fields offset [] (λ _ _. omega arith) inside (omega arith)) in
                    rw (more, header, found, whole, decoded)
                      (goes_on n message n_small before_end (ltb-false→le _ _ header) inside)
              ]
        ]
      ]

  decode_frames-Returns :
      (schema : ProtocolSchema) (fuel offset : ℕ) (messages : List Fields)
      → schema.framing.length_includes_header ≡ false
      → 0 < schema.framing.header_len
      → schema.framing.header_len < 2 ^ 63
      → offset ≤ len
      → len < offset + fuel
      → Returns (decode_frames schema block len fuel offset messages)
  decode_frames-Returns schema zero offset messages plain some_header header_small o f =
      absurd (omega arith)
  decode_frames-Returns schema (suc fuel) offset messages plain some_header header_small o f =
      decode_frames_round Returns schema fuel offset messages tt
        (λ n message n_small before_end header whole.
          decode_frames-Returns schema fuel _ _ plain some_header header_small whole (ground arith))

  -- The loop fails by no read outside of the input and by no exception: only its fuel can run out.
  decode_frames-IsSafe :
      (schema : ProtocolSchema) (fuel offset : ℕ) (messages : List Fields)
      → IsSafe (decode_frames schema block len fuel offset messages)
  decode_frames-IsSafe schema zero offset messages = unfold decode_frames in tt
  decode_frames-IsSafe schema (suc fuel) offset messages =
      decode_frames_round IsSafe schema fuel offset messages tt
        (λ n message n_small before_end header whole. decode_frames-IsSafe schema fuel _ _)

  decode_datagram-Returns : (schema : ProtocolSchema) → Returns (decode_datagram schema block len)
  unfolding decode_datagram
  decode_datagram-Returns schema =
      Returns-bind _ _
        (decode_fields-Returns (λ offset. sub64 len offset) len schema.fields 0 []
          (λ o h. omega arith) (omega arith) (omega arith))
        (λ message e. tt)

  -- `Decode` takes one of three branches.
  decode_branches :
      (P : Outcome (List Fields) → Type 0) (fuel : ℕ) (schema : ProtocolSchema)
      → P (done [])
      → P (decode_frames schema block len fuel 0 [])
      → P (decode_datagram schema block len)
      → P (decode fuel schema (some block) len)
  unfolding decode
  decode_branches P fuel schema empty frames datagram = elim (Bool-cases (len == 0)) [
    | inl z ↦ rw z empty
    | inr nz ↦
        elim (Bool-cases
          (text_eq schema.transport (lit "tcp") && is_length_field schema.framing.type)) [
            | inl tcp ↦ rw (nz, tcp) frames
            | inr other ↦ elim (Bool-cases (text_eq schema.transport (lit "udp"))) [
              | inl udp ↦ rw (nz, other, udp) datagram
              | inr neither ↦ rw (nz, other, neither) empty
            ]
          ]
  ]

  -- `Decode` of memory that is at least as long as the length says, which is below 2 ^ 63, under
  -- any schema: it reads nothing outside of that memory and throws nothing. Its only outcome but a
  -- result is that the loop over the frames runs out of fuel.
  pub decode-IsSafe :
      (fuel : ℕ) (schema : ProtocolSchema)
      → ((r : List Fields) × (decode fuel schema (some block) len ≡ done r))
        ⊎ (decode fuel schema (some block) len ≡ fails out_of_fuel)
  decode-IsSafe fuel schema = IsSafe-cases _ (
      decode_branches IsSafe fuel schema tt (decode_frames-IsSafe schema fuel 0 [])
        (Returns-IsSafe _ (decode_datagram-Returns schema)))

  -- With a framing whose length does not count the header, a header of at least one byte and less
  -- than 2 ^ 63, and an input of less than 2 ^ 63 bytes that are all there, one unit of fuel for
  -- each byte and one more are enough: the decoder returns.
  pub decode_total :
      (fuel : ℕ) (schema : ProtocolSchema)
      → schema.framing.length_includes_header ≡ false
      → 0 < schema.framing.header_len
      → schema.framing.header_len < 2 ^ 63
      → len < fuel
      → (r : List Fields) × (decode fuel schema (some block) len ≡ done r)
  decode_total fuel schema plain some_header header_small f = Returns-value _ (
      decode_branches Returns fuel schema tt
        (decode_frames-Returns schema fuel 0 [] plain some_header header_small (omega arith)
          (omega arith))
        (decode_datagram-Returns schema))

  -- Under a schema for another transport than TCP no loop over frames is run.
  pub decode_total_other :
      (fuel : ℕ) (schema : ProtocolSchema)
      → text_eq schema.transport (lit "tcp") ≡ false
      → (r : List Fields) × (decode fuel schema (some block) len ≡ done r)
  unfolding decode
  decode_total_other fuel schema other = Returns-value _ (elim (Bool-cases (len == 0)) [
    | inl z ↦ rw z tt
    | inr nz ↦ elim (Bool-cases (text_eq schema.transport (lit "udp"))) [
      | inl udp ↦ rw (nz, other, udp) (decode_datagram-Returns schema)
      | inr neither ↦ rw (nz, other, neither) tt
    ]
  ])
