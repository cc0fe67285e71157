-- ===== src/Tests/Repository.antt =====
-- The runs that the repository's own tests check: tests/ut, and tests/it/test_integration.cpp.
use gateway_forge.Common.{ℕ, ◌≡◌, refl, true, none, some, List, [], ◌∷◌}
use gateway_forge.Common.Text.{Text, lit, text_eq, text_lt, starts_with, to_string}
use gateway_forge.Common.Memory.{memcpy}
use gateway_forge.Common.Outcome.{done, ◌>>=◌}
use gateway_forge.Buffer.{of_data, zeroed}
use gateway_forge.Pcap.Packet.{empty_packet, set_payload, tcp, udp}
use gateway_forge.Protocol.FieldType.{FieldType, u8, u16, field_type_size}
use gateway_forge.Protocol.FieldValue.{u16_value, value_to_string}
use gateway_forge.Protocol.Schema.{ProtocolSchema, default_framing, default_field}
use gateway_forge.Protocol.Message.{Message}
use gateway_forge.Protocol.BinaryDecoder.{
  decode, decode_datagram, decode_fields, decode_frames, find_length, decode_to_messages, put, get,
  value_of, summary_of, to_message,
}
use gateway_forge.Flow.FlowKey.{key_eq, normalized}
use gateway_forge.Flow.TcpReassembler.{empty_reassembler, add_payload, add_segment}
use gateway_forge.Flow.FlowTracker.{
  Flows, on_packet, find_flow, set_flow, make_key, flow_on_packet, flow_count, tcp_flow_count,
  protocol_count,
}
use gateway_forge.Flow.TcpFlow.{tcp_on_packet}
use gateway_forge.Cli.CommandLine.{parse_command_line, parse_options, set_option}
use gateway_forge.Demo.Vehicle.{vehicle_schema, vehicle_header}

-- A schema for UDP with one field.
abbrev one_field : Text → FieldType → ProtocolSchema
one_field name type = record {
  name = [];
  transport = lit "udp";
  endian = lit "big";
  framing = default_framing;
  fields = record default_field { name = name; type = type } ∷ [];
  length_from = [];
  analysis_sequence_field = [];
  analysis_timestamp_field = [];
  analysis_device_id_field = [];
}

-- UT-BD-001 to UT-BD-003.
empty_data : decode 1 (one_field (lit "magic") u16) none 0 ≡ done []
unfolding decode
empty_data = refl

decode_udp_datagram :
    decode 1 (one_field (lit "magic") u16) (some (202 ∷ 254 ∷ [])) 2
    ≡ done (((lit "magic", u16_value 51966) ∷ []) ∷ [])
unfolding decode decode_datagram decode_fields put value_of field_type_size memcpy text_eq
decode_udp_datagram = refl

abbrev types_of : List Message → List Text
types_of [] = []
types_of (m ∷ ms) = m.type ∷ types_of ms

decode_to_messages_success :
    (decode_to_messages 1 (one_field (lit "msg_type") u8) (some (1 ∷ [])) 1 1000 (lit "C->S")
      >>= λ messages. done (types_of messages))
    ≡ done (lit "1" ∷ [])
unfolding decode decode_datagram decode_fields put get value_of field_type_size memcpy text_eq
    decode_to_messages to_message summary_of value_to_string to_string
decode_to_messages_success = refl

-- UT-TR-002.
single_segment :
    (set_payload (record empty_packet { tcp_seq = 1000 }) (some (1 ∷ 2 ∷ 3 ∷ 4 ∷ [])) 4 >>= λ pkt.
    add_segment empty_reassembler pkt true)
    ≡ done (record { stream = 1 ∷ 2 ∷ 3 ∷ 4 ∷ []; next_seq = 1004; initialized = true })
unfolding set_payload of_data memcpy add_segment add_payload
single_segment = refl

-- UT-FT-002.
abbrev counts_are : ℕ → ℕ → ℕ × ℕ
counts_are flows tcp_flows = (flows, tcp_flows)

abbrev counts : Flows → ℕ × ℕ
counts tracker = counts_are (flow_count tracker) (tcp_flow_count tracker)

track_tcp_packet :
    (set_payload
        (record empty_packet {
          src_ip = lit "10.0.0.1";
          src_port = 12345;
          dst_ip = lit "10.0.0.2";
          dst_port = 9000;
          protocol = tcp;
          timestamp_us = 1000;
        })
        none
        0
      >>= λ pkt. on_packet [] pkt >>= λ tracker. done (counts tracker))
    ≡ done (counts_are 1 1)
unfolding set_payload zeroed on_packet find_flow set_flow make_key normalized key_eq text_eq text_lt
    flow_on_packet tcp_on_packet add_segment add_payload protocol_count
track_tcp_packet = refl

-- UT-FK-003.
normalization :
    normalized (record {
      src_ip = lit "10.0.0.2";
      src_port = 5678;
      dst_ip = lit "10.0.0.1";
      dst_port = 1234;
      protocol = udp;
    })
    ≡ record {
      src_ip = lit "10.0.0.1";
      src_port = 1234;
      dst_ip = lit "10.0.0.2";
      dst_port = 5678;
      protocol = udp;
    }
unfolding normalized text_eq text_lt
normalization = refl

-- UT-CL-001 and UT-CL-004.
no_arguments : parse_command_line (lit "gatewayforge" ∷ []) ≡ none
unfolding parse_command_line
no_arguments = refl

flag_without_value :
    parse_command_line
      (lit "gatewayforge" ∷ lit "decode" ∷ lit "--verbose" ∷ lit "--pcap" ∷ lit "f.pcap" ∷ [])
    ≡ some (record {
      command = lit "decode";
      options = (lit "verbose", []) ∷ (lit "pcap", lit "f.pcap") ∷ [];
    })
unfolding parse_command_line parse_options set_option starts_with text_eq
flag_without_value = refl

-- IT-DS-002.
schema_decode_pipeline :
    decode 2 vehicle_schema (some (202 ∷ 254 ∷ 1 ∷ 1 ∷ 0 ∷ 0 ∷ 0 ∷ 1 ∷ 0 ∷ 0 ∷ [])) 10
    ≡ done (vehicle_header 1 1 1 0 ∷ [])
unfolding decode decode_frames decode_fields find_length put value_of field_type_size memcpy text_eq
schema_decode_pipeline = refl
