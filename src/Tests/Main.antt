-- ===== src/Tests/Main.antt =====
-- An instance for main: the command `decode` with a schema for UDP.
use gateway_forge.Common.{
  inr, ◌≡◌, refl, true, false, Option, none, some, [], ◌∷◌, ◌++◌, ◌||◌, if◌then◌else◌, arith, List,
}
use gateway_forge.Common.Text.{Text, lit, text_eq, starts_with}
use gateway_forge.Common.Outcome.{done}
use gateway_forge.Common.Attempt.{value, throws, yaml_error}
use gateway_forge.Common.Result.{ok}
use gateway_forge.Pcap.Reader.Loop.{packets_of}
use gateway_forge.Protocol.FieldType.{field_type_from_string}
use gateway_forge.Protocol.Schema.{ProtocolSchema}
use gateway_forge.Protocol.SchemaLoader.{
  YamlCpp, load_framing, load_field, load_fields, load_schema, load_from_yaml,
}
use gateway_forge.Flow.FlowTracker.{Flows, get_flows}
use gateway_forge.Flow.FlowTracker.Totals.{on_packets}
use gateway_forge.Timeline.Builder.{TimelineEvent, build}
use gateway_forge.Timeline.Order.{IsChronological}
use gateway_forge.Timeline.Printer.{print_events}
use gateway_forge.Timeline.Total.{IsDecodable}
use gateway_forge.Cli.Commands.{flow_summary}
use gateway_forge.Cli.CommandLine.RoundTrip.{args_of}
use gateway_forge.Cli.Replaying.{main}
use gateway_forge.Cli.Replaying.Main.{NamesFiles, main_decodes}
use gateway_forge.Tests.Schema.{small_schema}
use gateway_forge.Tests.Replay.{small_os, any_speed, any_port}
use gateway_forge.Tests.Commands.{
  two_frames, two_capture, two_frames-AreComplete, packets-AreSound, total_lem,
}

unfoldable scalar_at : Text → Option Text
scalar_at path =
    if text_eq path (lit "/message/0/name")
    then some (lit "seq")
    else if text_eq path (lit "/message/0/type")
    then some (lit "u16")
    else if text_eq path (lit "/transport")
    then some (lit "udp")
    else none

-- One field, in datagrams.
abbrev udp_yaml : YamlCpp Text
unfolding scalar_at
udp_yaml = record {
  load_file = λ path. value [];
  child = λ node key. value (node ++ (lit "/" ++ key));
  is_defined = λ node.
      text_eq node (lit "/message") || elim (scalar_at node) [ none ↦ false | some _ ↦ true ];
  elements = λ node. if text_eq node (lit "/message") then lit "/message/0" ∷ [] else [];
  as_text = λ node. elim (scalar_at node) [
    | none ↦ throws (yaml_error (lit "bad conversion"))
    | some text ↦ value text
  ];
  as_text_or = λ node fallback. elim (scalar_at node) [ none ↦ fallback | some text ↦ text ];
  as_unsigned = λ node. throws (yaml_error (lit "bad conversion"));
  as_bool = λ node. throws (yaml_error (lit "bad conversion"));
}

abbrev udp_schema : ProtocolSchema
udp_schema = record small_schema { transport = lit "udp" }

udp_schema_lem : load_from_yaml udp_yaml (lit "u.yaml") ≡ ok udp_schema
unfolding load_from_yaml load_schema load_framing load_fields load_field scalar_at text_eq
    field_type_from_string
udp_schema_lem = refl

udp_schema-IsDecodable : IsDecodable udp_schema
unfolding text_eq
udp_schema-IsDecodable = inr refl

-- The path of the capture is given twice.
abbrev options : List (Text × Text)
options =
    (lit "pcap", lit "b.pcap") ∷ (lit "schema", lit "u.yaml") ∷ (lit "pcap", lit "a.pcap") ∷ []

options-NamesFiles : NamesFiles options (lit "a.pcap") (lit "u.yaml")
unfolding text_eq starts_with
options-NamesFiles = record {
  plain = (refl, (refl, (refl, tt)));
  pcap_given = refl;
  schema_given = refl;
  pcap_named = refl;
  schema_named = refl;
}

main_decodes_example :
    (flows : Flows) × (events : List TimelineEvent) × (on_packets [] (packets_of two_frames)
      ≡ done flows)
    × (build 11 udp_schema (get_flows flows) ≡ done events)
    × IsChronological events
    × (main small_os udp_yaml two_capture any_speed any_port 11
          (lit "gatewayforge" ∷ lit "decode" ∷ args_of options)
          0
        ≡ done (record { code = 0; out = flow_summary flows ++ print_events events; error = [] }))
main_decodes_example =
    main_decodes small_os udp_yaml two_capture any_speed any_port 11 (lit "gatewayforge") options
      (lit "a.pcap") (lit "u.yaml") 0 udp_schema two_frames [] options-NamesFiles udp_schema_lem
      udp_schema-IsDecodable refl two_frames-AreComplete packets-AreSound (omega (arith, total_lem))
      (omega (arith, total_lem))
