-- ===== src/Tests/Demo.antt =====
-- Instances for the demo servers.
use gateway_forge.Common.{◌+◌, ◌≡◌, refl, some, [], ◌∷◌, ◌++◌, arith}
use gateway_forge.Common.Words.{Bytes}
use gateway_forge.Common.Text.{lit}
use gateway_forge.Common.Outcome.{done}
use gateway_forge.Protocol.BinaryDecoder.{decode}
use gateway_forge.Protocol.BinaryDecoder.Framing.{frame_bytes}
use gateway_forge.Demo.Vehicle.{vehicle_schema, vehicle_header, vehicle_frame}
use gateway_forge.Demo.TcpServer.{TcpServer, new_tcp_server, ack_of, at_start}
use gateway_forge.Demo.TcpServer.Connections.{
  acks_of, chunks_of, clients_of, open_clients, Connection, all_answers_of, Serves-acks,
  serve_connections,
}
use gateway_forge.Demo.TcpServer.Ack.{decode-ack_of}
use gateway_forge.Demo.UdpServer.{datagram, new_udp_server, arrived, device_text, on_arrival}
use gateway_forge.Demo.UdpServer.Reports.{device_message, on_arrival-device_message}

-- Message 300 of type 1, with a payload of one byte.
abbrev request : Bytes
request = frame_bytes (vehicle_frame 1 1 300 (5 ∷ []))

decode-ack_of_example :
    decode 2 vehicle_schema (some (ack_of (request ++ (9 ∷ [])))) 10
    ≡ done (vehicle_header 1 2 45 0 ∷ [])
decode-ack_of_example =
    decode-ack_of 1 1 300 (5 ∷ []) (9 ∷ []) 2 (omega arith) (omega arith) (omega arith)

-- A client whose message comes in one piece, with two bytes more in a second one.
abbrev client : Connection
client = record { address = lit "10.0.0.1"; port = 40000; chunks = request ∷ (1 ∷ 2 ∷ []) ∷ [] }

Serves-acks_example :
    (next : TcpServer) × (next.acks ≡ acks_of (chunks_of (all_answers_of (client ∷ client ∷ []))))
    × (clients_of (all_answers_of (client ∷ client ∷ [])) ≡ next.closed + open_clients next.phase)
Serves-acks_example =
    let (next, run, _) = serve_connections [] new_tcp_server (client ∷ client ∷ []) at_start refl in
    let (acks, clients) = Serves-acks (all_answers_of (client ∷ client ∷ [])) next run in
    (next, acks, clients)

-- There is one acknowledgement for each of the two whole messages.
two_acks :
    acks_of (chunks_of (all_answers_of (client ∷ client ∷ [])))
    ≡ ack_of request ∷ ack_of request ∷ []
two_acks = refl

on_arrival-device_message_example :
    on_arrival new_udp_server (datagram (lit "10.0.0.1") 40000 (device_message 1 2 77 300 []))
    ≡ done (
        arrived new_udp_server
          (lit "10.0.0.1")
          40000
          (device_message 1 2 77 300 [])
          (device_text 77 2 300))
on_arrival-device_message_example =
    on_arrival-device_message new_udp_server (lit "10.0.0.1") 40000 1 2 77 300 [] (omega arith)
      (omega arith)
