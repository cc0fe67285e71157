-- ===== src/Lib.antt =====
-- GatewayForge: a model of the toolkit that decodes TCP and UDP protocols from packet captures.
--
-- The program's parts, and the files that model them. Paths are from the repository's root; a name
-- such as `add_segment` stands for the method `AddSegment` of the class that the file is about.
-- - include/gatewayforge/common/Buffer.h, src/common/Buffer.cpp: Buffer, as a value (its bounds
--   checks in Buffer/Bounds), and Buffer/Heap, with its pointers: constructors, assignments and the
--   destructor on a heap of blocks (Heap/Owns and Heap/Places: whose block is whose; Heap/Values,
--   Heap/Refines and Heap/Commands: that copies are deep, so that a buffer is a value). The answers
--   of `malloc` are given with the commands. The other parts take buffers as values.
-- - include/gatewayforge/pcap, src/pcap: Pcap. Headers are the structs as `memcpy` fills them,
--   Packet the packet, Parser `PacketParser::Parse` (Parser/Safety: what it reads; Parser/Wire and
--   Parser/RoundTrip: against the layout of frames), Reader `PcapReader` (Reader/Loop: its loop).
-- - include/gatewayforge/protocol, src/protocol: Protocol. FieldType, FieldValue, Schema and
--   Message are the data, BinaryDecoder is `BinaryDecoder::Decode` and `DecodeToMessages`
--   (Encoding, Layout, Framing, Cut and RoundTrip: against what a sender writes, also where the
--   stream breaks off; Safety: what it reads, and that it ends; Stall: where it does not).
-- - include/gatewayforge/flow, src/flow: Flow. FlowKey (FlowKey/Hash: its hash, FlowKey/Undirected:
--   keys up to their direction), TcpReassembler (Stream: segments in order; Prefix and
--   Retransmission: segments that are lost, repeated and out of order; Handshake: gaps), TcpFlow
--   (TcpFlow/Directions and TcpFlow/Lossy: its two directions), UdpFlow (with `UdpDatagramTracker`)
--   and FlowTracker (History: one key among other traffic; Conversation and Datagrams: one
--   connection, one UDP flow; Sizes: what flows can hold).
-- - include/gatewayforge/timeline, src/timeline: Timeline. Builder (with `TimelineEvent`), its
--   order in Order and Unordered, Found for the events of one flow, Conversation and Datagrams for
--   those of a connection and of a UDP flow, Total for its end, and Printer (Printer/Lines: the
--   lines read back, with Common/Decimal).
-- - src/protocol/SchemaLoader.cpp: Protocol/SchemaLoader, over a record of the YAML library's
--   operations, and common/Result.h: Common/Result; common/Time, Logger and Error: Common/Time,
--   Common/Logger, Common/Error.
-- - include/gatewayforge/replay, src/replay: Replay, over a record of the system's operations
--   (Sends and Timing: against a system that sends everything, and one with a clock; Sockets:
--   against one that counts the open sockets; Kept: that a run returns). The start time, a static of
--   the process, and the engine's count are arguments of the run, as earlier runs have left them.
-- - include/gatewayforge/cli, src/cli, src/main.cpp: Cli. CommandLine; Commands with `CmdDecode`,
--   which joins all parts of decoding (Commands/Decode, Commands/Total, Commands/Conversation,
--   Commands/Lossy, Commands/Datagrams); Replaying with `CmdReplay`, `Execute` and `main`
--   (Replaying/Main: from the arguments to the exit code; Replaying/Target: the target of a replay).
-- - examples/demo-server: Demo. Startup is what the two `main` functions do before their loops,
--   TcpServer and UdpServer are the loops, and Vehicle is examples/schemas/vehicle-tcp.yaml as it
--   is loaded.
--
-- The reader hands each parsed packet to a callback, which gives it to the tracker; the tracker
-- finds or makes the packet's flow; a TCP flow reassembles its two directions, a UDP flow keeps
-- datagrams; the timeline decodes what the flows hold and sorts the events, and the printer writes
-- them.
--
-- Numbers are natural numbers with the wrap-around of size_t, uint64_t, uint32_t and uint16_t
-- written out (Common/Words); the host is little-endian with 64-bit size_t. Strings are lists of
-- bytes (Common/Text). Code that can fail gives an `Outcome` (Common/Outcome): it returns, throws,
-- reads outside of a block or after its end, gives it back twice, dereferences null or reads an
-- unset variable, and a failure ends the run. Memory behind a pointer is a list of bytes with the
-- length that the caller passes beside it (Common/Memory).
--
-- Only the loop of `Decode` over the frames of a stream takes fuel, one unit for each round. One
-- unit more than there are bytes of input is enough where a message has a header of at least one
-- byte and the length does not count it; the loop does not end on some other input, and the results
-- below say both. All other loops run over a list, also those of the demo servers, which take a
-- list of the system's answers.
--
-- A hash map is an association list, and the order of the list stands for the unspecified order of
-- the map. `std::sort` is an insertion sort. libpcap is the list of results of `pcap_next_ex`, an
-- argument of the reader; the YAML library is a record of operations, an argument of the loader.
--
-- Not modelled: the sinks of the logger (spdlog) and the lines that are logged; the formatting of
-- times as doubles, which is a parameter of the code around it; the destructors of other classes
-- than Buffer and the replayers; the setting of socket options and addresses; the scripts; the
-- tests, but for some runs of tests/ut and tests/it, which Tests/Repository repeats on the model.
-- Parameters: the YAML library, libpcap, the operating system, the hashes of strings and integers,
-- the texts of system errors, and the conversions of texts to numbers.
pub mod Common
pub mod Buffer
pub mod Pcap
pub mod Protocol
pub mod Flow
pub mod Timeline
pub mod Replay
pub mod Cli
pub mod Demo
pub mod Tests
