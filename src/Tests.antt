-- ===== src/Tests.antt =====
-- Runs of the code and instances of the theorems at concrete inputs.
mod Buffer
mod Heap
mod Pcap
mod Flow
mod Schema
mod Decoder
mod Timeline
mod Commands
mod Datagrams
mod Lossy
mod Replay
mod Sockets
mod Repository
mod Demo
mod Main
