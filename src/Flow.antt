-- ===== src/Flow.antt =====
-- The directory flow: flow keys, TCP and UDP flows and the tracker that holds them.
pub mod FlowKey
pub mod TcpReassembler
pub mod TcpFlow
pub mod UdpFlow
pub mod FlowTracker
