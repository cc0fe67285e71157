-- ===== src/Pcap.antt =====
-- The directory pcap: packets, the parser of captured frames and the reader of a capture.
pub mod Headers
pub mod Packet
pub mod Parser
pub mod Reader
