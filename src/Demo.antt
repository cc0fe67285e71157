-- ===== src/Demo.antt =====
-- The directory examples/demo-server: the servers that a replay can be sent to, and the schema of
-- their TCP messages.
pub mod Vehicle
pub mod Startup
pub mod TcpServer
pub mod UdpServer
