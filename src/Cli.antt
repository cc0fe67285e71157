-- ===== src/Cli.antt =====
-- The directory cli.
pub mod CommandLine
pub mod Commands
pub mod Replaying
