-- ===== src/Timeline.antt =====
-- The directory timeline: events, their order, and the lines that are printed.
pub mod Builder
pub mod Order
pub mod Printer
pub mod Found
pub mod Conversation
pub mod Datagrams
pub mod Unordered
pub mod Total
