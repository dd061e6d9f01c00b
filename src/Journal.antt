-- ===== src/Journal.antt =====
-- internal/journal: the event log.
pub mod Record
pub mod Memory
pub mod Sequence
pub mod Delivery
