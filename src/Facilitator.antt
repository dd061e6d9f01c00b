-- ===== src/Facilitator.antt =====
-- internal/facilitator: detection of agents that are stuck.
pub mod Loops
pub mod Cycles
pub mod Progress
pub mod Nudger
pub mod Peers
pub mod Watch
