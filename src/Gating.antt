-- ===== src/Gating.antt =====
-- internal/gating: which actions of an agent need approval.
pub mod Policy
pub mod Hook
pub mod Patterns
pub mod Verdicts
