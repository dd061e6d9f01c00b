-- ===== src/Supervisor.antt =====
-- internal/supervisor: the life of one agent's sessions.
pub mod Loop
pub mod Sessions
pub mod Turns
