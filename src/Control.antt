-- ===== src/Control.antt =====
-- internal/control
pub mod Approvals
pub mod Rulings
pub mod Conflicts
pub mod OnePerPath
pub mod Core
pub mod Client
