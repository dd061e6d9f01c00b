-- ===== src/Mcp.antt =====
-- internal/mcp: the tools that agents call.
pub mod Coordination
pub mod Ownership
pub mod Address
pub mod Reach
