-- ===== src/Workspace.antt =====
-- internal/workspace
pub mod Content
pub mod Hub
pub mod Versions
pub mod Updates
pub mod Repush
pub mod Markers
pub mod Marking
pub mod Ignore
pub mod Disk
pub mod View
