-- ===== src/Board.antt =====
-- internal/board: the task board and the blackboard.
pub mod Task
pub mod Tasks
pub mod Notes
pub mod History
pub mod Keys
pub mod Recovery
pub mod Claims
