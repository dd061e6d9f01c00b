-- ===== src/Board/Task.antt =====
-- Tasks of internal/board/board.go and notes of internal/board/blackboard.go.
use avairy.Prelude.{List, Text}
use avairy.Prelude.Map.{Map}

-- type TaskState
pub data TaskState : Type 0 where
  open_task claimed in_progress blocked done failed : TaskState

-- type Task; Requires is a Go map, Deps a slice. A copy (clone) is the value itself.
pub record Task : Type 0 where
  pub id : Text
  pub title : Text
  pub state : TaskState
  pub requires : Map Text
  pub deps : List Text
  pub claimant : Text
  pub created_by : Text

-- type Note
pub record Note : Type 0 where
  pub key : Text
  pub text : Text
  pub author : Text
