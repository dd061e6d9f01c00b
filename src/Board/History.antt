-- ===== src/Board/History.antt =====
-- Runs of the task board and the blackboard of internal/board over the journal they share.
use avairy.Prelude.{ℕ, List, [], ◌∷◌, Text}
use avairy.Prelude.Map.{Map}
use avairy.Bus.Message.{Message}
use avairy.Board.Task.{TaskState}
use avairy.Journal.Record.{Kind, message_data, system_data}
use avairy.Journal.Memory.{Memory, append}
use avairy.Board.Tasks.{Board, new_board, post, claim, set_state}
use avairy.Board.Notes.{Blackboard, new_blackboard, write}
use avairy.Journal.Memory

pub record World : Type 0 where
  pub jrnl : Memory
  pub board : Board
  pub notes : Blackboard

unfoldable pub new_world : World
new_world = record { jrnl = Memory.new; board = new_board; notes = new_blackboard }

-- The calls that change the boards, and the records that other components append in between.
pub data Op : Type 0 where
  posts : ℕ → Text → Text → Map Text → List Text → Op
  claims : ℕ → Text → Text → Map Text → Op
  sets : ℕ → Text → TaskState → Op
  writes : ℕ → Text → Text → Text → Op
  messages : ℕ → Text → Message → Op
  reports : ℕ → Text → Map Text → Op

abbrev with_board : World → Memory × Board → World
with_board w (jrnl, b) = record w { jrnl = jrnl; board = b }

unfoldable pub step : Op → World → World
step (posts now by title requires deps) w =
    with_board w (post now by title requires deps (w.jrnl, w.board)).0
step (claims now id agent caps) w = with_board w (claim now id agent caps (w.jrnl, w.board)).0
step (sets now id s) w = with_board w (set_state now id s (w.jrnl, w.board)).0
step (writes now author key text) w =
    let ((jrnl, bb), _) = write now author key text (w.jrnl, w.notes) in
    record w { jrnl = jrnl; notes = bb }
step (messages now actor m) w = record w {
  jrnl = append Kind.message actor (message_data m) now w.jrnl;
}
step (reports now actor d) w = record w {
  jrnl = append Kind.system actor (system_data d) now w.jrnl;
}

unfoldable pub run : List Op → World → World
run [] w = w
run (o ∷ os) w = run os (step o w)
