-- ===== src/Journal/Record.antt =====
-- Records of internal/journal/journal.go. `Payload` lists what the modelled components put into the
-- field Data of type any; a system record carries a map of texts.
use avairy.Prelude.{ℕ, Text}
use avairy.Prelude.Map.{Map}
use avairy.Bus.Message.{Message}
use avairy.Board.Task.{Task, Note}

-- type Kind
pub data Kind : Type 0 where
  message agent_event task handover approval note system : Kind

pub data Payload : Type 0 where
  message_data : Message → Payload
  task_data : Task → Payload
  note_data : Note → Payload
  system_data : Map Text → Payload

-- type Record
pub record Record : Type 0 where
  pub seq : ℕ
  pub time : ℕ
  pub kind : Kind
  pub actor : Text
  pub payload : Payload
