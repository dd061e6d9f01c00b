-- ===== src/Supervisor/Loop/State.antt =====
-- The state of internal/supervisor/supervisor.go, with the variables of Run, and the effects.
use avairy.Prelude.{ℕ, Bool, false, [], ◌∷◌, Text, codes, Option, none}
use avairy.Prelude.Map.{Map}
use avairy.Agent.{Delivery}
use avairy.Bus.Waker.{Waker, new_waker}

-- type EventType
pub data EventType : Type 0 where
  turn_start text_event reasoning tool_use tool_result turn_done usage error_event : EventType

pub data Effect : Type 0 where
  spawns : ℕ → Text → Text → Effect
  closes ended interrupts : ℕ → Effect
  sends : ℕ → Text → Delivery → Effect
  reconfigures : ℕ → Text → Text → Effect
  journals : Map Text → Effect
  journals_event : EventType → Effect

-- What the outside answers in one step: the time, the error of Spawn, whether Interrupt, Reconfigure
-- and Send succeed.
pub record Env : Type 0 where
  pub now : ℕ
  pub spawn_error : Option Text
  pub interrupt_ok : Bool
  pub reconfigure_ok : Bool
  pub send_ok : Bool

-- type Supervisor, with the variables of Run
pub record Supervisor : Type 0 where
  pub idle : ℕ
  pub waker : Waker
  pub last_active : ℕ
  pub working : Bool
  pub model : Text
  pub effort : Text
  pub turn_ended : Bool
  pub sess : Option ℕ
  pub dead : Option ℕ
  pub pending_reconfig : Bool
  pub next_sess : ℕ
  pub stopped : Bool

-- New
unfoldable pub new_supervisor : ℕ → Text → Text → Supervisor
new_supervisor idle model effort = record {
  idle = idle;
  waker = new_waker;
  last_active = 0;
  working = false;
  model = model;
  effort = effort;
  turn_ended = false;
  sess = none;
  dead = none;
  pending_reconfig = false;
  next_sess = 0;
  stopped = false;
}

abbrev pub event : Text → Map Text
event e = (codes "event", e) ∷ []
