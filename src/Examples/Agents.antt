-- ===== src/Examples/Agents.antt =====
-- The facilitator and the supervisor at concrete agents.
use avairy.Prelude.{some, arith}
use avairy.Prelude.{
  ◌≡◌, ◌≢◌, ◌⊎◌, refl, inl, inr, true, false, List, [], ◌∷◌, Text, codes, none, eq_text, any,
}
use avairy.Prelude.Map
use avairy.Agent.{steer}
use avairy.Bus.Message.{Message, to_agent}
use avairy.Facilitator.Loops.{Facilitator, Trigger, trigger_blocked, new_facilitator, track_loop}
use avairy.Facilitator.Progress.{track_loop-new, repeat_triggers}
use avairy.Supervisor.Loop.{
  Supervisor, Env, Input, starts, ticks, messages, events, tool_use, new_supervisor, on_message,
  run,
}
use avairy.Supervisor.Sessions.{live, current, live-run}
use avairy.Runner.{run_message}
use avairy.Runner.Agreement.{on_message-run_message}
use avairy.Supervisor.Loop.{journals_event, turn_start}
use avairy.Supervisor.Turns.{StaysQuiet, on_message-StaysQuiet}

abbrev busy : Facilitator
busy = record new_facilitator {
  recent = (codes "ada", codes "tool:Bash: make" ∷ codes "tool:Bash: test" ∷ []) ∷ [];
  stale = (codes "ada", 5) ∷ [];
}

abbrev reading : Text
reading = codes "tool:Read: go.mod"

track_loop-new_example :
    ((track_loop (codes "ada") reading false busy).1 ≡ none)
    × (Map.lookup_or 0 (codes "ada") (track_loop (codes "ada") reading false busy).0.stale ≡ 0)
unfolding Map.lookup_or Map.lookup eq_text any
track_loop-new_example = track_loop-new (codes "ada") reading false busy refl

repeat_triggers_example :
    let r1 = track_loop (codes "ada") reading false busy in
    let r2 = track_loop (codes "ada") reading false r1.0 in
    let r3 = track_loop (codes "ada") reading false r2.0 in
    (r1.1 ≢ none) ⊎ (r2.1 ≢ none) ⊎ (r3.1 ≢ none)
repeat_triggers_example = repeat_triggers (codes "ada") reading busy

abbrev block : List Text
block = codes "make" ∷ codes "test" ∷ []

abbrev blocked : Trigger
blocked = record { kind = trigger_blocked; agent = codes "ada"; detail = codes "no gpu" }

abbrev env : Env
env = record {
  now = 5;
  spawn_error = none;
  interrupt_ok = false;
  reconfigure_ok = false;
  send_ok = true;
}

abbrev hint : Message
hint = record {
  id = codes "m1";
  from = codes "human";
  to = record { kind = to_agent; value = codes "ada" };
  body = codes "hello";
  delivery = steer;
  interrupt = false;
  no_wake = true;
  time = 4;
}

abbrev life : List Input
life =
    starts env
    ∷ messages env (record hint { no_wake = false })
    ∷ events 6 tool_use
    ∷ messages env (record hint { interrupt = true })
    ∷ messages env (record hint { no_wake = false; body = codes "again" })
    ∷ ticks 90
    ∷ []

live-run_example : let (s, es) = run life (new_supervisor 10 [] []) in live es [] ≡ current s.sess
live-run_example = live-run life 10 [] []

abbrev asleep : Supervisor
asleep = new_supervisor 10 [] []

on_message-StaysQuiet_example : StaysQuiet asleep (on_message env hint asleep)
on_message-StaysQuiet_example = on_message-StaysQuiet env hint asleep (inr (inl refl))

abbrev awake : Supervisor
awake = record asleep { sess = some 0; dead = some 0; next_sess = 1 }

abbrev question : Message
question = record hint { no_wake = false }

on_message-run_message_example :
    let r = run_message 5 true 0 question awake.waker in
    let t = on_message env question awake in
    (t.0.waker ≡ r.0) × (((t.1 ≡ []) × (r.1 ≡ [])) ⊎ (t.1 ≡ journals_event turn_start ∷ r.1))
on_message-run_message_example =
    on_message-run_message env question awake 0 refl refl refl (λ e. ground arith)
