-- ===== src/Supervisor/Loop.antt =====
-- The loop of internal/supervisor/supervisor.go: one step for each case of its select, and one for
-- each event that the goroutine of a session drains. A session is its number; what it and Spawn
-- answer comes with the step (Env), and what is done to the outside is the list of effects, in order.
-- `dead` is the session whose event stream is watched, `turn_ended` whether the channel turnDone
-- holds a poke. After `stopped` nothing happens. The list of models is left out.
mod State
mod Lifecycle
unfoldable pub use State.*
unfoldable pub use Lifecycle.*
use avairy.Prelude.{
  ℕ, ◌+◌, Bool, true, false, ◌&&◌, ◌||◌, not, List, [], ◌∷◌, ◌++◌, Text, codes, eq_text, Option,
  none, some, ltb, leb, if◌then◌else◌,
}
use avairy.Prelude.Map.{Map}
use avairy.Agent.{Delivery, interrupt, steer}
use avairy.Bus.Message.{Message, annotate_delivery}
use avairy.Bus.Waker.{Waker, new_waker, wake}

-- idleElapsed
unfoldable pub idle_elapsed : ℕ → Supervisor → Bool
idle_elapsed now s = not s.working && leb (s.last_active + s.idle) now

-- The case of the ticker, which exists only where idle is above 0.
unfoldable pub on_tick : ℕ → Supervisor → Supervisor × List Effect
unfolding idle_elapsed sleep
on_tick now s = if ltb 0 s.idle && idle_elapsed now s then sleep s else (s, [])

-- The case of the event stream's end.
unfoldable pub on_dead : Supervisor → Supervisor × List Effect
on_dead s = elim s.dead [
  | none ↦ (s, [])
  | some d ↦ elim s.sess [
    | none ↦ (record s { dead = none }, ended d ∷ [])
    | some n ↦ (
      record s { sess = none; dead = none },
      ended d ∷ journals (event (codes "agent_sleeping")) ∷ [],
    )
  ]
]

abbrev is_interrupt : Delivery → Bool
is_interrupt interrupt = true
is_interrupt _ = false

-- Send, and again as a steer where an interrupt fails.
unfoldable pub deliver_text : Env → ℕ → Text → Delivery → List Effect
deliver_text env n text d =
    sends n text d ∷ (if not env.send_ok && is_interrupt d then sends n text steer ∷ [] else [])

-- The part of the inbox case behind wakeUp, for an agent that is awake.
unfoldable pub start_turn : Env → Message → Supervisor → Supervisor × List Effect
unfolding deliver_text
start_turn env m s = elim s.sess [
  | none ↦ (s, [])
  | some n ↦ (
    record s { last_active = env.now; working = true },
    journals_event turn_start
        ∷ deliver_text env n (annotate_delivery m.id m.to.kind m.body) m.delivery,
  )
]

-- The case of the inbox for an interrupt.
unfoldable pub on_interrupt : Env → Supervisor → Supervisor × List Effect
unfolding sleep
on_interrupt env s = elim s.sess [
  | none ↦ (s, [])
  | some n ↦
      let (s', es) = sleep s in
      if env.interrupt_ok then (s, interrupts n ∷ []) else (s', interrupts n ∷ es)
]

-- The case of the inbox.
unfoldable pub on_message : Env → Message → Supervisor → Supervisor × List Effect
unfolding on_interrupt wake_up start_turn
on_message env m s =
    let (w, woken) = wake m.from m.to.kind false env.now s.waker in
    let (s1, es1) = wake_up true env (record s { waker = w }) in
    let (s2, es2) = start_turn env m s1 in
    if m.interrupt
    then on_interrupt env s
    else if m.no_wake
    then (s, [])
    else if woken
    then (s2, es1 ++ es2)
    else (record s { waker = w }, [])

abbrev is_turn_done : EventType → Bool
is_turn_done turn_done = true
is_turn_done _ = false

-- An event of a session that the goroutine of wakeUp drains.
unfoldable pub on_event : ℕ → EventType → Supervisor → Supervisor × List Effect
on_event now t s = (
  record s {
    last_active = now;
    working = not (is_turn_done t);
    turn_ended = s.turn_ended || is_turn_done t;
  },
  journals_event t ∷ [],
)

-- The case of turnDone.
unfoldable pub on_turn_done : Env → Supervisor → Supervisor × List Effect
unfolding maybe_respawn
on_turn_done env s =
    let r = maybe_respawn env (record s { turn_ended = false }) in
    if s.turn_ended then r else (s, [])

-- The cases that leave the loop: the context is done, or the inbox is closed.
unfoldable pub on_stop : Supervisor → Supervisor × List Effect
on_stop s = elim s.sess [
  | none ↦ (record s { stopped = true }, [])
  | some n ↦ (record s { stopped = true; sess = none }, closes n ∷ [])
]

pub data Input : Type 0 where
  starts turn_dones : Env → Input
  ticks : ℕ → Input
  dies stops : Input
  reconfigs : Env → Text → Text → Input
  messages : Env → Message → Input
  events : ℕ → EventType → Input

unfoldable pub handle : Input → Supervisor → Supervisor × List Effect
handle (starts env) s = wake_up false env s
handle (turn_dones env) s = on_turn_done env s
handle (ticks now) s = on_tick now s
handle dies s = on_dead s
handle stops s = on_stop s
handle (reconfigs env model effort) s = apply_reconfig env model effort s
handle (messages env m) s = on_message env m s
handle (events now t) s = on_event now t s

unfoldable pub step : Input → Supervisor → Supervisor × List Effect
unfolding handle
step i s = let r = handle i s in if s.stopped then (s, []) else r

-- A run, with its effects in order.
unfoldable pub run : List Input → Supervisor → Supervisor × List Effect
run [] s = (s, [])
run (i ∷ is) s = let (s', es) = step i s in let (s'', es') = run is s' in (s'', es ++ es')
