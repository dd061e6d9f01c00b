-- ===== src/Runner.antt =====
-- The loop of internal/runner/runner.go, which is the supervisor's without its sleep: the case of the
-- inbox. A session is its number and its effects are those of Supervisor.Loop; what Send and the clock
-- answer comes with the step. The events of the session go to the journal beside the loop.
pub mod Agreement
use avairy.Prelude.{ℕ, Bool, true, false, ◌&&◌, not, List, [], ◌∷◌, Text, if◌then◌else◌}
use avairy.Agent.{Delivery, interrupt, steer}
use avairy.Bus.Message.{Message}
use avairy.Bus.Waker.{Waker, wake}
use avairy.Supervisor.Loop.{Effect, sends, interrupts}

abbrev is_interrupt : Delivery → Bool
is_interrupt interrupt = true
is_interrupt _ = false

-- Send, and again as a steer where an interrupt fails.
unfoldable pub push_text : Bool → ℕ → Text → Delivery → List Effect
push_text send_ok n text d =
    sends n text d ∷ (if not send_ok && is_interrupt d then sends n text steer ∷ [] else [])

-- Runner.Run, the case of the inbox.
unfoldable pub run_message : ℕ → Bool → ℕ → Message → Waker → Waker × List Effect
unfolding push_text
run_message now send_ok n m w =
    let (w', woken) = wake m.from m.to.kind false now w in
    if m.interrupt
    then (w, interrupts n ∷ [])
    else if woken
    then (w', push_text send_ok n m.body m.delivery)
    else (w', [])
