-- ===== src/Bus/Waker.antt =====
-- Waker of internal/bus/bus.go: which messages start a turn of their recipient. An instant t is
-- after now - window exactly when now < t + window.
pub mod Window
pub mod Rate
use avairy.Prelude.{
  ℕ, ◌+◌, ◌<◌, Bool, true, false, ◌&&◌, ◌||◌, not, List, [], ◌∷◌, ◌++◌, Text, eq_text, length,
  select, ltb, leb, if◌then◌else◌,
}
use avairy.Bus.Message.{ToKind, to_agent, to_team, sender_human, sender_facilitator}

pub record Waker : Type 0 where
  pub budget : ℕ
  pub window : ℕ
  pub recent : List ℕ

-- NewWaker: 6 wakes in 30 seconds.
unfoldable pub new_waker : Waker
new_waker = record { budget = 6; window = 30_000_000_000; recent = [] }

unfoldable pub is_direct : ToKind → Bool
is_direct to_agent = true
is_direct to_team = true
is_direct _ = false

-- Interrupts and the messages of the human and the facilitator.
unfoldable pub always_wakes : Text → Bool → Bool
always_wakes from interrupt =
    interrupt || (eq_text from sender_human || eq_text from sender_facilitator)

-- The instants after now - window.
unfoldable pub within : ℕ → ℕ → List ℕ → List ℕ
within window now = select (λ t. ltb now (t + window))

-- The budgeted part of Wake.
unfoldable pub spend : ℕ → Waker → Waker × Bool
unfolding within
spend now w =
    let kept = within w.window now w.recent in
    if leb w.budget (length kept)
    then (record w { recent = kept }, false)
    else (record w { recent = kept ++ now ∷ [] }, true)

-- Waker.Wake
unfoldable pub wake : Text → ToKind → Bool → ℕ → Waker → Waker × Bool
unfolding is_direct always_wakes spend
wake from kind interrupt now w =
    if always_wakes from interrupt
    then (w, true)
    else if not (is_direct kind)
    then (w, false)
    else spend now w
