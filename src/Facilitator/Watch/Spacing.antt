-- ===== src/Facilitator/Watch/Spacing.antt =====
-- How often internal/facilitator/facilitator.go nudges.
use avairy.Prelude.{ℕ, ◌+◌, ◌<◌, ◌≡◌, ◌≢◌, Bool, false, List, [], ◌∷◌, Text, Option, some}
use avairy.Prelude.Map
use avairy.Prelude.Map.{Map}
use avairy.Agent.Summary.{Dynamic}
use avairy.Facilitator.Loops.{trigger_blocked, Trigger, Facilitator, nudge_key, cooldown}
use avairy.Facilitator.Nudger.{Agent}
use avairy.Facilitator.Watch.{Seen, report_status, is_stuck, observe_record}

-- The facilitator was nudged about the key at the time.
abbrev Nudged : Text → ℕ → Facilitator → Type 0
Nudged key t0 f = Map.lookup key f.last_nudge ≡ some t0

-- It does not act on a trigger of the key.
abbrev pub Quiet : Text → Option Trigger → Type 0
Quiet key o = (t : Trigger) → o ≡ some t → nudge_key t.agent t.kind ≢ key

-- A record comes with its time, whether a fresh look can be had, and the roster.
pub record Arrival (A : Type 0) : Type 0 where
  pub now : ℕ
  pub looks : Bool
  pub roster : List Agent
  pub seen : Seen A

module _ {A : Type 0} (dyn : Dynamic A) where
  -- The record does not report progress that would clear the key.
  abbrev pub NoProgress : Text → Seen A → Type 0
  NoProgress key r =
      (agent status : Text)
      → report_status dyn r ≡ some (agent, status)
      → is_stuck status ≡ false
      → nudge_key agent trigger_blocked ≢ key

  -- The arrivals of a run come before the time, and none clears the key.
  abbrev pub Soon : Text → ℕ → Arrival A → Type 0
  Soon key t0 a = (a.now < t0 + cooldown) × NoProgress key a.seen

  -- The triggers that the facilitator acts on in a run
  unfoldable pub acted : List (Arrival A) → Facilitator → List (Option Trigger)
  acted [] f = []
  acted (a ∷ rest) f =
      let r = observe_record dyn a.now a.looks a.roster a.seen f in r.1 ∷ acted rest r.0.0
