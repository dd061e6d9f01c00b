-- ===== src/Examples/Watches.antt =====
-- The facilitator of internal/facilitator/facilitator.go at concrete inputs: "a" reports twice that it
-- is blocked.
use avairy.Prelude.{false, [], ◌∷◌, Text, codes, none, some}
use avairy.Prelude.Map
use avairy.Agent.Summary.{Dynamic}
use avairy.Facilitator.Loops.{trigger_blocked, Facilitator, nudge_key}
use avairy.Facilitator.Watch.{Seen, system_record}
use avairy.Facilitator.Watch.Spacing.{Arrival}

abbrev texts : Dynamic Text
texts = record {
  as_text = λ t. some t;
  as_list = λ t. none;
  as_map = λ t. none;
  show = λ t. t;
  of_text = λ t. t;
}

abbrev report : Seen Text
report = system_record (codes "a") (
    (codes "event", codes "report_status")
    ∷ (codes "status", codes "blocked")
    ∷ (codes "detail", codes "no compiler")
    ∷ [])

abbrev arrival : Arrival Text
arrival = record { now = 10; looks = false; roster = []; seen = report }

abbrev nudged : Facilitator
nudged = record {
  recent = [];
  stale = [];
  last_nudge = (nudge_key (codes "a") trigger_blocked, 5) ∷ [];
}
