-- ===== src/Examples/Rosters.antt =====
-- The nudger of internal/facilitator at a concrete roster.
use avairy.Prelude.{List, [], ◌∷◌, codes}
use avairy.Facilitator.Loops.{Trigger, trigger_blocked}
use avairy.Facilitator.Nudger.{Agent}

abbrev roster : List Agent
roster =
    record { id = codes "bob"; caps = (codes "os", codes "darwin") ∷ [] }
    ∷ record { id = codes "ada"; caps = (codes "os", codes "linux") ∷ [] }
    ∷ []

abbrev stuck : Trigger
stuck = record {
  kind = trigger_blocked;
  agent = codes "ada";
  detail = codes "cannot reproduce on macOS";
}
