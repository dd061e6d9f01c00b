-- ===== src/Examples/ConflictBoards.antt =====
-- The conflict board of internal/control at concrete runs.
use avairy.Prelude.{◌≡◌, List, [], ◌∷◌, codes, some}
use avairy.Control.Conflicts.{
  OperatorConflict, Conflicts, Op, raises, resolves, clears, new_conflicts, run,
}
use avairy.Control.OnePerPath.{Consistent, run-Consistent}

abbrev conflict : OperatorConflict
conflict = record {
  id = [];
  path = codes "go.mod";
  hub_version = 3;
  source = codes "seed";
  detail = [];
  at = 0;
}

abbrev two_paths : List Op
two_paths =
    raises 1 conflict
    ∷ raises 2 (record conflict { path = codes "go.sum" })
    ∷ resolves (codes "cf1") (codes "mine")
    ∷ raises 3 conflict
    ∷ clears (codes "go.sum")
    ∷ []

run-Consistent_example : (c : Conflicts) × (run two_paths new_conflicts ≡ some c) × Consistent c
run-Consistent_example = run-Consistent two_paths

abbrev board : Conflicts
board = record {
  seq = 1;
  pending = (codes "cf1", record conflict { id = codes "cf1"; at = 1 }) ∷ [];
  by_path = (codes "go.mod", codes "cf1") ∷ [];
}

abbrev newer : OperatorConflict
newer = record conflict { hub_version = 4 }
