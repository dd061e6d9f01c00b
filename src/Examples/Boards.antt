-- ===== src/Examples/Boards.antt =====
-- The task board and the blackboard of internal/board at concrete calls.
use avairy.Prelude.{
  ◌≡◌, ◌≢◌, refl, List, [], ◌∷◌, Text, codes, none, some, eq_text, if◌then◌else◌, arith, ◌⊎◌, u64,
}
use avairy.Prelude.Decimal.{format_uint}
use avairy.Prelude.Map
use avairy.Prelude.Map.{Map}
use avairy.Board.Task.{Task, open_task, claimed, blocked}
use avairy.Board.Tasks.{
  ok, err, not_found, not_claimable, cap_mismatch, satisfies, new_board, restore, claim, post,
}
use avairy.Board.Notes.{new_blackboard, restore_notes}
use avairy.Board.History.{World, Op, posts, claims, sets, writes, reports, new_world, run, step}
use avairy.Board.Recovery.{recovery, IsDurable, run-IsDurable, new_world-IsDurable}
use avairy.Board.Claims.{claim_exclusive, claim_outcome, Meets}

abbrev requirements : Map Text
requirements = (codes "os", codes "linux") ∷ []

-- Two tasks, a claim, a change of state and a note, with a system record in between.
abbrev day : List Op
day =
    posts 1 (codes "human") (codes "build") requirements []
    ∷ posts 2 (codes "human") (codes "test") [] (codes "t1" ∷ [])
    ∷ reports 3 (codes "core") []
    ∷ claims 4 (codes "t1") (codes "ada") requirements
    ∷ sets 5 (codes "t1") blocked
    ∷ writes 6 (codes "ada") (codes "plan") (codes "step one")
    ∷ []

recovery_example :
    (restore (run day new_world).jrnl.records new_board ≡ (run day new_world).board)
    × (restore_notes (run day new_world).jrnl.records new_blackboard ≡ (run day new_world).notes)
recovery_example = recovery day (omega arith) ((λ e. ground arith), tt)

abbrev posted : World
posted = run (posts 1 (codes "human") (codes "build") requirements [] ∷ []) new_world

abbrev build : Task
build = record {
  id = codes "t1";
  title = codes "build";
  state = open_task;
  requires = requirements;
  deps = [];
  claimant = [];
  created_by = codes "human";
}

posted-IsDurable : IsDurable posted
posted-IsDurable =
    run-IsDurable (posts 1 (codes "human") (codes "build") requirements [] ∷ []) new_world
      new_world-IsDurable (unfold new_world new_board in omega arith) tt

abbrev later_calls : List Op
later_calls =
    claims 3 (codes "t1") (codes "bob") requirements
    ∷ posts 4 (codes "human") (codes "ship") [] []
    ∷ sets 5 (codes "t2") blocked
    ∷ []

abbrev taken : Task
taken = record build { state = claimed; claimant = codes "ada" }

claim_exclusive_example :
    let w' = run (claims 2 (codes "t1") (codes "ada") requirements ∷ later_calls) posted in
    (Map.lookup (codes "t1") w'.board.tasks ≡ some taken)
    × (codes "ada" ≡ codes "ada")
    × (claim 6 (codes "t1") (codes "bob") requirements (w'.jrnl, w'.board)
        ≡ ((w'.jrnl, w'.board), err not_claimable))
unfolding new_world run step post claim new_board u64 Map.lookup Map.insert eq_text format_uint
    satisfies Map.lookup_or
claim_exclusive_example =
    claim_exclusive 2 6 (codes "t1") (codes "ada") (codes "bob") requirements requirements taken
      posted later_calls (omega arith) posted-IsDurable.keyed refl ((λ e. ground arith), tt)

abbrev open_and_taken : World
open_and_taken = run (claims 2 (codes "t1") (codes "ada") requirements ∷ []) posted

abbrev ClaimOutcome : Text → Text → Map Text → World → Type 0
ClaimOutcome id agent caps w =
    let r = claim 3 id agent caps (w.jrnl, w.board) in
    ((Map.lookup id w.board.tasks ≡ none) × (r ≡ ((w.jrnl, w.board), err not_found)))
    ⊎ ((t : Task) × (Map.lookup id w.board.tasks ≡ some t)
        × (((t.state ≢ open_task) × (r ≡ ((w.jrnl, w.board), err not_claimable)))
            ⊎ ((t.state ≡ open_task)
                × (¬ Meets caps t.requires)
                × (r ≡ ((w.jrnl, w.board), err cap_mismatch)))
            ⊎ ((t.state ≡ open_task)
                × Meets caps t.requires
                × (r.1 ≡ ok (record t { state = claimed; claimant = agent }))
                × ((k : Text)
                    → Map.lookup k r.0.1.tasks ≡ (
                        if eq_text id k
                        then some (record t { state = claimed; claimant = agent })
                        else Map.lookup k w.board.tasks)))))

claim_outcome_example : ClaimOutcome (codes "t1") (codes "ada") requirements posted
claim_outcome_example =
    claim_outcome 3 (codes "t1") (codes "ada") requirements posted.jrnl posted.board
