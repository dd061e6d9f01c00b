-- ===== src/Examples/Hubs.antt =====
-- The hub of internal/workspace at concrete pushes.
use avairy.Prelude.{
  ◌+◌, ◌≡◌, refl, true, false, List, [], ◌∷◌, codes, none, some, ◌==◌, if◌then◌else◌, u64, arith,
  eq_text, any,
}
use avairy.Prelude.Map
use avairy.Workspace.Content.{normalize_for_transit}
use avairy.Workspace.Hub.{Change, FileState, Hub, new_hub, push, store, stored}
use avairy.Workspace.Versions.{
  Op, pushes, resolves, run, known_file, normal, version_of, holds, push-eq-compare_and_set,
}
use avairy.Workspace.Updates.{IsBelow, Later, no_lost_update, run-Later}
use avairy.Workspace.Repush.{repush}

abbrev first : Change
first = record { path = codes "a"; content = codes "one"; mode = 0; deleted = false; base = 0 }

abbrev second : Change
second = record first { content = codes "two" }

new_hub-IsBelow : IsBelow 0 new_hub
unfolding new_hub Map.lookup
new_hub-IsBelow = record { at_path = λ path f e. absurd (cc) }

abbrev merges : List Op
merges = resolves 2 (codes "core") (codes "a") (codes "merged") ∷ []

abbrev merged_hub : Hub
merged_hub = run (pushes 1 (codes "n1") first ∷ merges) new_hub

no_lost_update_example : push 3 (codes "n2") second merged_hub ≡ (
  merged_hub,
  record {
    applied = false;
    version = 0;
    conflict = some (record {
      path = codes "a";
      base = 0;
      hub = known_file (codes "a") merged_hub;
      incoming = normal second;
    });
  },
)
no_lost_update_example =
    no_lost_update 1 3 (codes "n1") (codes "n2") first second merges 0 new_hub (omega arith)
      new_hub-IsBelow (unfold push new_hub Map.lookup in refl)
      (unfold push new_hub Map.lookup in λ e. omega arith) refl refl

abbrev one_file : Hub
one_file = (push 1 (codes "n1") first new_hub).0

abbrev first_file : FileState
first_file = stored 1 (codes "n1") first 1

one_file-IsBelow : IsBelow 1 one_file
unfolding push new_hub store stored Map.insert Map.lookup normalize_for_transit any
one_file-IsBelow = record { at_path = λ path f e. ground arith }

run-Later_example :
    (g : FileState) × (Map.lookup (codes "a") (run merges one_file).files ≡ some g)
    × Later first_file g
unfolding push new_hub store stored Map.insert Map.lookup eq_text normalize_for_transit any
run-Later_example =
    run-Later merges 1 one_file (codes "a") first_file (omega arith) one_file-IsBelow refl

push-eq-compare_and_set_example : push 2 (codes "n2") second one_file ≡ (
    if 0 == version_of (codes "a") one_file
    then (if holds (normal second) one_file
        then (
          one_file,
          record { applied = true; version = version_of (codes "a") one_file; conflict = none },
        )
        else (
          store 2 (codes "n2") (normal second) (u64 (version_of (codes "a") one_file + 1)) one_file,
          record {
            applied = true;
            version = u64 (version_of (codes "a") one_file + 1);
            conflict = none;
          },
        ))
    else (
      one_file,
      record {
        applied = false;
        version = 0;
        conflict = some (record {
          path = codes "a";
          base = 0;
          hub = known_file (codes "a") one_file;
          incoming = normal second;
        });
      },
    ))
push-eq-compare_and_set_example = push-eq-compare_and_set 2 (codes "n2") second one_file

repush_example :
    let (h', r) = push 1 (codes "n1") first new_hub in
    push 2 (codes "n2") (record first { base = r.version }) h'
    ≡ (h', record { applied = true; version = r.version; conflict = none })
repush_example =
    repush 1 2 (codes "n1") (codes "n2") first new_hub (unfold push new_hub Map.lookup in refl)
