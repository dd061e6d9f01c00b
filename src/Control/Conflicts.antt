-- ===== src/Control/Conflicts.antt =====
-- Conflicts of internal/control/conflicts.go: the board of file conflicts that the operator decides.
-- An operation holds the lock once and is one step, with its callback. `none` is the dereference of a
-- missing entry of `pending`, at which the program panics. The counter is an int and taken not to
-- wrap.
use avairy.Prelude.{ℕ, ◌+◌, Bool, true, false, List, [], ◌∷◌, Text, codes, Option, none, some}
use avairy.Prelude.Map
use avairy.Prelude.Map.{Map}
use avairy.Prelude.Decimal.{format_uint}

-- type OperatorConflict
pub record OperatorConflict : Type 0 where
  pub id : Text
  pub path : Text
  pub hub_version : ℕ
  pub source : Text
  pub detail : Text
  pub at : ℕ

pub record Conflicts : Type 0 where
  pub seq : ℕ
  pub pending : Map OperatorConflict
  pub by_path : Map Text

-- NewConflicts
unfoldable pub new_conflicts : Conflicts
new_conflicts = record { seq = 0; pending = []; by_path = [] }

-- The callbacks OnRaise and OnResolve.
pub data Event : Type 0 where
  raised : OperatorConflict → Event
  resolved : OperatorConflict → Text → Event

-- fmt.Sprintf("cf%d", n)
unfoldable pub conflict_id : ℕ → Text
conflict_id n = b'c' ∷ (b'f' ∷ format_uint n)

-- The part of Raise for a path with a pending conflict.
unfoldable pub raise_again :
    OperatorConflict → Text → Conflicts → Option (Conflicts × List Event × Text)
raise_again oc id c = elim (Map.lookup id c.pending) [
  | none ↦ none
  | some existing ↦ some (
    record c {
      pending = Map.insert id (record oc { id = existing.id; at = existing.at }) c.pending;
    },
    [],
    id,
  )
]

-- The part of Raise for another path.
unfoldable pub raise_new : ℕ → OperatorConflict → Conflicts → Conflicts × List Event × Text
unfolding conflict_id
raise_new now oc c =
    let new : OperatorConflict = record oc { id = conflict_id (c.seq + 1); at = now } in
    (
      record {
        seq = c.seq + 1;
        pending = Map.insert new.id new c.pending;
        by_path = Map.insert oc.path new.id c.by_path;
      },
      raised new ∷ [],
      new.id,
    )

-- Conflicts.Raise
unfoldable pub raise : ℕ → OperatorConflict → Conflicts → Option (Conflicts × List Event × Text)
unfolding raise_again raise_new
raise now oc c = elim (Map.lookup oc.path c.by_path) [
  | some id ↦ raise_again oc id c
  | none ↦ some (raise_new now oc c)
]

unfoldable pub remove : Text → Text → Conflicts → Conflicts
remove id path c = record c { pending = Map.erase id c.pending; by_path = Map.erase path c.by_path }

-- Conflicts.Resolve
unfoldable pub resolve : Text → Text → Conflicts → Conflicts × List Event × Option OperatorConflict
unfolding remove
resolve id decision c = elim (Map.lookup id c.pending) [
  | none ↦ (c, [], none)
  | some oc ↦ (remove id oc.path c, resolved oc decision ∷ [], some oc)
]

-- Conflicts.ClearPath
unfoldable pub clear_path : Text → Conflicts → Option (Conflicts × List Event × Bool)
unfolding remove
clear_path path c = elim (Map.lookup path c.by_path) [
  | none ↦ some (c, [], false)
  | some id ↦ elim (Map.lookup id c.pending) [
    | none ↦ none
    | some oc ↦ some (remove id path c, resolved oc (codes "cleared") ∷ [], true)
  ]
]

pub data Op : Type 0 where
  raises : ℕ → OperatorConflict → Op
  resolves : Text → Text → Op
  clears : Text → Op

unfoldable pub step : Op → Conflicts → Option Conflicts
step (raises now oc) c = elim (raise now oc c) [ none ↦ none | some r ↦ some r.0 ]
step (resolves id decision) c = some (resolve id decision c).0
step (clears path) c = elim (clear_path path c) [ none ↦ none | some r ↦ some r.0 ]

-- A run, which ends at a panic.
unfoldable pub run : List Op → Conflicts → Option Conflicts
run [] c = some c
run (o ∷ os) c = elim (step o c) [ none ↦ none | some c' ↦ run os c' ]
