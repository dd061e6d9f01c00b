-- ===== src/Board/Notes.antt =====
-- Blackboard of internal/board/blackboard.go.
use avairy.Prelude.{
  ℕ, Bool, true, false, ◌||◌, not, List, [], ◌∷◌, Text, eq_text, Option, none, some, select,
  if◌then◌else◌, has_prefix, lt_text,
}
use avairy.Prelude.Map
use avairy.Prelude.Map.{Map}
use avairy.Board.Task.{Note}
use avairy.Journal.Record.{Kind, Record, Payload, note_data}
use avairy.Journal.Memory.{Memory, append}

pub record Blackboard : Type 0 where
  pub notes : Map Note

-- NewBlackboard
unfoldable pub new_blackboard : Blackboard
new_blackboard = record { notes = [] }

-- Blackboard.Write
unfoldable pub write : ℕ → Text → Text → Text → Memory × Blackboard → (Memory × Blackboard) × Note
write now author key text (jrnl, bb) =
    let n : Note = record { key = key; text = text; author = author } in
    (
      (
        append Kind.note author (note_data n) now jrnl,
        record { notes = Map.insert key n bb.notes },
      ),
      n,
    )

insert_by_key : Note → List Note → List Note
insert_by_key n [] = n ∷ []
insert_by_key n (o ∷ os) = if lt_text o.key n.key then o ∷ insert_by_key n os else n ∷ o ∷ os

sort_by_key : List Note → List Note
sort_by_key [] = []
sort_by_key (n ∷ ns) = insert_by_key n (sort_by_key ns)

has_prefixed_key : Text → Text × Note → Bool
has_prefixed_key prefix (k, n) = eq_text prefix [] || has_prefix k prefix

-- Blackboard.Read; the keys are distinct, so the order that sort.Slice gives is this one.
unfoldable pub read : Text → Blackboard → List Note
unfolding sort_by_key insert_by_key has_prefixed_key
read prefix bb = sort_by_key (Map.values (select (has_prefixed_key prefix) bb.notes))

abbrev pub is_note_kind : Kind → Bool
is_note_kind Kind.note = true
is_note_kind _ = false

-- json.Unmarshal of a record's data into a Note.
unfoldable pub decode_note : Payload → Option Note
decode_note (note_data n) = some n
decode_note _ = none

-- One note that Restore has decoded.
unfoldable pub restore_note : Note → Blackboard → Blackboard
restore_note n bb = if eq_text n.key [] then bb else record { notes = Map.insert n.key n bb.notes }

-- One round of the loop of Restore.
unfoldable pub restore_note_record : Record → Blackboard → Blackboard
unfolding decode_note restore_note
restore_note_record r bb =
    if not (is_note_kind r.kind)
    then bb
    else elim (decode_note r.payload) [ none ↦ bb | some n ↦ restore_note n bb ]

-- Blackboard.Restore
unfoldable pub restore_notes : List Record → Blackboard → Blackboard
restore_notes [] bb = bb
restore_notes (r ∷ rs) bb = restore_notes rs (restore_note_record r bb)
