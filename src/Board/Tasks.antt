-- ===== src/Board/Tasks.antt =====
-- Board of internal/board/board.go. An operation gets the journal and the board and returns both,
-- with its result; it is one step under the board's lock, together with its Append.
use avairy.Prelude.{
  ℕ, ◌+◌, Bool, true, false, ◌&&◌, not, List, [], ◌∷◌, Text, codes, eq_text, Option, none, some,
  trim_prefix, ltb, if◌then◌else◌, u64, lt_text,
}
use avairy.Prelude.Map
use avairy.Prelude.Map.{Map}
use avairy.Prelude.Decimal.{format_uint, parse_uint}
use avairy.Board.Task.{TaskState, Task, open_task, claimed}
use avairy.Journal.Record.{Kind, Record, Payload, task_data}
use avairy.Journal.Memory.{Memory, append}

-- ErrNotFound, ErrNotClaimable, ErrCapMismatch
pub data BoardError : Type 0 where
  not_found not_claimable cap_mismatch : BoardError

pub data Result {ℓ} (A : Type ℓ) : Type ℓ where
  ok : A → Result A
  err : BoardError → Result A

pub record Board : Type 0 where
  pub seq : ℕ
  pub tasks : Map Task

-- New
unfoldable pub new_board : Board
new_board = record { seq = 0; tasks = [] }

-- taskSeq
unfoldable pub task_seq : Text → ℕ
task_seq id = parse_uint (trim_prefix id (codes "t"))

-- "t" + strconv.FormatUint(n, 10)
unfoldable pub task_id : ℕ → Text
task_id n = b't' ∷ format_uint n

-- Does caps[k] equal v, for each k and v of requires? A missing key reads as "".
unfoldable pub satisfies : Map Text → Map Text → Bool
satisfies caps [] = true
satisfies caps ((k, v) ∷ requires) = eq_text (Map.lookup_or [] k caps) v && satisfies caps requires

abbrev pub is_open : TaskState → Bool
is_open open_task = true
is_open _ = false

-- Board.Post
unfoldable pub post :
    ℕ → Text → Text → Map Text → List Text → Memory × Board → (Memory × Board) × Task
unfolding task_id
post now created_by title requires deps (jrnl, b) =
    let n = u64 (b.seq + 1) in
    let t : Task = record {
      id = task_id n;
      title = title;
      state = open_task;
      requires = requires;
      deps = deps;
      claimant = [];
      created_by = created_by;
    } in
    (
      (
        append Kind.task created_by (task_data t) now jrnl,
        record { seq = n; tasks = Map.insert t.id t b.tasks },
      ),
      t,
    )

-- The part of Claim behind its three guards.
unfoldable pub grant : ℕ → Text → Text → Task → Memory × Board → (Memory × Board) × Result Task
grant now id agent_id t (jrnl, b) =
    let t' : Task = record t { state = claimed; claimant = agent_id } in
    (
      (
        append Kind.handover agent_id (task_data t') now jrnl,
        record b { tasks = Map.insert id t' b.tasks },
      ),
      ok t',
    )

-- Board.Claim
unfoldable pub claim : ℕ → Text → Text → Map Text → Memory × Board → (Memory × Board) × Result Task
unfolding grant
claim now id agent_id caps (jrnl, b) = elim (Map.lookup id b.tasks) [
  | none ↦ ((jrnl, b), err not_found)
  | some t ↦
      if not (is_open t.state)
      then ((jrnl, b), err not_claimable)
      else if not (satisfies caps t.requires)
      then ((jrnl, b), err cap_mismatch)
      else grant now id agent_id t (jrnl, b)
]

-- Board.SetState
unfoldable pub set_state : ℕ → Text → TaskState → Memory × Board → (Memory × Board) × Result Task
set_state now id s (jrnl, b) = elim (Map.lookup id b.tasks) [
  | none ↦ ((jrnl, b), err not_found)
  | some t ↦
      let t' : Task = record t { state = s } in
      (
        (
          append Kind.task t.claimant (task_data t') now jrnl,
          record b { tasks = Map.insert id t' b.tasks },
        ),
        ok t',
      )
]

-- Board.Get
unfoldable pub get : Text → Board → Option Task
get id b = Map.lookup id b.tasks

insert_by_id : Task → List Task → List Task
insert_by_id t [] = t ∷ []
insert_by_id t (u ∷ us) = if lt_text u.id t.id then u ∷ insert_by_id t us else t ∷ u ∷ us

sort_by_id : List Task → List Task
sort_by_id [] = []
sort_by_id (t ∷ ts) = insert_by_id t (sort_by_id ts)

-- Board.List; the ids are distinct, so the order that sort.Slice gives is this one.
unfoldable pub list_tasks : Board → List Task
unfolding sort_by_id insert_by_id
list_tasks b = sort_by_id (Map.values b.tasks)

-- json.Unmarshal of a record's data into a Task. What Append persists of a task is read back as it
-- was; no other payload is recorded under the two kinds that Restore reads.
unfoldable pub decode_task : Payload → Option Task
decode_task (task_data t) = some t
decode_task _ = none

abbrev pub is_task_kind : Kind → Bool
is_task_kind Kind.task = true
is_task_kind Kind.handover = true
is_task_kind _ = false

-- One task that Restore has decoded.
unfoldable pub restore_task : Task → Board → Board
restore_task t b = if eq_text t.id [] then b else record {
  seq = if ltb b.seq (task_seq t.id) then task_seq t.id else b.seq;
  tasks = Map.insert t.id t b.tasks;
}

-- One round of the loop of Restore.
unfoldable pub restore_record : Record → Board → Board
unfolding decode_task restore_task
restore_record r b =
    if not (is_task_kind r.kind)
    then b
    else elim (decode_task r.payload) [ none ↦ b | some t ↦ restore_task t b ]

-- Board.Restore
unfoldable pub restore : List Record → Board → Board
restore [] b = b
restore (r ∷ rs) b = restore rs (restore_record r b)
