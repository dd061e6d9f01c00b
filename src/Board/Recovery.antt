-- ===== src/Board/Recovery.antt =====
-- Restore of internal/board/board.go and internal/board/blackboard.go undoes a restart.
use avairy.Prelude.{
  ℕ, ◌+◌, ◌^◌, ◌≤◌, ◌<◌, ◌≡◌, ◌≢◌, refl, sym, ap, subst, ◌∙◌, inl, inr, ◌⊎◌, false, List, [], ◌∷◌,
  ◌++◌, Text, eq_text, eq_text_iff, eq_text_refl, some, u64-eq_of_lt, length, arith, Option-cases,
  Bool-cases,
}
use avairy.Prelude.Map
use avairy.Prelude.Map.{lookup-insert}
use avairy.Board.Task.{Task}
use avairy.Board.Tasks.{
  Board, new_board, task_seq, post, claim, set_state, is_open, satisfies, is_task_kind, restore,
  restore_record, restore_task,
}
use avairy.Board.Notes.{
  Blackboard, new_blackboard, write, is_note_kind, restore_notes, restore_note_record,
}
use avairy.Journal.Record.{Record, Payload, task_data}
use avairy.Journal.Record.{Kind}
use avairy.Journal.Memory
use avairy.Journal.Memory.{Memory, append}
use avairy.Board.History.{
  World, Op, new_world, posts, claims, sets, writes, messages, reports, step, run,
}
use avairy.Board.Keys.{
  IsKeyed, task_seq-task_id, task_id-ne-nil, step-IsKeyed, seq-step, new_board-IsKeyed,
}

restore-snoc :
    (rs : List Record) (r : Record) (b : Board)
    → restore (rs ++ r ∷ []) b ≡ restore_record r (restore rs b)
unfolding restore
restore-snoc [] r b = refl
restore-snoc (s ∷ rs) r b = restore-snoc rs r (restore_record s b)

restore_notes-snoc :
    (rs : List Record) (r : Record) (b : Blackboard)
    → restore_notes (rs ++ r ∷ []) b ≡ restore_note_record r (restore_notes rs b)
unfolding restore_notes
restore_notes-snoc [] r b = refl
restore_notes-snoc (s ∷ rs) r b = restore_notes-snoc rs r (restore_note_record s b)

-- The journal restores to the boards, and the tasks stand under their ids.
pub record IsDurable (w : World) : Type 0 where
  pub tasks : restore w.jrnl.records new_board ≡ w.board
  pub notes : restore_notes w.jrnl.records new_blackboard ≡ w.notes
  pub keyed : IsKeyed w.board

-- A note has a key: Restore passes over the others.
abbrev pub HasKeys : List Op → Type 0
HasKeys [] = Unit
HasKeys (writes now author key text ∷ os) = (key ≢ []) × HasKeys os
HasKeys (_ ∷ os) = HasKeys os

restore_task-later :
    (t : Task) (b : Board) (n : ℕ)
    → t.id ≢ []
    → task_seq t.id ≡ n
    → b.seq < n
    → restore_task t b ≡ record { seq = n; tasks = Map.insert t.id t b.tasks }
unfolding restore_task
restore_task-later t b n h e g = ground (arith, eq_text_iff t.id [])

restore_task-known :
    (t : Task) (b : Board)
    → t.id ≢ []
    → task_seq t.id ≤ b.seq
    → restore_task t b ≡ record b { tasks = Map.insert t.id t b.tasks }
unfolding restore_task
restore_task-known t b h g = ground (arith, eq_text_iff t.id [])

-- Restoring a log with one more record about a task.
restore-task_record :
    (rs : List Record) (r : Record) (t : Task) (b : Board)
    → (r.kind ≡ Kind.task) ⊎ (r.kind ≡ Kind.handover)
    → r.payload ≡ task_data t
    → restore rs new_board ≡ b
    → restore (rs ++ r ∷ []) new_board ≡ restore_task t b
restore-task_record rs r t b k p e =
    restore-snoc rs r new_board ∙ rw e (unfold restore_record in ground arith)

restore-other_record :
    (rs : List Record) (r : Record)
    → is_task_kind r.kind ≡ false
    → restore (rs ++ r ∷ []) new_board ≡ restore rs new_board
restore-other_record rs r h = restore-snoc rs r new_board ∙ unfold restore_record in rw h

restore_notes-other_record :
    (rs : List Record) (r : Record)
    → is_note_kind r.kind ≡ false
    → restore_notes (rs ++ r ∷ []) new_blackboard ≡ restore_notes rs new_blackboard
restore_notes-other_record rs r h =
    restore_notes-snoc rs r new_blackboard ∙ unfold restore_note_record in rw h

module _ (w : World) (d : IsDurable w) where
  post_tasks :
      (now : ℕ) (by title : Text) (requires : Map.Map Text) (deps : List Text)
      → w.board.seq + 1 < 2 ^ 64
      → let w' = step (posts now by title requires deps) w in
        restore w'.jrnl.records new_board ≡ w'.board
  unfolding step post append
  post_tasks now by title requires deps h =
      restore-task_record w.jrnl.records _ _ w.board (inl refl) refl d.tasks
      ∙ rw (u64-eq_of_lt (w.board.seq + 1) h) (
          restore_task-later _ w.board (w.board.seq + 1) (task_id-ne-nil (w.board.seq + 1))
            (task_seq-task_id (w.board.seq + 1) h) (omega arith))

  update_tasks :
      (now : ℕ) (kind : Kind) (actor id : Text) (t t' : Task)
      → (kind ≡ Kind.task) ⊎ (kind ≡ Kind.handover)
      → Map.lookup id w.board.tasks ≡ some t
      → t'.id ≡ t.id
      → restore (append kind actor (task_data t') now w.jrnl).records new_board
        ≡ record w.board { tasks = Map.insert id t' w.board.tasks }
  unfolding append
  update_tasks now kind actor id t t' k e same =
      let known = d.keyed.at_key id t e in
      let own : t'.id ≡ id = same ∙ known.own_id in
      restore-task_record w.jrnl.records _ t' w.board k refl d.tasks
      ∙ restore_task-known t' w.board (λ z. known.named (sym own ∙ z))
          (subst (λ k. task_seq k ≤ w.board.seq) (sym own) known.passed)
      ∙ ap (λ k. record w.board { tasks = Map.insert k t' w.board.tasks }) own

  step_tasks :
      (o : Op)
      → w.board.seq + 1 < 2 ^ 64
      → restore (step o w).jrnl.records new_board ≡ (step o w).board
  unfolding step claim set_state
  step_tasks (posts now by title requires deps) h = post_tasks now by title requires deps h
  step_tasks (claims now id agent caps) h = elim (Option-cases (Map.lookup id w.board.tasks)) [
    | inl e ↦ rw (e, claim) d.tasks
    | inr (t, e) ↦ elim (Bool-cases (is_open t.state)) [
      | inl free ↦ elim (Bool-cases (satisfies caps t.requires)) [
        | inl able ↦ rw (e, free, able, claim) (update_tasks now _ agent id t _ (inr refl) e refl)
        | inr unable ↦ rw (e, free, unable, claim) d.tasks
      ]
      | inr taken ↦ rw (e, taken, claim) d.tasks
    ]
  ]
  step_tasks (sets now id s) h = elim (Option-cases (Map.lookup id w.board.tasks)) [
    | inl e ↦ rw (e, set_state) d.tasks
    | inr (t, e) ↦ rw (e, set_state) (update_tasks now _ t.claimant id t _ (inl refl) e refl)
  ]
  step_tasks (writes now author key text) h =
      unfold write append in restore-other_record w.jrnl.records _ refl ∙ d.tasks
  step_tasks (messages now actor m) h =
      unfold append in restore-other_record w.jrnl.records _ refl ∙ d.tasks
  step_tasks (reports now actor r) h =
      unfold append in restore-other_record w.jrnl.records _ refl ∙ d.tasks

  keep_notes :
      (now : ℕ) (kind : Kind) (actor : Text) (p : Payload)
      → is_note_kind kind ≡ false
      → restore_notes (append kind actor p now w.jrnl).records new_blackboard ≡ w.notes
  unfolding append
  keep_notes now kind actor p h = restore_notes-other_record w.jrnl.records _ h ∙ d.notes

  write_notes :
      (now : ℕ) (author key text : Text)
      → key ≢ []
      → restore_notes (step (writes now author key text) w).jrnl.records new_blackboard
        ≡ (step (writes now author key text) w).notes
  unfolding step write append
  write_notes now author key text h =
      restore_notes-snoc w.jrnl.records _ new_blackboard
      ∙ rw d.notes (unfold restore_note_record in ground (arith, eq_text_iff key []))

  step_notes :
      (o : Op)
      → HasKeys (o ∷ [])
      → restore_notes (step o w).jrnl.records new_blackboard ≡ (step o w).notes
  unfolding step claim set_state
  step_notes (posts now by title requires deps) h = unfold post in keep_notes now _ by _ refl
  step_notes (claims now id agent caps) h = elim (Option-cases (Map.lookup id w.board.tasks)) [
    | inl e ↦ rw (e, claim) d.notes
    | inr (t, e) ↦ elim (Bool-cases (is_open t.state)) [
      | inl free ↦ elim (Bool-cases (satisfies caps t.requires)) [
        | inl able ↦ rw (e, free, able, claim) (keep_notes now _ agent _ refl)
        | inr unable ↦ rw (e, free, unable, claim) d.notes
      ]
      | inr taken ↦ rw (e, taken, claim) d.notes
    ]
  ]
  step_notes (sets now id s) h = elim (Option-cases (Map.lookup id w.board.tasks)) [
    | inl e ↦ rw (e, set_state) d.notes
    | inr (t, e) ↦ rw (e, set_state) (keep_notes now _ t.claimant _ refl)
  ]
  step_notes (writes now author key text) h = write_notes now author key text h.0
  step_notes (messages now actor m) h = keep_notes now _ actor _ refl
  step_notes (reports now actor r) h = keep_notes now _ actor _ refl

  step-IsDurable : (o : Op) → w.board.seq + 1 < 2 ^ 64 → HasKeys (o ∷ []) → IsDurable (step o w)
  step-IsDurable o h k = record {
    tasks = step_tasks o h;
    notes = step_notes o k;
    keyed = step-IsKeyed o w h d.keyed;
  }

HasKeys-cons : (o : Op) (os : List Op) → HasKeys (o ∷ os) → HasKeys (o ∷ []) × HasKeys os
HasKeys-cons (writes now author key text) os h = ((h.0, tt), h.1)
HasKeys-cons _ os h = (tt, h)

pub run-IsDurable :
    (os : List Op) (w : World)
    → IsDurable w
    → w.board.seq + length os < 2 ^ 64
    → HasKeys os
    → IsDurable (run os w)
unfolding run
run-IsDurable [] w d h k = d
run-IsDurable (o ∷ os) w d h k =
    let room : w.board.seq + 1 < 2 ^ 64 = omega arith in
    run-IsDurable os (step o w) (step-IsDurable w d o room (HasKeys-cons o os k).0)
      (omega (arith, seq-step o w room)) (HasKeys-cons o os k).1

pub new_world-IsDurable : IsDurable new_world
unfolding new_world restore restore_notes Memory.new
new_world-IsDurable = record { tasks = refl; notes = refl; keyed = new_board-IsKeyed }

-- After any run of fewer than 2 ^ 64 calls on new boards, in which every note that is written has a
-- key and other components append their own records in between, replaying the journal into new
-- boards gives back the task board, its counter included, and the blackboard.
pub recovery :
    (os : List Op)
    → length os < 2 ^ 64
    → HasKeys os
    → let w = run os new_world in
      (restore w.jrnl.records new_board ≡ w.board)
      × (restore_notes w.jrnl.records new_blackboard ≡ w.notes)
recovery os h k =
    let d =
      run-IsDurable os new_world new_world-IsDurable (unfold new_world new_board in omega arith)
        k in
    (d.tasks, d.notes)

-- A note written under the empty key stands on the blackboard and in the journal, and the replay
-- passes over it: it gives back the notes as they were before the write.
pub empty_key_lost :
    (w : World) (now : ℕ) (author text : Text)
    → IsDurable w
    → let w' = step (writes now author [] text) w in
      (Map.lookup [] w'.notes.notes ≡ some (record { key = []; text = text; author = author }))
      × (restore_notes w'.jrnl.records new_blackboard ≡ w.notes)
unfolding step write append
empty_key_lost w now author text d = (
  simp (lookup-insert, eq_text_refl),
  restore_notes-snoc w.jrnl.records _ new_blackboard
      ∙ rw d.notes (unfold restore_note_record eq_text in refl),
)
