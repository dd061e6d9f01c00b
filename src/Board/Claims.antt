-- ===== src/Board/Claims.antt =====
-- Who owns a task of internal/board/board.go.
use avairy.Prelude.{
  ℕ, suc, ◌+◌, ◌^◌, ◌<◌, ◌≡◌, ◌≢◌, ◌↔◌, refl, ap, ◌∙◌, inl, inr, ◌⊎◌, true, List, [], ◌∷◌, Text,
  eq_text, eq_text_iff, eq_text_refl, none, some, u64-eq_of_lt, length, arith, Option-cases,
  Bool-cases, if◌then◌else◌, All,
}
use avairy.Prelude.Map
use avairy.Prelude.Map.{Map, lookup-insert}
use avairy.Board.Task.{Task, TaskState, open_task, claimed}
use avairy.Board.Tasks.{
  Board, ok, err, not_found, not_claimable, cap_mismatch, task_seq, task_id, post, claim, set_state,
  is_open, satisfies,
}
use avairy.Journal.Memory.{Memory}
use avairy.Board.History.{World, Op, posts, claims, sets, writes, messages, reports, step, run}
use avairy.Board.Keys.{IsKeyed, task_seq-task_id, step-IsKeyed, seq-step}

-- The agent has every capability that the task names, a missing one counting as "".
abbrev pub Meets : Map Text → Map Text → Type 0
Meets caps = All (λ r. Map.lookup_or [] r.0 caps ≡ r.1)

satisfies_iff : (caps requires : Map Text) → (satisfies caps requires ≡ true) ↔ Meets caps requires
unfolding satisfies
satisfies_iff caps [] = ground arith
satisfies_iff caps ((k, v) ∷ requires) =
    ground (arith, eq_text_iff (Map.lookup_or [] k caps) v, satisfies_iff caps requires)

is_open_iff : (s : TaskState) → (is_open s ≡ true) ↔ (s ≡ open_task)
is_open_iff s = ground arith

-- Claim succeeds exactly on an open task all of whose requirements the agent meets, and otherwise
-- names the first reason that applies and changes nothing; success changes that task alone.
pub claim_outcome :
    (now : ℕ) (id agent : Text) (caps : Map Text) (jrnl : Memory) (b : Board)
    → let r = claim now id agent caps (jrnl, b) in
      ((Map.lookup id b.tasks ≡ none) × (r ≡ ((jrnl, b), err not_found)))
      ⊎ ((t : Task) × (Map.lookup id b.tasks ≡ some t)
          × (((t.state ≢ open_task) × (r ≡ ((jrnl, b), err not_claimable)))
              ⊎ ((t.state ≡ open_task)
                  × (¬ Meets caps t.requires)
                  × (r ≡ ((jrnl, b), err cap_mismatch)))
              ⊎ ((t.state ≡ open_task)
                  × Meets caps t.requires
                  × (r.1 ≡ ok (record t { state = claimed; claimant = agent }))
                  × ((k : Text)
                      → Map.lookup k r.0.1.tasks ≡ (
                          if eq_text id k
                          then some (record t { state = claimed; claimant = agent })
                          else Map.lookup k b.tasks)))))
unfolding claim
claim_outcome now id agent caps jrnl b = elim (Option-cases (Map.lookup id b.tasks)) [
  | inl e ↦ inl (e, rw (e, claim))
  | inr (t, e) ↦ elim (Bool-cases (is_open t.state)) [
    | inl free ↦
        let vacant = (is_open_iff t.state).0 free in
        elim (Bool-cases (satisfies caps t.requires)) [
          | inl able ↦ inr (
            t,
            e,
            inr (
                inr (
                  vacant,
                  (satisfies_iff caps t.requires).0 able,
                  rw (e, free, able, claim),
                  λ k. rw (e, free, able, claim) (lookup-insert id k _ b.tasks),
                )),
          )
          | inr unable ↦ inr (
            t,
            e,
            inr (
                inl (
                  vacant,
                  λ m. ground (arith, satisfies_iff caps t.requires),
                  rw (e, free, unable, claim),
                )),
          )
        ]
    | inr taken ↦ inr (t, e, inl (λ z. ground (arith, is_open_iff t.state), rw (e, taken, claim)))
  ]
]

-- No SetState on the task.
abbrev pub Untouched : Text → List Op → Type 0
Untouched id [] = Unit
Untouched id (sets now j s ∷ os) = (j ≢ id) × Untouched id os
Untouched id (_ ∷ os) = Untouched id os

Untouched-cons :
    (id : Text) (o : Op) (os : List Op)
    → Untouched id (o ∷ os)
    → Untouched id (o ∷ []) × Untouched id os
Untouched-cons id (sets now j s) os u = ((u.0, tt), u.1)
Untouched-cons id _ os u = (tt, u)

step_keeps :
    (o : Op) (w : World) (id : Text) (t : Task)
    → w.board.seq + 1 < 2 ^ 64
    → IsKeyed w.board
    → Map.lookup id w.board.tasks ≡ some t
    → t.state ≢ open_task
    → Untouched id (o ∷ [])
    → Map.lookup id (step o w).board.tasks ≡ some t
unfolding step set_state claim
step_keeps (posts now by title requires deps) w id t h v e taken u =
    let fresh : task_id (w.board.seq + 1) ≢ id = λ z. absurd (
      omega (
        arith,
        task_seq-task_id (w.board.seq + 1) h,
        ap (λ k. task_seq k) z,
        (v.at_key id t e).passed,
      )) in
    unfold post in
    rw (u64-eq_of_lt (w.board.seq + 1) h)
      (rw lookup-insert (ground (arith, eq_text_iff (task_id (w.board.seq + 1)) id)))
step_keeps (claims now j agent caps) w id t h v e taken u =
    elim (claim_outcome now j agent caps w.jrnl w.board) [
      | inl (_, r) ↦ rw r e
      | inr (s, f, inl (_, r)) ↦ rw r e
      | inr (s, f, inr (inl (_, _, r))) ↦ rw r e
      | inr (s, f, inr (inr (vacant, _, _, tasks))) ↦ tasks id ∙ ground (arith, eq_text_iff j id)
    ]
step_keeps (sets now j s) w id t h v e taken u = elim (Option-cases (Map.lookup j w.board.tasks)) [
  | inl f ↦ rw (f, set_state) e
  | inr (r, f) ↦ rw (f, set_state) (rw lookup-insert (ground (arith, eq_text_iff j id)))
]
step_keeps (writes now author key text) w id t h v e taken u = e
step_keeps (messages now actor m) w id t h v e taken u = e
step_keeps (reports now actor d) w id t h v e taken u = e

-- A task that is not open keeps its state and its claimant over every run of calls in which no
-- SetState names it, whoever posts and claims.
pub run_keeps :
    (os : List Op) (w : World) (id : Text) (t : Task)
    → w.board.seq + length os < 2 ^ 64
    → IsKeyed w.board
    → Map.lookup id w.board.tasks ≡ some t
    → t.state ≢ open_task
    → Untouched id os
    → Map.lookup id (run os w).board.tasks ≡ some t
unfolding run
run_keeps [] w id t h v e taken u = e
run_keeps (o ∷ os) w id t h v e taken u =
    let room : w.board.seq + 1 < 2 ^ 64 = omega arith in
    let (first, rest) = Untouched-cons id o os u in
    run_keeps os (step o w) id t (omega (arith, seq-step o w room)) (step-IsKeyed o w room v)
      (step_keeps o w id t room v e taken first) taken rest

claim_won :
    (now : ℕ) (id agent : Text) (caps : Map Text) (jrnl : Memory) (b : Board) (t : Task)
    → (claim now id agent caps (jrnl, b)).1 ≡ ok t
    → (Map.lookup id (claim now id agent caps (jrnl, b)).0.1.tasks ≡ some t)
      × (t.state ≢ open_task)
      × (t.claimant ≡ agent)
claim_won now id agent caps jrnl b t won = elim (claim_outcome now id agent caps jrnl b) [
  | inl (_, r) ↦ absurd (cc (r))
  | inr (s, f, inl (_, r)) ↦ absurd (cc (r))
  | inr (s, f, inr (inl (_, _, r))) ↦ absurd (cc (r))
  | inr (s, f, inr (inr (_, _, r, tasks))) ↦
      let same : record s { state = claimed; claimant = agent } ≡ t = ground (arith, r) in
      rw (← same) (tasks id ∙ rw (eq_text_refl id), λ z. cc, refl)
]

claim_taken :
    (now : ℕ) (id agent : Text) (caps : Map Text) (jrnl : Memory) (b : Board) (t : Task)
    → Map.lookup id b.tasks ≡ some t
    → t.state ≢ open_task
    → claim now id agent caps (jrnl, b) ≡ ((jrnl, b), err not_claimable)
unfolding claim
claim_taken now id agent caps jrnl b t e h = ground (arith, is_open_iff t.state)

-- Once an agent's claim on a task has succeeded, every later claim on it, by anyone, is refused as
-- not claimable and changes nothing, until a SetState names the task.
pub claim_exclusive :
    (now later : ℕ) (id agent rival : Text) (caps caps' : Map Text) (t : Task) (w : World)
    (os : List Op)
    → w.board.seq + suc (length os) < 2 ^ 64
    → IsKeyed w.board
    → (claim now id agent caps (w.jrnl, w.board)).1 ≡ ok t
    → Untouched id os
    → let w' = run (claims now id agent caps ∷ os) w in
      (Map.lookup id w'.board.tasks ≡ some t)
      × (t.claimant ≡ agent)
      × (claim later id rival caps' (w'.jrnl, w'.board) ≡ ((w'.jrnl, w'.board), err not_claimable))
unfolding run step
claim_exclusive now later id agent rival caps caps' t w os h v won u =
    let w1 = step (claims now id agent caps) w in
    let room : w.board.seq + 1 < 2 ^ 64 = omega arith in
    let (held, closed, owner) = claim_won now id agent caps w.jrnl w.board t won in
    let kept =
      run_keeps os w1 id t (omega (arith, seq-step (claims now id agent caps) w room))
        (step-IsKeyed (claims now id agent caps) w room v) held closed u in
    (kept, owner, claim_taken later id rival caps' (run os w1).jrnl (run os w1).board t kept closed)
