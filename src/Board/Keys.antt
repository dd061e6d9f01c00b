-- ===== src/Board/Keys.antt =====
-- The tasks of internal/board/board.go stand under their own ids, which the counter has passed.
use avairy.Prelude.{
  ℕ, ◌+◌, ◌^◌, ◌≤◌, ◌<◌, ◌≡◌, ◌≢◌, refl, ◌∙◌, inl, inr, List, [], Text, eq_text, eq_text_iff, some,
  trim_prefix, u64-eq_of_lt, arith, Option-cases, Bool-cases,
}
use mathlib.Core.Path.{subst₂}
use avairy.Prelude.Map
use avairy.Prelude.Map.{lookup-insert}
use avairy.Prelude.Decimal.{parse_uint-format_uint}
use avairy.Board.Task.{Task, TaskState}
use avairy.Board.Tasks.{
  Board, new_board, task_seq, task_id, post, claim, set_state, is_open, satisfies,
}
use avairy.Journal.Memory.{Memory}
use avairy.Board.History.{World, Op, posts, claims, sets, writes, messages, reports, step}

-- The counter comes back out of the id that it went into.
pub task_seq-task_id : (n : ℕ) → n < 2 ^ 64 → task_seq (task_id n) ≡ n
unfolding task_seq task_id trim_prefix
task_seq-task_id n h = parse_uint-format_uint n h

pub task_id-ne-nil : (n : ℕ) → task_id n ≢ []
unfolding task_id
task_id-ne-nil n e = cc

pub record Known (seq : ℕ) (k : Text) (t : Task) : Type 0 where
  pub own_id : t.id ≡ k
  pub passed : task_seq k ≤ seq
  pub named : k ≢ []

pub record IsKeyed (b : Board) : Type 0 where
  pub at_key : (k : Text) (t : Task) → Map.lookup k b.tasks ≡ some t → Known b.seq k t

pub new_board-IsKeyed : IsKeyed new_board
unfolding new_board Map.lookup
new_board-IsKeyed = record { at_key = λ k t e. absurd (cc) }

Known-later : {seq seq' : ℕ} {k : Text} {t : Task} → Known seq k t → seq ≤ seq' → Known seq' k t
Known-later h le = record { own_id = h.own_id; passed = omega arith; named = h.named }

insert-IsKeyed :
    (b : Board) (k : Text) (t : Task) (seq : ℕ)
    → b.seq ≤ seq
    → Known seq k t
    → IsKeyed b
    → IsKeyed (record { seq = seq; tasks = Map.insert k t b.tasks })
insert-IsKeyed b k t seq le new v = record {
  at_key = λ j u e. elim (Bool-cases (eq_text k j)) [
    | inl same ↦
        let same_task : t ≡ u = ground (arith, lookup-insert k j t b.tasks) in
        subst₂ (Known seq) ((eq_text_iff k j).0 same) same_task new
    | inr other ↦ Known-later (v.at_key j u (ground (arith, lookup-insert k j t b.tasks))) le
  ];
}

IsKeyed-later : (b : Board) (seq : ℕ) → b.seq ≤ seq → IsKeyed b → IsKeyed (record b { seq = seq })
IsKeyed-later b seq le v = record { at_key = λ k t e. Known-later (v.at_key k t e) le }

module _ (now : ℕ) (jrnl : Memory) (b : Board) (v : IsKeyed b) where
  pub post-IsKeyed :
      (by title : Text) (requires : Map.Map Text) (deps : List Text)
      → b.seq + 1 < 2 ^ 64
      → IsKeyed (post now by title requires deps (jrnl, b)).0.1
  unfolding post
  post-IsKeyed by title requires deps h =
      rw (u64-eq_of_lt (b.seq + 1) h, post)
        (insert-IsKeyed b (task_id (b.seq + 1)) _ (b.seq + 1) (omega arith)
          (record {
            own_id = refl;
            passed = omega (arith, task_seq-task_id (b.seq + 1) h);
            named = task_id-ne-nil (b.seq + 1);
          })
          v)

  -- Writing a task back under its id keeps the keys.
  pub update-IsKeyed :
      (id : Text) (t t' : Task)
      → Map.lookup id b.tasks ≡ some t
      → t'.id ≡ t.id
      → IsKeyed (record b { tasks = Map.insert id t' b.tasks })
  update-IsKeyed id t t' e same =
      let k = v.at_key id t e in
      insert-IsKeyed b id t' b.seq (omega arith)
        (record { own_id = same ∙ k.own_id; passed = k.passed; named = k.named }) v

  pub set_state-IsKeyed : (id : Text) (s : TaskState) → IsKeyed (set_state now id s (jrnl, b)).0.1
  unfolding set_state
  set_state-IsKeyed id s = elim (Option-cases (Map.lookup id b.tasks)) [
    | inl e ↦ rw (e, set_state) v
    | inr (t, e) ↦ rw (e, set_state) (update-IsKeyed id t _ e refl)
  ]

  pub claim-IsKeyed :
      (id agent : Text) (caps : Map.Map Text) → IsKeyed (claim now id agent caps (jrnl, b)).0.1
  unfolding claim
  claim-IsKeyed id agent caps = elim (Option-cases (Map.lookup id b.tasks)) [
    | inl e ↦ rw (e, claim) v
    | inr (t, e) ↦ elim (Bool-cases (is_open t.state)) [
      | inl free ↦ elim (Bool-cases (satisfies caps t.requires)) [
        | inl able ↦ rw (e, free, able, claim) (update-IsKeyed id t _ e refl)
        | inr unable ↦ rw (e, free, unable, claim) v
      ]
      | inr taken ↦ rw (e, taken, claim) v
    ]
  ]

-- The steps of the boards' calls, on the world.
pub step-IsKeyed :
    (o : Op) (w : World) → w.board.seq + 1 < 2 ^ 64 → IsKeyed w.board → IsKeyed (step o w).board
unfolding step
step-IsKeyed (posts now by title requires deps) w h v =
    post-IsKeyed now w.jrnl w.board v by title requires deps h
step-IsKeyed (claims now id agent caps) w h v = claim-IsKeyed now w.jrnl w.board v id agent caps
step-IsKeyed (sets now id s) w h v = set_state-IsKeyed now w.jrnl w.board v id s
step-IsKeyed (writes now author key text) w h v = v
step-IsKeyed (messages now actor m) w h v = v
step-IsKeyed (reports now actor d) w h v = v

-- One call moves the counter by one at most.
pub seq-step :
    (o : Op) (w : World) → w.board.seq + 1 < 2 ^ 64 → (step o w).board.seq ≤ w.board.seq + 1
unfolding step
seq-step (posts now by title requires deps) w h =
    unfold post in omega (arith, u64-eq_of_lt (w.board.seq + 1) h)
seq-step (claims now id agent caps) w h = unfold claim in ground arith
seq-step (sets now id s) w h = unfold set_state in ground arith
seq-step (writes now author key text) w h = omega arith
seq-step (messages now actor m) w h = omega arith
seq-step (reports now actor d) w h = omega arith
