-- ===== src/Bus/Waker/Rate.antt =====
-- The budget of internal/bus/bus.go's Waker holds over every run of calls.
use avairy.Prelude.{
  ℕ, ◌≤◌, ◌<◌, ◌≡◌, refl, sym, ap, ◌∙◌, inl, inr, Bool, true, ◌&&◌, List, [], ◌∷◌, ◌++◌, Text,
  length, length-append, select, All, ltb, leb, if◌then◌else◌, arith, Bool-cases,
}
use native.Mathlib.Decide.{dec_lt}
use avairy.Bus.Message.{ToKind}
use avairy.Bus.Waker.{Waker, new_waker, always_wakes, is_direct, within, spend, wake}
use avairy.Bus.Waker.Window.{
  in_window, within-within, length-in_window-le, length-within-le, in_window-later, within-append,
  All-later, All-snoc, in_window-within,
}

-- One call of Wake.
pub record Call : Type 0 where
  pub from : Text
  pub kind : ToKind
  pub interrupt : Bool
  pub now : ℕ

-- The instants of the wakes that the budget granted: those of agents' direct and team messages.
unfoldable pub granted : List Call → Waker → List ℕ → Waker × List ℕ
granted [] w past = (w, past)
granted (c ∷ cs) w past =
    let (w', woken) = wake c.from c.kind c.interrupt c.now w in
    granted cs w'
      (if always_wakes c.from c.interrupt then past else if woken then past ++ c.now ∷ [] else past)

-- The clock does not run backwards.
abbrev pub Ordered : ℕ → List Call → Type 0
Ordered last [] = Unit
Ordered last (c ∷ cs) = (last ≤ c.now) × Ordered c.now cs

-- What holds of a waker and of the instants granted so far, at or after the instant `last`.
record Inv (last : ℕ) (w : Waker) (past : List ℕ) : Type 0 where
  before : All (λ t. t ≤ last) past
  few : length w.recent ≤ w.budget
  same : (at : ℕ) → last ≤ at → within w.window at past ≡ within w.window at w.recent
  rate : (at : ℕ) → length (in_window w.window at past) ≤ w.budget

-- The rate at an instant that no kept wake precedes.
rate_of_same :
    (window budget at : ℕ) (past recent : List ℕ)
    → within window at past ≡ within window at recent
    → length recent ≤ budget
    → length (in_window window at past) ≤ budget
rate_of_same window budget at past recent same few = omega (
  arith,
  length-in_window-le window at past,
  ap (λ (ts : List ℕ). length ts) same,
  length-within-le window at recent,
)

kept-same :
    (last now : ℕ) (w : Waker) (past : List ℕ)
    → Inv last w past
    → last ≤ now
    → (at : ℕ) → now ≤ at
    → within w.window at past ≡ within w.window at (within w.window now w.recent)
kept-same last now w past v h at g =
    v.same at (omega arith) ∙ sym (within-within w.window now at w.recent g)

grant-same :
    (last now : ℕ) (w : Waker) (past : List ℕ)
    → Inv last w past
    → last ≤ now
    → (at : ℕ) → now ≤ at
    → within w.window at (past ++ now ∷ [])
      ≡ within w.window at (within w.window now w.recent ++ now ∷ [])
grant-same last now w past v h at g =
    within-append w.window at past (now ∷ [])
    ∙ ap (λ ts. ts ++ within w.window at (now ∷ [])) (kept-same last now w past v h at g)
    ∙ sym (within-append w.window at (within w.window now w.recent) (now ∷ []))

spend-Inv :
    (last now : ℕ) (w : Waker) (past : List ℕ)
    → Inv last w past
    → last ≤ now
    → Inv now (spend now w).0 (if (spend now w).1 then past ++ now ∷ [] else past)
unfolding spend
spend-Inv last now w past v h = elim (Bool-cases (leb w.budget (length kept))) [
  | inl spent ↦
      rw (spent, spend)
        (record {
          before = All-later last now past h v.before;
          few = omega (arith, length-within-le w.window now w.recent, v.few);
          same = kept-same last now w past v h;
          rate = v.rate;
        })
  | inr room ↦
      let below : length kept < w.budget = ground arith in
      let few : length (kept ++ now ∷ []) ≤ w.budget =
        omega (arith, length-append kept (now ∷ []), below) in
      rw (room, spend)
        (record {
          before = All-snoc now past (All-later last now past h v.before);
          few = few;
          same = grant-same last now w past v h;
          rate = λ at. elim (dec_lt at now) [
            | yes p ↦ rw (in_window-later w.window at now past p) (v.rate at)
            | no p ↦
                rate_of_same w.window w.budget at (past ++ now ∷ []) (kept ++ now ∷ [])
                  (grant-same last now w past v h at (omega arith)) few
          ];
        })
]
  where
    kept : List ℕ
    kept = within w.window now w.recent

later-Inv :
    (last now : ℕ) (w : Waker) (past : List ℕ) → Inv last w past → last ≤ now → Inv now w past
later-Inv last now w past v h = record {
  before = All-later last now past h v.before;
  few = v.few;
  same = λ at g. v.same at (omega arith);
  rate = v.rate;
}

abbrev after : Call → Waker → List ℕ → List ℕ
after c w past =
    if always_wakes c.from c.interrupt
    then past
    else if (wake c.from c.kind c.interrupt c.now w).1
    then past ++ c.now ∷ []
    else past

wake-Inv :
    (last : ℕ) (c : Call) (w : Waker) (past : List ℕ)
    → Inv last w past
    → last ≤ c.now
    → Inv c.now (wake c.from c.kind c.interrupt c.now w).0 (after c w past)
unfolding wake
wake-Inv last c w past v h = elim (Bool-cases (always_wakes c.from c.interrupt)) [
  | inl free ↦ rw (free, wake) (later-Inv last c.now w past v h)
  | inr paid ↦ elim (Bool-cases (is_direct c.kind)) [
    | inl direct ↦ rw (paid, direct, wake) (spend-Inv last c.now w past v h)
    | inr context ↦ rw (paid, context, wake) (later-Inv last c.now w past v h)
  ]
]

-- The instant of the last call.
abbrev pub clock : ℕ → List Call → ℕ
clock last [] = last
clock last (c ∷ cs) = clock c.now cs

granted-Inv :
    (last : ℕ) (cs : List Call) (w : Waker) (past : List ℕ)
    → Inv last w past
    → Ordered last cs
    → Inv (clock last cs) (granted cs w past).0 (granted cs w past).1
unfolding granted
granted-Inv last [] w past v o = v
granted-Inv last (c ∷ cs) w past v o =
    granted-Inv c.now cs (wake c.from c.kind c.interrupt c.now w).0 (after c w past)
      (wake-Inv last c w past v o.0) o.1

wake_limits :
    (c : Call) (w : Waker)
    → ((wake c.from c.kind c.interrupt c.now w).0.window ≡ w.window)
      × ((wake c.from c.kind c.interrupt c.now w).0.budget ≡ w.budget)
unfolding wake
wake_limits c w = ground arith

granted_limits :
    (cs : List Call) (w : Waker) (past : List ℕ)
    → ((granted cs w past).0.window ≡ w.window) × ((granted cs w past).0.budget ≡ w.budget)
unfolding granted
granted_limits [] w past = (refl, refl)
granted_limits (c ∷ cs) w past =
    let ih = granted_limits cs (wake c.from c.kind c.interrupt c.now w).0 (after c w past) in
    (ih.0 ∙ (wake_limits c w).0, ih.1 ∙ (wake_limits c w).1)

new_waker-Inv : Inv 0 new_waker []
unfolding new_waker in_window within select
new_waker-Inv = record {
  before = tt;
  few = omega arith;
  same = λ at h. refl;
  rate = λ at. omega arith;
}

-- The waker after a history, and the instants of the wakes that it has granted from the budget.
abbrev pub waker_of : List Call → Waker
waker_of cs = (granted cs new_waker []).0

abbrev pub wakes_of : List Call → List ℕ
wakes_of cs = (granted cs new_waker []).1

history-Inv : (cs : List Call) → Ordered 0 cs → Inv (clock 0 cs) (waker_of cs) (wakes_of cs)
history-Inv cs o = granted-Inv 0 cs new_waker [] new_waker-Inv o

limits_of : (cs : List Call) → ((waker_of cs).window ≡ 30_000_000_000) × ((waker_of cs).budget ≡ 6)
unfolding new_waker
limits_of cs = granted_limits cs new_waker []

-- After any calls whose clock does not run backwards, at most six wakes granted from the budget lie
-- in any window of 30 seconds.
pub wake_rate :
    (cs : List Call) (at : ℕ)
    → Ordered 0 cs
    → length (in_window 30_000_000_000 at (wakes_of cs)) ≤ 6
wake_rate cs at o =
    rw (← (limits_of cs).0) (omega (arith, (history-Inv cs o).rate at, (limits_of cs).1))

spend-exact :
    (last now : ℕ) (w : Waker) (past : List ℕ)
    → Inv last w past
    → last ≤ now
    → (spend now w).1 ≡ ltb (length (in_window w.window now past)) w.budget
unfolding spend
spend-exact last now w past v h =
    rw (in_window-within w.window now past (All-later last now past h v.before), v.same now h)
      (ground arith)

-- After any calls whose clock does not run backwards, an interrupt and any message of the human or
-- the facilitator wakes its recipient, and any other message wakes it exactly when it is addressed
-- to an agent or to the team and fewer than six wakes were granted from the budget in the 30 seconds
-- up to now.
pub wake-eq-limiter :
    (cs : List Call) (c : Call)
    → Ordered 0 cs
    → clock 0 cs ≤ c.now
    → (wake c.from c.kind c.interrupt c.now (waker_of cs)).1 ≡ (
        if always_wakes c.from c.interrupt
        then true
        else is_direct c.kind && ltb (length (in_window 30_000_000_000 c.now (wakes_of cs))) 6)
unfolding wake
wake-eq-limiter cs c o h =
    rw (← (limits_of cs).0, ← (limits_of cs).1)
      (ground
        (arith, spend-exact (clock 0 cs) c.now (waker_of cs) (wakes_of cs) (history-Inv cs o) h))
