-- ===== src/Supervisor/Sessions.antt =====
-- No session of internal/supervisor/supervisor.go is left behind.
use avairy.Prelude.{
  ℕ, ◌≡◌, refl, ap, ◌∙◌, inl, inr, ◌⊎◌, Bool, true, false, List, [], ◌∷◌, ◌++◌, Text, Option, none,
  some, Option-cases, Bool-cases, arith, ltb, ◌&&◌, not, select, ◌==◌, if◌then◌else◌,
}
use avairy.Prelude.Map.{Map}
use avairy.Agent.{Delivery}
use avairy.Bus.Message.{Message, annotate_delivery}
use avairy.Bus.Waker.{wake}
use avairy.Supervisor.Loop.{
  EventType, reconfigured, journals, Effect, Env, Supervisor, Input, starts, turn_dones, ticks,
  dies, stops, reconfigs, messages, events, spawns, closes, ended, new_supervisor, start_session,
  wake_up, sleep, respawn, maybe_respawn, defer_reconfig, apply_reconfig, with_config, idle_elapsed,
  on_tick, on_dead, start_turn, deliver_text, on_interrupt, on_message, on_event, on_turn_done,
  on_stop, handle, step, run,
}

-- The live sessions, after the effects.
account : Effect → List ℕ → List ℕ
account (spawns n model effort) ns = n ∷ ns
account (closes n) ns = select (λ m. not (m == n)) ns
account (ended n) ns = select (λ m. not (m == n)) ns
account _ ns = ns

unfoldable pub live : List Effect → List ℕ → List ℕ
unfolding account
live [] ns = ns
live (e ∷ es) ns = live es (account e ns)

live-append : (xs ys : List Effect) (ns : List ℕ) → live (xs ++ ys) ns ≡ live ys (live xs ns)
unfolding live
live-append [] ys ns = refl
live-append (x ∷ xs) ys ns = live-append xs ys (account x ns)

-- The session that the supervisor holds.
unfoldable pub current : Option ℕ → List ℕ
current none = []
current (some n) = n ∷ []

-- The stream of the session is watched, and the effects lead from the session before to it.
record Good (before : Option ℕ) (r : Supervisor × List Effect) : Type 0 where
  watched : (r.0.sess ≡ none) ⊎ (r.0.dead ≡ r.0.sess)
  settled : live r.1 (current before) ≡ current r.0.sess

abbrev Watched : Supervisor → Type 0
Watched s = (s.sess ≡ none) ⊎ (s.dead ≡ s.sess)

Good-then :
    (before : Option ℕ) (s1 s2 : Supervisor) (es1 es2 : List Effect)
    → Good before (s1, es1)
    → Good s1.sess (s2, es2)
    → Good before (s2, es1 ++ es2)
Good-then before s1 s2 es1 es2 g h = record {
  watched = h.watched;
  settled = live-append es1 es2 (current before) ∙ ap (live es2) g.settled ∙ h.settled;
}

Good-quiet : (s : Supervisor) → Watched s → Good s.sess (s, [])
unfolding live
Good-quiet s v = record { watched = v; settled = refl }

Good-if :
    (before : Option ℕ) (b : Bool) (r t : Supervisor × List Effect)
    → Good before r
    → Good before t
    → Good before (if b then r else t)
Good-if before true r t g h = g
Good-if before false r t g h = h

Good-elim :
    (before o : Option ℕ) (r : Supervisor × List Effect) (f : ℕ → Supervisor × List Effect)
    → Good before r
    → ((n : ℕ) → Good before (f n))
    → Good before (elim o [ none ↦ r | some n ↦ f n ])
Good-elim before none r f g h = g
Good-elim before (some n) r f g h = h n

close_one : (n : ℕ) → select (λ m. not (m == n)) (n ∷ []) ≡ []
unfolding select
close_one n = ground arith

wake_up-Good : (b : Bool) (env : Env) (s : Supervisor) → Watched s → Good s.sess (wake_up b env s)
unfolding wake_up start_session live account current
wake_up-Good b env s v = record { watched = ground arith; settled = ground arith }

sleep-Good : (s : Supervisor) → Watched s → Good s.sess (sleep s)
unfolding sleep live account current
sleep-Good s v = elim (Option-cases s.sess) [
  | inl e ↦ record { watched = ground arith; settled = ground arith }
  | inr (n, e) ↦ record { watched = ground arith; settled = ground (arith, close_one n) }
]

on_dead-Good : (s : Supervisor) → Watched s → Good s.sess (on_dead s)
unfolding on_dead live account current select
on_dead-Good s v = record { watched = ground arith; settled = ground arith }

on_stop-Good : (s : Supervisor) → Watched s → Good s.sess (on_stop s)
unfolding on_stop live account current select
on_stop-Good s v = record { watched = ground arith; settled = ground arith }

deliver_text-quiet :
    (env : Env) (n : ℕ) (text : Text) (d : Delivery) (ns : List ℕ)
    → live (deliver_text env n text d) ns ≡ ns
unfolding deliver_text live account
deliver_text-quiet env n text d ns = ground arith

start_turn-Good :
    (env : Env) (m : Message) (s : Supervisor) → Watched s → Good s.sess (start_turn env m s)
unfolding start_turn live account current
start_turn-Good env m s v = elim (Option-cases s.sess) [
  | inl e ↦ record { watched = ground arith; settled = ground arith }
  | inr (n, e) ↦ record {
    watched = ground arith;
    settled = ground (
      arith,
      deliver_text-quiet env n (annotate_delivery m.id m.to.kind m.body) m.delivery (n ∷ []),
    );
  }
]

respawn-Good : (env : Env) (s : Supervisor) → Good s.sess (respawn env s)
unfolding respawn live account current wake_up start_session select
respawn-Good env s = record { watched = ground arith; settled = ground arith }

maybe_respawn-Good : (env : Env) (s : Supervisor) → Watched s → Good s.sess (maybe_respawn env s)
unfolding maybe_respawn
maybe_respawn-Good env s v = Good-if s.sess (not s.pending_reconfig) _ _ (Good-quiet s v) (
    Good-elim s.sess s.sess _ _ (Good-quiet (record s { pending_reconfig = false }) v)
      (λ n. Good-if s.sess s.working _ _ (Good-quiet s v) (respawn-Good env s)))

-- What stands in front of the effects and touches no session changes nothing.
Good-journal :
    (before : Option ℕ) (s : Supervisor) (d : Map Text) (es : List Effect)
    → Good before (s, es)
    → Good before (s, journals d ∷ es)
unfolding live account
Good-journal before s d es g = record { watched = g.watched; settled = g.settled }

on_tick-Good : (now : ℕ) (s : Supervisor) → Watched s → Good s.sess (on_tick now s)
unfolding on_tick
on_tick-Good now s v = elim (Bool-cases (ltb 0 s.idle && idle_elapsed now s)) [
  | inl over ↦ rw (on_tick, over) (sleep-Good s v)
  | inr quiet ↦ rw (on_tick, quiet) (Good-quiet s v)
]

on_event-Good :
    (now : ℕ) (t : EventType) (s : Supervisor) → Watched s → Good s.sess (on_event now t s)
unfolding on_event live account
on_event-Good now t s v = record { watched = v; settled = refl }

on_turn_done-Good : (env : Env) (s : Supervisor) → Watched s → Good s.sess (on_turn_done env s)
unfolding on_turn_done
on_turn_done-Good env s v =
    Good-if s.sess s.turn_ended _ _ (maybe_respawn-Good env (record s { turn_ended = false }) v)
      (Good-quiet s v)

defer_reconfig-Good : (env : Env) (s : Supervisor) → Watched s → Good s.sess (defer_reconfig env s)
unfolding defer_reconfig reconfigured
defer_reconfig-Good env s v =
    Good-journal s.sess _ _ _ (maybe_respawn-Good env (record s { pending_reconfig = true }) v)

apply_reconfig-Good :
    (env : Env) (model effort : Text) (s : Supervisor)
    → Watched s
    → Good s.sess (apply_reconfig env model effort s)
unfolding apply_reconfig live account reconfigured
apply_reconfig-Good env model effort s v =
    Good-elim s.sess s.sess _ _ (defer_reconfig-Good env (with_config model effort s) v) (λ n.
      Good-if s.sess env.reconfigure_ok _ _ (record { watched = v; settled = refl })
        (defer_reconfig-Good env (with_config model effort s) v))

on_interrupt-Good : (env : Env) (s : Supervisor) → Watched s → Good s.sess (on_interrupt env s)
unfolding on_interrupt live account current sleep
on_interrupt-Good env s v = elim (Option-cases s.sess) [
  | inl e ↦ record { watched = ground arith; settled = ground arith }
  | inr (n, e) ↦ record { watched = ground arith; settled = ground (arith, close_one n) }
]

on_message-Good :
    (env : Env) (m : Message) (s : Supervisor) → Watched s → Good s.sess (on_message env m s)
unfolding on_message
on_message-Good env m s v =
    let woken = (wake m.from m.to.kind false env.now s.waker).1 in
    let s0 : Supervisor = record s { waker = (wake m.from m.to.kind false env.now s.waker).0 } in
    let up = wake_up-Good true env s0 v in
    elim (Bool-cases m.interrupt) [
      | inl stop ↦ rw (on_message, stop) (on_interrupt-Good env s v)
      | inr text ↦ elim (Bool-cases m.no_wake) [
        | inl quiet ↦ rw (on_message, text, quiet) (Good-quiet s v)
        | inr loud ↦ elim (Bool-cases woken) [
          | inr context ↦ rw (on_message, text, loud, context) (Good-quiet s0 v)
          | inl turn ↦
              rw (on_message, text, loud, turn)
                (Good-then s.sess _ _ _ _ up
                  (start_turn-Good env m (wake_up true env s0).0 up.watched))
        ]
      ]
    ]

handle-Good : (i : Input) (s : Supervisor) → Watched s → Good s.sess (handle i s)
unfolding handle
handle-Good (starts env) s v = wake_up-Good false env s v
handle-Good (turn_dones env) s v = on_turn_done-Good env s v
handle-Good (ticks now) s v = on_tick-Good now s v
handle-Good dies s v = on_dead-Good s v
handle-Good stops s v = on_stop-Good s v
handle-Good (reconfigs env model effort) s v = apply_reconfig-Good env model effort s v
handle-Good (messages env m) s v = on_message-Good env m s v
handle-Good (events now t) s v = on_event-Good now t s v

step-Good : (i : Input) (s : Supervisor) → Watched s → Good s.sess (step i s)
unfolding step
step-Good i s v = Good-if s.sess s.stopped _ _ (Good-quiet s v) (handle-Good i s v)

run-Good : (is : List Input) (s : Supervisor) → Watched s → Good s.sess (run is s)
unfolding run
run-Good [] s v = Good-quiet s v
run-Good (i ∷ is) s v =
    let g = step-Good i s v in Good-then s.sess _ _ _ _ g (run-Good is (step i s).0 g.watched)

-- Whatever happens to an agent, in every run the sessions that were spawned and neither closed nor
-- ended are exactly the one that the supervisor holds, if it holds one: there is never a second one,
-- and none is left behind.
pub live-run :
    (is : List Input) (idle : ℕ) (model effort : Text)
    → let (s, es) = run is (new_supervisor idle model effort) in live es [] ≡ current s.sess
unfolding new_supervisor current
live-run is idle model effort = (run-Good is (new_supervisor idle model effort) (inl refl)).settled
