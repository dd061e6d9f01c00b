-- ===== src/Supervisor/Turns.antt =====
-- Which messages start a turn, and when an agent goes to sleep: internal/supervisor/supervisor.go.
use avairy.Prelude.{
  ℕ, ◌≡◌, ◌⊎◌, refl, inl, inr, Bool, true, false, List, [], ◌∷◌, Option, none, some, Option-cases,
  Bool-cases, if◌then◌else◌, arith, All,
}
use avairy.Bus.Message.{Message}
use avairy.Bus.Waker.{wake}
use avairy.Supervisor.Loop.{
  Effect, Env, Supervisor, spawns, sends, interrupts, sleep, on_interrupt, on_message,
}

-- The effect neither sends a text to a session nor spawns one.
abbrev pub IsPassive : Effect → Type 0
IsPassive (sends n text d) = ⊥
IsPassive (spawns n model effort) = ⊥
IsPassive _ = Unit

-- The step neither sends nor spawns, and leaves the agent with its session or asleep.
abbrev pub StaysQuiet : Supervisor → Supervisor × List Effect → Type 0
StaysQuiet s r = All IsPassive r.1 × ((r.0.sess ≡ s.sess) ⊎ (r.0.sess ≡ none))

sleep-StaysQuiet : (n : ℕ) (s : Supervisor) → StaysQuiet s ((sleep s).0, interrupts n ∷ (sleep s).1)
unfolding sleep
sleep-StaysQuiet n s = elim (Option-cases s.sess) [
  | inl e ↦ (rw (sleep, e) (tt, tt), ground arith)
  | inr (k, e) ↦ (rw (sleep, e) (tt, (tt, (tt, tt))), ground arith)
]

quiet_if :
    (b : Bool) (n : ℕ) (s : Supervisor)
    → StaysQuiet s (if b then (s, interrupts n ∷ []) else ((sleep s).0, interrupts n ∷ (sleep s).1))
quiet_if true n s = ((tt, tt), inl refl)
quiet_if false n s = sleep-StaysQuiet n s

quiet_elim :
    (o : Option ℕ) (b : Bool) (s : Supervisor)
    → StaysQuiet s (elim o [
      | none ↦ (s, [])
      | some n ↦ if b then (s, interrupts n ∷ []) else ((sleep s).0, interrupts n ∷ (sleep s).1)
    ])
quiet_elim none b s = (tt, inl refl)
quiet_elim (some n) b s = quiet_if b n s

on_interrupt-StaysQuiet : (env : Env) (s : Supervisor) → StaysQuiet s (on_interrupt env s)
unfolding on_interrupt
on_interrupt-StaysQuiet env s = quiet_elim s.sess env.interrupt_ok s

-- A message that is an interrupt, is marked NoWake or does not pass the waker sends nothing to a
-- session and spawns none, and the agent keeps its session or falls asleep: a sleeping agent sleeps
-- on.
pub on_message-StaysQuiet :
    (env : Env) (m : Message) (s : Supervisor)
    → (m.interrupt ≡ true)
      ⊎ (m.no_wake ≡ true)
      ⊎ ((wake m.from m.to.kind false env.now s.waker).1 ≡ false)
    → StaysQuiet s (on_message env m s)
unfolding on_message
on_message-StaysQuiet env m s h = elim (Bool-cases m.interrupt) [
  | inl stop ↦ rw (on_message, stop) (on_interrupt-StaysQuiet env s)
  | inr text ↦ elim (Bool-cases m.no_wake) [
    | inl quiet ↦ rw (on_message, text, quiet) (tt, inl refl)
    | inr loud ↦
        let context : (wake m.from m.to.kind false env.now s.waker).1 ≡ false = ground arith in
        rw (on_message, text, loud, context) (tt, inl refl)
  ]
]
