-- ===== src/Runner/Agreement.antt =====
-- Where internal/supervisor/supervisor.go behaves like internal/runner/runner.go.
use avairy.Prelude.{ℕ, ◌≡◌, ◌≢◌, ◌⊎◌, false, [], ◌∷◌, Text, some, arith}
use avairy.Bus.Message.{ToKind, to_team, Message, annotate_delivery}
use avairy.Supervisor.Loop.{
  Env, Supervisor, journals_event, turn_start, on_message, wake_up, start_turn, deliver_text,
}
use avairy.Runner.{run_message, push_text}

annotate_delivery-other :
    (id body : Text) (k : ToKind) → k ≢ to_team → annotate_delivery id k body ≡ body
unfolding annotate_delivery
annotate_delivery-other id body k h = ground arith

-- On an awake agent, a message that is no interrupt, is not marked NoWake and is not to the team is
-- handled by supervisor and runner alike: the wakers stay the same, and either both do nothing, or
-- the supervisor journals the start of the turn and sends what the runner sends.
pub on_message-run_message :
    (env : Env) (m : Message) (s : Supervisor) (n : ℕ)
    → s.sess ≡ some n
    → m.interrupt ≡ false
    → m.no_wake ≡ false
    → m.to.kind ≢ to_team
    → let r = run_message env.now env.send_ok n m s.waker in
      let t = on_message env m s in
      (t.0.waker ≡ r.0) × (((t.1 ≡ []) × (r.1 ≡ [])) ⊎ (t.1 ≡ journals_event turn_start ∷ r.1))
unfolding on_message run_message wake_up start_turn deliver_text push_text
on_message-run_message env m s n awake text loud team =
    ground (arith, annotate_delivery-other m.id m.body m.to.kind team)
