-- ===== src/Supervisor/Loop/Lifecycle.antt =====
-- The closures of Run in internal/supervisor/supervisor.go that start, stop and change a session.
use avairy.Prelude.{
  ℕ, ◌+◌, Bool, true, false, not, List, [], ◌∷◌, ◌++◌, Text, codes, eq_text, none, some,
  if◌then◌else◌,
}
use avairy.Supervisor.Loop.State.{
  Effect, spawns, closes, reconfigures, journals, Env, Supervisor, event,
}

-- The part of wakeUp behind a successful spawn.
unfoldable pub start_session : Bool → ℕ → Supervisor → Supervisor × List Effect
start_session was_asleep now s = (
  record s {
    sess = some s.next_sess;
    dead = some s.next_sess;
    next_sess = s.next_sess + 1;
    last_active = now;
    pending_reconfig = false;
  },
  spawns s.next_sess s.model s.effort
      ∷ (if was_asleep then journals (event (codes "agent_awake")) ∷ [] else []),
)

-- wakeUp; an agent that it leaves without a session is one for which it returns false.
unfoldable pub wake_up : Bool → Env → Supervisor → Supervisor × List Effect
unfolding start_session
wake_up was_asleep env s = elim s.sess [
  | some n ↦ (s, [])
  | none ↦ elim env.spawn_error [
    | none ↦ start_session was_asleep env.now s
    | some e ↦ (s, journals ((codes "event", codes "agent_error") ∷ (codes "error", e) ∷ []) ∷ [])
  ]
]

-- sleep
unfoldable pub sleep : Supervisor → Supervisor × List Effect
sleep s = elim s.sess [
  | none ↦ (s, [])
  | some n ↦ (
    record s { sess = none; working = false },
    closes n ∷ journals (event (codes "agent_sleeping")) ∷ [],
  )
]

-- respawn
unfoldable pub respawn : Env → Supervisor → Supervisor × List Effect
unfolding wake_up
respawn env s =
    let (s', es) = wake_up false env (record s { sess = none; dead = none; working = false }) in
    (s', (elim s.sess [ none ↦ [] | some n ↦ closes n ∷ [] ]) ++ es)

-- maybeRespawn
unfoldable pub maybe_respawn : Env → Supervisor → Supervisor × List Effect
unfolding respawn
maybe_respawn env s = if not s.pending_reconfig then (s, []) else elim s.sess [
  | none ↦ (record s { pending_reconfig = false }, [])
  | some n ↦ if s.working then (s, []) else respawn env s
]

abbrev or_old : Text → Text → Text
or_old new old = if eq_text new [] then old else new

unfoldable pub reconfigured : Supervisor → Text → Effect
reconfigured s applied = journals (
    (codes "event", codes "reconfigured")
    ∷ (codes "model", s.model)
    ∷ (codes "effort", s.effort)
    ∷ (codes "applied", applied)
    ∷ [])

-- The respawn that applyReconfig defers to an idle agent.
unfoldable pub defer_reconfig : Env → Supervisor → Supervisor × List Effect
unfolding maybe_respawn reconfigured
defer_reconfig env s =
    let (s', es) = maybe_respawn env (record s { pending_reconfig = true }) in
    (s', reconfigured s (codes "pending") ∷ es)

-- The desired model and effort.
abbrev pub with_config : Text → Text → Supervisor → Supervisor
with_config model effort s = record s {
  model = or_old model s.model;
  effort = or_old effort s.effort;
}

-- applyReconfig; a session that is no Reconfigurer is one whose Reconfigure fails.
unfoldable pub apply_reconfig : Env → Text → Text → Supervisor → Supervisor × List Effect
unfolding defer_reconfig reconfigured
apply_reconfig env model effort s =
    let s' = with_config model effort s in
    elim s.sess [
      | none ↦ defer_reconfig env s'
      | some n ↦
          if env.reconfigure_ok
          then (
            record s' { pending_reconfig = false },
            reconfigures n model effort ∷ reconfigured s' (codes "live") ∷ [],
          )
          else defer_reconfig env s'
    ]
