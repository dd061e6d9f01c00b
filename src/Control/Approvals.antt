-- ===== src/Control/Approvals.antt =====
-- Approvals of internal/control/approvals.go. The calls of Ask run beside each other, so the state
-- holds the waiters that they block on: `waiters` is the heap of *waiter, by id, from register until
-- Ask returns, and `pending` the map of the same name. One step is a critical section together with
-- the callback or channel operation behind it. The id counter is an int and taken not to wrap.
use avairy.Prelude.{
  ℕ, ◌+◌, Bool, true, false, List, [], ◌∷◌, ◌++◌, Text, codes, eq_text, Option, none, some,
  if◌then◌else◌,
}
use avairy.Prelude.Map
use avairy.Prelude.Map.{Map}
use avairy.Prelude.Decimal.{format_uint}

abbrev pub decision_allow : Text
decision_allow = codes "allow"

abbrev pub decision_deny : Text
decision_deny = codes "deny"

abbrev pub decision_allow_for_session : Text
decision_allow_for_session = codes "allow_for_session"

-- type Approval
pub record Approval : Type 0 where
  pub id : Text
  pub agent_id : Text
  pub kind : Text
  pub summary : Text
  pub reason : Text
  pub diff : Text
  pub at : ℕ

-- type waiter: the request and what its channel of one place holds.
pub record Waiter : Type 0 where
  pub approval : Approval
  pub ch : Option Text

pub record Approvals : Type 0 where
  pub seq : ℕ
  pub pending : Map Approval
  pub session_allow : Map Bool
  pub waiters : Map Waiter

-- NewApprovals
unfoldable pub new_approvals : Approvals
new_approvals = record { seq = 0; pending = []; session_allow = []; waiters = [] }

-- sessionKey
unfoldable pub session_key : Text → Text → Text
session_key agent_id kind = agent_id ++ (0 ∷ kind)

-- fmt.Sprintf("ap%d", n)
unfoldable pub approval_id : ℕ → Text
approval_id n = b'a' ∷ (b'p' ∷ format_uint n)

-- What the outside sees: OnRequest, a ruling that Resolve delivers, and a verdict that Ask returns.
pub data Event : Type 0 where
  requested : Approval → Event
  ruled : Approval → Text → Event
  returned : Approval → Text → Event

enter : ℕ → Approval → Approvals → Approvals × List Event
enter now req s =
    let a : Approval = record req { id = approval_id (s.seq + 1); at = now } in
    (
      record s {
        seq = s.seq + 1;
        pending = Map.insert a.id a s.pending;
        waiters = Map.insert a.id (record { approval = a; ch = none }) s.waiters;
      },
      requested a ∷ [],
    )

-- Ask up to its select: register, or the answer from an earlier allow_for_session.
unfoldable pub ask : ℕ → Approval → Approvals → Approvals × List Event
unfolding enter session_key approval_id
ask now req s =
    if Map.lookup_or false (session_key req.agent_id req.kind) s.session_allow
    then (s, returned req decision_allow ∷ [])
    else enter now req s

-- The part of take and Resolve behind the lookup: the request leaves the map, a blanket grant is
-- recorded, and the decision goes into the waiter's channel.
unfoldable pub rule : Text → Text → Approval → Approvals → Approvals
unfolding session_key
rule id decision a s = record s {
  pending = Map.erase id s.pending;
  session_allow =
      if eq_text decision decision_allow_for_session
      then Map.insert (session_key a.agent_id a.kind) true s.session_allow
      else s.session_allow;
  waiters = Map.insert id (record { approval = a; ch = some decision }) s.waiters;
}

-- Resolve, with take; the Boolean is what it returns.
unfoldable pub resolve : Text → Text → Approvals → Approvals × List Event × Bool
unfolding rule
resolve id decision s = elim (Map.lookup id s.pending) [
  | none ↦ (s, [], false)
  | some a ↦ (rule id decision a s, ruled a decision ∷ [], true)
]

leave : Text → Approval → Text → Approvals → Approvals × List Event
leave id a decision s = (
  record s { pending = Map.erase id s.pending; waiters = Map.erase id s.waiters },
  returned a decision ∷ [],
)

-- Ask from its select on, through the case of the channel.
unfoldable pub answer : Text → Approvals → Approvals × List Event
unfolding leave
answer id s = elim (Map.lookup id s.waiters) [
  | none ↦ (s, [])
  | some w ↦ elim w.ch [ none ↦ (s, []) | some decision ↦ leave id w.approval decision s ]
]

-- Ask from its select on, through the case of the timer or of the context. Where several cases are
-- ready Go chooses one, so this step may come while the channel holds a decision.
unfoldable pub give_up : Text → Approvals → Approvals × List Event
unfolding leave
give_up id s = elim (Map.lookup id s.waiters) [
  | none ↦ (s, [])
  | some w ↦ leave id w.approval decision_deny s
]

pub data Op : Type 0 where
  asks : ℕ → Approval → Op
  resolves : Text → Text → Op
  answers gives_up : Text → Op

unfoldable pub step : Op → Approvals → Approvals × List Event
step (asks now req) s = ask now req s
step (resolves id decision) s = let (s', es, _) = resolve id decision s in (s', es)
step (answers id) s = answer id s
step (gives_up id) s = give_up id s

-- A run over any interleaving, with the events newest first.
unfoldable pub run : List Op → Approvals → List Event → Approvals × List Event
run [] s past = (s, past)
run (o ∷ os) s past = let (s', es) = step o s in run os s' (es ++ past)
