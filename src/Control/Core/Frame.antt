-- ===== src/Control/Core/Frame.antt =====
-- What the steps of internal/control/core.go leave alone: the tokens, the sessions, and the commands
-- that wait for a node.
use avairy.Prelude.{
  ℕ, ◌≡◌, refl, ap, ◌∙◌, inl, inr, ◌⊎◌, Bool, List, [], ◌∷◌, Text, Option, none, some, Option-cases,
  arith, codes,
}
use avairy.Prelude.Map
use avairy.Prelude.Map.{
  Map, lookup-insert, lookup-insert_cases, lookup-insert_same, lookup-insert_other,
}
use avairy.Workspace.Hub.{Change, Conflict, PushResult, push}
use avairy.Control.Core.{
  Core, NodeInfo, Body, decoded, malformed, Reply, http_error, touch, auth, bearer, ConsultCommand,
  ReconfigureCommand,
}
use avairy.Control.Core.Sync.{
  PushRequest, push_changes, after_push, route_conflict, new_conflict, raise_startup_conflict,
  handle_push, handle_heartbeat, report_conflicts, take_commands,
}
use avairy.Control.Core.Liveness.{Sweep, sweep_entry, sweep_entries, sweep_liveness, forget}

-- The part of the core that a push, a contact or a sweep has no hand in.
pub record Outside : Type 0 where
  pub required : Bool
  pub pending : Text
  pub bound : Map Text
  pub sessions : Map Text
  pub unlocks : Map (List Text)
  pub consults : Map (List ConsultCommand)
  pub reconfigs : Map (List ReconfigureCommand)

abbrev pub outside : Core → Outside
outside c = record {
  required = c.require_client_cert;
  pending = c.pending;
  bound = c.bound;
  sessions = c.sessions;
  unlocks = c.unlocks;
  consults = c.consults;
  reconfigs = c.reconfigs;
}

pub outside-touch : (now : ℕ) (node : Text) (c : Core) → outside (touch now node c) ≡ outside c
unfolding touch
outside-touch now node c = elim (Option-cases (Map.lookup node c.nodes)) [
  | inl e ↦ rw (touch, e) refl
  | inr (n, e) ↦ rw (touch, e) refl
]

outside-new_conflict :
    (agent path : Text) (version : ℕ) (c : Core)
    → outside (new_conflict agent path version c).0 ≡ outside c
unfolding new_conflict
outside-new_conflict agent path version c = ground arith

outside-route_conflict :
    (node : Text) (first : Bool) (k : Conflict) (c : Core)
    → outside (route_conflict node first k c).0 ≡ outside c
unfolding route_conflict
outside-route_conflict node first k c =
    ground (arith, outside-new_conflict node k.path k.hub.version c)

outside-after_push :
    (node : Text) (first : Bool) (path : Text) (res : PushResult) (c : Core)
    → outside (after_push node first path res c).0.0 ≡ outside c
unfolding after_push
outside-after_push node first path res c = elim (Option-cases res.conflict) [
  | inl e ↦ rw (after_push, e) refl
  | inr (k, e) ↦ rw (after_push, e) (outside-route_conflict node first k c)
]

outside-push_changes :
    (now : ℕ) (node : Text) (first : Bool) (chs : List Change) (c : Core)
    → outside (push_changes now node first chs c).core ≡ outside c
unfolding push_changes
outside-push_changes now node first [] c = refl
outside-push_changes now node first (ch ∷ chs) c =
    let d : Core = record c { hub = (push now node ch c.hub).0 } in
    let res = (push now node ch c.hub).1 in
    outside-push_changes now node first chs (after_push node first ch.path res d).0.0
    ∙ outside-after_push node first ch.path res d

outside-raise_startup_conflict :
    (node : Text) (paths : List Text) (c : Core)
    → outside (raise_startup_conflict node paths c).0 ≡ outside c
unfolding raise_startup_conflict
outside-raise_startup_conflict node [] c = refl
outside-raise_startup_conflict node (p ∷ ps) c = ground arith

pub outside-handle_push :
    (now : ℕ) (body : Body PushRequest) (node : Text) (c : Core)
    → outside (handle_push now body node c).0.0 ≡ outside c
unfolding handle_push
outside-handle_push now (malformed m) node c = refl
outside-handle_push now (decoded req) node c =
    let t = touch now node c in
    let r = push_changes now node req.first_sync req.changes t in
    outside-raise_startup_conflict node r.startup r.core
    ∙ outside-push_changes now node req.first_sync req.changes t
    ∙ outside-touch now node c

pub outside-report_conflicts :
    (node : Text) (o : Option (List Text)) (c : Core)
    → outside (report_conflicts node o c) ≡ outside c
unfolding report_conflicts
outside-report_conflicts node none c = refl
outside-report_conflicts node (some ps) c = refl

-- A heartbeat takes the node's commands out.
abbrev pub emptied : Text → Outside → Outside
emptied node o = record o {
  unlocks = Map.erase node o.unlocks;
  consults = Map.erase node o.consults;
  reconfigs = Map.erase node o.reconfigs;
}

pub outside-handle_heartbeat :
    (now : ℕ) (o : Option (List Text)) (node : Text) (c : Core)
    → outside (handle_heartbeat now o node c).0.0 ≡ emptied node (outside c)
unfolding handle_heartbeat take_commands
outside-handle_heartbeat now o node c =
    ap (emptied node)
      (outside-report_conflicts node o (touch now node c) ∙ outside-touch now node c)

outside-sweep_entry :
    (now : ℕ) (id : Text) (n : NodeInfo) (s : Sweep)
    → outside (sweep_entry now id n s).core ≡ outside s.core
unfolding sweep_entry forget
outside-sweep_entry now id n s = ground arith

outside-sweep_entries :
    (now : ℕ) (ns : Map NodeInfo) (s : Sweep)
    → outside (sweep_entries now ns s).core ≡ outside s.core
unfolding sweep_entries
outside-sweep_entries now [] s = refl
outside-sweep_entries now ((id, n) ∷ ns) s =
    outside-sweep_entries now ns (sweep_entry now id n s) ∙ outside-sweep_entry now id n s

pub outside-sweep_liveness : (now : ℕ) (c : Core) → outside (sweep_liveness now c).0 ≡ outside c
unfolding sweep_liveness
outside-sweep_liveness now c =
    outside-sweep_entries now c.nodes (record { core = c; changes = []; forgotten = [] })

-- A request without a session is refused and leaves the core alone; one with a session is handled for
-- its node.
pub auth_cases :
    {A : Type 0} {E : Type 0} (header : Text) (handler : Text → Core → (Core × List E) × Reply A)
    (c : Core)
    → ((Map.lookup (bearer header) c.sessions ≡ none)
        × (auth header handler c ≡ ((c, []), http_error 401 (codes "unauthorized"))))
      ⊎ ((node : Text) × (Map.lookup (bearer header) c.sessions ≡ some node)
          × (auth header handler c ≡ handler node c))
unfolding auth
auth_cases header handler c = elim (Option-cases (Map.lookup (bearer header) c.sessions)) [
  | inl e ↦ inl (e, rw (auth, e) refl)
  | inr (node, e) ↦ inr (node, e, rw (auth, e) refl)
]
