-- ===== src/Control/Core.antt =====
-- Core of internal/control/core.go, and the messages of wire.go that it answers: the state, the tokens,
-- the sessions and the commands that wait for a node's heartbeat. `now` is the time.Now() of a call,
-- a fresh token what randToken returns in it. The callbacks and the journal are events; one of a
-- callback that is nil is dropped, but for the two that the code tests for (routes_conflicts,
-- routes_node_conflicts). The approvals, which Core only calls, are Control.Approvals.
pub mod Enroll
pub mod Sync
pub mod Liveness
pub mod Relay
pub mod Runs
pub mod Admission
pub mod Frame
pub mod Tokens
pub mod Heartbeats
pub mod Sweeps
pub mod Forgotten
pub mod Pushes
pub mod Routing
use avairy.Prelude.{
  ℕ, ◌*◌, ◌^◌, Bool, true, false, List, [], ◌∷◌, ◌++◌, Text, eq_text, Option, none, some,
  if◌then◌else◌, trim_prefix, codes,
}
use avairy.Prelude.Map
use avairy.Prelude.Map.{Map}
use avairy.Workspace.Hub.{Hub}

pub record NodeInfo : Type 0 where
  pub id : Text
  pub os : Text
  pub caps : Map Text
  pub last_seen : ℕ
  pub live : Bool
  pub ephemeral : Bool

pub record ConsultCommand : Type 0 where
  pub id : Text
  pub action : Text
  pub family : Text

pub record ReconfigureCommand : Type 0 where
  pub agent_id : Text
  pub model : Text
  pub effort : Text

pub record Core : Type 0 where
  pub hub : Hub
  pub liveness_timeout : ℕ
  pub require_client_cert : Bool
  pub routes_conflicts : Bool
  pub routes_node_conflicts : Bool
  pub conflicts : Map ℕ
  pub pending : Text
  pub bound : Map Text
  pub sessions : Map Text
  pub nodes : Map NodeInfo
  pub directives : Map Text
  pub startup : Map Bool
  pub n_conflicts : Map (List Text)
  pub unlocks : Map (List Text)
  pub consults : Map (List ConsultCommand)
  pub reconfigs : Map (List ReconfigureCommand)

-- NewCore
unfoldable pub new_core : Hub → Core
new_core hub = record {
  hub = hub;
  liveness_timeout = 15 * 10 ^ 9;
  require_client_cert = false;
  routes_conflicts = false;
  routes_node_conflicts = false;
  conflicts = [];
  pending = [];
  bound = [];
  sessions = [];
  nodes = [];
  directives = [];
  startup = [];
  n_conflicts = [];
  unlocks = [];
  consults = [];
  reconfigs = [];
}

-- What decoding the body of a request gives.
pub data Body (A : Type 0) : Type 0 where
  decoded : A → Body A
  malformed : Text → Body A

pub data Reply (A : Type 0) : Type 0 where
  sends : A → Reply A
  http_error : ℕ → Text → Reply A

-- m[k] = append(m[k], v)
unfoldable pub enqueue {ℓ} : {V : Type ℓ} → Text → V → Map (List V) → Map (List V)
enqueue k v m = Map.insert k (Map.lookup_or [] k m ++ (v ∷ [])) m

-- Core.QueueReconfigure
unfoldable pub queue_reconfigure : Text → ReconfigureCommand → Core → Core
unfolding enqueue
queue_reconfigure node cmd c = record c { reconfigs = enqueue node cmd c.reconfigs }

-- Core.QueueConsult
unfoldable pub queue_consult : Text → ConsultCommand → Core → Core
unfolding enqueue
queue_consult node cmd c = record c { consults = enqueue node cmd c.consults }

-- Core.NodeOnline
unfoldable pub node_online : Text → Core → Bool
node_online node c = elim (Map.lookup node c.nodes) [ none ↦ false | some n ↦ n.live ]

-- Core.NodeConflicts
unfoldable pub node_conflicts : Text → Core → List Text
node_conflicts node c = Map.lookup_or [] node c.n_conflicts

-- Core.ResolveNodeConflict
unfoldable pub resolve_node_conflict : Text → Text → Core → Core
unfolding enqueue
resolve_node_conflict node path c = elim (Map.lookup node c.nodes) [
  | none ↦ c
  | some n ↦ record c { unlocks = enqueue node path c.unlocks }
]

-- Core.SetNodeDirective
unfoldable pub set_node_directive : Text → Text → Core → Core
set_node_directive node decision c = record c {
  directives = Map.insert node decision c.directives;
  startup = Map.erase node c.startup;
}

-- Core.CurrentToken
unfoldable pub current_token : Text → Core → Core × Text
current_token fresh c =
    let token : Text = if eq_text c.pending [] then fresh else c.pending in
    (record c { pending = token }, token)

-- Core.NewPendingToken
unfoldable pub new_pending_token : Text → Core → Core × Text
new_pending_token fresh c = (record c { pending = fresh }, fresh)

-- Core.Nodes
unfoldable pub list_nodes : Core → List NodeInfo
list_nodes c = Map.values c.nodes

-- Core.touch
unfoldable pub touch : ℕ → Text → Core → Core
touch now node c = elim (Map.lookup node c.nodes) [
  | none ↦ c
  | some n ↦ record c { nodes = Map.insert node (record n { last_seen = now }) c.nodes }
]

-- bearer, for the Authorization header
unfoldable pub bearer : Text → Text
bearer header = trim_prefix header (codes "Bearer ")

-- Core.auth: the handler for the session's node, or 401
unfoldable pub auth :
    {A : Type 0} {E : Type 0}
    → Text
    → (Text → Core → (Core × List E) × Reply A)
    → Core
    → (Core × List E) × Reply A
unfolding bearer
auth header handler c = elim (Map.lookup (bearer header) c.sessions) [
  | none ↦ ((c, []), http_error 401 (codes "unauthorized"))
  | some node ↦ handler node c
]
