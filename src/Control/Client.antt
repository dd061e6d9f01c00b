-- ===== src/Control/Client.antt =====
-- Node of internal/control/node.go, the client of core: its state, its commands, its enrolment and what
-- it posts. What core answers is an argument: none where the call fails, which the code reports as an
-- error.
pub mod Sync
pub mod Reconcile
pub mod Posts
pub mod Holds
pub mod Recovery
use avairy.Prelude.{
  ℕ, Bool, true, false, ◌&&◌, ◌||◌, not, List, [], ◌∷◌, ◌++◌, Text, codes, eq_text, lt_text, Option,
  none, some, if◌then◌else◌, map,
}
use avairy.Prelude.Map
use avairy.Prelude.Map.{Map}
use avairy.Workspace.Ignore.{Ignore, default_ignore}
use avairy.Workspace.Disk.{Stamps}
use avairy.Control.Core.{ConsultCommand, ReconfigureCommand}
use avairy.Control.Core.Enroll.{EnrollRequest}
use avairy.Control.Core.Sync.{SyncResult, HeartbeatResponse}

pub record Node : Type 0 where
  pub id : Text
  pub reenroll_on_expiry : Bool
  pub session : Text
  pub enroll_os : Text
  pub enroll_token : Text
  pub enroll_caps : Map Text
  pub base : Map ℕ
  pub stamps : Stamps
  pub conflicts : Map Bool
  pub first_sync : Bool
  pub held : List SyncResult
  pub startup_held : Map Bool
  pub directive : Text
  pub unlock : List Text
  pub consults : List ConsultCommand
  pub reconfigs : List ReconfigureCommand

-- NewNode
unfoldable pub new_node : Text → Node
new_node id = record {
  id = id;
  reenroll_on_expiry = false;
  session = [];
  enroll_os = [];
  enroll_token = [];
  enroll_caps = [];
  base = [];
  stamps = [];
  conflicts = [];
  first_sync = true;
  held = [];
  startup_held = [];
  directive = [];
  unlock = [];
  consults = [];
  reconfigs = [];
}

-- The credentials that Enroll remembers
unfoldable pub remember_credentials : Text → Text → Map Text → Node → Node
remember_credentials token os caps n = record n {
  enroll_token = token;
  enroll_os = os;
  enroll_caps = caps;
}

-- Node.enroll: the request that it posts
unfoldable pub enroll_request : Node → EnrollRequest
enroll_request n = record {
  token = n.enroll_token;
  node_id = n.id;
  os = n.enroll_os;
  caps = n.enroll_caps;
}

-- Node.enroll, for the session token that core answers: the node, and whether there was no error
unfoldable pub enroll_again : (EnrollRequest → Option Text) → Node → Node × Bool
unfolding enroll_request
enroll_again core n = elim (core (enroll_request n)) [
  | none ↦ (n, false)
  | some [] ↦ (n, false)
  | some (b ∷ bs) ↦ (record n { session = b ∷ bs }, true)
]

-- Node.Enroll
unfoldable pub enroll_node :
    (EnrollRequest → Option Text) → Text → Text → Map Text → Node → Node × Bool
unfolding enroll_again remember_credentials
enroll_node core token os caps n = enroll_again core (remember_credentials token os caps n)

-- Node.Heartbeat, for core's answer
unfoldable pub take_response : HeartbeatResponse → Node → Node
take_response r n = record n {
  directive = if eq_text r.directive [] then n.directive else r.directive;
  unlock = n.unlock ++ r.unlock;
  consults = n.consults ++ r.consults;
  reconfigs = n.reconfigs ++ r.reconfigures;
}

unfoldable pub heartbeat : Option HeartbeatResponse → Node → Node × Bool
unfolding take_response
heartbeat none n = (n, false)
heartbeat (some r) n = (take_response r n, true)

-- Node.TakeConsults
unfoldable pub take_consults : Node → Node × List ConsultCommand
take_consults n = (record n { consults = [] }, n.consults)

-- Node.TakeReconfigures
unfoldable pub take_reconfigures : Node → Node × List ReconfigureCommand
take_reconfigures n = (record n { reconfigs = [] }, n.reconfigs)

-- Node.TakeUnlocks
unfoldable pub take_unlocks : Node → Node × List Text
take_unlocks n = (record n { unlock = [] }, n.unlock)

-- Node.TakeDirective
unfoldable pub take_directive : Node → Node × Text
take_directive n = (record n { directive = [] }, n.directive)

insert_text : Text → List Text → List Text
insert_text t [] = t ∷ []
insert_text t (u ∷ us) =
    let rest = insert_text t us in if lt_text u t then u ∷ rest else t ∷ (u ∷ us)

-- sort.Strings
unfoldable pub sort_texts : List Text → List Text
unfolding insert_text
sort_texts [] = []
sort_texts (t ∷ ts) = insert_text t (sort_texts ts)

put_all : Map Bool → Map Bool → Map Bool
put_all [] set = set
put_all ((p, b) ∷ m) set = put_all m (Map.insert p true set)

-- Node.ConflictPaths
unfoldable pub conflict_paths : Node → List Text
unfolding sort_texts put_all
conflict_paths n = sort_texts (map (λ p. p.0) (put_all n.startup_held (put_all n.conflicts [])))
