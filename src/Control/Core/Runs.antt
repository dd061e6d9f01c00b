-- ===== src/Control/Core/Runs.antt =====
-- Runs of the core of internal/control/core.go: the requests that reach it, in the order in which they
-- take its lock, its own sweeps, and what other components write to the hub that it shares.
use avairy.Prelude.{ℕ, List, [], ◌∷◌, Text, Option}
use avairy.Workspace.Versions.{Op}
use avairy.Workspace.Versions
use avairy.Control.Core.{
  Core, ConsultCommand, ReconfigureCommand, Body, Reply, sends, auth, touch, queue_consult,
  queue_reconfigure, resolve_node_conflict, set_node_directive, current_token, new_pending_token,
}
use avairy.Control.Core.Enroll.{EnrollRequest, Fresh, handle_enroll}
use avairy.Control.Core.Sync.{
  PushRequest, SyncEvent, SyncResult, HeartbeatResponse, handle_push, handle_heartbeat,
}
use avairy.Control.Core.Liveness.{sweep_liveness}

-- The requests carry their Authorization header. `contacts` is one that only touches the node: a pull,
-- a manifest, an inbox, a batch of events, an approval, a bundle.
pub data Input : Type 0 where
  enrolls : ℕ → Text → Body EnrollRequest → Fresh → Input
  shows_token : Text → Input
  rotates_token : Text → Input
  beats : ℕ → Text → Option (List Text) → Input
  pushes_files : ℕ → Text → Body PushRequest → Input
  contacts : ℕ → Text → Input
  queues_consult : Text → ConsultCommand → Input
  queues_reconfigure : Text → ReconfigureCommand → Input
  resolves_conflict : Text → Text → Input
  directs : Text → Text → Input
  sweeps : ℕ → Input
  shared : Op → Input

unfoldable pub contact : ℕ → Text → Core → (Core × List SyncEvent) × Reply ℕ
contact now node c = ((touch now node c, []), sends 0)

unfoldable pub beat :
    ℕ → Text → Option (List Text) → Core → (Core × List SyncEvent) × Reply HeartbeatResponse
unfolding auth
beat now header conflicts c = auth header (handle_heartbeat now conflicts) c

unfoldable pub push_files :
    ℕ → Text → Body PushRequest → Core → (Core × List SyncEvent) × Reply (List SyncResult)
unfolding auth
push_files now header body c = auth header (handle_push now body) c

unfoldable pub step : Input → Core → Core
unfolding contact auth beat push_files
step (enrolls now cert_id body fresh) c = (handle_enroll now cert_id body fresh c).0.0
step (shows_token fresh) c = (current_token fresh c).0
step (rotates_token fresh) c = (new_pending_token fresh c).0
step (beats now header conflicts) c = (beat now header conflicts c).0.0
step (pushes_files now header body) c = (push_files now header body c).0.0
step (contacts now header) c = (auth header (contact now) c).0.0
step (queues_consult node cmd) c = queue_consult node cmd c
step (queues_reconfigure node cmd) c = queue_reconfigure node cmd c
step (resolves_conflict node path) c = resolve_node_conflict node path c
step (directs node decision) c = set_node_directive node decision c
step (sweeps now) c = (sweep_liveness now c).0
step (shared op) c = record c { hub = Versions.step op c.hub }

unfoldable pub run : List Input → Core → Core
unfolding step
run [] c = c
run (i ∷ is) c = run is (step i c)
