-- ===== src/Control/Core/Pushes.antt =====
-- The hub under internal/control/core.go: what the requests write to it, and which conflicts reach the
-- agent.
use avairy.Prelude.{
  ℕ, ◌+◌, ◌<◌, ◌^◌, ◌≡◌, refl, sym, ap, ◌∙◌, inl, inr, Bool, List, [], ◌∷◌, ◌++◌, Text, Option,
  none, some, Option-cases, arith, length,
}
use avairy.Prelude.Map
use avairy.Prelude.Map.{Map}
use avairy.Workspace.Hub.{Hub, FileState, Change, PushResult, push}
use avairy.Workspace.Versions.{
  run-append, Op, pushes, resolves, push-eq-compare_and_set, version_of, normal, known_file,
}
use avairy.Workspace.Versions
use avairy.Workspace.Updates.{IsBelow, Later, run-Later}
use avairy.Control.Core.{
  Core, NodeInfo, Body, decoded, malformed, Reply, bearer, auth, touch, queue_consult,
  queue_reconfigure, resolve_node_conflict, set_node_directive, current_token, new_pending_token,
}
use avairy.Control.Core.Enroll.{EnrollRequest, Fresh, handle_enroll, register, spend_token}
use avairy.Control.Core.Admission.{enroll_iff}
use avairy.Control.Core.Sync.{
  push_changes, after_push, route_conflict, new_conflict, raise_startup_conflict, PushRequest,
  handle_push, handle_heartbeat, report_conflicts, take_commands,
}
use avairy.Control.Core.Liveness.{Sweep, sweep_liveness, sweep_entry, sweep_entries, forget}
use avairy.Control.Core.Runs.{
  Input, enrolls, shows_token, rotates_token, beats, pushes_files, contacts, queues_consult,
  queues_reconfigure, resolves_conflict, directs, sweeps, shared, contact, push_files, step, run,
}
use avairy.Control.Core.Frame.{auth_cases}

push_ops : ℕ → Text → List Change → List Op
push_ops now node [] = []
push_ops now node (ch ∷ chs) = pushes now node ch ∷ push_ops now node chs

request_ops : ℕ → Body PushRequest → Option Text → List Op
request_ops now (decoded req) (some node) = push_ops now node req.changes
request_ops now _ _ = []

-- The writes to the hub that a step stands for: one push for each change of a request that can be read,
-- for the node of its session, and what the other components write.
unfoldable pub ops_of : Input → Core → List Op
unfolding request_ops push_ops
ops_of (pushes_files now header body) c =
    request_ops now body (Map.lookup (bearer header) c.sessions)
ops_of (shared op) c = op ∷ []
ops_of _ c = []

unfoldable pub hub_ops : List Input → Core → List Op
unfolding ops_of
hub_ops [] c = []
hub_ops (i ∷ is) c = ops_of i c ++ hub_ops is (step i c)

hub-touch : (now : ℕ) (node : Text) (c : Core) → (touch now node c).hub ≡ c.hub
unfolding touch
hub-touch now node c = ground arith

hub-after_push :
    (node : Text) (first : Bool) (path : Text) (res : PushResult) (c : Core)
    → (after_push node first path res c).0.0.hub ≡ c.hub
unfolding after_push route_conflict new_conflict
hub-after_push node first path res c = ground arith

hub-push_changes :
    (now : ℕ) (node : Text) (first : Bool) (chs : List Change) (c : Core)
    → (push_changes now node first chs c).core.hub ≡ Versions.run (push_ops now node chs) c.hub
unfolding push_changes push_ops Versions.run Versions.step
hub-push_changes now node first [] c = refl
hub-push_changes now node first (ch ∷ chs) c =
    let d : Core = record c { hub = (push now node ch c.hub).0 } in
    let res = (push now node ch c.hub).1 in
    hub-push_changes now node first chs (after_push node first ch.path res d).0.0
    ∙ ap (Versions.run (push_ops now node chs)) (hub-after_push node first ch.path res d)

hub-raise_startup_conflict :
    (node : Text) (paths : List Text) (c : Core)
    → (raise_startup_conflict node paths c).0.hub ≡ c.hub
unfolding raise_startup_conflict
hub-raise_startup_conflict node [] c = refl
hub-raise_startup_conflict node (p ∷ ps) c = ground arith

hub-handle_push :
    (now : ℕ) (body : Body PushRequest) (node : Text) (c : Core)
    → (handle_push now body node c).0.0.hub ≡ Versions.run (request_ops now body (some node)) c.hub
unfolding handle_push request_ops Versions.run
hub-handle_push now (malformed m) node c = refl
hub-handle_push now (decoded req) node c =
    let t = touch now node c in
    let r = push_changes now node req.first_sync req.changes t in
    hub-raise_startup_conflict node r.startup r.core
    ∙ hub-push_changes now node req.first_sync req.changes t
    ∙ ap (Versions.run (push_ops now node req.changes)) (hub-touch now node c)

hub-handle_heartbeat :
    (now : ℕ) (o : Option (List Text)) (node : Text) (c : Core)
    → (handle_heartbeat now o node c).0.0.hub ≡ c.hub
unfolding handle_heartbeat report_conflicts take_commands
hub-handle_heartbeat now none node c = hub-touch now node c
hub-handle_heartbeat now (some ps) node c = hub-touch now node c

hub-enroll :
    (now : ℕ) (cert_id : Text) (body : Body EnrollRequest) (fresh : Fresh) (c : Core)
    → (handle_enroll now cert_id body fresh c).0.0.hub ≡ c.hub
unfolding handle_enroll
hub-enroll now cert_id (malformed m) fresh c = refl
hub-enroll now cert_id (decoded req) fresh c = elim (enroll_iff now cert_id req fresh c) [
  | inl (_, event, e) ↦ ap (λ r. r.0.0.hub) e ∙ (unfold register spend_token in ground arith)
  | inr (_, message, e) ↦ ap (λ r. r.0.0.hub) e
]

hub-sweep_entries :
    (now : ℕ) (ns : Map NodeInfo) (s : Sweep) → (sweep_entries now ns s).core.hub ≡ s.core.hub
unfolding sweep_entries sweep_entry forget
hub-sweep_entries now [] s = refl
hub-sweep_entries now ((id, n) ∷ ns) s =
    hub-sweep_entries now ns (sweep_entry now id n s) ∙ ground arith

hub-sweep : (now : ℕ) (c : Core) → (sweep_liveness now c).0.hub ≡ c.hub
unfolding sweep_liveness
hub-sweep now c = hub-sweep_entries now c.nodes (record { core = c; changes = []; forgotten = [] })

hub-auth :
    {A : Type 0} {E : Type 0} (header : Text) (handler : Text → Core → (Core × List E) × Reply A)
    (c : Core)
    → ((m : Text) → (handler m c).0.0.hub ≡ c.hub)
    → (auth header handler c).0.0.hub ≡ c.hub
hub-auth header handler c h = elim (auth_cases header handler c) [
  | inl (_, e) ↦ ap (λ r. r.0.0.hub) e
  | inr (m, _, e) ↦ ap (λ r. r.0.0.hub) e ∙ h m
]

no_ops :
    (now : ℕ) (body : Body PushRequest) (h : Hub) → Versions.run (request_ops now body none) h ≡ h
unfolding request_ops Versions.run
no_ops now (decoded req) h = refl
no_ops now (malformed m) h = refl

hub-resolve_node_conflict :
    (m path : Text) (c : Core) → (resolve_node_conflict m path c).hub ≡ c.hub
unfolding resolve_node_conflict
hub-resolve_node_conflict m path c = elim (Option-cases (Map.lookup m c.nodes)) [
  | inl e ↦ rw (resolve_node_conflict, e) refl
  | inr (k, e) ↦ rw (resolve_node_conflict, e) refl
]

hub-push_files :
    (now : ℕ) (header : Text) (body : Body PushRequest) (c : Core)
    → (push_files now header body c).0.0.hub
      ≡ Versions.run (request_ops now body (Map.lookup (bearer header) c.sessions)) c.hub
unfolding push_files
hub-push_files now header body c = elim (auth_cases header (handle_push now body) c) [
  | inl (at, e) ↦
      ap (λ r. r.0.0.hub) e
      ∙ sym (ap (λ o. Versions.run (request_ops now body o) c.hub) at ∙ no_ops now body c.hub)
  | inr (node, at, e) ↦
      ap (λ r. r.0.0.hub) e
      ∙ hub-handle_push now body node c
      ∙ ap (λ o. Versions.run (request_ops now body o) c.hub) (sym at)
]

hub-step : (i : Input) (c : Core) → (step i c).hub ≡ Versions.run (ops_of i c) c.hub
unfolding step ops_of Versions.run request_ops push_files current_token new_pending_token
    queue_consult queue_reconfigure set_node_directive contact
hub-step (enrolls now cert_id body fresh) c = hub-enroll now cert_id body fresh c
hub-step (shows_token fresh) c = refl
hub-step (rotates_token fresh) c = refl
hub-step (beats now header o) c =
    hub-auth header (handle_heartbeat now o) c (λ m. hub-handle_heartbeat now o m c)
hub-step (pushes_files now header body) c = hub-push_files now header body c
hub-step (contacts now header) c = hub-auth header (contact now) c (λ m. hub-touch now m c)
hub-step (queues_consult m cmd) c = refl
hub-step (queues_reconfigure m cmd) c = refl
hub-step (resolves_conflict m path) c = hub-resolve_node_conflict m path c
hub-step (directs m decision) c = refl
hub-step (sweeps now) c = hub-sweep now c
hub-step (shared op) c = refl

-- The core writes to the hub only by Hub.Push: after any run, the hub is the one that the pushes of the
-- authorized requests, change by change, and the writes of the other components give.
pub hub-run : (is : List Input) (c : Core) → (run is c).hub ≡ Versions.run (hub_ops is c) c.hub
unfolding run hub_ops Versions.run
hub-run [] c = refl
hub-run (i ∷ is) c =
    hub-run is (step i c)
    ∙ ap (Versions.run (hub_ops is (step i c))) (hub-step i c)
    ∙ sym (run-append (ops_of i c) (hub_ops is (step i c)) c.hub)

-- Over any run of the core, requests of all nodes and writes of other components interleaved, a file
-- stays on the hub, its version never falls, and while its version is the same it is the same file.
-- The counters are taken not to wrap.
pub core_run-Later :
    (is : List Input) (c : Core) (n : ℕ) (p : Text) (f : FileState)
    → n + length (hub_ops is c) < 2 ^ 64
    → IsBelow n c.hub
    → Map.lookup p c.hub.files ≡ some f
    → (g : FileState) × (Map.lookup p (run is c).hub.files ≡ some g) × Later f g
core_run-Later is c n p f room b at =
    let (g, at_g, fg) = run-Later (hub_ops is c) n c.hub p f room b at in
    (g, ap (λ h. Map.lookup p h.files) (hub-run is c) ∙ at_g, fg)
