-- ===== src/Control/Core/Heartbeats.antt =====
-- The commands that internal/control/core.go holds for a node until its heartbeat.
use avairy.Prelude.{
  ℕ, ◌≡◌, refl, sym, ap, ◌∙◌, inl, inr, Bool, false, List, [], ◌∷◌, ◌++◌, Text, eq_text,
  eq_text_iff, Option, none, some, Option-cases, Bool-cases, arith, if◌then◌else◌,
}
use mathlib.Core.Path.{subst₂}
use mathlib.Core.List.{append-nil, append_assoc}
use avairy.Prelude.Map
use avairy.Prelude.Map.{Map, lookup_or-insert, lookup_or-erase}
use avairy.Control.Core.{
  Core, ConsultCommand, ReconfigureCommand, Body, decoded, malformed, Reply, sends, http_error,
  bearer, auth, touch, enqueue, queue_consult, queue_reconfigure, resolve_node_conflict,
  set_node_directive, current_token, new_pending_token,
}
use avairy.Control.Core.Enroll.{EnrollRequest, Fresh, handle_enroll, register, spend_token}
use avairy.Control.Core.Admission.{enroll_iff}
use avairy.Control.Core.Sync.{
  HeartbeatResponse, SyncEvent, handle_push, handle_heartbeat, take_commands,
}
use avairy.Control.Core.Runs.{
  Input, enrolls, shows_token, rotates_token, beats, pushes_files, contacts, queues_consult,
  queues_reconfigure, resolves_conflict, directs, sweeps, shared, contact, beat, step, run,
}
use avairy.Control.Core.Frame.{
  Outside, outside, outside-touch, outside-report_conflicts, outside-handle_push,
  outside-handle_heartbeat, outside-sweep_liveness, auth_cases,
}

-- The three queues of commands of one node.
pub record Commands : Type 0 where
  pub consults : List ConsultCommand
  pub reconfigures : List ReconfigureCommand
  pub unlock : List Text

-- One after the other, queue by queue.
unfoldable pub joined : Commands → Commands → Commands
joined a b = record {
  consults = a.consults ++ b.consults;
  reconfigures = a.reconfigures ++ b.reconfigures;
  unlock = a.unlock ++ b.unlock;
}

abbrev pub no_commands : Commands
no_commands = record { consults = []; reconfigures = []; unlock = [] }

-- What waits for the node.
unfoldable pub waiting : Text → Core → Commands
waiting n c = record {
  consults = Map.lookup_or [] n c.consults;
  reconfigures = Map.lookup_or [] n c.reconfigs;
  unlock = Map.lookup_or [] n c.unlocks;
}

reply_commands : Reply HeartbeatResponse → Commands
reply_commands (http_error status message) = no_commands
reply_commands (sends r) = record {
  consults = r.consults;
  reconfigures = r.reconfigures;
  unlock = r.unlock;
}

is_from : Text → Option Text → Bool
is_from n none = false
is_from n (some m) = eq_text m n

-- What a step hands to the node: the reply to a heartbeat on one of its sessions.
unfoldable pub received : Text → Input → Core → Commands
unfolding reply_commands is_from
received n (beats now header conflicts) c =
    if is_from n (Map.lookup (bearer header) c.sessions)
    then reply_commands (beat now header conflicts c).1
    else no_commands
received n _ c = no_commands

-- What a step orders for the node; a path to unlock only while the core knows the node.
unfoldable pub ordered : Text → Input → Core → Commands
ordered n (queues_consult m cmd) c = record no_commands {
  consults = if eq_text m n then cmd ∷ [] else [];
}
ordered n (queues_reconfigure m cmd) c = record no_commands {
  reconfigures = if eq_text m n then cmd ∷ [] else [];
}
ordered n (resolves_conflict m path) c = elim (Map.lookup m c.nodes) [
  | none ↦ no_commands
  | some k ↦ record no_commands { unlock = if eq_text m n then path ∷ [] else [] }
]
ordered n _ c = no_commands

unfoldable pub all_received : Text → List Input → Core → Commands
unfolding received
all_received n [] c = no_commands
all_received n (i ∷ is) c = joined (received n i c) (all_received n is (step i c))

unfoldable pub all_ordered : Text → List Input → Core → Commands
unfolding ordered
all_ordered n [] c = no_commands
all_ordered n (i ∷ is) c = joined (ordered n i c) (all_ordered n is (step i c))

joined_none : (a : Commands) → joined a no_commands ≡ a
unfolding joined
joined_none a = rw (append-nil a.consults, append-nil a.reconfigures, append-nil a.unlock) refl

joined_assoc : (a b d : Commands) → joined (joined a b) d ≡ joined a (joined b d)
unfolding joined
joined_assoc a b d =
    rw
      (
        append_assoc a.consults b.consults d.consults,
        append_assoc a.reconfigures b.reconfigures d.reconfigures,
        append_assoc a.unlock b.unlock d.unlock,
      )
      refl

waiting_of : Text → Outside → Commands
waiting_of n o = record {
  consults = Map.lookup_or [] n o.consults;
  reconfigures = Map.lookup_or [] n o.reconfigs;
  unlock = Map.lookup_or [] n o.unlocks;
}

outside-waiting : (n : Text) (c d : Core) → outside d ≡ outside c → waiting n d ≡ waiting n c
unfolding waiting waiting_of
outside-waiting n c d e = ap (waiting_of n) e

lookup_or-enqueue :
    {V : Type 0} (m n : Text) (v : V) (q : Map (List V))
    → Map.lookup_or [] n (enqueue m v q)
      ≡ Map.lookup_or [] n q ++ (if eq_text m n then v ∷ [] else [])
unfolding enqueue
lookup_or-enqueue m n v q = ground (
  arith,
  lookup_or-insert [] m n (Map.lookup_or [] m q ++ (v ∷ [])) q,
  eq_text_iff m n,
  append-nil (Map.lookup_or [] n q),
)

-- What a step receives, orders and leaves waiting.
abbrev Settles : Text → Input → Core → Type 0
Settles n i c =
    joined (received n i c) (waiting n (step i c)) ≡ joined (waiting n c) (ordered n i c)

-- A step that neither hands over nor orders leaves what waits.
quiet :
    (n : Text) (c d : Core)
    → waiting n d ≡ waiting n c
    → joined no_commands (waiting n d) ≡ joined (waiting n c) no_commands
unfolding joined
quiet n c d e = e ∙ sym (joined_none (waiting n c))

waiting-enroll :
    (n : Text) (now : ℕ) (cert_id : Text) (body : Body EnrollRequest) (fresh : Fresh) (c : Core)
    → waiting n (handle_enroll now cert_id body fresh c).0.0 ≡ waiting n c
unfolding handle_enroll
waiting-enroll n now cert_id (malformed m) fresh c = refl
waiting-enroll n now cert_id (decoded req) fresh c = elim (enroll_iff now cert_id req fresh c) [
  | inl (_, event, e) ↦
      ap (λ r. waiting n r.0.0) e ∙ (unfold waiting register spend_token in ground arith)
  | inr (_, message, e) ↦ ap (λ r. waiting n r.0.0) e
]

reply-heartbeat :
    (now : ℕ) (o : Option (List Text)) (m : Text) (c : Core)
    → reply_commands (handle_heartbeat now o m c).1 ≡ waiting m c
unfolding handle_heartbeat take_commands reply_commands waiting waiting_of
reply-heartbeat now o m c =
    ap (waiting_of m) (outside-report_conflicts m o (touch now m c) ∙ outside-touch now m c)

waiting-heartbeat :
    (now : ℕ) (o : Option (List Text)) (n m : Text) (c : Core)
    → waiting n (handle_heartbeat now o m c).0.0
      ≡ (if eq_text m n then no_commands else waiting n c)
unfolding waiting waiting_of
waiting-heartbeat now o n m c =
    ap (waiting_of n) (outside-handle_heartbeat now o m c)
    ∙ ground (
      arith,
      lookup_or-erase [] m n c.consults,
      lookup_or-erase [] m n c.reconfigs,
      lookup_or-erase [] m n c.unlocks,
    )

module _ (n : Text) where
  -- What a node of a session, or a stranger, receives and leaves.
  Handed : Core → Option Text → (Core × List SyncEvent) × Reply HeartbeatResponse → Type 0
  unfolding reply_commands is_from
  Handed c o r =
      joined (if is_from n o then reply_commands r.1 else no_commands) (waiting n r.0.0)
      ≡ joined (waiting n c) no_commands

  heartbeat-Handed :
      (now : ℕ) (o : Option (List Text)) (m : Text) (c : Core)
      → Handed c (some m) (handle_heartbeat now o m c)
  unfolding Handed is_from
  heartbeat-Handed now o m c =
      rw (reply-heartbeat now o m c, waiting-heartbeat now o n m c)
        (elim (Bool-cases (eq_text m n)) [
          | inl own ↦
              rw (own) (ap (λ k. joined (waiting k c) no_commands) ((eq_text_iff m n).0 own))
          | inr other ↦ rw (other) (quiet n c c refl)
        ])

  beats-Settles :
      (now : ℕ) (header : Text) (o : Option (List Text)) (c : Core)
      → Settles n (beats now header o) c
  unfolding received step beat Handed ordered
  beats-Settles now header o c = elim (auth_cases header (handle_heartbeat now o) c) [
    | inl (none_at, e) ↦ subst₂ (Handed c) (sym none_at) (sym e) (quiet n c c refl)
    | inr (m, at, e) ↦ subst₂ (Handed c) (sym at) (sym e) (heartbeat-Handed now o m c)
  ]

  auth-waiting :
      {A : Type 0} {E : Type 0} (header : Text) (handler : Text → Core → (Core × List E) × Reply A)
      (c : Core)
      → ((m : Text) → outside (handler m c).0.0 ≡ outside c)
      → waiting n (auth header handler c).0.0 ≡ waiting n c
  auth-waiting header handler c h = elim (auth_cases header handler c) [
    | inl (_, e) ↦ ap (λ r. waiting n r.0.0) e
    | inr (m, _, e) ↦ ap (λ r. waiting n r.0.0) e ∙ outside-waiting n c (handler m c).0.0 (h m)
  ]

  queue_consult-Settles :
      (m : Text) (cmd : ConsultCommand) (c : Core) → Settles n (queues_consult m cmd) c
  unfolding received ordered step queue_consult joined waiting
  queue_consult-Settles m cmd c =
      rw
        (
          lookup_or-enqueue m n cmd c.consults,
          append-nil (Map.lookup_or [] n c.reconfigs),
          append-nil (Map.lookup_or [] n c.unlocks),
        )
        refl

  queue_reconfigure-Settles :
      (m : Text) (cmd : ReconfigureCommand) (c : Core) → Settles n (queues_reconfigure m cmd) c
  unfolding received ordered step queue_reconfigure joined waiting
  queue_reconfigure-Settles m cmd c =
      rw
        (
          lookup_or-enqueue m n cmd c.reconfigs,
          append-nil (Map.lookup_or [] n c.consults),
          append-nil (Map.lookup_or [] n c.unlocks),
        )
        refl

  resolve_node_conflict-Settles :
      (m path : Text) (c : Core) → Settles n (resolves_conflict m path) c
  unfolding received ordered step joined waiting resolve_node_conflict
  resolve_node_conflict-Settles m path c = elim (Option-cases (Map.lookup m c.nodes)) [
    | inl e ↦ rw (e, ordered, resolve_node_conflict) (quiet n c c refl)
    | inr (k, e) ↦
        rw
          (
            e,
            ordered,
            resolve_node_conflict,
            lookup_or-enqueue m n path c.unlocks,
            append-nil (Map.lookup_or [] n c.consults),
            append-nil (Map.lookup_or [] n c.reconfigs),
          )
          refl
  ]

  settles : (i : Input) (c : Core) → Settles n i c
  unfolding step received ordered
  settles (enrolls now cert_id body fresh) c =
      quiet n c _ (waiting-enroll n now cert_id body fresh c)
  settles (beats now header conflicts) c = beats-Settles now header conflicts c
  settles (shows_token fresh) c = quiet n c _ (unfold current_token waiting in refl)
  settles (rotates_token fresh) c = quiet n c _ (unfold new_pending_token waiting in refl)
  settles (pushes_files now header body) c =
      quiet n c _
        (auth-waiting header (handle_push now body) c (λ m. outside-handle_push now body m c))
  settles (contacts now header) c =
      quiet n c _ (auth-waiting header (contact now) c (λ m. outside-touch now m c))
  settles (directs m decision) c = quiet n c _ (unfold set_node_directive waiting in refl)
  settles (sweeps now) c = quiet n c _ (outside-waiting n c _ (outside-sweep_liveness now c))
  settles (shared op) c = quiet n c _ (unfold waiting in refl)
  settles (queues_consult m cmd) c = queue_consult-Settles m cmd c
  settles (queues_reconfigure m cmd) c = queue_reconfigure-Settles m cmd c
  settles (resolves_conflict m path) c = resolve_node_conflict-Settles m path c

-- Every command is handed over exactly once and in order: over any run, what a node receives in the
-- replies to its heartbeats, followed by what still waits for it, is what waited at the start,
-- followed by what was ordered for it. This holds of the consults, the reconfigurations and the paths
-- to unlock, where a path is ordered only for a node that the core knows at the time.
pub commands_once :
    (n : Text) (is : List Input) (c : Core)
    → joined (all_received n is c) (waiting n (run is c))
      ≡ joined (waiting n c) (all_ordered n is c)
unfolding all_received all_ordered run
commands_once n [] c = quiet n c c refl
commands_once n (i ∷ is) c =
    let d = step i c in
    joined_assoc (received n i c) (all_received n is d) (waiting n (run is d))
    ∙ ap (joined (received n i c)) (commands_once n is d)
    ∙ sym (joined_assoc (received n i c) (waiting n d) (all_ordered n is d))
    ∙ ap (λ w. joined w (all_ordered n is d)) (settles n i c)
    ∙ joined_assoc (waiting n c) (ordered n i c) (all_ordered n is d)
