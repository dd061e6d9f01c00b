-- ===== src/Examples/Cores.antt =====
-- The core of internal/control/core.go at concrete inputs: node "a" enrols with the token "t1".
use avairy.Prelude.{
  ◌*◌, ◌^◌, ◌≡◌, refl, ◌⊎◌, true, false, List, [], ◌∷◌, ◌&&◌, not, Text, codes, eq_text, none, some,
  any, arith, if◌then◌else◌, length, map, trim_prefix, has_prefix,
}
use avairy.Prelude.Map
use avairy.Prelude.Map.{IsDistinct}
use avairy.Workspace.Hub.{FileState, Change, new_hub}
use avairy.Workspace.Versions
use avairy.Workspace.Updates.{IsBelow, Later}
use avairy.Control.Core.{
  Core, NodeInfo, ConsultCommand, decoded, sends, http_error, new_core, bearer, touch,
}
use avairy.Control.Core.Enroll.{
  EnrollRequest, Fresh, handle_enroll, register, spend_token, on_enroll, journals_enroll,
}
use avairy.Control.Core.Sync.{PushRequest, handle_push, journals_conflict, conflict_key}
use avairy.Control.Core.Liveness.{sweep_liveness, is_fresh}
use avairy.Control.Core.Runs.{
  Input, enrolls, beats, pushes_files, queues_consult, rotates_token, run,
}
use avairy.Control.Core.Admission.{Entitled, enroll_iff}
use avairy.Control.Core.Tokens.{AllNew, certifies, token_admits_one, session_credential}
use avairy.Control.Core.Heartbeats.{joined, all_received, all_ordered, waiting, commands_once}
use avairy.Control.Core.Sweeps.{sweep_node}
use avairy.Control.Core.Pushes.{hub_ops, hub-run, core_run-Later}
use avairy.Control.Core.Routing.{stray_result, stray_unrouted}

abbrev started : Core
started = record (new_core new_hub) { pending = codes "t1" }

abbrev request : Text → EnrollRequest
request node = record { token = codes "t1"; node_id = node; os = codes "linux"; caps = [] }

abbrev fresh : Fresh
fresh = record { pending = codes "t2"; session = codes "s1" }

abbrev node_a : NodeInfo
node_a = record {
  id = codes "a";
  os = codes "linux";
  caps = [];
  last_seen = 5;
  live = true;
  ephemeral = true;
}

-- The core once "a" has enrolled.
abbrev enrolled_core : Core
enrolled_core = record started {
  pending = codes "t2";
  bound = (codes "t1", codes "a") ∷ [];
  sessions = (codes "s1", codes "a") ∷ [];
  nodes = (codes "a", node_a) ∷ [];
}

enrolled_core_lem :
    (handle_enroll 5 [] (decoded (request (codes "a"))) fresh started).0.0 ≡ enrolled_core
unfolding handle_enroll new_core new_hub Map.insert Map.lookup eq_text
enrolled_core_lem = refl

token_admits_one_example :
    (message : Text) × (handle_enroll 9 []
        (decoded (request (codes "b")))
        fresh
        (run (rotates_token (codes "t3") ∷ []) enrolled_core)
      ≡ ((run (rotates_token (codes "t3") ∷ []) enrolled_core, []), http_error 401 message))
token_admits_one_example =
    token_admits_one (rotates_token (codes "t3") ∷ []) enrolled_core 9 (request (codes "b")) fresh
      (codes "a") (record { unspent = unfold Map.lookup eq_text in refl })
      (unfold AllNew Map.lookup eq_text in ((refl, λ e. ground arith), refl))
      (unfold Map.lookup eq_text in refl) (λ e. ground arith)

enroll_iff_example :
    (Entitled [] (request (codes "a")) started
      × (event : Text) × (handle_enroll 5 [] (decoded (request (codes "a"))) fresh started ≡ (
        (
          register 5 []
              (request (codes "a"))
              (codes "s1")
              (spend_token [] (request (codes "a")) (codes "t2") started),
          on_enroll (codes "a") [] ∷ journals_enroll (codes "a") event (codes "linux") [] ∷ [],
        ),
        sends (codes "s1"),
      )))
    ⊎ ((¬ Entitled [] (request (codes "a")) started)
        × (message : Text) × (handle_enroll 5 [] (decoded (request (codes "a"))) fresh started
            ≡ ((started, []), http_error 401 message)))
enroll_iff_example = enroll_iff 5 [] (request (codes "a")) fresh started

abbrev enrols_a : Input
enrols_a = enrolls 5 [] (decoded (request (codes "a"))) fresh

session_credential_example :
    (Map.lookup (codes "s1") started.sessions ≡ some (codes "a"))
    ⊎ (any (certifies (codes "a")) (enrols_a ∷ []) ≡ true)
    ⊎ ((started.require_client_cert ≡ false)
        × (t : Text) × (Map.lookup t (run (enrols_a ∷ []) started).bound ≡ some (codes "a")))
session_credential_example =
    session_credential (enrols_a ∷ []) started (codes "s1") (codes "a")
      (record { unspent = unfold new_core Map.lookup in refl })
      (unfold AllNew new_core Map.lookup in ((refl, λ e. ground arith), refl))
      (unfold run handle_enroll new_core new_hub Map.insert Map.lookup eq_text in refl)

abbrev consult : ConsultCommand
consult = record { id = codes "consult-a"; action = codes "open"; family = [] }

abbrev consulted : List Input
consulted =
    queues_consult (codes "a") consult
    ∷ beats 7 (codes "Bearer s1") none
    ∷ beats 9 (codes "Bearer s1") none
    ∷ []

commands_once_example :
    joined
      (all_received (codes "a") consulted enrolled_core)
      (waiting (codes "a") (run consulted enrolled_core))
    ≡ joined (waiting (codes "a") enrolled_core) (all_ordered (codes "a") consulted enrolled_core)
commands_once_example = commands_once (codes "a") consulted enrolled_core

enrolled-IsDistinct : IsDistinct enrolled_core.nodes
unfolding IsDistinct Map.lookup
enrolled-IsDistinct = (refl, refl)

sweep_node_example :
    Map.lookup (codes "a") (sweep_liveness (20 * 10 ^ 9) enrolled_core).0.nodes
    ≡ (elim (Map.lookup (codes "a") enrolled_core.nodes) [
      | none ↦ none
      | some n ↦
          if not (is_fresh (20 * 10 ^ 9) enrolled_core.liveness_timeout n)
            && (n.live && n.ephemeral)
          then none
          else some (record n { live = is_fresh (20 * 10 ^ 9) enrolled_core.liveness_timeout n })
    ])
sweep_node_example = sweep_node (20 * 10 ^ 9) (codes "a") enrolled_core enrolled-IsDistinct

-- A new file, pushed twice by "a".
abbrev change : Change
change = record { path = codes "f"; content = codes "x"; mode = 0; deleted = false; base = 0 }

abbrev pushed : List Input
pushed =
    pushes_files 8 (codes "Bearer s1")
      (decoded (record { changes = change ∷ []; first_sync = false }))
    ∷ []

abbrev file : FileState
file = record {
  path = codes "f";
  content = codes "y";
  mode = 420;
  version = 3;
  writer = codes "b";
  deleted = false;
  modified = 1;
}

abbrev stocked : Core
stocked = record enrolled_core { hub = record { files = (codes "f", file) ∷ []; dirty = false } }

stocked-IsBelow : IsBelow 3 stocked.hub
unfolding Map.lookup
stocked-IsBelow = record { at_path = λ p f e. ground arith }

hub-run_example : (run pushed stocked).hub ≡ Versions.run (hub_ops pushed stocked) stocked.hub
hub-run_example = hub-run pushed stocked

core_run-Later_example :
    (g : FileState) × (Map.lookup (codes "f") (run pushed stocked).hub.files ≡ some g)
    × Later file g
core_run-Later_example =
    core_run-Later pushed stocked 3 (codes "f") file
      (unfold hub_ops bearer trim_prefix has_prefix Map.lookup eq_text length in omega arith)
      stocked-IsBelow (unfold Map.lookup eq_text in refl)

abbrev stray : Change
stray = record change { base = 4 }

abbrev stray_push : PushRequest
stray_push = record { first_sync = false; changes = stray ∷ [] }

stray_unrouted_example : handle_push 8 (decoded stray_push) (codes "a") enrolled_core ≡ (
  (
    touch 8 (codes "a") enrolled_core,
    map (λ (ch : Change). journals_conflict (codes "a") ch.path) (stray ∷ []),
  ),
  sends (map stray_result (stray ∷ [])),
)
stray_unrouted_example = stray_unrouted 8 (codes "a") stray_push enrolled_core refl (
  record {
    unknown = unfold new_core new_hub Map.lookup in refl;
    based = λ e. absurd (omega arith);
    unseen = unfold new_core conflict_key Map.lookup_or Map.lookup in refl;
  },
  _,
)
