-- ===== src/Examples/Clients.antt =====
-- The client of internal/control/node.go at concrete inputs.
use avairy.Prelude.{
  ℕ, ◌≡◌, ◌≢◌, refl, ◌⊎◌, true, false, List, [], ◌∷◌, Text, codes, eq_text, Option, some, none, All,
  arith,
}
use avairy.Prelude.Map
use avairy.Prelude.Map.{Map}
use avairy.Workspace.Hub.{Change, new_hub}
use avairy.Workspace.Disk.{Disk, Scanned, System, regular, scanned_change}
use avairy.Control.Core.Sync.{PullFile}
use avairy.Control.Client.{Node, new_node, enroll_request}
use avairy.Control.Client.Posts.{replied, post, is_unauthorized}
use avairy.Control.Client.Sync.{collect_wire, sync_down}
use avairy.Control.Core.{Core, Reply, sends, http_error, new_core}
use avairy.Control.Core.Enroll.{Fresh}
use avairy.Control.Core.Admission.{Entitled}
use avairy.Control.Client.Recovery.{answers, issues, after_enroll, post_recovers}
use avairy.Control.Client.Holds.{held_frozen}

abbrev system : System
system = record { now = 7; fails = λ p. false; follow = λ p. p }

-- "f" is held since the first sync.
abbrev holder : Node
holder = record (new_node (codes "a")) {
  first_sync = false;
  startup_held = (codes "f", true) ∷ [];
  base = (codes "f", 2) ∷ [];
}

abbrev scanned : Scanned
scanned = record {
  changed = scanned_change (codes "f") (codes "mine") 420 ∷ [];
  stamp_of = (codes "f", record { size = 4; mod_nano = 5; hash = 1 }) ∷ [];
  seen = (codes "f", true) ∷ [];
}

abbrev disk : Disk
disk = (codes "f", regular (codes "mine") 420 5) ∷ []

abbrev pulled : Map ℕ → Option (List PullFile)
pulled base = some (
    record { path = codes "f"; content = codes "theirs"; mode = 420; version = 3; deleted = false }
    ∷ [])

held_frozen_example :
    let s = collect_wire scanned holder in
    let o = sync_down system pulled holder disk in
    All (λ (c : Change). c.path ≢ codes "f") s.wire
    × (Map.lookup_or false (codes "f") s.node.startup_held ≡ true)
    × (Map.lookup (codes "f") o.disk ≡ Map.lookup (codes "f") disk)
    × (Map.lookup_or false (codes "f") o.node.startup_held ≡ true)
held_frozen_example =
    held_frozen (codes "f") scanned system pulled holder disk
      (unfold Map.lookup_or Map.lookup eq_text in refl)

abbrev member : Node
member = record holder {
  reenroll_on_expiry = true;
  session = codes "old";
  enroll_token = codes "t1";
}

-- A core that was started again: it does not know the session, and has issued the node's token.
abbrev restarted : Core
restarted = record (new_core new_hub) { pending = codes "t1" }

abbrev fresh : Fresh
fresh = record { pending = codes "t2"; session = codes "new" }

abbrev serves : Text → Core → (Core × List ℕ) × Reply ℕ
serves node c = ((c, []), sends 1)

post_recovers_example :
    let r =
      post
        (codes "/sync/pull")
        (answers serves restarted)
        (issues 9 [] fresh restarted)
        (answers serves (after_enroll 9 [] fresh member restarted))
        member in
    ((node : Text) × (Map.lookup member.session restarted.sessions ≡ some node)
      × (r ≡ ((member, replied (serves node restarted).1), member.session ∷ [])))
    ⊎ ((Map.lookup member.session restarted.sessions ≡ none)
        × Entitled [] (enroll_request member) restarted
        × (r ≡ (
          (
            record member { session = fresh.session },
            replied (serves member.id (after_enroll 9 [] fresh member restarted)).1,
          ),
          member.session ∷ fresh.session ∷ [],
        )))
    ⊎ ((Map.lookup member.session restarted.sessions ≡ none)
        × (¬ Entitled [] (enroll_request member) restarted)
        × (r ≡ ((member, replied (http_error 401 (codes "unauthorized"))), member.session ∷ [])))
post_recovers_example =
    post_recovers serves 9 [] fresh (codes "/sync/pull") member restarted refl
      (λ e. ground (arith, e)) (λ e. ground (arith, e)) (λ e. ground (arith, e))
      (λ node d. unfold is_unauthorized in refl)
