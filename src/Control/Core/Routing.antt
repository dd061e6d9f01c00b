-- ===== src/Control/Core/Routing.antt =====
-- Which conflicts of a push internal/control/core.go routes to the agent.
use avairy.Prelude.{
  ℕ, ◌≡◌, ◌≢◌, refl, ap, ◌∙◌, true, false, List, [], ◌∷◌, Text, none, some, arith, All, map, ◌==◌,
}
use mathlib.Core.List.{append-nil}
use avairy.Prelude.Map
use avairy.Prelude.Map.{Map}
use avairy.Workspace.Hub.{Change, push, no_file}
use avairy.Workspace.Versions.{push-eq-compare_and_set, version_of, normal, known_file}
use avairy.Control.Core.{Core, touch, decoded, sends}
use avairy.Control.Core.Sync.{
  push_changes, after_push, route_conflict, new_conflict, conflict_key, journals_conflict,
  SyncResult, PushRun, PushRequest, sync_result, handle_push, raise_startup_conflict,
}

-- A change from some version of a path that the hub does not know, about which the agent has not been
-- notified.
pub record IsStray (node : Text) (c : Core) (ch : Change) : Type 0 where
  pub unknown : Map.lookup ch.path c.hub.files ≡ none
  pub based : ch.base ≢ 0
  pub unseen : Map.lookup_or 0 (conflict_key node ch.path) c.conflicts ≡ 0

stray_push :
    (now : ℕ) (node : Text) (c : Core) (ch : Change)
    → IsStray node c ch
    → push now node ch c.hub ≡ (
      c.hub,
      record {
        applied = false;
        version = 0;
        conflict =
            some (record { path = ch.path; base = ch.base; hub = no_file; incoming = normal ch });
      },
    )
stray_push now node c ch h =
    let other : (ch.base == version_of ch.path c.hub) ≡ false =
      rw (version_of, h.unknown) (ground (arith, h.based)) in
    rw (push-eq-compare_and_set now node ch c.hub, other, known_file, h.unknown) refl

stray_after :
    (node : Text) (c : Core) (ch : Change)
    → IsStray node c ch
    → after_push node false ch.path
        (record {
          applied = false;
          version = 0;
          conflict =
              some (record { path = ch.path; base = ch.base; hub = no_file; incoming = normal ch });
        })
        c
      ≡ ((c, journals_conflict node ch.path ∷ []), [])
unfolding after_push route_conflict new_conflict
stray_after node c ch h = ground (arith, h.unseen)

-- What the node is told of such a change: a conflict with a file of version 0.
abbrev pub stray_result : Change → SyncResult
stray_result ch = record {
  path = ch.path;
  applied = false;
  version = 0;
  conflict = true;
  hub_version = 0;
  hub_content = [];
}

-- The run of the loop on such changes.
record Unrouted (node : Text) (chs : List Change) (c : Core) (r : PushRun) : Type 0 where
  same : r.core ≡ c
  refused : r.results ≡ map stray_result chs
  journaled : r.events ≡ map (λ ch. journals_conflict node ch.path) chs
  none_held : r.startup ≡ []

push_changes-Unrouted :
    (now : ℕ) (node : Text) (chs : List Change) (c : Core)
    → All (IsStray node c) chs
    → Unrouted node chs c (push_changes now node false chs c)
unfolding push_changes sync_result
push_changes-Unrouted now node [] c h = record {
  same = refl;
  refused = refl;
  journaled = refl;
  none_held = refl;
}
push_changes-Unrouted now node (ch ∷ chs) c (h, hs) =
    let p = stray_push now node c ch h in
    let e =
      ap (λ r. after_push node false ch.path r.1 (record c { hub = r.0 })) p
      ∙ stray_after node c ch h in
    let u = push_changes-Unrouted now node chs c hs in
    rw (e) (record {
      same = u.same;
      refused = rw (p) (ap (λ rs. stray_result ch ∷ rs) u.refused);
      journaled = ap (λ es. journals_conflict node ch.path ∷ es) u.journaled;
      none_held = u.none_held;
    })

touch-IsStray :
    (now : ℕ) (node : Text) (c : Core) (chs : List Change)
    → All (IsStray node c) chs
    → All (IsStray node (touch now node c)) chs
unfolding touch
touch-IsStray now node c [] h = h
touch-IsStray now node c (ch ∷ chs) (h, hs) = (
  record {
    unknown = ground (arith, h.unknown);
    based = h.based;
    unseen = ground (arith, h.unseen);
  },
  touch-IsStray now node c chs hs,
)

-- A request to push, not a node's first, where each change is from some version, not 0, of a path that
-- the hub does not know, and of which the core has recorded no conflict of the node: every change is
-- refused as a conflict with a file of version 0, and recorded in the journal. These records are all
-- that happens: neither the agent nor the operator is told of a conflict, and the core only notes the
-- contact. The map of what the agent was told of last holds 0 where it holds nothing, which is also
-- the version of a path that the hub does not know.
pub stray_unrouted :
    (now : ℕ) (node : Text) (req : PushRequest) (c : Core)
    → req.first_sync ≡ false
    → All (IsStray node c) req.changes
    → handle_push now (decoded req) node c ≡ (
      (touch now node c, map (λ ch. journals_conflict node ch.path) req.changes),
      sends (map stray_result req.changes),
    )
unfolding handle_push raise_startup_conflict
stray_unrouted now node req c later h =
    let u =
      push_changes-Unrouted now node req.changes (touch now node c)
        (touch-IsStray now node c req.changes h) in
    rw (later, u.none_held, u.same, u.refused, u.journaled) (simp (append-nil))
