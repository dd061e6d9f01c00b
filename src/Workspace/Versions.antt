-- ===== src/Workspace/Versions.antt =====
-- What a version of internal/workspace/hub.go means.
use avairy.Prelude.{
  ℕ, ◌+◌, ◌≡◌, refl, inl, inr, ◌⊎◌, Bool, true, false, List, [], ◌∷◌, ◌++◌, Text, none, some, ◌==◌,
  if◌then◌else◌, u64, Bool-cases, arith,
}
use avairy.Prelude.Map
use avairy.Prelude.Map.{lookup-insert}
use avairy.Workspace.Content.{normalize_for_transit}
use avairy.Workspace.Hub.{FileState, Change, Hub, no_file, store, stored, is_same, push, resolve}

-- The version from which a change of the path is accepted.
abbrev pub version_of : Text → Hub → ℕ
version_of path h = elim (Map.lookup path h.files) [ none ↦ 0 | some f ↦ f.version ]

abbrev pub normal : Change → Change
normal c = record c { content = normalize_for_transit c.content }

abbrev pub known_file : Text → Hub → FileState
known_file path h = elim (Map.lookup path h.files) [ none ↦ no_file | some f ↦ f ]

-- Does the hub hold the change already?
abbrev pub holds : Change → Hub → Bool
holds c h = elim (Map.lookup c.path h.files) [ none ↦ false | some f ↦ is_same c f ]

-- A push from the hub's current version of the path, 0 for a path that the hub does not know, is
-- applied: it leaves the hub alone where the file holds the normalized change already, and stores it
-- at the next version otherwise. A push from any other version leaves the hub alone and returns both
-- sides, the hub's file and the normalized change.
pub push-eq-compare_and_set :
    (now : ℕ) (node : Text) (c : Change) (h : Hub)
    → push now node c h ≡ (
        if c.base == version_of c.path h
        then (if holds (normal c) h
            then (h, record { applied = true; version = version_of c.path h; conflict = none })
            else (
              store now node (normal c) (u64 (version_of c.path h + 1)) h,
              record { applied = true; version = u64 (version_of c.path h + 1); conflict = none },
            ))
        else (
          h,
          record {
            applied = false;
            version = 0;
            conflict = some (record {
              path = c.path;
              base = c.base;
              hub = known_file c.path h;
              incoming = normal c;
            });
          },
        ))
unfolding push u64
push-eq-compare_and_set now node c h = ground arith

-- The writes to a hub.
pub data Op : Type 0 where
  pushes : ℕ → Text → Change → Op
  resolves : ℕ → Text → Text → Text → Op

unfoldable pub step : Op → Hub → Hub
step (pushes now node c) h = (push now node c h).0
step (resolves now node path merged) h = (resolve now node path merged h).0

unfoldable pub run : List Op → Hub → Hub
run [] h = h
run (o ∷ os) h = run os (step o h)

pub run-append : (xs ys : List Op) (h : Hub) → run (xs ++ ys) h ≡ run ys (run xs h)
unfolding run
run-append [] ys h = refl
run-append (x ∷ xs) ys h = run-append xs ys (step x h)

-- A write leaves the files alone or puts one file in, at the version after its path's.
unfoldable pub Effect : Hub → Hub → Type 0
Effect h h' =
    (h'.files ≡ h.files)
    ⊎ ((path : Text) × (f : FileState) × (h'.files ≡ Map.insert path f h.files)
        × (f.version ≡ u64 (version_of path h + 1)))

store-Effect :
    (now : ℕ) (node : Text) (c : Change) (h : Hub)
    → Effect h (store now node c (u64 (version_of c.path h + 1)) h)
unfolding Effect store
store-Effect now node c h =
    inr (c.path, stored now node c (u64 (version_of c.path h + 1)), refl, refl)

push-Effect : (now : ℕ) (node : Text) (c : Change) (h : Hub) → Effect h (push now node c h).0
push-Effect now node c h =
    rw (push-eq-compare_and_set now node c h) (elim (Bool-cases (c.base == version_of c.path h)) [
      | inr other ↦ rw other (unfold Effect in inl refl)
      | inl current ↦ elim (Bool-cases (holds (normal c) h)) [
        | inl held ↦ rw (current, held) (unfold Effect in inl refl)
        | inr new ↦ rw (current, new) (store-Effect now node (normal c) h)
      ]
    ])

next_version :
    (path : Text) (h : Hub)
    → (elim (Map.lookup path h.files) [ none ↦ 1 | some f ↦ u64 (f.version + 1) ])
      ≡ u64 (version_of path h + 1)
unfolding u64
next_version path h = ground arith

pub step-Effect : (o : Op) (h : Hub) → Effect h (step o h)
unfolding step resolve
step-Effect (pushes now node c) h = push-Effect now node c h
step-Effect (resolves now node path merged) h = rw (next_version path h) (store-Effect now node _ h)
