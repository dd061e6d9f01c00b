-- ===== src/Workspace/Repush.antt =====
-- Pushing again what internal/workspace/hub.go has accepted.
use mathlib.Core.Bool.{false≢true}
use avairy.Prelude.{
  ℕ, ◌+◌, ◌≡◌, refl, sym, ap, ◌∙◌, inl, inr, true, false, Text, eq_text_refl, none, some, ◌==◌, u64,
  Bool-cases, arith,
}
use avairy.Prelude.Map
use avairy.Prelude.Map.{lookup-insert}
use avairy.Workspace.Hub.{Change, Hub, PushResult, push, stored, store, is_same}
use avairy.Workspace.Versions.{version_of, normal, holds, push-eq-compare_and_set}

abbrev accepted_at : ℕ → PushResult
accepted_at v = record { applied = true; version = v; conflict = none }

is_same-stored :
    (now : ℕ) (node : Text) (c : Change) (v : ℕ) → is_same c (stored now node c v) ≡ true
unfolding is_same stored
is_same-stored now node c v = ground (arith, eq_text_refl c.content)

lookup-store :
    (now : ℕ) (node : Text) (c : Change) (v : ℕ) (h : Hub)
    → Map.lookup c.path (store now node c v h).files ≡ some (stored now node c v)
unfolding store
lookup-store now node c v h = simp (lookup-insert, eq_text_refl)

-- A push from the current version of a change that the hub holds is accepted and writes nothing.
push_held :
    (now : ℕ) (node : Text) (c : Change) (h : Hub)
    → (c.base == version_of c.path h) ≡ true
    → holds (normal c) h ≡ true
    → push now node c h ≡ (h, accepted_at (version_of c.path h))
push_held now node c h current held = rw (push-eq-compare_and_set now node c h, current, held)

-- The base of a change is no part of what the hub compares.
holds_base :
    (c : Change) (v : ℕ) (h : Hub) → holds (normal (record c { base = v })) h ≡ holds (normal c) h
unfolding is_same
holds_base c v h = refl

push_stored :
    (later : ℕ) (other : Text) (now : ℕ) (node : Text) (c : Change) (v : ℕ) (h : Hub)
    → let h' = store now node (normal c) v h in
      push later other (record c { base = v }) h' ≡ (h', accepted_at v)
push_stored later other now node c v h =
    let h' = store now node (normal c) v h in
    let at_path = lookup-store now node (normal c) v h in
    let version : version_of c.path h' ≡ v = rw (at_path, version_of) (unfold stored in refl) in
    let held : holds (normal c) h' ≡ true =
      rw (at_path, holds) (is_same-stored now node (normal c) v) in
    push_held later other (record c { base = v }) h' (ground arith) (holds_base c v h' ∙ held)
    ∙ ap (λ (n : ℕ). (h', accepted_at n)) version

-- Once a push is applied, pushing the same change from the version that it returned, by any node,
-- is applied at that very version and leaves the hub as it is: repeated syncs do not raise versions.
pub repush :
    (now later : ℕ) (node other : Text) (c : Change) (h : Hub)
    → (push now node c h).1.applied ≡ true
    → let (h', r) = push now node c h in
      push later other (record c { base = r.version }) h'
      ≡ (h', record { applied = true; version = r.version; conflict = none })
repush now later node other c h won = elim (Bool-cases (c.base == version_of c.path h)) [
  | inr moved ↦
      let lost : (push now node c h).1.applied ≡ false =
        rw (push-eq-compare_and_set now node c h, moved) in
      absurd (false≢true (sym lost ∙ won))
  | inl current ↦ elim (Bool-cases (holds (normal c) h)) [
    | inl held ↦
        rw (push-eq-compare_and_set now node c h, current, held)
          (push_held later other (record c { base = version_of c.path h }) h (ground arith)
            (holds_base c (version_of c.path h) h ∙ held))
    | inr new ↦
        rw (push-eq-compare_and_set now node c h, current, new)
          (push_stored later other now node c (u64 (version_of c.path h + 1)) h)
  ]
]
