-- ===== src/Workspace/View/Deletions.antt =====
-- The loop of SyncUp over the deleted files, internal/workspace/fsutil.go.
use avairy.Prelude.{
  ℕ, ◌≡◌, refl, sym, ap, ◌∙◌, inl, inr, ◌⊎◌, Bool, true, false, ◌||◌, [], ◌∷◌, Text, eq_text_iff,
  none, Bool-cases, if◌then◌else◌, arith, All, map, select,
}
use avairy.Prelude.Map
use avairy.Prelude.Map.{Map, IsDistinct, insert-IsDistinct, lookup_or-insert, lookup_or-erase}
use avairy.Workspace.Hub.{Change, Hub, push}
use avairy.Workspace.Versions.{Op, pushes, run-append}
use avairy.Workspace.Versions
use avairy.Workspace.View.{NodeView, note_result, push_deletion, push_deletions}
use avairy.Workspace.View.Ops.{base_at, holds_path, deletion_op, is_gone}
use avairy.Workspace.View.Moves.{Moved-base, run-selected}

-- What a deletion leaves of the view.
record Deleted (path : Text) (w u : NodeView) : Type 0 where
  same_id : u.id ≡ w.id
  same_held : u.conflicts ≡ w.conflicts
  bases : (u.base ≡ w.base) ⊎ ((v : ℕ) × (u.base ≡ Map.insert path v w.base))

push_deletion-Deleted :
    (now : ℕ) (seen : Map Bool) (path : Text) (h : Hub) (w : NodeView)
    → Deleted path w (push_deletion now seen path h w).view
unfolding push_deletion note_result
push_deletion-Deleted now seen path h w =
    elim (Bool-cases (Map.lookup_or false path seen || holds_path w path)) [
      | inl kept ↦
          rw (push_deletion, kept) (record { same_id = refl; same_held = refl; bases = inl refl })
      | inr gone ↦
          let r =
            push now w.id
              (record {
                path = path;
                content = [];
                mode = 0;
                deleted = true;
                base = base_at w path;
              })
              h in
          elim (Bool-cases r.1.applied) [
            | inl yes_ ↦
                rw (push_deletion, gone, note_result, yes_)
                  (record { same_id = refl; same_held = refl; bases = inr (r.1.version, refl) })
            | inr no_ ↦
                rw (push_deletion, gone, note_result, no_)
                  (record { same_id = refl; same_held = refl; bases = inl refl })
          ]
    ]

push_deletion-hub :
    (now : ℕ) (seen : Map Bool) (path : Text) (v : ℕ) (h : Hub) (u w : NodeView)
    → w.id ≡ u.id
    → w.conflicts ≡ u.conflicts
    → base_at w path ≡ base_at u path
    → (push_deletion now seen path h w).hub
      ≡ (if is_gone seen u (path, v) then Versions.step (deletion_op now u (path, v)) h else h)
unfolding push_deletion note_result Versions.step
push_deletion-hub now seen path v h u w i k b =
    let held : holds_path w path ≡ holds_path u path = ap (Map.lookup_or false path) k in
    elim (Bool-cases (Map.lookup_or false path seen || holds_path w path)) [
      | inl kept ↦
          let kept' : (Map.lookup_or false path seen || holds_path u path) ≡ true =
            rw (← held) kept in
          rw (push_deletion, kept, kept') refl
      | inr gone ↦
          let gone' : (Map.lookup_or false path seen || holds_path u path) ≡ false =
            rw (← held) gone in
          let del : ℕ → Change =
            λ n. record { path = path; content = []; mode = 0; deleted = true; base = n } in
          let r = push now w.id (del (base_at w path)) h in
          let same : r.0 ≡ (push now u.id (del (base_at u path)) h).0 = rw (i, b) refl in
          elim (Bool-cases r.1.applied) [
            | inl yes_ ↦ rw (push_deletion, gone, gone', note_result, yes_) same
            | inr no_ ↦ rw (push_deletion, gone, gone', note_result, no_) same
          ]
    ]

-- The views agree on the versions of the entries' paths.
abbrev pub SameOn : NodeView → NodeView → Map ℕ → Type 0
SameOn u w es = All (λ (e : Text × ℕ). base_at w e.0 ≡ base_at u e.0) es

Deleted-SameOn :
    (path : Text) (u w x : NodeView) (es : Map ℕ)
    → Deleted path w x
    → Map.lookup path es ≡ none
    → SameOn u w es
    → SameOn u x es
unfolding Map.lookup
Deleted-SameOn path u w x [] d free same = _
Deleted-SameOn path u w x ((q, v) ∷ es) d free (e, same) = (
  Moved-base path q w x (record { same_id = d.same_id; bases = d.bases; held = inl d.same_held })
        (λ here. ground (arith, free, sym here, eq_text_iff q path))
      ∙ e,
  Deleted-SameOn path u w x es d (ground (arith, free)) same,
)

pub push_deletions-hub :
    (now : ℕ) (seen : Map Bool) (es : Map ℕ) (h : Hub) (u w : NodeView)
    → w.id ≡ u.id
    → w.conflicts ≡ u.conflicts
    → SameOn u w es
    → IsDistinct es
    → (push_deletions now seen es h w).hub
      ≡ Versions.run (map (deletion_op now u) (select (is_gone seen u) es)) h
unfolding push_deletions Versions.run select IsDistinct
push_deletions-hub now seen [] h u w i k same d = refl
push_deletions-hub now seen ((path, v) ∷ es) h u w i k (b, same) (free, d) =
    let s = push_deletion now seen path h w in
    let m = push_deletion-Deleted now seen path h w in
    push_deletions-hub now seen es s.hub u s.view (m.same_id ∙ i) (m.same_held ∙ k)
      (Deleted-SameOn path u w s.view es m free same) d
    ∙ run-selected (is_gone seen u) (deletion_op now u) (path, v) es h s.hub
        (push_deletion-hub now seen path v h u w i k b)
