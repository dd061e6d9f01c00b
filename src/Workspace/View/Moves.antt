-- ===== src/Workspace/View/Moves.antt =====
-- The loop of SyncUp over the changed files, internal/workspace/fsutil.go.
use avairy.Prelude.{
  ℕ, ◌≡◌, ◌≢◌, refl, sym, ap, ◌∙◌, inl, inr, ◌⊎◌, Bool, true, false, List, [], ◌∷◌, Text,
  eq_text_iff, Bool-cases, if◌then◌else◌, arith, subst, All, map, select,
}
use avairy.Prelude.Map
use avairy.Prelude.Map.{Map, IsDistinct, insert-IsDistinct, lookup_or-insert, lookup_or-erase}
use avairy.Workspace.Hub.{Change, Hub, push}
use avairy.Workspace.Versions.{Op, pushes, run-append}
use avairy.Workspace.Versions
use avairy.Workspace.Markers.{has_conflict_markers}
use avairy.Workspace.Disk.{FileStamp}
use avairy.Workspace.View.{NodeView, note_result, push_change, push_changed, copy_stamp}
use avairy.Workspace.View.Scans.{NotAt, Once}
use avairy.Workspace.View.Ops.{base_at, holds_path, is_clean, change_op}

-- What a push of the path may change in the view.
pub record Moved (path : Text) (w u : NodeView) : Type 0 where
  pub same_id : u.id ≡ w.id
  pub bases : (u.base ≡ w.base) ⊎ ((v : ℕ) × (u.base ≡ Map.insert path v w.base))
  pub held :
      (u.conflicts ≡ w.conflicts)
      ⊎ (u.conflicts ≡ Map.insert path true w.conflicts)
      ⊎ (u.conflicts ≡ Map.erase path w.conflicts)

pub push_change-Moved :
    (now : ℕ) (stamp_of : Map FileStamp) (c : Change) (h : Hub) (w : NodeView)
    → Moved c.path w (push_change now stamp_of c h w).view
unfolding push_change note_result copy_stamp
push_change-Moved now stamp_of c h w = elim (Bool-cases (has_conflict_markers c.content)) [
  | inl marked ↦
      rw (push_change, marked) (record { same_id = refl; bases = inl refl; held = inr (inl refl) })
  | inr clean ↦
      let r = push now w.id (record c { base = base_at w c.path }) h in
      elim (Bool-cases r.1.applied) [
        | inl yes_ ↦
            rw (push_change, clean, note_result, yes_)
              (record { same_id = refl; bases = inr (r.1.version, refl); held = inr (inr refl) })
        | inr no_ ↦
            rw (push_change, clean, note_result, no_)
              (record { same_id = refl; bases = inl refl; held = inr (inr refl) })
      ]
]

-- One push, where the view agrees with nv on the path.
push_change-hub :
    (now : ℕ) (stamp_of : Map FileStamp) (c : Change) (h : Hub) (nv w : NodeView)
    → w.id ≡ nv.id
    → base_at w c.path ≡ base_at nv c.path
    → (push_change now stamp_of c h w).hub
      ≡ (if is_clean c then Versions.step (change_op now nv c) h else h)
unfolding push_change note_result Versions.step
push_change-hub now stamp_of c h nv w i b = elim (Bool-cases (has_conflict_markers c.content)) [
  | inl marked ↦ rw (push_change, marked) refl
  | inr clean ↦
      let r = push now w.id (record c { base = base_at w c.path }) h in
      let same : r.0 ≡ (push now nv.id (record c { base = base_at nv c.path }) h).0 =
        rw (i, b) refl in
      elim (Bool-cases r.1.applied) [
        | inl yes_ ↦ rw (push_change, clean, note_result, yes_) same
        | inr no_ ↦ rw (push_change, clean, note_result, no_) same
      ]
]

pub Moved-base :
    (path q : Text) (w u : NodeView) → Moved path w u → path ≢ q → base_at u q ≡ base_at w q
Moved-base path q w u m other = elim m.bases [
  | inl e ↦ ap (Map.lookup_or 0 q) e
  | inr (v, e) ↦
      rw (e) (ground (arith, other, eq_text_iff path q, lookup_or-insert 0 path q v w.base))
]

pub Moved-held :
    (path q : Text) (w u : NodeView) → Moved path w u → path ≢ q → holds_path u q ≡ holds_path w q
Moved-held path q w u m other = elim m.held [
  | inl e ↦ ap (Map.lookup_or false q) e
  | inr (inl e) ↦
      rw (e)
        (ground (arith, other, eq_text_iff path q, lookup_or-insert false path q true w.conflicts))
  | inr (inr e) ↦
      rw (e) (ground (arith, other, eq_text_iff path q, lookup_or-erase false path q w.conflicts))
]

pub Moved-IsDistinct :
    (path : Text) (w u : NodeView) → Moved path w u → IsDistinct w.base → IsDistinct u.base
Moved-IsDistinct path w u m d = elim m.bases [
  | inl e ↦ subst (IsDistinct {V = ℕ}) (sym e) d
  | inr (v, e) ↦ subst (IsDistinct {V = ℕ}) (sym e) (insert-IsDistinct path v w.base d)
]

-- The views agree on the versions of the changes' paths.
abbrev pub SameAt : NodeView → NodeView → List Change → Type 0
SameAt nv w cs = All (λ c. base_at w c.path ≡ base_at nv c.path) cs

Moved-SameAt :
    (path : Text) (nv w u : NodeView) (cs : List Change)
    → Moved path w u
    → NotAt path cs
    → SameAt nv w cs
    → SameAt nv u cs
Moved-SameAt path nv w u [] m free same = _
Moved-SameAt path nv w u (c ∷ cs) m (other, free) (e, same) =
    (Moved-base path c.path w u m (λ q. other (sym q)) ∙ e, Moved-SameAt path nv w u cs m free same)

pub run-selected :
    {A : Type 0} (test : A → Bool) (op : A → Op) (x : A) (xs : List A) (h k : Hub)
    → k ≡ (if test x then Versions.step (op x) h else h)
    → Versions.run (map op (select test xs)) k ≡ Versions.run (map op (select test (x ∷ xs))) h
unfolding Versions.run select
run-selected test op x xs h k e = elim (Bool-cases (test x)) [
  | inl yes_ ↦ rw (e, yes_) refl
  | inr no_ ↦ rw (e, no_) refl
]

pub push_changed-hub :
    (now : ℕ) (stamp_of : Map FileStamp) (cs : List Change) (h : Hub) (nv w : NodeView)
    → w.id ≡ nv.id
    → SameAt nv w cs
    → Once cs
    → (push_changed now stamp_of cs h w).hub
      ≡ Versions.run (map (change_op now nv) (select is_clean cs)) h
unfolding push_changed Versions.run select
push_changed-hub now stamp_of [] h nv w i same once = refl
push_changed-hub now stamp_of (c ∷ cs) h nv w i (e, same) (free, once) =
    let s = push_change now stamp_of c h w in
    let m = push_change-Moved now stamp_of c h w in
    let at = push_change-hub now stamp_of c h nv w i e in
    let rest =
      push_changed-hub now stamp_of cs s.hub nv s.view (m.same_id ∙ i)
        (Moved-SameAt c.path nv w s.view cs m free same) once in
    rest ∙ run-selected is_clean (change_op now nv) c cs h s.hub at
