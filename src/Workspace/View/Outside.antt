-- ===== src/Workspace/View/Outside.antt =====
-- What SyncUp of internal/workspace/fsutil.go leaves of the paths that it has not seen.
use avairy.Prelude.{
  ℕ, ◌≡◌, ◌≢◌, refl, ap, ◌∙◌, inl, inr, Bool, false, not, List, [], ◌∷◌, Text, eq_text, eq_text_iff,
  Bool-cases, arith, All, select,
}
use avairy.Prelude.Map
use avairy.Prelude.Map.{Map, IsDistinct, insert-IsDistinct, lookup_or-insert, lookup_or-erase}
use avairy.Workspace.Hub.{Change, Hub}
use avairy.Workspace.Disk.{FileStamp}
use avairy.Workspace.View.{NodeView, push_change, push_changed}
use avairy.Workspace.View.Scans.{IsSeen}
use avairy.Workspace.View.Ops.{base_at, holds_path}
use avairy.Workspace.View.Moves.{Moved, push_change-Moved, Moved-base, Moved-held, Moved-IsDistinct}

abbrev pub is_unseen : Map Bool → Text × ℕ → Bool
is_unseen seen e = not (Map.lookup_or false e.0 seen)

-- The views agree off the paths that the scan has seen.
pub record Outside (seen : Map Bool) (w u : NodeView) : Type 0 where
  pub same_id : u.id ≡ w.id
  pub bases : (q : Text) → Map.lookup_or false q seen ≡ false → base_at u q ≡ base_at w q
  pub held : (q : Text) → Map.lookup_or false q seen ≡ false → holds_path u q ≡ holds_path w q
  pub rest : select (is_unseen seen) u.base ≡ select (is_unseen seen) w.base
  pub keyed : IsDistinct w.base → IsDistinct u.base

select-insert :
    (seen : Map Bool) (p : Text) (v : ℕ) (m : Map ℕ)
    → IsSeen seen p
    → select (is_unseen seen) (Map.insert p v m) ≡ select (is_unseen seen) m
unfolding select Map.insert
select-insert seen p v [] h = rw (h) refl
select-insert seen p v ((q, x) ∷ m) h = elim (Bool-cases (eq_text q p)) [
  | inl same ↦ rw (same, h, (eq_text_iff q p).0 same, h) refl
  | inr other ↦ rw (other, select-insert seen p v m h) refl
]

Moved-Outside :
    (seen : Map Bool) (path : Text) (w u : NodeView)
    → IsSeen seen path
    → Moved path w u
    → Outside seen w u
Moved-Outside seen path w u h m = record {
  same_id = m.same_id;
  bases = λ q unseen. Moved-base path q w u m (apart q unseen);
  held = λ q unseen. Moved-held path q w u m (apart q unseen);
  rest = elim m.bases [
    | inl e ↦ ap (select (is_unseen seen)) e
    | inr (v, e) ↦ ap (select (is_unseen seen)) e ∙ select-insert seen path v w.base h
  ];
  keyed = Moved-IsDistinct path w u m;
}
  where
    apart : (q : Text) → Map.lookup_or false q seen ≡ false → path ≢ q
    apart q unseen e = ground (arith, h, unseen, ap (λ p. Map.lookup_or false p seen) e)

pub Outside-then :
    (seen : Map Bool) (v w u : NodeView) → Outside seen v w → Outside seen w u → Outside seen v u
Outside-then seen v w u a b = record {
  same_id = b.same_id ∙ a.same_id;
  bases = λ q unseen. b.bases q unseen ∙ a.bases q unseen;
  held = λ q unseen. b.held q unseen ∙ a.held q unseen;
  rest = b.rest ∙ a.rest;
  keyed = λ d. b.keyed (a.keyed d);
}

pub push_changed-Outside :
    (seen : Map Bool) (now : ℕ) (stamp_of : Map FileStamp) (cs : List Change) (h : Hub)
    (w : NodeView)
    → All (λ (c : Change). IsSeen seen c.path) cs
    → Outside seen w (push_changed now stamp_of cs h w).view
unfolding push_changed
push_changed-Outside seen now stamp_of [] h w all_seen = record {
  same_id = refl;
  bases = λ q unseen. refl;
  held = λ q unseen. refl;
  rest = refl;
  keyed = λ d. d;
}
push_changed-Outside seen now stamp_of (c ∷ cs) h w (at, all_seen) =
    let s = push_change now stamp_of c h w in
    Outside-then seen w s.view (push_changed now stamp_of cs s.hub s.view).view
      (Moved-Outside seen c.path w s.view at (push_change-Moved now stamp_of c h w))
      (push_changed-Outside seen now stamp_of cs s.hub s.view all_seen)
