-- ===== src/Workspace/View/Pushes.antt =====
-- Which pushes SyncUp of internal/workspace/fsutil.go makes.
use avairy.Prelude.{
  ℕ, ◌≡◌, refl, sym, ap, ◌∙◌, inl, inr, Bool, false, List, [], ◌∷◌, ◌++◌, some, Bool-cases, arith,
  subst, map, select,
}
use avairy.Prelude.Map
use avairy.Prelude.Map.{Map, IsDistinct, insert-IsDistinct, lookup_or-insert, lookup_or-erase}
use avairy.Workspace.Hub.{Change, Hub}
use avairy.Workspace.Versions.{Op, pushes, run-append}
use avairy.Workspace.Versions
use avairy.Workspace.Ignore.{Ignore}
use avairy.Workspace.Disk.{Disk, FileStamp, Scanned, scan_changes}
use avairy.Workspace.View.{NodeView, Synced, refresh_stamps, push_changed, sync_scanned, sync_up}
use avairy.Workspace.View.Scans.{sync_up_scan, Sound, scan_changes-Sound}
use avairy.Workspace.View.Ops.{holds_path, is_clean, change_op, deletion_op, is_gone}
use avairy.Workspace.View.Moves.{SameAt, push_changed-hub}
use avairy.Workspace.View.Outside.{is_unseen, Outside, Outside-then, push_changed-Outside}
use avairy.Workspace.View.Deletions.{SameOn, push_deletions-hub}

-- The deletions that the views make are the same, where they agree off the seen paths.
same_deletions :
    (now : ℕ) (seen : Map Bool) (w u : NodeView) (es : Map ℕ)
    → Outside seen w u
    → map (deletion_op now u) (select (is_gone seen u) es)
      ≡ map (deletion_op now w) (select (is_gone seen w) (select (is_unseen seen) es))
unfolding select
same_deletions now seen w u [] o = refl
same_deletions now seen w u ((p, v) ∷ es) o = elim (Bool-cases (Map.lookup_or false p seen)) [
  | inl at ↦ rw (at) (same_deletions now seen w u es o)
  | inr unseen ↦ elim (Bool-cases (holds_path w p)) [
    | inl held ↦ rw (unseen, o.held p unseen, held, unseen) (same_deletions now seen w u es o)
    | inr free ↦
        rw (unseen, o.held p unseen, free, unseen, o.bases p unseen, o.same_id)
          (ap (λ os. deletion_op now w (p, v) ∷ os) (same_deletions now seen w u es o))
  ]
]

same_entries :
    (seen : Map Bool) (w : NodeView) (es : Map ℕ)
    → select (is_gone seen w) (select (is_unseen seen) es) ≡ select (is_gone seen w) es
unfolding select
same_entries seen w [] = refl
same_entries seen w ((p, v) ∷ es) = elim (Bool-cases (Map.lookup_or false p seen)) [
  | inl at ↦ rw (at) (same_entries seen w es)
  | inr unseen ↦ rw (unseen) (rw (same_entries seen w es, unseen) refl)
]

-- The loop over the stamps changes nothing else.
refresh_stamps-same :
    (sts : Map FileStamp) (changed : List Change) (nv : NodeView)
    → ((refresh_stamps sts changed nv).id ≡ nv.id)
      × ((refresh_stamps sts changed nv).base ≡ nv.base)
      × ((refresh_stamps sts changed nv).conflicts ≡ nv.conflicts)
unfolding refresh_stamps
refresh_stamps-same [] changed nv = (refl, refl, refl)
refresh_stamps-same ((path, st) ∷ sts) changed nv =
    let (i, b, k) = refresh_stamps-same sts changed _ in
    (i ∙ ground arith, b ∙ ground arith, k ∙ ground arith)

refresh_stamps-Outside :
    (seen : Map Bool) (sts : Map FileStamp) (changed : List Change) (nv : NodeView)
    → Outside seen nv (refresh_stamps sts changed nv)
refresh_stamps-Outside seen sts changed nv =
    let (i, b, k) = refresh_stamps-same sts changed nv in
    record {
      same_id = i;
      bases = λ q unseen. ap (Map.lookup_or 0 q) b;
      held = λ q unseen. ap (Map.lookup_or false q) k;
      rest = ap (select (is_unseen seen)) b;
      keyed = λ d. subst (IsDistinct {V = ℕ}) (sym b) d;
    }

SameOn-self : (u : NodeView) (es : Map ℕ) → SameOn u u es
SameOn-self u [] = _
SameOn-self u (e ∷ es) = (refl, SameOn-self u es)

SameAt-base : (nv w : NodeView) (cs : List Change) → w.base ≡ nv.base → SameAt nv w cs
SameAt-base nv w [] b = _
SameAt-base nv w (c ∷ cs) b = (ap (Map.lookup_or 0 c.path) b, SameAt-base nv w cs b)

-- What SyncUp pushes after a scan.
abbrev pub sync_ops : ℕ → Scanned → NodeView → List Op
sync_ops now sc nv =
    map (change_op now nv) (select is_clean sc.changed)
    ++ map (deletion_op now nv) (select (is_gone sc.seen nv) nv.base)

sync_scanned-hub :
    (now : ℕ) (sc : Scanned) (h : Hub) (nv : NodeView)
    → Sound sc
    → IsDistinct nv.base
    → (sync_scanned now sc h nv).hub ≡ Versions.run (sync_ops now sc nv) h
unfolding sync_scanned
sync_scanned-hub now sc h nv sound d =
    let r = refresh_stamps sc.stamp_of sc.changed nv in
    let (i, b, k) = refresh_stamps-same sc.stamp_of sc.changed nv in
    let t = push_changed now sc.stamp_of sc.changed h r in
    let o =
      Outside-then sc.seen nv r t.view (refresh_stamps-Outside sc.seen sc.stamp_of sc.changed nv)
        (push_changed-Outside sc.seen now sc.stamp_of sc.changed h r sound.seen) in
    let changes = map (change_op now nv) (select is_clean sc.changed) in
    let gone = map (deletion_op now nv) (select (is_gone sc.seen nv) nv.base) in
    let pushed : t.hub ≡ Versions.run changes h =
      push_changed-hub now sc.stamp_of sc.changed h nv r i (SameAt-base nv r sc.changed b)
        sound.once in
    let deleted : map (deletion_op now t.view) (select (is_gone sc.seen t.view) t.view.base)
        ≡ gone =
      same_deletions now sc.seen nv t.view t.view.base o
      ∙ ap (λ es. map (deletion_op now nv) (select (is_gone sc.seen nv) es)) o.rest
      ∙ ap (map (deletion_op now nv)) (same_entries sc.seen nv nv.base) in
    push_deletions-hub now sc.seen t.view.base t.hub t.view t.view refl refl
      (SameOn-self t.view t.view.base) (o.keyed d)
    ∙ ap (λ os. Versions.run os t.hub) deleted
    ∙ ap (Versions.run gone) pushed
    ∙ sym (run-append changes gone h)

-- Where no path stands twice in the directory or in the node's base, SyncUp's effect on the hub is
-- that of exactly these pushes by its node, in this order, each from the version that the node had
-- for the path before: every changed file that the scan finds without unresolved conflict markers, and
-- then the deletion of every path of the node's base that the scan has not seen and the node does not
-- hold.
pub sync_up_pushes :
    (now : ℕ) (ig : Ignore) (disk : Disk) (h : Hub) (nv : NodeView) (s : Synced)
    → sync_up now ig disk h nv ≡ some s
    → IsDistinct disk
    → IsDistinct nv.base
    → (sc : Scanned) × (scan_changes ig nv.stamps disk ≡ some sc)
      × (s.hub
          ≡ Versions.run
              (map (change_op now nv) (select is_clean sc.changed)
                ++ map (deletion_op now nv) (select (is_gone sc.seen nv) nv.base))
              h)
sync_up_pushes now ig disk h nv s e distinct d =
    let (sc, at, same) = sync_up_scan now ig disk h nv s e in
    (
      sc,
      at,
      ap (λ (t : Synced). t.hub) (sym same)
          ∙ sync_scanned-hub now sc h nv (scan_changes-Sound ig nv.stamps disk sc distinct at) d,
    )
