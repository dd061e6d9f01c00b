-- ===== src/Workspace/View/Marked.antt =====
-- A held file in SyncUp of internal/workspace/fsutil.go.
use avairy.Prelude.{
  ℕ, ◌≡◌, ◌≢◌, refl, sym, ap, ◌∙◌, inl, inr, Bool, true, false, List, [], ◌∷◌, ◌||◌, Text,
  eq_text_iff, Option, some, Option-cases, Bool-cases, arith, if◌then◌else◌, subst, All, u64, ◌+◌,
}
use mathlib.Core.Option.{some_inj}
use avairy.Prelude.Map
use avairy.Prelude.Map.{
  Map, IsDistinct, lookup-insert, lookup-erase, lookup_or-insert, lookup_or-erase,
}
use avairy.Workspace.Content.{hash_content}
use avairy.Workspace.Hub.{Change, PushResult, Hub, push, store, stored}
use avairy.Workspace.Versions.{push-eq-compare_and_set, version_of, normal}
use avairy.Workspace.Markers.{has_conflict_markers}
use avairy.Workspace.Ignore.{Ignore, is_skipped}
use avairy.Workspace.Disk.{
  Entry, regular, Disk, FileStamp, Stamps, Scanned, scan_changes, scan_entry, scan_read, Payload,
  payload, not_synced, read_error, entry_payload, entry_info, passes_gate, same_hash,
}
use avairy.Workspace.View.{
  NodeView, Synced, refresh_stamps, note_result, push_change, push_changed, push_deletion,
  push_deletions, sync_scanned, sync_up, copy_stamp,
}
use avairy.Workspace.View.Scans.{sync_up_scan}

push_other :
    (now : ℕ) (id p : Text) (c : Change) (h : Hub)
    → c.path ≢ p
    → Map.lookup p (push now id c h).0.files ≡ Map.lookup p h.files
unfolding store
push_other now id p c h other = rw (push-eq-compare_and_set now id c h) (
    ground (
      arith,
      other,
      eq_text_iff c.path p,
      lookup-insert c.path p (stored now id (normal c) (u64 (version_of c.path h + 1))) h.files,
    ))

module _ (p : Text) where
  Held : NodeView → Type 0
  Held nv = Map.lookup_or false p nv.conflicts ≡ true

  -- The path is still held, and the hub's file of it is as it was.
  record Stays (h : Hub) (s : Synced) : Type 0 where
    on_hub : Map.lookup p s.hub.files ≡ Map.lookup p h.files
    held : Held s.view

  -- What the scan finds at the path has markers.
  IsMarked : Change → Type 0
  IsMarked c = c.path ≡ p → has_conflict_markers c.content ≡ true

  note_result-Stays :
      (path : Text) (res : PushResult) (f : ℕ → NodeView → NodeView) (h k : Hub) (w : NodeView)
      → Map.lookup p k.files ≡ Map.lookup p h.files
      → Held w
      → ((v : ℕ) (u : NodeView) → (f v u).conflicts ≡ u.conflicts)
      → Stays h (note_result path res f k w)
  unfolding note_result Held
  note_result-Stays path res f h k w same held keeps = elim (Bool-cases res.applied) [
    | inl yes_ ↦
        rw (note_result, yes_)
          (record { on_hub = same; held = ap (Map.lookup_or false p) (keeps res.version w) ∙ held })
    | inr no_ ↦ rw (note_result, no_) (record { on_hub = same; held = held })
  ]

  push_change-Stays :
      (now : ℕ) (stamp_of : Map FileStamp) (c : Change) (h : Hub) (nv : NodeView)
      → IsMarked c
      → Held nv
      → Stays h (push_change now stamp_of c h nv)
  unfolding push_change IsMarked Held
  push_change-Stays now stamp_of c h nv m held =
      elim (Bool-cases (has_conflict_markers c.content)) [
        | inl marked ↦
            rw (push_change, marked)
              (record {
                on_hub = refl;
                held =
                    unfold copy_stamp in
                    ground (arith, held, lookup_or-insert false c.path p true nv.conflicts);
              })
        | inr clean ↦
            let other : c.path ≢ p = λ e. absurd (cc (m e, clean)) in
            let d : Change = record c { base = Map.lookup_or 0 c.path nv.base } in
            let r = push now nv.id d h in
            rw (push_change, clean)
              (note_result-Stays c.path r.1
                (λ v w. copy_stamp c.path stamp_of (record w { base = Map.insert c.path v w.base }))
                h r.0 (record nv { conflicts = Map.erase c.path nv.conflicts })
                (push_other now nv.id p d h other)
                (ground (
                  arith,
                  held,
                  other,
                  eq_text_iff c.path p,
                  lookup_or-erase false c.path p nv.conflicts,
                ))
                (λ v u. unfold copy_stamp in refl))
      ]

  push_changed-Stays :
      (now : ℕ) (stamp_of : Map FileStamp) (cs : List Change) (h : Hub) (nv : NodeView)
      → All IsMarked cs
      → Held nv
      → Stays h (push_changed now stamp_of cs h nv)
  unfolding push_changed
  push_changed-Stays now stamp_of [] h nv ms held = record { on_hub = refl; held = held }
  push_changed-Stays now stamp_of (c ∷ cs) h nv (m, ms) held =
      let s = push_change now stamp_of c h nv in
      let a = push_change-Stays now stamp_of c h nv m held in
      let b = push_changed-Stays now stamp_of cs s.hub s.view ms a.held in
      record { on_hub = b.on_hub ∙ a.on_hub; held = b.held }

  push_deletion-Stays :
      (now : ℕ) (seen : Map Bool) (path : Text) (h : Hub) (nv : NodeView)
      → Held nv
      → Stays h (push_deletion now seen path h nv)
  unfolding push_deletion Held
  push_deletion-Stays now seen path h nv held =
      elim (Bool-cases (Map.lookup_or false path seen || Map.lookup_or false path nv.conflicts)) [
        | inl kept ↦ rw (push_deletion, kept) (record { on_hub = refl; held = held })
        | inr gone ↦
            let other : path ≢ p =
              λ e. ground (arith, gone, ap (λ q. Map.lookup_or false q nv.conflicts) e, held) in
            let d : Change = record {
              path = path;
              content = [];
              mode = 0;
              deleted = true;
              base = Map.lookup_or 0 path nv.base;
            } in
            let r = push now nv.id d h in
            rw (push_deletion, gone)
              (note_result-Stays path r.1
                (λ v w. record w {
                  base = Map.insert path v w.base;
                  stamps = Map.erase path w.stamps;
                })
                h r.0 nv (push_other now nv.id p d h other) held (λ v u. refl))
      ]

  push_deletions-Stays :
      (now : ℕ) (seen : Map Bool) (base : Map ℕ) (h : Hub) (nv : NodeView)
      → Held nv
      → Stays h (push_deletions now seen base h nv)
  unfolding push_deletions
  push_deletions-Stays now seen [] h nv held = record { on_hub = refl; held = held }
  push_deletions-Stays now seen ((path, v) ∷ base) h nv held =
      let s = push_deletion now seen path h nv in
      let a = push_deletion-Stays now seen path h nv held in
      let b = push_deletions-Stays now seen base s.hub s.view a.held in
      record { on_hub = b.on_hub ∙ a.on_hub; held = b.held }

  All-if :
      (b : Bool) (xs ys : List Change)
      → All IsMarked xs
      → All IsMarked ys
      → All IsMarked (if b then xs else ys)
  All-if true xs ys a b = a
  All-if false xs ys a b = b

  -- What the entry would be read as has markers.
  MarkedEntry : Entry → Type 0
  MarkedEntry e =
      (content : Text) (mode : ℕ)
      → entry_payload e ≡ payload content mode
      → has_conflict_markers content ≡ true

  scan_read-Marked :
      (path : Text) (prev : Option FileStamp) (size time : ℕ) (pl : Payload) (s t : Scanned)
      → ((content : Text) (mode : ℕ)
          → pl ≡ payload content mode
          → path ≡ p
          → has_conflict_markers content ≡ true)
      → All IsMarked s.changed
      → scan_read path prev size time pl s ≡ some t
      → All IsMarked t.changed
  unfolding scan_read IsMarked
  scan_read-Marked path prev size time not_synced s t m a e =
      subst {A = Scanned} (λ u. All IsMarked u.changed) (some_inj.0 e) a
  scan_read-Marked path prev size time read_error s t m a e = absurd (cc e)
  scan_read-Marked path prev size time (payload content mode) s t m a e =
      subst {A = Scanned} (λ u. All IsMarked u.changed) (some_inj.0 e)
        (All-if (same_hash prev (hash_content content)) _ _ a (m content mode refl, a))

  scan_entry-Marked :
      (ig : Ignore) (prev : Stamps) (path : Text) (en : Entry) (s t : Scanned)
      → (path ≡ p → MarkedEntry en)
      → All IsMarked s.changed
      → scan_entry ig prev path en s ≡ some t
      → All IsMarked t.changed
  unfolding scan_entry MarkedEntry
  scan_entry-Marked ig prev path en s t m a e = elim (Bool-cases (is_skipped ig path)) [
    | inl skipped ↦
        subst {A = Scanned} (λ u. All IsMarked u.changed)
          ((some_inj {a = s} {b = t}).0 (ground (arith, skipped, e))) a
    | inr walked ↦ elim (Option-cases (entry_info en)) [
      | inl nothing ↦
          subst {A = Scanned} (λ u. All IsMarked u.changed)
            ((some_inj {a = s} {b = t}).0 (ground (arith, walked, nothing, e))) a
      | inr ((size, time), info) ↦
          elim (Bool-cases (passes_gate (Map.lookup path prev) size time)) [
            | inl gate ↦
                let s' : Scanned = record s { seen = Map.insert path true s.seen } in
                subst {A = Scanned} (λ u. All IsMarked u.changed)
                  ((some_inj {a = s'} {b = t}).0 (ground (arith, walked, info, gate, e))) a
            | inr read ↦
                let s' : Scanned = record s { seen = Map.insert path true s.seen } in
                scan_read-Marked path (Map.lookup path prev) size time (entry_payload en) s' t
                  (λ content mode q here. m here content mode q) a
                  (ground (arith, walked, info, read, e))
          ]
    ]
  ]

  regular-MarkedEntry :
      (content : Text) (mode time : ℕ)
      → has_conflict_markers content ≡ true
      → MarkedEntry (regular content mode time)
  unfolding MarkedEntry entry_payload
  regular-MarkedEntry content mode time marked c m e = cc (marked, e)

  conflicts-refresh_stamps :
      (sts : Map FileStamp) (changed : List Change) (nv : NodeView)
      → (refresh_stamps sts changed nv).conflicts ≡ nv.conflicts
  unfolding refresh_stamps
  conflicts-refresh_stamps [] changed nv = refl
  conflicts-refresh_stamps ((path, st) ∷ sts) changed nv =
      conflicts-refresh_stamps sts changed _ ∙ ground arith

  sync_scanned-Stays :
      (now : ℕ) (sc : Scanned) (h : Hub) (nv : NodeView)
      → All IsMarked sc.changed
      → Held nv
      → Stays h (sync_scanned now sc h nv)
  unfolding sync_scanned Held
  sync_scanned-Stays now sc h nv ms held =
      let r = refresh_stamps sc.stamp_of sc.changed nv in
      let t = push_changed now sc.stamp_of sc.changed h r in
      let a =
        push_changed-Stays now sc.stamp_of sc.changed h r ms (
          ap (Map.lookup_or false p) (conflicts-refresh_stamps sc.stamp_of sc.changed nv) ∙ held) in
      let b = push_deletions-Stays now sc.seen t.view.base t.hub t.view a.held in
      record { on_hub = b.on_hub ∙ a.on_hub; held = b.held }

  scan_changes-Marked :
      (ig : Ignore) (prev : Stamps) (disk : Disk) (t : Scanned)
      → IsDistinct disk
      → ((en : Entry) → Map.lookup p disk ≡ some en → MarkedEntry en)
      → scan_changes ig prev disk ≡ some t
      → All IsMarked t.changed
  unfolding scan_changes IsDistinct Map.lookup
  scan_changes-Marked ig prev [] t d m e =
      subst {A = Scanned} (λ u. All IsMarked u.changed) (some_inj.0 e) _
  scan_changes-Marked ig prev ((path, en) ∷ disk) t (free, d) m e =
      elim (Option-cases (scan_changes ig prev disk)) [
        | inl failed ↦ absurd (cc (e, failed))
        | inr (s, at) ↦
            scan_entry-Marked ig prev path en s t
              (λ here. m en (ground (arith, here, eq_text_iff path p)))
              (scan_changes-Marked ig prev disk s d
                (λ en' found. m en' (ground (arith, found, free, eq_text_iff path p))) at)
              (ground (arith, e, at))
      ]

-- A file that is held, and whose content on disk still has its conflict markers, is not pushed by
-- SyncUp, nor taken for a deletion: the hub's file of the path is as it was, and the path is still
-- held.
pub marked_not_pushed :
    (now : ℕ) (ig : Ignore) (disk : Disk) (h : Hub) (nv : NodeView) (s : Synced) (p content : Text)
    (mode time : ℕ)
    → sync_up now ig disk h nv ≡ some s
    → IsDistinct disk
    → Map.lookup p disk ≡ some (regular content mode time)
    → has_conflict_markers content ≡ true
    → Map.lookup_or false p nv.conflicts ≡ true
    → (Map.lookup p s.hub.files ≡ Map.lookup p h.files)
      × (Map.lookup_or false p s.view.conflicts ≡ true)
unfolding Held
marked_not_pushed now ig disk h nv s p content mode time e d at marked held =
    let (sc, scan_at, same) = sync_up_scan now ig disk h nv s e in
    let ms =
      scan_changes-Marked p ig nv.stamps disk sc d
        (λ en found.
          subst (MarkedEntry p) (some_inj.0 (sym at ∙ found))
            (regular-MarkedEntry p content mode time marked))
        scan_at in
    let r = sync_scanned-Stays p now sc h nv ms held in
    subst {A = Synced}
      (λ t.
        (Map.lookup p t.hub.files ≡ Map.lookup p h.files)
        × (Map.lookup_or false p t.view.conflicts ≡ true))
      same (r.on_hub, r.held)
