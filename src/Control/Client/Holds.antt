-- ===== src/Control/Client/Holds.antt =====
-- What internal/control/node.go holds back.
use avairy.Prelude.{
  ℕ, ◌≡◌, ◌≢◌, refl, ap, ◌∙◌, inl, inr, Bool, true, false, ◌||◌, List, [], ◌∷◌, ◌++◌, Text,
  eq_text_iff, Option, some, Option-cases, Bool-cases, arith, All,
}
use avairy.Prelude.Map
use avairy.Prelude.Map.{Map, lookup-insert, lookup-erase}
use avairy.Workspace.Hub.{Change}
use avairy.Workspace.Disk.{Disk, FileStamp, Scanned, System, apply_file, written}
use avairy.Workspace.Markers.{has_conflict_markers}
use avairy.Control.Core.Sync.{PullFile}
use avairy.Control.Client.{Node}
use avairy.Control.Client.Sync.{
  collect, collect_wire, deletions, keep_stamp, refreshed, Outcome, take_files, note_file, file_of,
  sync_down,
}

module _ (p : Text) where
  -- Frozen until the operator decides.
  Frozen : Node → Type 0
  Frozen n = Map.lookup_or false p n.startup_held ≡ true

  Spared : Change → Type 0
  Spared c = c.path ≢ p

  collect-startup_held :
      (stamp_of : Map FileStamp) (cs : List Change) (n : Node)
      → (collect stamp_of cs n).node.startup_held ≡ n.startup_held
  unfolding collect keep_stamp
  collect-startup_held stamp_of [] n = refl
  collect-startup_held stamp_of (c ∷ cs) n = ground (
    arith,
    collect-startup_held stamp_of cs (keep_stamp c.path stamp_of n),
    collect-startup_held stamp_of cs
        (keep_stamp c.path stamp_of (record n { conflicts = Map.insert c.path true n.conflicts })),
    collect-startup_held stamp_of cs (record n { conflicts = Map.erase c.path n.conflicts }),
  )

  collect-Spared :
      (stamp_of : Map FileStamp) (cs : List Change) (n : Node)
      → Frozen n
      → All Spared (collect stamp_of cs n).wire
  unfolding collect keep_stamp Frozen Spared
  collect-Spared stamp_of [] n f = _
  collect-Spared stamp_of (c ∷ cs) n f =
      elim (Bool-cases (Map.lookup_or false c.path n.startup_held)) [
        | inl held ↦
            rw (collect, held) (collect-Spared stamp_of cs (keep_stamp c.path stamp_of n) f)
        | inr loose ↦ elim (Bool-cases (has_conflict_markers c.content)) [
          | inl marked ↦
              rw (collect, loose, marked)
                (collect-Spared stamp_of cs
                  (keep_stamp c.path stamp_of
                    (record n { conflicts = Map.insert c.path true n.conflicts }))
                  f)
          | inr clean ↦
              rw (collect, loose, clean)
                (
                  λ e. ground (arith, loose, f, ap (λ q. Map.lookup_or false q n.startup_held) e),
                  collect-Spared stamp_of cs (record n { conflicts = Map.erase c.path n.conflicts })
                      f,
                )
        ]
      ]

  deletions-Spared :
      (seen : Map Bool) (n : Node) (base : Map ℕ) → Frozen n → All Spared (deletions seen n base)
  unfolding deletions Frozen Spared
  deletions-Spared seen n [] f = _
  deletions-Spared seen n ((path, b) ∷ base) f =
      elim (Bool-cases (
        Map.lookup_or false path seen
        || (Map.lookup_or false path n.conflicts || Map.lookup_or false path n.startup_held))) [
          | inl kept ↦ rw (deletions, kept) (deletions-Spared seen n base f)
          | inr gone ↦
              rw (deletions, gone)
                (
                  λ e. ground (arith, gone, f, ap (λ q. Map.lookup_or false q n.startup_held) e),
                  deletions-Spared seen n base f,
                )
        ]

  apply_file-other :
      (sys : System) (f : PullFile) (disk d : Disk)
      → f.path ≢ p
      → apply_file sys (file_of f) disk ≡ some d
      → Map.lookup p d ≡ Map.lookup p disk
  unfolding apply_file file_of
  apply_file-other sys f disk d other e = ground (
    arith,
    e,
    other,
    eq_text_iff f.path p,
    lookup-erase f.path p disk,
    lookup-insert f.path p (written sys.now (file_of f)) disk,
  )

  note_file-startup_held :
      (sys : System) (f : PullFile) (disk : Disk) (n : Node)
      → (note_file sys f disk n).startup_held ≡ n.startup_held
  unfolding note_file
  note_file-startup_held sys f disk n = ground arith

  -- The path on disk is as it was, and is still frozen.
  record Untouched (disk : Disk) (o : Outcome) : Type 0 where
    on_disk : Map.lookup p o.disk ≡ Map.lookup p disk
    frozen : Frozen o.node

  take_files-Untouched :
      (sys : System) (fs : List PullFile) (n : Node) (disk : Disk)
      → Frozen n
      → Untouched disk (take_files sys fs n disk)
  unfolding take_files Frozen
  take_files-Untouched sys [] n disk f = record { on_disk = refl; frozen = f }
  take_files-Untouched sys (g ∷ fs) n disk f =
      elim (Bool-cases
        (Map.lookup_or false g.path n.conflicts || Map.lookup_or false g.path n.startup_held)) [
          | inl kept ↦ rw (take_files, kept) (take_files-Untouched sys fs n disk f)
          | inr loose ↦ elim (Option-cases (apply_file sys (file_of g) disk)) [
            | inl fails ↦ rw (take_files, loose, fails) (record { on_disk = refl; frozen = f })
            | inr (d, e) ↦
                let other : g.path ≢ p =
                  λ q. ground (arith, loose, f, ap (λ r. Map.lookup_or false r n.startup_held) q) in
                let u =
                  take_files-Untouched sys fs (note_file sys g d n) d
                    (ap (Map.lookup_or false p) (note_file-startup_held sys g d n) ∙ f) in
                rw (take_files, loose, e)
                  (record {
                    on_disk = u.on_disk ∙ apply_file-other sys g disk d other e;
                    frozen = u.frozen;
                  })
          ]
        ]

  sync_down-Untouched :
      (sys : System) (core : Map ℕ → Option (List PullFile)) (n : Node) (disk : Disk)
      → Frozen n
      → Untouched disk (sync_down sys core n disk)
  unfolding sync_down
  sync_down-Untouched sys core n disk f = elim (Option-cases (core n.base)) [
    | inl e ↦ rw (sync_down, e) (record { on_disk = refl; frozen = f })
    | inr (fs, e) ↦ rw (sync_down, e) (take_files-Untouched sys fs n disk f)
  ]

All-append : {A : Type 0} (P : A → Type 0) (xs ys : List A) → All P xs → All P ys → All P (xs ++ ys)
All-append P [] ys a b = b
All-append P (x ∷ xs) ys (a, rest) b = (a, All-append P xs ys rest b)

-- A path that is held since the first sync, for the operator's verdict, is frozen both ways: SyncUp
-- neither posts a change of it, whatever its content, nor its deletion, and SyncDown leaves what is
-- on disk; it stays held.
pub held_frozen :
    (p : Text) (sc : Scanned) (sys : System) (core : Map ℕ → Option (List PullFile)) (n : Node)
    (disk : Disk)
    → Map.lookup_or false p n.startup_held ≡ true
    → let s = collect_wire sc n in
      let o = sync_down sys core n disk in
      All (λ c. c.path ≢ p) s.wire
      × (Map.lookup_or false p s.node.startup_held ≡ true)
      × (Map.lookup p o.disk ≡ Map.lookup p disk)
      × (Map.lookup_or false p o.node.startup_held ≡ true)
unfolding collect_wire Frozen Spared
held_frozen p sc sys core n disk f =
    let s = collect sc.stamp_of sc.changed n in
    let still : Map.lookup_or false p s.node.startup_held ≡ true =
      ap (Map.lookup_or false p) (collect-startup_held p sc.stamp_of sc.changed n) ∙ f in
    let m : Node = record s.node {
      stamps = refreshed sc.stamp_of sc.changed s.node.stamps;
      first_sync = false;
    } in
    let u = sync_down-Untouched p sys core n disk f in
    (
      All-append (λ (c : Change). c.path ≢ p) s.wire (deletions sc.seen m m.base)
          (collect-Spared p sc.stamp_of sc.changed n f) (deletions-Spared p sc.seen m m.base still),
      still,
      u.on_disk,
      u.frozen,
    )
