-- ===== src/Workspace/View.antt =====
-- NodeView of internal/workspace/fsutil.go: a directory that follows the hub. `h` is the hub, `disk` the
-- directory; a call that returns an error gives, besides, what it has done until then.
pub mod Scans
pub mod Ops
pub mod Moves
pub mod Outside
pub mod Deletions
pub mod Pushes
pub mod CatchUp
pub mod Marked
pub mod SameEdit
use avairy.Prelude.{
  ℕ, Bool, true, false, ◌||◌, not, List, [], ◌∷◌, ◌++◌, Text, eq_text, Option, none, some, any,
  length, map, if◌then◌else◌,
}
use avairy.Prelude.Map
use avairy.Prelude.Map.{Map}
use avairy.Workspace.Content.{hash_content}
use avairy.Workspace.Hub.{
  FileState, Change, Conflict, PushResult, Hub, push, pull, list_files, default_mode,
}
use avairy.Workspace.Markers.{Edit, has_conflict_markers, merge_markers}
use avairy.Workspace.Ignore.{Ignore}
use avairy.Workspace.Disk.{
  Entry, regular, symlink, unreadable, special, Disk, FileStamp, Stamps, Scanned, scan_changes,
  System, apply_file, stat,
}

pub record NodeView : Type 0 where
  pub id : Text
  pub base : Map ℕ
  pub stamps : Stamps
  pub conflicts : Map Bool

-- NewNodeView
unfoldable pub new_node_view : Text → NodeView
new_node_view id = record { id = id; base = []; stamps = []; conflicts = [] }

-- nv.stamps[path] = stampOf[path], the zero value where it is missing
unfoldable pub copy_stamp : Text → Map FileStamp → NodeView → NodeView
copy_stamp path stamp_of nv = record nv {
  stamps =
      Map.insert path (Map.lookup_or (record { size = 0; mod_nano = 0; hash = 0 }) path stamp_of)
        nv.stamps;
}

-- The loop over stampOf: the stamps of the files whose content has not changed
unfoldable pub refresh_stamps : Map FileStamp → List Change → NodeView → NodeView
refresh_stamps [] changed nv = nv
refresh_stamps ((path, st) ∷ sts) changed nv = refresh_stamps sts changed (
    if any (λ c. eq_text c.path path) changed
    then nv
    else record nv { stamps = Map.insert path st nv.stamps })

pub record Synced : Type 0 where
  pub view : NodeView
  pub hub : Hub
  pub conflicts : List Conflict

-- The switch on the result of a push
unfoldable pub note_result : Text → PushResult → (ℕ → NodeView → NodeView) → Hub → NodeView → Synced
note_result path res on_applied h nv =
    if res.applied
    then record { view = on_applied res.version nv; hub = h; conflicts = [] }
    else record {
      view = nv;
      hub = h;
      conflicts = elim res.conflict [ none ↦ [] | some k ↦ k ∷ [] ];
    }

-- One round of the loop over the changed files
unfoldable pub push_change : ℕ → Map FileStamp → Change → Hub → NodeView → Synced
unfolding copy_stamp note_result
push_change now stamp_of c h nv =
    if has_conflict_markers c.content
    then record {
      view =
          copy_stamp c.path stamp_of
            (record nv { conflicts = Map.insert c.path true nv.conflicts });
      hub = h;
      conflicts = [];
    }
    else (let nv' : NodeView = record nv { conflicts = Map.erase c.path nv.conflicts } in
        let (h', res) = push now nv'.id (record c { base = Map.lookup_or 0 c.path nv'.base }) h in
        note_result c.path res
          (λ v w. copy_stamp c.path stamp_of (record w { base = Map.insert c.path v w.base })) h'
          nv')

unfoldable pub push_changed : ℕ → Map FileStamp → List Change → Hub → NodeView → Synced
unfolding push_change
push_changed now stamp_of [] h nv = record { view = nv; hub = h; conflicts = [] }
push_changed now stamp_of (c ∷ cs) h nv =
    let s = push_change now stamp_of c h nv in
    let rest = push_changed now stamp_of cs s.hub s.view in
    record { view = rest.view; hub = rest.hub; conflicts = s.conflicts ++ rest.conflicts }

-- One round of the loop over nv.base: a path that is neither seen nor held is a deletion
unfoldable pub push_deletion : ℕ → Map Bool → Text → Hub → NodeView → Synced
unfolding note_result
push_deletion now seen path h nv =
    if Map.lookup_or false path seen || Map.lookup_or false path nv.conflicts
    then record { view = nv; hub = h; conflicts = [] }
    else (let (h', res) =
          push now nv.id
            (record {
              path = path;
              content = [];
              mode = 0;
              deleted = true;
              base = Map.lookup_or 0 path nv.base;
            })
            h in
        note_result path res
          (λ v w. record w { base = Map.insert path v w.base; stamps = Map.erase path w.stamps }) h'
          nv)

unfoldable pub push_deletions : ℕ → Map Bool → Map ℕ → Hub → NodeView → Synced
unfolding push_deletion
push_deletions now seen [] h nv = record { view = nv; hub = h; conflicts = [] }
push_deletions now seen ((path, v) ∷ base) h nv =
    let s = push_deletion now seen path h nv in
    let rest = push_deletions now seen base s.hub s.view in
    record { view = rest.view; hub = rest.hub; conflicts = s.conflicts ++ rest.conflicts }

unfoldable pub sync_scanned : ℕ → Scanned → Hub → NodeView → Synced
unfolding refresh_stamps push_changed push_deletions
sync_scanned now sc h nv =
    let s = push_changed now sc.stamp_of sc.changed h (refresh_stamps sc.stamp_of sc.changed nv) in
    let t = push_deletions now sc.seen s.view.base s.hub s.view in
    record { view = t.view; hub = t.hub; conflicts = s.conflicts ++ t.conflicts }

-- NodeView.SyncUp: none where the scan returns an error, and nothing is done
unfoldable pub sync_up : ℕ → Ignore → Disk → Hub → NodeView → Option Synced
unfolding sync_scanned
sync_up now ig disk h nv = elim (scan_changes ig nv.stamps disk) [
  | none ↦ none
  | some sc ↦ some (sync_scanned now sc h nv)
]

-- The view and the directory, and whether there was no error
pub record Applied : Type 0 where
  pub view : NodeView
  pub disk : Disk
  pub ok : Bool

-- The stamp of the file that was written
unfoldable pub restamp : System → FileState → Disk → NodeView → NodeView
unfolding stat
restamp sys f disk nv =
    if f.deleted
    then record nv { stamps = Map.erase f.path nv.stamps }
    else elim (stat sys f.path disk) [
      | none ↦ nv
      | some (size, time) ↦ record nv {
        stamps =
            Map.insert f.path
              (record { size = size; mod_nano = time; hash = hash_content f.content }) nv.stamps;
      }
    ]

-- The loop of SyncDown; a path that is held is left alone
unfoldable pub apply_files : System → List FileState → NodeView → Disk → Applied
unfolding restamp
apply_files sys [] nv disk = record { view = nv; disk = disk; ok = true }
apply_files sys (f ∷ fs) nv disk =
    if Map.lookup_or false f.path nv.conflicts
    then apply_files sys fs nv disk
    else elim (apply_file sys f disk) [
      | none ↦ record { view = nv; disk = disk; ok = false }
      | some d ↦
          apply_files sys fs
            (restamp sys f d (record nv { base = Map.insert f.path f.version nv.base })) d
    ]

-- NodeView.SyncDown
unfoldable pub sync_down : System → Hub → NodeView → Disk → Applied
unfolding apply_files
sync_down sys h nv disk = apply_files sys (pull nv.base h) nv disk

-- NodeView.Base
unfoldable pub base_of : Text → NodeView → ℕ
base_of path nv = Map.lookup_or 0 path nv.base

-- What os.ReadFile finds behind a path, symlinks followed
unfoldable pub read_file : System → Text → Disk → Option Text
read_file sys path disk = elim (Map.lookup (sys.follow path) disk) [
  | none ↦ none
  | some (regular content mode time) ↦ some content
  | some _ ↦ none
]

-- os.WriteFile on a file that exists: its mode stays
unfoldable pub overwrite : System → Text → Text → Disk → Disk
overwrite sys path content disk = elim (Map.lookup (sys.follow path) disk) [
  | some (regular old mode time) ↦ Map.insert (sys.follow path) (regular content mode sys.now) disk
  | _ ↦ disk
]

unfoldable pub hold : Conflict → NodeView → NodeView
hold k nv = record nv {
  conflicts = Map.insert k.path true nv.conflicts;
  base = Map.insert k.path k.hub.version nv.base;
}

unfoldable pub mark_file : System → Conflict → Text → NodeView → Disk → Applied
unfolding overwrite hold stat
mark_file sys k marked nv disk =
    if sys.fails k.path
    then record { view = nv; disk = disk; ok = false }
    else (let d : Disk = overwrite sys k.path marked disk in
        let nv' : NodeView = elim (stat sys k.path d) [
          | none ↦ nv
          | some (size, time) ↦ record nv {
            stamps =
                Map.insert k.path
                  (record { size = size; mod_nano = time; hash = hash_content marked }) nv.stamps;
          }
        ] in
        record { view = hold k nv'; disk = d; ok = true })

-- NodeView.MarkConflict, for the edits from the local to the hub's content; none where the edits are
-- out of range
unfoldable pub mark_conflict :
    System → (Text → Text → List Edit) → Conflict → NodeView → Disk → Option Applied
unfolding read_file mark_file hold
mark_conflict sys diff k nv disk = elim (read_file sys k.path disk) [
  | none ↦ some (record { view = nv; disk = disk; ok = false })
  | some local ↦
      if has_conflict_markers local
      then some (record { view = hold k nv; disk = disk; ok = true })
      else elim (merge_markers (diff local k.hub.content) local k.hub.version) [
        | none ↦ none
        | some marked ↦ some (mark_file sys k marked nv disk)
      ]
]

-- NodeView.LockedPaths
unfoldable pub locked_paths : NodeView → List Text
locked_paths nv = map (λ p. p.0) nv.conflicts

-- NodeView.IsLocked
unfoldable pub is_locked : Text → NodeView → Bool
is_locked path nv = Map.lookup_or false path nv.conflicts

unfoldable pub adopt_files : System → Disk → List FileState → NodeView → NodeView
adopt_files sys disk [] nv = nv
adopt_files sys disk (f ∷ fs) nv =
    adopt_files sys disk fs (elim (Map.lookup (sys.follow f.path) disk) [
      | none ↦ nv
      | some e ↦ record nv { base = Map.insert f.path f.version nv.base }
    ])

-- NodeView.ResumeFromHub
unfoldable pub resume_from_hub : System → Hub → Disk → NodeView → NodeView
unfolding adopt_files
resume_from_hub sys h disk nv = adopt_files sys disk (list_files h) nv
