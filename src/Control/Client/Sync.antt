-- ===== src/Control/Client/Sync.antt =====
-- SyncUp, SyncDown, Resync, ResumeFromHub, ApplyUnlocks and ApplyDirective of internal/control/node.go.
-- The arguments `core` are what core answers to the request, none where the post fails. A panic of
-- MergeMarkers, on edits out of range, is none of the whole.
use avairy.Prelude.{
  ℕ, Bool, true, false, ◌||◌, List, [], ◌∷◌, ◌++◌, Text, eq_text, Option, none, some, any,
  if◌then◌else◌, ◌>>=◌,
}
use avairy.Prelude.Map
use avairy.Prelude.Map.{Map}
use avairy.Workspace.Content.{hash_content}
use avairy.Workspace.Hub.{FileState, Change, no_file}
use avairy.Workspace.Markers.{Edit, has_conflict_markers, merge_markers}
use avairy.Workspace.Ignore.{Ignore}
use avairy.Workspace.Disk.{Disk, FileStamp, Stamps, Scanned, scan_changes, System, apply_file, stat}
use avairy.Workspace.View.{read_file, overwrite}
use avairy.Control.Core.Sync.{PushRequest, SyncResult, PullFile}
use avairy.Control.Client.{Node}

pub record Collected : Type 0 where
  pub node : Node
  pub wire : List Change

unfoldable pub keep_stamp : Text → Map FileStamp → Node → Node
keep_stamp path stamp_of n = record n {
  stamps =
      Map.insert path (Map.lookup_or (record { size = 0; mod_nano = 0; hash = 0 }) path stamp_of)
        n.stamps;
}

-- The loop over the changed files
unfoldable pub collect : Map FileStamp → List Change → Node → Collected
unfolding keep_stamp
collect stamp_of [] n = record { node = n; wire = [] }
collect stamp_of (c ∷ cs) n =
    if Map.lookup_or false c.path n.startup_held
    then collect stamp_of cs (keep_stamp c.path stamp_of n)
    else if has_conflict_markers c.content
    then collect stamp_of cs
        (keep_stamp c.path stamp_of (record n { conflicts = Map.insert c.path true n.conflicts }))
    else (let rest = collect stamp_of cs (record n { conflicts = Map.erase c.path n.conflicts }) in
        record {
          node = rest.node;
          wire = record c { base = Map.lookup_or 0 c.path n.base } ∷ rest.wire;
        })

unfoldable pub refreshed : Map FileStamp → List Change → Stamps → Stamps
refreshed [] changed stamps = stamps
refreshed ((path, st) ∷ sts) changed stamps =
    refreshed sts changed
      (if any (λ c. eq_text c.path path) changed then stamps else Map.insert path st stamps)

-- The loop over n.base: a path that is neither seen nor held is a deletion
unfoldable pub deletions : Map Bool → Node → Map ℕ → List Change
deletions seen n [] = []
deletions seen n ((path, b) ∷ base) =
    let rest = deletions seen n base in
    if Map.lookup_or false path seen
      || (Map.lookup_or false path n.conflicts || Map.lookup_or false path n.startup_held)
    then rest
    else record { path = path; content = []; mode = 0; deleted = true; base = b } ∷ rest

-- SyncUp up to its post: the node and the changes
unfoldable pub collect_wire : Scanned → Node → Collected
unfolding collect refreshed deletions
collect_wire sc n =
    let s = collect sc.stamp_of sc.changed n in
    let m : Node = record s.node {
      stamps = refreshed sc.stamp_of sc.changed s.node.stamps;
      first_sync = false;
    } in
    record { node = m; wire = s.wire ++ deletions sc.seen m m.base }

-- The node and the directory, with the conflicts that are returned, and whether there was no error
pub record Outcome : Type 0 where
  pub node : Node
  pub disk : Disk
  pub conflicts : List SyncResult
  pub ok : Bool

unfoldable pub lock_path : System → SyncResult → Text → Node → Disk → Node
lock_path sys r marked n disk =
    let m : Node = record n {
      conflicts = Map.insert r.path true n.conflicts;
      base = Map.insert r.path r.hub_version n.base;
    } in
    elim (stat sys r.path disk) [
      | none ↦ m
      | some (size, time) ↦ record m {
        stamps =
            Map.insert r.path (record { size = size; mod_nano = time; hash = hash_content marked })
              m.stamps;
      }
    ]

-- Node.markConflict
unfoldable pub mark_conflict :
    System → (Text → Text → List Edit) → SyncResult → Node → Disk → Option (Node × Disk)
unfolding lock_path
mark_conflict sys diff r n disk = elim (read_file sys r.path disk) [
  | none ↦ some (n, disk)
  | some local ↦ do
    marked ← merge_markers (diff local r.hub_content) local r.hub_version
    if sys.fails r.path
        then some (n, disk)
        else (let d : Disk = overwrite sys r.path marked disk in
            some (lock_path sys r marked n d, d))
]

unfoldable pub note_applied : Map FileStamp → SyncResult → Node → Node
note_applied stamp_of r n = record n {
  base = Map.insert r.path r.version n.base;
  stamps = elim (Map.lookup r.path stamp_of) [
    | none ↦ Map.erase r.path n.stamps
    | some st ↦ Map.insert r.path st n.stamps
  ];
}

unfoldable pub hold_path : SyncResult → Node → Node
hold_path r n = record n {
  startup_held = Map.insert r.path true n.startup_held;
  held = n.held ++ (r ∷ []);
}

-- The loop over the results
unfoldable pub note_results :
    System
    → (Text → Text → List Edit)
    → Bool
    → Map FileStamp
    → List SyncResult
    → Node
    → Disk
    → Option Outcome
unfolding mark_conflict note_applied hold_path
note_results sys diff first stamp_of [] n disk =
    some (record { node = n; disk = disk; conflicts = []; ok = true })
note_results sys diff first stamp_of (r ∷ rs) n disk =
    if r.applied
    then note_results sys diff first stamp_of rs (note_applied stamp_of r n) disk
    else if r.conflict
    then (if first
        then (do
          rest ← note_results sys diff first stamp_of rs (hold_path r n) disk
          some (record rest { conflicts = r ∷ rest.conflicts }))
        else (do
          (m, d) ← mark_conflict sys diff r n disk
          rest ← note_results sys diff first stamp_of rs m d
          some (record rest { conflicts = r ∷ rest.conflicts })))
    else note_results sys diff first stamp_of rs n disk

unfoldable pub post_wire :
    System
    → (Text → Text → List Edit)
    → (PushRequest → Option (List SyncResult))
    → Bool
    → Scanned
    → Collected
    → Disk
    → Option Outcome
unfolding note_results
post_wire sys diff core first sc s disk = elim s.wire [
  | [] ↦ some (record { node = s.node; disk = disk; conflicts = []; ok = true })
  | _ ∷ _ ↦ elim (core (record { changes = s.wire; first_sync = first })) [
    | none ↦ some (record { node = s.node; disk = disk; conflicts = []; ok = false })
    | some results ↦ note_results sys diff first sc.stamp_of results s.node disk
  ]
]

-- Node.SyncUp
unfoldable pub sync_up :
    System
    → (Text → Text → List Edit)
    → Ignore
    → (PushRequest → Option (List SyncResult))
    → Node
    → Disk
    → Option Outcome
unfolding collect_wire post_wire
sync_up sys diff ig core n disk = elim (scan_changes ig n.stamps disk) [
  | none ↦ some (record { node = n; disk = disk; conflicts = []; ok = false })
  | some sc ↦ post_wire sys diff core n.first_sync sc (collect_wire sc n) disk
]

unfoldable pub file_of : PullFile → FileState
file_of f = record no_file {
  path = f.path;
  content = f.content;
  mode = f.mode;
  version = f.version;
  deleted = f.deleted;
}

unfoldable pub note_file : System → PullFile → Disk → Node → Node
note_file sys f disk n =
    let m : Node = record n { base = Map.insert f.path f.version n.base } in
    if f.deleted
    then record m { stamps = Map.erase f.path m.stamps }
    else elim (stat sys f.path disk) [
      | none ↦ m
      | some (size, time) ↦ record m {
        stamps =
            Map.insert f.path
              (record { size = size; mod_nano = time; hash = hash_content f.content }) m.stamps;
      }
    ]

-- The loop of SyncDown; a path that is locked or held is left alone
unfoldable pub take_files : System → List PullFile → Node → Disk → Outcome
unfolding note_file file_of
take_files sys [] n disk = record { node = n; disk = disk; conflicts = []; ok = true }
take_files sys (f ∷ fs) n disk =
    if Map.lookup_or false f.path n.conflicts || Map.lookup_or false f.path n.startup_held
    then take_files sys fs n disk
    else elim (apply_file sys (file_of f) disk) [
      | none ↦ record { node = n; disk = disk; conflicts = []; ok = false }
      | some d ↦ take_files sys fs (note_file sys f d n) d
    ]

-- Node.SyncDown
unfoldable pub sync_down : System → (Map ℕ → Option (List PullFile)) → Node → Disk → Outcome
unfolding take_files
sync_down sys core n disk = elim (core n.base) [
  | none ↦ record { node = n; disk = disk; conflicts = []; ok = false }
  | some files ↦ take_files sys files n disk
]
