-- ===== src/Control/Client/Reconcile.antt =====
-- Resync, ResumeFromHub, ApplyUnlocks and ApplyDirective of internal/control/node.go, and its calls that
-- only relay.
use avairy.Prelude.{
  ℕ, Bool, true, false, List, [], ◌∷◌, Text, codes, eq_text, Option, none, some, if◌then◌else◌,
  ◌==◌, ◌>>=◌,
}
use avairy.Prelude.Map
use avairy.Prelude.Map.{Map}
use avairy.Workspace.Hub.{ManifestEntry, no_file}
use avairy.Workspace.Markers.{Edit}
use avairy.Workspace.Ignore.{Ignore}
use avairy.Workspace.Disk.{Disk, FileStamp, Scanned, scan_changes, System, apply_file}
use avairy.Control.Core.Sync.{SyncResult, PullFile}
use avairy.Control.Core.Relay.{InboxMessage}
use avairy.Control.Client.{Node}
use avairy.Control.Client.Sync.{Outcome, sync_down, mark_conflict}

failed : Node → Disk → Outcome
failed n disk = record { node = n; disk = disk; conflicts = []; ok = false }

unlock_paths : List Text → Node → Node
unlock_paths [] n = n
unlock_paths (p ∷ ps) n =
    unlock_paths ps
      (record n { conflicts = Map.erase p n.conflicts; startup_held = Map.erase p n.startup_held })

-- Node.ApplyUnlocks
unfoldable pub apply_unlocks :
    System → (Map ℕ → Option (List PullFile)) → List Text → Node → Disk → Outcome
unfolding unlock_paths
apply_unlocks sys core [] n disk = record { node = n; disk = disk; conflicts = []; ok = true }
apply_unlocks sys core (p ∷ ps) n disk = sync_down sys core (unlock_paths (p ∷ ps) n) disk

adopt_files : System → Disk → List PullFile → Node → Node
adopt_files sys disk [] n = n
adopt_files sys disk (f ∷ fs) n = adopt_files sys disk fs (
    if f.deleted then n else elim (Map.lookup (sys.follow f.path) disk) [
      | none ↦ n
      | some e ↦ record n { base = Map.insert f.path f.version n.base }
    ])

-- Node.ResumeFromHub, for what core answers to a pull from nothing
unfoldable pub resume_from_hub : System → Option (List PullFile) → Disk → Node → Node × Bool
unfolding adopt_files
resume_from_hub sys none disk n = (n, false)
resume_from_hub sys (some files) disk n = (adopt_files sys disk files n, true)

manifest_map : List ManifestEntry → Map ManifestEntry → Map ManifestEntry
manifest_map [] m = m
manifest_map (e ∷ es) m = manifest_map es (Map.insert e.path e m)

-- A path whose local content has the manifest's checksum is adopted.
unfoldable pub adopt_entry : Map FileStamp → Text → ManifestEntry → Node → Node
adopt_entry stamp_of path e n = elim (Map.lookup path stamp_of) [
  | none ↦ n
  | some st ↦
      if st.hash == e.checksum
      then record n {
        base = Map.insert path e.version n.base;
        stamps = Map.insert path st n.stamps;
      }
      else n
]

unfoldable pub adopt_entries : Map FileStamp → Map ManifestEntry → Node → Node
unfolding adopt_entry
adopt_entries stamp_of [] n = n
adopt_entries stamp_of ((path, e) ∷ m) n = adopt_entries stamp_of m (adopt_entry stamp_of path e n)

-- The local files that the hub does not have are deleted; a failure stops it.
unfoldable pub delete_strays : System → Map ManifestEntry → Map Bool → Disk → Disk × Bool
delete_strays sys manifest [] disk = (disk, true)
delete_strays sys manifest ((path, b) ∷ seen) disk = elim (Map.lookup path manifest) [
  | some e ↦ delete_strays sys manifest seen disk
  | none ↦ elim (apply_file sys (record no_file { path = path; deleted = true }) disk) [
    | none ↦ (disk, false)
    | some d ↦ delete_strays sys manifest seen d
  ]
]

unfoldable pub reset_sync : Node → Node
reset_sync n = record n { base = []; stamps = []; conflicts = []; startup_held = [] }

-- Resync behind its scan
unfoldable pub resync_scanned :
    System → (Map ℕ → Option (List PullFile)) → Map ManifestEntry → Scanned → Node → Disk → Outcome
unfolding adopt_entries delete_strays reset_sync failed
resync_scanned sys core manifest sc n disk =
    let m : Node = adopt_entries sc.stamp_of manifest (reset_sync n) in
    let (d, deleted) = delete_strays sys manifest sc.seen disk in
    if deleted then sync_down sys core m d else failed m d

-- Node.Resync
unfoldable pub resync :
    System
    → Ignore
    → Option (List ManifestEntry)
    → (Map ℕ → Option (List PullFile))
    → Node
    → Disk
    → Outcome
unfolding manifest_map resync_scanned failed
resync sys ig none core n disk = failed n disk
resync sys ig (some entries) core n disk = elim (scan_changes ig [] disk) [
  | none ↦ failed n disk
  | some sc ↦ resync_scanned sys core (manifest_map entries []) sc n disk
]

-- ConflictResync and ConflictResolve of internal/control/conflicts.go
abbrev pub conflict_resync : Text
conflict_resync = codes "resync"

abbrev pub conflict_resolve : Text
conflict_resolve = codes "resolve"

unfoldable pub mark_all :
    System → (Text → Text → List Edit) → List SyncResult → Node → Disk → Option (Node × Disk)
mark_all sys diff [] n disk = some (n, disk)
mark_all sys diff (r ∷ rs) n disk = do
  (m, d) ← mark_conflict sys diff r n disk
  mark_all sys diff rs m d

unfoldable pub release : Node → Node
release n = record n { held = []; startup_held = [] }

-- Node.ApplyDirective
unfoldable pub apply_directive :
    System
    → (Text → Text → List Edit)
    → Ignore
    → Option (List ManifestEntry)
    → (Map ℕ → Option (List PullFile))
    → Text
    → Node
    → Disk
    → Option Outcome
unfolding resync mark_all release
apply_directive sys diff ig manifest core directive n disk =
    if eq_text directive conflict_resync
    then some (resync sys ig manifest core (release n) disk)
    else if eq_text directive conflict_resolve
    then (do
      (m, d) ← mark_all sys diff n.held (release n) disk
      some (record { node = m; disk = d; conflicts = []; ok = true }))
    else some (record { node = n; disk = disk; conflicts = []; ok = true })

-- Node.PullInbox
unfoldable pub pull_inbox : (Text → Option (List InboxMessage)) → Text → Option (List InboxMessage)
pull_inbox core agent = core agent

-- Node.PostEvents: nothing is posted where there is no event
unfoldable pub post_events : {E : Type 0} → (List E → Bool) → List E → Bool
post_events core [] = true
post_events core (e ∷ es) = core (e ∷ es)
