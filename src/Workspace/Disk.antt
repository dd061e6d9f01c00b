-- ===== src/Workspace/Disk.antt =====
-- A node's directory, and Scan, ScanChanges and ApplyFile of internal/workspace/fsutil.go. The
-- directory maps the relative path of each entry that is not a directory to it; the order of the map
-- is that of the walk. Empty directories, which ApplyFile makes and prunes, are left out.
use avairy.Prelude.{
  ℕ, ◌+◌, ◌/◌, ◌%◌, ◌^◌, Bool, true, false, ◌&&◌, List, [], ◌∷◌, Text, Option, none, some, length,
  ◌==◌, if◌then◌else◌, ◌>>=◌,
}
use avairy.Prelude.Map
use avairy.Prelude.Map.{Map}
use avairy.Workspace.Content.{hash_content}
use avairy.Workspace.Hub.{FileState, Change, default_mode}
use avairy.Workspace.Ignore.{Ignore, is_skipped}

-- A regular file with its permissions, a symlink, a file that cannot be read, or a socket or a device;
-- with the time of its last change.
pub data Entry : Type 0 where
  regular : Text → ℕ → ℕ → Entry
  symlink : Text → ℕ → Entry
  unreadable : ℕ → ℕ → Entry
  special : Entry

abbrev pub Disk : Type 0
Disk = Map Entry

-- fs.ModeSymlink
abbrev pub mode_symlink : ℕ
mode_symlink = 2 ^ 27

-- f.Mode & fs.ModeSymlink != 0
unfoldable pub is_symlink : ℕ → Bool
is_symlink mode = (mode / mode_symlink) % 2 == 1

-- Mode.Perm
unfoldable pub perm : ℕ → ℕ
perm mode = mode % 512

-- What entryPayload returns: content and mode, nothing to sync, or an error.
pub data Payload : Type 0 where
  payload : Text → ℕ → Payload
  not_synced : Payload
  read_error : Payload

-- entryPayload
unfoldable pub entry_payload : Entry → Payload
entry_payload (regular content mode modified) = payload content mode
entry_payload (symlink target modified) = payload target (mode_symlink + 511)
entry_payload (unreadable size modified) = read_error
entry_payload special = not_synced

abbrev pub scanned_change : Text → Text → ℕ → Change
scanned_change path content mode = record {
  path = path;
  content = content;
  mode = mode;
  deleted = false;
  base = 0;
}

-- Scan: none where an entry cannot be read
unfoldable pub scan : Ignore → Disk → Option (List Change)
unfolding entry_payload
scan ig [] = some []
scan ig ((path, e) ∷ disk) =
    let rest = scan ig disk in
    if is_skipped ig path then rest else elim (entry_payload e) [
      | payload content mode ↦ do cs ← rest; some (scanned_change path content mode ∷ cs)
      | not_synced ↦ rest
      | read_error ↦ none
    ]

pub record FileStamp : Type 0 where
  pub size : ℕ
  pub mod_nano : ℕ
  pub hash : ℕ

abbrev pub Stamps : Type 0
Stamps = Map FileStamp

-- What lstat tells of an entry that is synced: its size and time.
unfoldable pub entry_info : Entry → Option (ℕ × ℕ)
entry_info (regular content mode modified) = some (length content, modified)
entry_info (symlink target modified) = some (length target, modified)
entry_info (unreadable size modified) = some (size, modified)
entry_info special = none

pub record Scanned : Type 0 where
  pub changed : List Change
  pub stamp_of : Map FileStamp
  pub seen : Map Bool

-- The cheap gate: size and time as in the stamp
unfoldable pub passes_gate : Option FileStamp → ℕ → ℕ → Bool
passes_gate none size modified = false
passes_gate (some st) size modified = st.size == size && st.mod_nano == modified

unfoldable pub same_hash : Option FileStamp → ℕ → Bool
same_hash none hash = false
same_hash (some st) hash = st.hash == hash

-- The part of the walk function behind the gate
unfoldable pub scan_read : Text → Option FileStamp → ℕ → ℕ → Payload → Scanned → Option Scanned
unfolding same_hash
scan_read path prev size modified not_synced s = some s
scan_read path prev size modified read_error s = none
scan_read path prev size modified (payload content mode) s =
    let hash : ℕ = hash_content content in
    let st : FileStamp = record { size = size; mod_nano = modified; hash = hash } in
    some (record {
      changed =
          if same_hash prev hash then s.changed else scanned_change path content mode ∷ s.changed;
      stamp_of = Map.insert path st s.stamp_of;
      seen = s.seen;
    })

-- The walk function on one entry, with what the rest of the walk gives
unfoldable pub scan_entry : Ignore → Stamps → Text → Entry → Scanned → Option Scanned
unfolding entry_info scan_read passes_gate entry_payload
scan_entry ig prev path e s = if is_skipped ig path then some s else elim (entry_info e) [
  | none ↦ some s
  | some (size, modified) ↦
      let s' : Scanned = record s { seen = Map.insert path true s.seen } in
      if passes_gate (Map.lookup path prev) size modified
      then some s'
      else scan_read path (Map.lookup path prev) size modified (entry_payload e) s'
]

-- ScanChanges: none where it returns an error
unfoldable pub scan_changes : Ignore → Stamps → Disk → Option Scanned
unfolding scan_entry
scan_changes ig prev [] = some (record { changed = []; stamp_of = []; seen = [] })
scan_changes ig prev ((path, e) ∷ disk) = do
  rest ← scan_changes ig prev disk
  scan_entry ig prev path e rest

-- The time, the paths on which a write fails, and where the system ends up that follows the symlinks
-- from a path.
pub record System : Type 0 where
  pub now : ℕ
  pub fails : Text → Bool
  pub follow : Text → Text

-- The entry that ApplyFile writes
unfoldable pub written : ℕ → FileState → Entry
unfolding is_symlink perm
written now f =
    if is_symlink f.mode
    then symlink f.content now
    else regular f.content (if perm f.mode == 0 then default_mode else perm f.mode) now

-- ApplyFile: none where it returns an error
unfoldable pub apply_file : System → FileState → Disk → Option Disk
unfolding written
apply_file sys f disk =
    if sys.fails f.path
    then none
    else if f.deleted
    then some (Map.erase f.path disk)
    else some (Map.insert f.path (written sys.now f) disk)

-- os.Stat, which follows symlinks
unfoldable pub stat : System → Text → Disk → Option (ℕ × ℕ)
unfolding entry_info
stat sys path disk = elim (Map.lookup (sys.follow path) disk) [
  | none ↦ none
  | some e ↦ entry_info e
]
