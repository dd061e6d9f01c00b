-- ===== src/Workspace/Hub.antt =====
-- Hub of internal/workspace/hub.go and its snapshots of internal/workspace/persist.go. `now` is the
-- time.Now() of the call; each operation is one step under the hub's lock.
use avairy.Prelude.{
  ℕ, ◌+◌, Bool, true, false, ◌&&◌, ◌||◌, not, List, [], ◌∷◌, Text, eq_text, Option, none, some,
  ◌==◌, if◌then◌else◌, u64,
}
use avairy.Prelude.Map
use avairy.Prelude.Map.{Map}
use avairy.Workspace.Content.{normalize_for_transit, hash_content}

pub record FileState : Type 0 where
  pub path : Text
  pub content : Text
  pub mode : ℕ
  pub version : ℕ
  pub writer : Text
  pub deleted : Bool
  pub modified : ℕ

pub record Change : Type 0 where
  pub path : Text
  pub content : Text
  pub mode : ℕ
  pub deleted : Bool
  pub base : ℕ

-- type Conflict; `hub` is the zero value where the hub does not know the path.
pub record Conflict : Type 0 where
  pub path : Text
  pub base : ℕ
  pub hub : FileState
  pub incoming : Change

pub record PushResult : Type 0 where
  pub applied : Bool
  pub version : ℕ
  pub conflict : Option Conflict

pub record Hub : Type 0 where
  pub files : Map FileState
  pub dirty : Bool

-- NewHub
unfoldable pub new_hub : Hub
new_hub = record { files = []; dirty = false }

-- FileState{}
abbrev pub no_file : FileState
no_file = record {
  path = [];
  content = [];
  mode = 0;
  version = 0;
  writer = [];
  deleted = false;
  modified = 0;
}

-- 0o644
abbrev pub default_mode : ℕ
default_mode = 420

-- The file that store writes.
unfoldable pub stored : ℕ → Text → Change → ℕ → FileState
stored now node c v = record {
  path = c.path;
  content = c.content;
  mode = if c.mode == 0 then default_mode else c.mode;
  version = v;
  writer = node;
  deleted = c.deleted;
  modified = now;
}

-- Hub.store
unfoldable pub store : ℕ → Text → Change → ℕ → Hub → Hub
unfolding stored
store now node c v h = record {
  files = Map.insert c.path (stored now node c v) h.files;
  dirty = true;
}

-- Is the change what the hub already holds?
unfoldable pub is_same : Change → FileState → Bool
is_same c cur =
    (c.deleted && cur.deleted)
    || (not c.deleted && (not cur.deleted && eq_text cur.content c.content))

accepted : ℕ → PushResult
accepted v = record { applied = true; version = v; conflict = none }

refused : Change → FileState → PushResult
refused c hub = record {
  applied = false;
  version = 0;
  conflict = some (record { path = c.path; base = c.base; hub = hub; incoming = c });
}

push_new : ℕ → Text → Change → Hub → Hub × PushResult
push_new now node c h =
    if not (c.base == 0) then (h, refused c no_file) else (store now node c 1 h, accepted 1)

push_known : ℕ → Text → Change → FileState → Hub → Hub × PushResult
push_known now node c cur h =
    if not (c.base == cur.version)
    then (h, refused c cur)
    else if is_same c cur
    then (h, accepted cur.version)
    else (store now node c (u64 (cur.version + 1)) h, accepted (u64 (cur.version + 1)))

push_normal : ℕ → Text → Change → Hub → Hub × PushResult
push_normal now node c h = elim (Map.lookup c.path h.files) [
  | none ↦ push_new now node c h
  | some cur ↦ push_known now node c cur h
]

-- Hub.Push
unfoldable pub push : ℕ → Text → Change → Hub → Hub × PushResult
unfolding push_normal push_new push_known accepted refused
push now node c h = push_normal now node (record c { content = normalize_for_transit c.content }) h

-- Hub.Resolve
unfoldable pub resolve : ℕ → Text → Text → Text → Hub → Hub × PushResult
unfolding accepted
resolve now node path merged h =
    let next : ℕ = elim (Map.lookup path h.files) [ none ↦ 1 | some cur ↦ u64 (cur.version + 1) ] in
    let c : Change = record {
      path = path;
      content = normalize_for_transit merged;
      mode = default_mode;
      deleted = false;
      base = 0;
    } in
    (store now node c next h, accepted next)

pub record ManifestEntry : Type 0 where
  pub path : Text
  pub checksum : ℕ
  pub version : ℕ
  pub modified : ℕ

manifest_of : List FileState → List ManifestEntry
manifest_of [] = []
manifest_of (f ∷ fs) =
    let rest = manifest_of fs in
    if f.deleted
    then rest
    else record {
      path = f.path;
      checksum = hash_content f.content;
      version = f.version;
      modified = f.modified;
    }
      ∷ rest

-- Hub.Manifest
unfoldable pub manifest : Hub → List ManifestEntry
unfolding manifest_of
manifest h = manifest_of (Map.values h.files)

-- The loop of Pull; a missing base reads as 0.
unfoldable pub pull_from : Map ℕ → Map FileState → List FileState
pull_from base [] = []
pull_from base ((path, f) ∷ files) =
    let rest = pull_from base files in
    if Map.lookup_or 0 path base == f.version then rest else f ∷ rest

-- Hub.Pull
unfoldable pub pull : Map ℕ → Hub → List FileState
unfolding pull_from
pull base h = pull_from base h.files

-- Hub.Get
unfoldable pub get : Text → Hub → Option FileState
get path h = Map.lookup path h.files

-- Hub.List
unfoldable pub list_files : Hub → List FileState
list_files h = Map.values h.files

load_files : List FileState → Map FileState → Map FileState
load_files [] files = files
load_files (f ∷ fs) files = load_files fs (Map.insert f.path f files)

-- LoadHub, for the files of the snapshot that was read
unfoldable pub load_hub : List FileState → Hub
unfolding load_files
load_hub fs = record { files = load_files fs []; dirty = false }

-- Hub.Save with the snapshot it hands to writeSnapshot, which succeeds or fails
unfoldable pub save : Bool → Hub → Hub × List FileState
save written h = (record h { dirty = not written }, Map.values h.files)

-- Hub.SaveIfDirty: the hub, whether it wrote, and the snapshot
unfoldable pub save_if_dirty : Bool → Hub → Hub × Option (List FileState)
unfolding save
save_if_dirty written h =
    if not h.dirty then (h, none) else (let (h', files) = save written h in (h', some files))
