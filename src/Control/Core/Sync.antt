-- ===== src/Control/Core/Sync.antt =====
-- handlePush, handlePull, handleManifest and handleHeartbeat of internal/control/core.go. The whole of
-- a push has one `now`. The lines of a startup conflict's summary are data here: the code prints
-- them, with the age of the hub's file.
use avairy.Prelude.{
  ℕ, Bool, true, false, List, [], ◌∷◌, ◌++◌, Text, Option, none, some, ◌==◌, if◌then◌else◌,
}
use avairy.Prelude.Map
use avairy.Prelude.Map.{Map}
use avairy.Workspace.Hub.{
  FileState, Change, Conflict, PushResult, push, pull, manifest, get, ManifestEntry,
}
use avairy.Control.Core.{
  Core, ConsultCommand, ReconfigureCommand, Body, decoded, malformed, Reply, sends, http_error,
  touch,
}

pub record PushRequest : Type 0 where
  pub changes : List Change
  pub first_sync : Bool

pub record SyncResult : Type 0 where
  pub path : Text
  pub applied : Bool
  pub version : ℕ
  pub conflict : Bool
  pub hub_version : ℕ
  pub hub_content : Text

-- A line of the summary: a path, with the hub's version and time where the hub knows it.
pub data SummaryLine : Type 0 where
  known_path : Text → ℕ → ℕ → SummaryLine
  unknown_path : Text → SummaryLine

-- The journal's sync_conflict, OnConflict and OnNodeConflict.
pub data SyncEvent : Type 0 where
  journals_conflict : Text → Text → SyncEvent
  on_conflict : Text → Text → ℕ → Text → Text → SyncEvent
  on_node_conflict : Text → List SummaryLine → List Text → SyncEvent

-- agentID + "\x00" + path
unfoldable pub conflict_key : Text → Text → Text
conflict_key agent path = agent ++ (0 ∷ path)

-- Core.newConflict
unfoldable pub new_conflict : Text → Text → ℕ → Core → Core × Bool
unfolding conflict_key
new_conflict agent path version c =
    if Map.lookup_or 0 (conflict_key agent path) c.conflicts == version
    then (c, false)
    else (record c { conflicts = Map.insert (conflict_key agent path) version c.conflicts }, true)

pub record PushRun : Type 0 where
  pub core : Core
  pub results : List SyncResult
  pub events : List SyncEvent
  pub startup : List Text

-- The branch of a first sync, and the one that routes to the agent.
unfoldable pub route_conflict : Text → Bool → Conflict → Core → Core × List SyncEvent
unfolding new_conflict
route_conflict node first k c =
    if first
    then (c, [])
    else if c.routes_conflicts
    then (let (c', is_new) = new_conflict node k.path k.hub.version c in
        (
          c',
          if is_new
              then on_conflict node k.path k.hub.version k.hub.content k.incoming.content ∷ []
              else [],
        ))
    else (c, [])

-- The result of one change
unfoldable pub sync_result : Text → PushResult → SyncResult
sync_result path res = elim res.conflict [
  | none ↦ record {
    path = path;
    applied = res.applied;
    version = res.version;
    conflict = false;
    hub_version = 0;
    hub_content = [];
  }
  | some k ↦ record {
    path = path;
    applied = res.applied;
    version = res.version;
    conflict = true;
    hub_version = k.hub.version;
    hub_content = k.hub.content;
  }
]

-- One round of the loop after the hub has answered: the core, the events, the startup conflict
unfoldable pub after_push :
    Text → Bool → Text → PushResult → Core → (Core × List SyncEvent) × List Text
unfolding route_conflict
after_push node first path res c = elim res.conflict [
  | none ↦ ((c, []), [])
  | some k ↦
      let (c', es) = route_conflict node first k c in
      ((c', journals_conflict node path ∷ es), if first then path ∷ [] else [])
]

-- The loop of handlePush
unfoldable pub push_changes : ℕ → Text → Bool → List Change → Core → PushRun
unfolding after_push sync_result
push_changes now node first [] c = record { core = c; results = []; events = []; startup = [] }
push_changes now node first (ch ∷ chs) c =
    let (hub, res) = push now node ch c.hub in
    let ((c', es), held) = after_push node first ch.path res (record c { hub = hub }) in
    let rest = push_changes now node first chs c' in
    record {
      core = rest.core;
      results = sync_result ch.path res ∷ rest.results;
      events = es ++ rest.events;
      startup = held ++ rest.startup;
    }

unfoldable pub summary_line : Core → Text → SummaryLine
summary_line c path = elim (get path c.hub) [
  | none ↦ unknown_path path
  | some f ↦ known_path path f.version f.modified
]

unfoldable pub summary : Core → List Text → List SummaryLine
unfolding summary_line
summary c [] = []
summary c (p ∷ ps) = summary_line c p ∷ summary c ps

-- Core.raiseStartupConflict
unfoldable pub raise_startup_conflict : Text → List Text → Core → Core × List SyncEvent
unfolding summary
raise_startup_conflict node [] c = (c, [])
raise_startup_conflict node (p ∷ ps) c =
    if c.routes_node_conflicts
    then (
      record c { startup = Map.insert node true c.startup },
      if Map.lookup_or false node c.startup
          then []
          else on_node_conflict node (summary c (p ∷ ps)) (p ∷ ps) ∷ [],
    )
    else (c, [])

-- Core.handlePush
unfoldable pub handle_push :
    ℕ → Body PushRequest → Text → Core → (Core × List SyncEvent) × Reply (List SyncResult)
unfolding push_changes raise_startup_conflict
handle_push now (malformed message) node c = ((c, []), http_error 400 message)
handle_push now (decoded req) node c =
    let run = push_changes now node req.first_sync req.changes (touch now node c) in
    let (c', es) = raise_startup_conflict node run.startup run.core in
    ((c', run.events ++ es), sends run.results)

pub record PullFile : Type 0 where
  pub path : Text
  pub content : Text
  pub mode : ℕ
  pub version : ℕ
  pub deleted : Bool

unfoldable pub pull_file : FileState → PullFile
pull_file f = record {
  path = f.path;
  content = f.content;
  mode = f.mode;
  version = f.version;
  deleted = f.deleted;
}

unfoldable pub pull_files : List FileState → List PullFile
unfolding pull_file
pull_files [] = []
pull_files (f ∷ fs) = pull_file f ∷ pull_files fs

-- Core.handlePull
unfoldable pub handle_pull :
    ℕ → Body (Map ℕ) → Text → Core → (Core × List SyncEvent) × Reply (List PullFile)
unfolding pull_files
handle_pull now (malformed message) node c = ((c, []), http_error 400 message)
handle_pull now (decoded base) node c =
    ((touch now node c, []), sends (pull_files (pull base (touch now node c).hub)))

-- Core.handleManifest; a zero time is the empty text on the wire
unfoldable pub handle_manifest :
    ℕ → Text → Core → (Core × List SyncEvent) × Reply (List ManifestEntry)
handle_manifest now node c = ((touch now node c, []), sends (manifest (touch now node c).hub))

pub record HeartbeatResponse : Type 0 where
  pub directive : Text
  pub unlock : List Text
  pub consults : List ConsultCommand
  pub reconfigures : List ReconfigureCommand

unfoldable pub report_conflicts : Text → Option (List Text) → Core → Core
report_conflicts node none c = c
report_conflicts node (some paths) c = record c {
  n_conflicts = Map.insert node paths c.n_conflicts;
}

-- Everything that waits for the node is handed over and forgotten.
unfoldable pub take_commands : Text → Core → Core × HeartbeatResponse
take_commands node c = (
  record c {
    directives = Map.erase node c.directives;
    unlocks = Map.erase node c.unlocks;
    consults = Map.erase node c.consults;
    reconfigs = Map.erase node c.reconfigs;
  },
  record {
    directive = Map.lookup_or [] node c.directives;
    unlock = Map.lookup_or [] node c.unlocks;
    consults = Map.lookup_or [] node c.consults;
    reconfigures = Map.lookup_or [] node c.reconfigs;
  },
)

-- Core.handleHeartbeat; no conflicts where the body has none, or cannot be decoded
unfoldable pub handle_heartbeat :
    ℕ → Option (List Text) → Text → Core → (Core × List SyncEvent) × Reply HeartbeatResponse
unfolding report_conflicts take_commands
handle_heartbeat now conflicts node c =
    let (c', response) = take_commands node (report_conflicts node conflicts (touch now node c)) in
    ((c', []), sends response)
