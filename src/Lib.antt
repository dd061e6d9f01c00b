-- ===== src/Lib.antt =====
-- Verification of avairy, a Go program in which several coding agents work on one repository: a core
-- process holds a message bus, a journal, a task board, a blackboard and the canonical copy of the
-- workspace, gates what the agents do, and asks the operator where a rule demands it.
--
-- The parts, with their files in the repository, and the modules that model them:
--   Bus        internal/bus/bus.go: Router has the subscribers and publish, with its dedup window
--              (Router.Dedup) and its routing (Router.Isolation); Waker has Wake, the budget of turns
--              that agents may start at each other (Waker.Window, Waker.Rate).
--   Journal    internal/journal/journal.go: Memory is the in-memory log, Sequence is about its
--              numbers, Delivery about the channels of its subscribers.
--   Board      internal/board/board.go (Tasks) and blackboard.go (Notes), which append to the journal;
--              History has the runs of both, Recovery the replay of the journal after a restart, Claims
--              the ownership of a task, Keys the shape of the task map.
--   Gating     internal/gating/policy.go and enforce.go (Policy) and hook.go (Hook).
--   Workspace  internal/workspace/hub.go and persist.go (Hub), the content functions of fsutil.go
--              (Content); Versions, Updates and Repush are about the versions of files. Markers is
--              conflict.go; Ignore, Disk and View are the rest of fsutil.go: the ignore rules, a
--              directory with its scans, and NodeView with SyncUp, SyncDown and MarkConflict.
--              View.CatchUp is about SyncDown, View.Pushes and View.Marked are about SyncUp.
--   Control    internal/control/approvals.go (Approvals, Rulings), conflicts.go (Conflicts,
--              OnePerPath) and core.go with wire.go (Core): Core has the state and the queues of
--              commands, Core.Enroll, Core.Sync, Core.Liveness and Core.Relay the handlers, and
--              Core.Runs their interleavings. Core.Admission and Core.Tokens are about enrolment,
--              Core.Heartbeats about the queues, Core.Sweeps and Core.Forgotten about liveness,
--              Core.Pushes and Core.Routing about the hub under the core. Client is node.go: the
--              commands of a node, Client.Posts its retry, Client.Sync and Client.Reconcile how it
--              follows the hub through core, Client.Holds what it holds back,
--              Client.Recovery a post to a core that has lost the session.
--   Facilitator  internal/facilitator/facilitator.go: Loops has the detection of repeated actions and
--              the cooldown of nudges, Cycles and Progress what they find; Watch is Observe, Watch.Spacing is
--              about its cooldown; nudger.go (Nudger, Peers).
--   Supervisor  internal/supervisor/supervisor.go: Loop has the select loop of Run, Sessions the life
--              of its sessions, Turns the messages that start none.
--   Cost       internal/cost/cost.go, over an amount of money that is a parameter (Money), since the
--              code's float64 has no counterpart here.
--   Runner     internal/runner/runner.go, and where the supervisor does the same (Runner.Agreement).
--   Mcp        internal/mcp/coordination.go (Coordination, Ownership); the addresses and send_message
--              of helpers.go, agents.go and messaging.go (Address, Reach).
--   Agent      the delivery mode of internal/agent/adapter.go, and summary.go (Summary), over a type
--              that stands for any with Go's assertions on it.
--   Prelude    Go's strings, maps, strconv and machine words, and lemmas on them.
--   Examples   runs at concrete inputs.
--
-- The components interact as in the program: publish of the bus and the operations of the boards take
-- the journal and append to it; an operation takes the state and returns it with its result. A method
-- that holds a lock is one step; where a call blocks (Ask of the approvals), it is several steps that
-- interleave with the others, and the theorems are about every list of steps. The select loop of the
-- supervisor is a step for each case, with what the session answers as an input and what is done to
-- it as an effect. Counters of type uint64 keep their wrap-around (u64); a theorem that needs one not
-- to wrap says so. A Go map is an association list, whose order stands for the arbitrary order of a
-- range over the map. Strings are lists of bytes, times nanoseconds. The loops go over lists; only
-- format_uint runs on fuel, one more than its number, of which each round drops a digit.
--
-- Not modelled: input and output (files, HTTP, TLS, subprocesses, the terminal), encoding/json, the
-- adapters of the agent families, git, and the display. A payload that the journal persists is taken
-- to be decoded as it was encoded.
pub mod Prelude
pub mod Agent
pub mod Bus
pub mod Board
pub mod Journal
pub mod Gating
pub mod Workspace
pub mod Control
pub mod Mcp
pub mod Facilitator
pub mod Supervisor
pub mod Runner
pub mod Cost
pub mod Examples
