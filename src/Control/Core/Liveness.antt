-- ===== src/Control/Core/Liveness.antt =====
-- sweepLiveness and the period of RunLiveness of internal/control/core.go. The loop goes over the nodes
-- as they stood at its start; an entry that it has not come to is as it was then. Outside the lock
-- come the calls of OnForget, then the journal's records.
use avairy.Prelude.{
  ℕ, ◌+◌, ◌/◌, ◌^◌, Bool, true, false, ◌&&◌, not, List, [], ◌∷◌, ◌++◌, Text, codes, ltb,
  if◌then◌else◌,
}
use avairy.Prelude.Map
use avairy.Prelude.Map.{Map}
use avairy.Control.Core.{Core, NodeInfo}

pub data LivenessEvent : Type 0 where
  on_forget : Text → LivenessEvent
  journals_node : Text → Text → LivenessEvent

pub record Sweep : Type 0 where
  pub core : Core
  pub changes : List (Text × Text)
  pub forgotten : List Text

-- now.Sub(n.LastSeen) < timeout, which is true of a node seen after now
unfoldable pub is_fresh : ℕ → ℕ → NodeInfo → Bool
is_fresh now timeout n = ltb now (n.last_seen + timeout)

-- The deletions for an ephemeral node
unfoldable pub forget : Text → Core → Core
forget id c = record c {
  nodes = Map.erase id c.nodes;
  n_conflicts = Map.erase id c.n_conflicts;
  directives = Map.erase id c.directives;
  startup = Map.erase id c.startup;
}

same_bool : Bool → Bool → Bool
same_bool true b = b
same_bool false b = not b

unfoldable pub sweep_entry : ℕ → Text → NodeInfo → Sweep → Sweep
unfolding is_fresh forget same_bool
sweep_entry now id n s =
    let live : Bool = is_fresh now s.core.liveness_timeout n in
    if same_bool live n.live
    then s
    else if not live && n.ephemeral
    then record {
      core = forget id s.core;
      changes = s.changes ++ ((id, codes "node_forgotten") ∷ []);
      forgotten = s.forgotten ++ (id ∷ []);
    }
    else record {
      core = record s.core { nodes = Map.insert id (record n { live = live }) s.core.nodes };
      changes =
          s.changes ++ ((id, if live then codes "node_online" else codes "node_offline") ∷ []);
      forgotten = s.forgotten;
    }

unfoldable pub sweep_entries : ℕ → Map NodeInfo → Sweep → Sweep
unfolding sweep_entry
sweep_entries now [] s = s
sweep_entries now ((id, n) ∷ ns) s = sweep_entries now ns (sweep_entry now id n s)

forget_events : List Text → List LivenessEvent
forget_events [] = []
forget_events (id ∷ ids) = on_forget id ∷ forget_events ids

change_events : List (Text × Text) → List LivenessEvent
change_events [] = []
change_events ((id, event) ∷ cs) = journals_node id event ∷ change_events cs

-- Core.sweepLiveness
unfoldable pub sweep_liveness : ℕ → Core → Core × List LivenessEvent
unfolding sweep_entries forget_events change_events
sweep_liveness now c =
    let s = sweep_entries now c.nodes (record { core = c; changes = []; forgotten = [] }) in
    (s.core, forget_events s.forgotten ++ change_events s.changes)

-- The ticker's period in RunLiveness
unfoldable pub liveness_tick : Core → ℕ
liveness_tick c = if ltb (c.liveness_timeout / 3) (10 ^ 9) then 10 ^ 9 else c.liveness_timeout / 3
