-- ===== src/Control/Core/Sweeps.antt =====
-- What a sweep of internal/control/core.go does to each node.
use avairy.Prelude.{
  ℕ, ◌≡◌, refl, sym, ap, Bool, [], ◌∷◌, ◌&&◌, not, Text, eq_text, eq_text_iff, eq_text_refl, Option,
  none, some, arith, if◌then◌else◌,
}
use avairy.Prelude.Map
use avairy.Prelude.Map.{
  Map, IsDistinct, lookup-insert, lookup-erase, insert-IsDistinct, erase-IsDistinct,
}
use avairy.Control.Core.{Core, NodeInfo}
use avairy.Control.Core.Liveness.{
  Sweep, is_fresh, sweep_entry, sweep_entries, sweep_liveness, forget,
}

-- A node after a sweep: forgotten where it was live, has lapsed and is ephemeral, and otherwise live
-- just where it is fresh.
unfoldable pub swept : ℕ → ℕ → NodeInfo → Option NodeInfo
swept now timeout n =
    if not (is_fresh now timeout n) && (n.live && n.ephemeral)
    then none
    else some (record n { live = is_fresh now timeout n })

still_live : (n : NodeInfo) (b : Bool) → n.live ≡ b → record n { live = b } ≡ n
still_live n b e = ap (λ l. record n { live = l }) (sym e)

entry-swept :
    (now : ℕ) (k id : Text) (n : NodeInfo) (s : Sweep)
    → Map.lookup k s.core.nodes ≡ some n
    → Map.lookup id (sweep_entry now k n s).core.nodes
      ≡ (if eq_text k id then swept now s.core.liveness_timeout n else Map.lookup id s.core.nodes)
unfolding sweep_entry forget swept
entry-swept now k id n s h = ground (
  arith,
  lookup-insert k id (record n { live = is_fresh now s.core.liveness_timeout n }) s.core.nodes,
  lookup-erase k id s.core.nodes,
  eq_text_iff k id,
  still_live n (is_fresh now s.core.liveness_timeout n),
)

entry-timeout :
    (now : ℕ) (k : Text) (n : NodeInfo) (s : Sweep)
    → (sweep_entry now k n s).core.liveness_timeout ≡ s.core.liveness_timeout
unfolding sweep_entry forget
entry-timeout now k n s = ground arith

-- The entries are those that the nodes of the state have.
abbrev Entries : Map NodeInfo → Sweep → Type 0
Entries ns s =
    (j : Text) (m : NodeInfo) → Map.lookup j ns ≡ some m → Map.lookup j s.core.nodes ≡ some m

nodes_after :
    (now : ℕ) (ns : Map NodeInfo) (s : Sweep) (id : Text)
    → IsDistinct ns
    → Entries ns s
    → Map.lookup id (sweep_entries now ns s).core.nodes ≡ (elim (Map.lookup id ns) [
      | none ↦ Map.lookup id s.core.nodes
      | some n ↦ swept now s.core.liveness_timeout n
    ])
unfolding sweep_entries IsDistinct Map.lookup
nodes_after now [] s id d h = refl
nodes_after now ((k, n) ∷ ns) s id (free, d) h =
    let s' = sweep_entry now k n s in
    let here : Map.lookup k s.core.nodes ≡ some n = h k n (rw (eq_text_refl k) refl) in
    let later : Entries ns s' =
      λ j m at. ground (arith, entry-swept now k j n s here, eq_text_iff k j, h j m, free) in
    ground (
      arith,
      nodes_after now ns s' id d later,
      entry-swept now k id n s here,
      entry-timeout now k n s,
      eq_text_iff k id,
    )

entry-IsDistinct :
    (now : ℕ) (k : Text) (n : NodeInfo) (s : Sweep)
    → IsDistinct s.core.nodes
    → IsDistinct (sweep_entry now k n s).core.nodes
unfolding sweep_entry forget
entry-IsDistinct now k n s d = ground (
  arith,
  erase-IsDistinct k s.core.nodes d,
  insert-IsDistinct k (record n { live = is_fresh now s.core.liveness_timeout n }) s.core.nodes d,
)

entries-IsDistinct :
    (now : ℕ) (ns : Map NodeInfo) (s : Sweep)
    → IsDistinct s.core.nodes
    → IsDistinct (sweep_entries now ns s).core.nodes
unfolding sweep_entries
entries-IsDistinct now [] s d = d
entries-IsDistinct now ((k, n) ∷ ns) s d =
    entries-IsDistinct now ns (sweep_entry now k n s) (entry-IsDistinct now k n s d)

pub sweep-IsDistinct :
    (now : ℕ) (c : Core) → IsDistinct c.nodes → IsDistinct (sweep_liveness now c).0.nodes
unfolding sweep_liveness
sweep-IsDistinct now c =
    entries-IsDistinct now c.nodes (record { core = c; changes = []; forgotten = [] })

-- After a sweep, each node stands as follows: one that the core did not have is not there; a live
-- ephemeral node that has not been in contact within the timeout is forgotten; any other node is
-- marked live just where it has been in contact within the timeout, and is otherwise as it was.
pub sweep_node :
    (now : ℕ) (id : Text) (c : Core)
    → IsDistinct c.nodes
    → Map.lookup id (sweep_liveness now c).0.nodes ≡ (elim (Map.lookup id c.nodes) [
      | none ↦ none
      | some n ↦
          if not (is_fresh now c.liveness_timeout n) && (n.live && n.ephemeral)
          then none
          else some (record n { live = is_fresh now c.liveness_timeout n })
    ])
unfolding sweep_liveness swept
sweep_node now id c d = ground (
  arith,
  nodes_after now c.nodes (record { core = c; changes = []; forgotten = [] }) id d (λ j m h. h),
)
