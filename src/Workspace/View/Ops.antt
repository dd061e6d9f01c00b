-- ===== src/Workspace/View/Ops.antt =====
-- The pushes of SyncUp of internal/workspace/fsutil.go.
use avairy.Prelude.{ℕ, Bool, true, false, not, ◌||◌, [], Text}
use avairy.Prelude.Map
use avairy.Prelude.Map.{Map, IsDistinct, insert-IsDistinct, lookup_or-insert, lookup_or-erase}
use avairy.Workspace.Hub.{Change}
use avairy.Workspace.Versions.{Op, pushes}
use avairy.Workspace.Markers.{has_conflict_markers}
use avairy.Workspace.View.{NodeView}

-- The version that a path has for the node.
abbrev pub base_at : NodeView → Text → ℕ
base_at nv p = Map.lookup_or 0 p nv.base

abbrev pub holds_path : NodeView → Text → Bool
holds_path nv p = Map.lookup_or false p nv.conflicts

abbrev pub is_clean : Change → Bool
is_clean c = not (has_conflict_markers c.content)

-- The push of a change, from the version that the node has.
abbrev pub change_op : ℕ → NodeView → Change → Op
change_op now nv c = pushes now nv.id (record c { base = base_at nv c.path })

-- The push of a deletion of a path of the node's base.
abbrev pub deletion_op : ℕ → NodeView → Text × ℕ → Op
deletion_op now nv e =
    pushes now nv.id
      (record { path = e.0; content = []; mode = 0; deleted = true; base = base_at nv e.0 })

abbrev pub is_gone : Map Bool → NodeView → Text × ℕ → Bool
is_gone seen nv e = not (Map.lookup_or false e.0 seen || holds_path nv e.0)
