-- ===== src/Examples/Views.antt =====
-- A node's view of the workspace at concrete inputs.
use avairy.Prelude.{
  if◌then◌else◌, ◌≡◌, refl, map, select, true, false, List, [], ◌∷◌, ◌++◌, Text, codes, eq_text,
  eq_text_iff, eq_text_refl, length, none, some, arith, any, contains, has_prefix,
}
use avairy.Prelude.Map
use avairy.Prelude.Map.{IsDistinct}
use avairy.Workspace.Content.{normalize_for_transit}
use avairy.Workspace.Hub.{FileState, Conflict, Hub, pull, push}
use avairy.Workspace.Versions.{Op}
use avairy.Workspace.Versions
use avairy.Workspace.Markers.{Edit, merge_markers, has_conflict_markers, marker_start, marker_mid}
use avairy.Workspace.Ignore.{Ignore, is_skipped}
use avairy.Workspace.Disk.{Disk, Scanned, regular, System, scan_changes}
use avairy.Workspace.View.{
  NodeView, Synced, Applied, mark_conflict, is_locked, read_file, sync_down, sync_up, sync_scanned,
}
use avairy.Workspace.View.CatchUp.{IsKeyed, news, left, based, sync_down_path, sync_down-caught_up}
use avairy.Workspace.View.Ops.{change_op, deletion_op, is_clean, is_gone}
use avairy.Workspace.View.Pushes.{sync_up_pushes}
use avairy.Workspace.View.SameEdit.{same_edit, same_edit_locked}
use avairy.Workspace.Marking.{InOrder, merge_markers-marked}
use avairy.Workspace.View.Marked.{marked_not_pushed}

abbrev system : System
system = record { now = 7; fails = λ p. false; follow = λ p. p }

abbrev file : FileState
file = record {
  path = codes "f";
  content = codes "y";
  mode = 420;
  version = 3;
  writer = codes "b";
  deleted = false;
  modified = 1;
}

abbrev hub : Hub
hub = record { files = (codes "f", file) ∷ []; dirty = false }

hub-IsKeyed : IsKeyed hub.files
unfolding IsDistinct Map.lookup
hub-IsKeyed = record {
  distinct = (refl, refl);
  keyed = λ q f e. ground (arith, eq_text_iff (codes "f") q, e);
}

abbrev view : NodeView
view = record { id = codes "a"; base = []; stamps = []; conflicts = [] }

sync_down_path_example :
    let a = sync_down system hub view [] in
    let new = news (codes "f") hub.files view.base view.conflicts in
    (Map.lookup (codes "f") a.disk ≡ left system.now new (Map.lookup (codes "f") []))
    × (Map.lookup_or 0 (codes "f") a.view.base ≡ based new (Map.lookup_or 0 (codes "f") view.base))
    × (a.view.conflicts ≡ view.conflicts)
    × (a.ok ≡ true)
sync_down_path_example = sync_down_path system hub view [] (codes "f") (λ p. refl) hub-IsKeyed

sync_down-caught_up_example :
    let a = sync_down system hub view [] in
    (pull a.view.base hub ≡ [])
    × (sync_down system hub a.view a.disk ≡ record { view = a.view; disk = a.disk; ok = true })
sync_down-caught_up_example =
    sync_down-caught_up system system hub view [] (λ p. refl) hub-IsKeyed
      (λ p. unfold Map.lookup_or Map.lookup in refl)

abbrev no_ignore : Ignore
no_ignore = record { dirs = []; prefixes = []; suffixes = []; git = none; docker = none }

-- A file of "f" with conflict markers, and one of "g" without.
abbrev marked : Text
marked = marker_start ++ (codes "\nx\n" ++ (marker_mid ++ codes "\ny\n>>>>>>> hub v3\n"))

abbrev disk : Disk
disk = (codes "f", regular marked 420 5) ∷ (codes "g", regular (codes "z") 420 5) ∷ []

abbrev held_view : NodeView
held_view = record view { base = (codes "f", 3) ∷ []; conflicts = (codes "f", true) ∷ [] }

abbrev synced : Synced
synced = elim (scan_changes no_ignore held_view.stamps disk) [
  | none ↦ record { view = held_view; hub = hub; conflicts = [] }
  | some sc ↦ sync_scanned 8 sc hub held_view
]

synced_lem : sync_up 8 no_ignore disk hub held_view ≡ some synced
unfolding sync_up scan_changes is_skipped any Map.lookup eq_text
synced_lem = refl

sync_up_pushes_example :
    (sc : Scanned) × (scan_changes no_ignore held_view.stamps disk ≡ some sc)
    × (synced.hub
        ≡ Versions.run
            (map (change_op 8 held_view) (select is_clean sc.changed)
              ++ map (deletion_op 8 held_view) (select (is_gone sc.seen held_view) held_view.base))
            hub)
sync_up_pushes_example =
    sync_up_pushes 8 no_ignore disk hub held_view synced synced_lem
      (unfold IsDistinct Map.lookup eq_text in (refl, (refl, refl)))
      (unfold IsDistinct Map.lookup eq_text in (refl, refl))

marked_not_pushed_example :
    (Map.lookup (codes "f") synced.hub.files ≡ Map.lookup (codes "f") hub.files)
    × (Map.lookup_or false (codes "f") synced.view.conflicts ≡ true)
marked_not_pushed_example =
    marked_not_pushed 8 no_ignore disk hub held_view synced (codes "f") marked 420 5 synced_lem
      (unfold IsDistinct Map.lookup eq_text in (refl, (refl, refl)))
      (unfold Map.lookup eq_text in refl) (unfold has_conflict_markers contains has_prefix in refl)
      (unfold Map.lookup_or Map.lookup eq_text in refl)

-- A marked file whose lines end in CR and LF passes for one without markers, and has them once it is
-- normalized.
abbrev marked_crlf : Text
marked_crlf =
    marker_start ++ (codes "\r\nx\r\n" ++ (marker_mid ++ codes "\r\ny\r\n>>>>>>> hub v3\r\n"))

crlf_passes :
    (has_conflict_markers marked_crlf ≡ false)
    × (has_conflict_markers (normalize_for_transit marked_crlf) ≡ true)
unfolding has_conflict_markers contains has_prefix normalize_for_transit any
crlf_passes = (refl, refl)

-- A line diff that finds the whole text changed, or nothing.
abbrev whole_diff : Text → Text → List Edit
whole_diff s t = if eq_text s t then [] else record { start = 0; end = length s; text = t } ∷ []

abbrev one_disk : Disk
one_disk = (codes "f", regular (codes "y") 420 5) ∷ []

same_edit_locked_example :
    (k : Conflict) × (a : Applied) × ((push 9
        (codes "a")
        (same_edit (codes "f") file 2)
        hub).1.conflict
      ≡ some k)
    × (mark_conflict system whole_diff k view one_disk ≡ some a)
    × (is_locked (codes "f") a.view ≡ true)
    × (read_file system (codes "f") a.disk ≡ some (codes "y"))
same_edit_locked_example =
    same_edit_locked 9 420 5 2 (codes "a") (codes "f") file hub system whole_diff view one_disk
      (λ s. rw (eq_text_refl s) refl) (unfold Map.lookup eq_text in refl)
      (λ e. absurd (omega (arith, e))) (unfold Map.lookup eq_text in refl)
      (unfold has_conflict_markers contains has_prefix in refl) refl

abbrev edit : Edit
edit = record { start = 0; end = 1; text = codes "z" }

merge_markers-marked_example :
    (out : Text) × (merge_markers (edit ∷ []) (codes "y") 3 ≡ some out)
    × (has_conflict_markers out ≡ true)
merge_markers-marked_example =
    merge_markers-marked edit [] (codes "y") 3
      (unfold InOrder length in (omega arith, omega arith, omega arith, omega arith))
