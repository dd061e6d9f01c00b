-- ===== src/Workspace/View/SameEdit.antt =====
-- Two nodes that make the same edit, in internal/workspace/hub.go, fsutil.go and conflict.go.
use avairy.Prelude.{ℕ, ◌≡◌, ◌≢◌, refl, true, false, List, [], Text, some, arith, ◌==◌, eq_text_refl}
use avairy.Prelude.Map
use avairy.Prelude.Map.{Map, lookup-insert_same, lookup_or-insert}
use avairy.Workspace.Hub.{FileState, Change, Conflict, Hub, push}
use avairy.Workspace.Versions.{push-eq-compare_and_set, version_of, normal, known_file}
use avairy.Workspace.Markers.{Edit, has_conflict_markers, merge_markers}
use avairy.Workspace.Disk.{Disk, System, regular}
use avairy.Workspace.View.{
  NodeView, Applied, mark_conflict, mark_file, read_file, overwrite, hold, is_locked,
}

abbrev the_conflict : Change → FileState → Conflict
the_conflict c f = record { path = c.path; base = c.base; hub = f; incoming = normal c }

stale_push :
    (now : ℕ) (node : Text) (c : Change) (f : FileState) (h : Hub)
    → Map.lookup c.path h.files ≡ some f
    → c.base ≢ f.version
    → (push now node c h).1.conflict ≡ some (the_conflict c f)
stale_push now node c f h at stale =
    let other : (c.base == version_of c.path h) ≡ false =
      rw (version_of, at) (ground (arith, stale)) in
    rw (push-eq-compare_and_set now node c h, other, known_file, at) refl

-- A change to the content that the hub has
abbrev pub same_edit : Text → FileState → ℕ → Change
same_edit path f base = record {
  path = path;
  content = f.content;
  mode = f.mode;
  deleted = false;
  base = base;
}

mark_file-held :
    (sys : System) (k : Conflict) (marked : Text) (nv : NodeView) (disk : Disk)
    → sys.fails k.path ≡ false
    → is_locked k.path (mark_file sys k marked nv disk).view ≡ true
unfolding is_locked mark_file hold
mark_file-held sys k marked nv disk writes =
    rw (mark_file, writes) (unfold hold in simp (lookup_or-insert, eq_text_refl))

mark_file-same :
    (sys : System) (k : Conflict) (content : Text) (mode time : ℕ) (nv : NodeView) (disk : Disk)
    → sys.fails k.path ≡ false
    → Map.lookup (sys.follow k.path) disk ≡ some (regular content mode time)
    → read_file sys k.path (mark_file sys k content nv disk).disk ≡ some content
unfolding mark_file read_file
mark_file-same sys k content mode time nv disk writes at =
    rw
      (
        mark_file,
        writes,
        overwrite,
        at,
        read_file,
        lookup-insert_same (sys.follow k.path) (regular content mode sys.now) disk,
      )
      refl

-- A node that pushes, from an older version, the very content that the hub holds of the path gets a
-- conflict; MarkConflict then locks the path, though the file keeps its content and has no markers
-- that anyone could resolve. The diff of a text with itself has no edits.
pub same_edit_locked :
    (now mode time base : ℕ) (node path : Text) (f : FileState) (h : Hub) (sys : System)
    (diff : Text → Text → List Edit) (nv : NodeView) (disk : Disk)
    → ((s : Text) → diff s s ≡ [])
    → Map.lookup path h.files ≡ some f
    → base ≢ f.version
    → Map.lookup (sys.follow path) disk ≡ some (regular f.content mode time)
    → has_conflict_markers f.content ≡ false
    → sys.fails path ≡ false
    → (k : Conflict) × (a : Applied) × ((push now node (same_edit path f base) h).1.conflict
        ≡ some k)
      × (mark_conflict sys diff k nv disk ≡ some a)
      × (is_locked path a.view ≡ true)
      × (read_file sys path a.disk ≡ some f.content)
unfolding mark_conflict merge_markers
same_edit_locked now mode time base node path f h sys diff nv disk same at stale on_disk clean
      writes =
    let c : Change = same_edit path f base in
    let k = the_conflict c f in
    let reads : read_file sys path disk ≡ some f.content = rw (read_file, on_disk) refl in
    (
      k,
      mark_file sys k f.content nv disk,
      stale_push now node c f h at stale,
      rw (mark_conflict, reads, clean, same f.content) refl,
      mark_file-held sys k f.content nv disk writes,
      mark_file-same sys k f.content mode time nv disk writes on_disk,
    )
