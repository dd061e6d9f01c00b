-- ===== src/Workspace/View/CatchUp.antt =====
-- What SyncDown of internal/workspace/fsutil.go does to each path.
use avairy.Prelude.{
  ℕ, ◌≡◌, refl, sym, ap, ◌∙◌, inl, inr, ◌⊎◌, Bool, true, false, List, [], ◌∷◌, Text, eq_text,
  eq_text_iff, eq_text_refl, Option, none, some, Bool-cases, arith, if◌then◌else◌, ◌==◌, subst,
}
use avairy.Prelude.Map
use avairy.Prelude.Map.{Map, IsDistinct, lookup-insert, lookup-erase, lookup_or-insert}
use avairy.Workspace.Hub.{FileState, Hub, pull, pull_from}
use avairy.Workspace.Disk.{Entry, Disk, System, apply_file, written}
use avairy.Workspace.View.{NodeView, Applied, apply_files, restamp, sync_down}

-- Each file of the hub stands under its own path, once.
pub record IsKeyed (files : Map FileState) : Type 0 where
  pub distinct : IsDistinct files
  pub keyed : (q : Text) (f : FileState) → Map.lookup q files ≡ some f → f.path ≡ q

-- Does SyncDown write the path?
abbrev pub news : Text → Map FileState → Map ℕ → Map Bool → Option FileState
news q files base held = if Map.lookup_or false q held then none else elim (Map.lookup q files) [
  | none ↦ none
  | some f ↦ if Map.lookup_or 0 q base == f.version then none else some f
]

-- What it leaves there: the hub's file, or nothing where the hub's file is deleted
abbrev pub left : ℕ → Option FileState → Option Entry → Option Entry
left now none old = old
left now (some f) old = if f.deleted then none else some (written now f)

abbrev pub based : Option FileState → ℕ → ℕ
based none old = old
based (some f) old = f.version

restamp_rest :
    (sys : System) (f : FileState) (disk : Disk) (nv : NodeView)
    → ((restamp sys f disk nv).base ≡ nv.base) × ((restamp sys f disk nv).conflicts ≡ nv.conflicts)
unfolding restamp
restamp_rest sys f disk nv = (ground arith, ground arith)

IsKeyed-tail :
    (p : Text) (f : FileState) (files : Map FileState)
    → IsKeyed ((p, f) ∷ files)
    → (Map.lookup p files ≡ none) × (f.path ≡ p) × IsKeyed files
unfolding IsDistinct Map.lookup
IsKeyed-tail p f files k = (
  k.distinct.0,
  k.keyed p f (rw (eq_text_refl p) refl),
  record {
    distinct = k.distinct.1;
    keyed = λ r g h. k.keyed r g (ground (arith, h, eq_text_iff p r, k.distinct.0));
  },
)

-- The directory after a write that succeeds.
placed : System → FileState → Disk → Disk
placed sys f disk =
    if f.deleted then Map.erase f.path disk else Map.insert f.path (written sys.now f) disk

apply_file-ok :
    (sys : System) (f : FileState) (disk : Disk)
    → sys.fails f.path ≡ false
    → apply_file sys f disk ≡ some (placed sys f disk)
unfolding apply_file placed
apply_file-ok sys f disk h = ground (arith, h)

lookup-placed :
    (sys : System) (f : FileState) (q : Text) (disk : Disk)
    → Map.lookup q (placed sys f disk)
      ≡ (if eq_text f.path q then left sys.now (some f) none else Map.lookup q disk)
unfolding placed
lookup-placed sys f q disk =
    ground (arith, lookup-erase f.path q disk, lookup-insert f.path q (written sys.now f) disk)

-- What SyncDown does to the path q, with nothing else than that.
record Updated (sys : System) (q : Text) (new : Option FileState) (nv : NodeView) (disk : Disk)
    (a : Applied) : Type 0 where
  on_disk : Map.lookup q a.disk ≡ left sys.now new (Map.lookup q disk)
  on_base : Map.lookup_or 0 q a.view.base ≡ based new (Map.lookup_or 0 q nv.base)
  held : a.view.conflicts ≡ nv.conflicts
  ok : a.ok ≡ true

module _ (sys : System) (writes : (p : Text) → sys.fails p ≡ false) (base0 : Map ℕ) (q : Text) where
  -- The step of the loop on a file that is not held.
  applied_step :
      (f : FileState) (fs : List FileState) (nv : NodeView) (disk : Disk)
      → Map.lookup_or false f.path nv.conflicts ≡ false
      → apply_files sys (f ∷ fs) nv disk
        ≡ apply_files sys fs
            (restamp sys f
              (placed sys f disk)
              (record nv { base = Map.insert f.path f.version nv.base }))
            (placed sys f disk)
  unfolding apply_files
  applied_step f fs nv disk free =
      rw (free, apply_files, apply_file-ok sys f disk (writes f.path)) refl

  held_step :
      (f : FileState) (fs : List FileState) (nv : NodeView) (disk : Disk)
      → Map.lookup_or false f.path nv.conflicts ≡ true
      → apply_files sys (f ∷ fs) nv disk ≡ apply_files sys fs nv disk
  unfolding apply_files
  held_step f fs nv disk held = ground (arith, held)

  news-cons :
      (p : Text) (f : FileState) (files : Map FileState) (held : Map Bool)
      → Map.lookup p files ≡ none
      → news q ((p, f) ∷ files) base0 held ≡ (
          if eq_text p q
          then (if Map.lookup_or false p held
              then none
              else if Map.lookup_or 0 p base0 == f.version
              then none
              else some f)
          else news q files base0 held)
  unfolding Map.lookup
  news-cons p f files held free = ground (arith, eq_text_iff p q)

  news-absent :
      (p : Text) (files : Map FileState) (held : Map Bool)
      → Map.lookup p files ≡ none
      → eq_text p q ≡ true
      → news q files base0 held ≡ none
  news-absent p files held free same = ground (arith, free, eq_text_iff p q)

  -- The file at the head is skipped.
  skipped-Updated :
      (p : Text) (f : FileState) (files : Map FileState) (nv : NodeView) (disk : Disk) (a : Applied)
      → Map.lookup p files ≡ none
      → (Map.lookup_or false p nv.conflicts ≡ true)
        ⊎ ((Map.lookup_or 0 p base0 == f.version) ≡ true)
      → Updated sys q (news q files base0 nv.conflicts) nv disk a
      → Updated sys q (news q ((p, f) ∷ files) base0 nv.conflicts) nv disk a
  skipped-Updated p f files nv disk a free why u =
      subst (λ n. Updated sys q n nv disk a)
        (ground (
          arith,
          news-cons p f files nv.conflicts free,
          news-absent p files nv.conflicts free,
          why,
        ))
        u

  -- The file at the head is written.
  written-Updated :
      (p : Text) (f : FileState) (files : Map FileState) (nv nv' : NodeView) (disk : Disk)
      (a : Applied)
      → Map.lookup p files ≡ none
      → f.path ≡ p
      → Map.lookup_or false p nv.conflicts ≡ false
      → (Map.lookup_or 0 p base0 == f.version) ≡ false
      → nv'.base ≡ Map.insert f.path f.version nv.base
      → nv'.conflicts ≡ nv.conflicts
      → Updated sys q (news q files base0 nv'.conflicts) nv' (placed sys f disk) a
      → Updated sys q (news q ((p, f) ∷ files) base0 nv.conflicts) nv disk a
  written-Updated p f files nv nv' disk a free key loose other b c u =
      let n = news-cons p f files nv.conflicts free in
      let m = news-absent p files nv.conflicts free in
      record {
        on_disk = ground (arith, n, m, u.on_disk, lookup-placed sys f q disk, key, loose, other, c);
        on_base = ground (
          arith,
          n,
          m,
          u.on_base,
          lookup_or-insert 0 f.path q f.version nv.base,
          ap (Map.lookup_or 0 q) b,
          key,
          loose,
          other,
          c,
        );
        held = u.held ∙ c;
        ok = u.ok;
      }

  apply-Updated :
      (files : Map FileState) (nv : NodeView) (disk : Disk)
      → IsKeyed files
      → Updated sys q
          (news q files base0 nv.conflicts)
          nv
          disk
          (apply_files sys (pull_from base0 files) nv disk)
  unfolding apply_files pull_from Map.lookup IsDistinct
  apply-Updated [] nv disk k = record {
    on_disk = ground arith;
    on_base = ground arith;
    held = refl;
    ok = refl;
  }
  apply-Updated ((p, f) ∷ files) nv disk k =
      let (free, key, tail) = IsKeyed-tail p f files k in
      elim (Bool-cases (Map.lookup_or 0 p base0 == f.version)) [
        | inl old ↦
            rw (old) (
              skipped-Updated p f files nv disk _ free (inr old) (apply-Updated files nv disk tail))
        | inr other ↦ elim (Bool-cases (Map.lookup_or false f.path nv.conflicts)) [
          | inl held ↦
              rw (other, held_step f (pull_from base0 files) nv disk held)
                (skipped-Updated p f files nv disk _ free
                  (inl (ap (λ r. Map.lookup_or false r nv.conflicts) (sym key) ∙ held))
                  (apply-Updated files nv disk tail))
          | inr loose ↦
              let nv0 : NodeView = record nv { base = Map.insert f.path f.version nv.base } in
              let d = placed sys f disk in
              let (b, c) = restamp_rest sys f d nv0 in
              rw (other, applied_step f (pull_from base0 files) nv disk loose)
                (written-Updated p f files nv (restamp sys f d nv0) disk _ free key
                  (ap (λ r. Map.lookup_or false r nv.conflicts) (sym key) ∙ loose) other b c
                  (apply-Updated files (restamp sys f d nv0) d tail))
        ]
      ]

-- What SyncDown does, path by path, where its writes succeed and each file of the hub stands under its
-- own path: a path that is held, that the hub does not know, or of which the view has the hub's
-- version is left as it is, and so is its base; any other path gets the hub's file, or is removed
-- where that is deleted, and the hub's version as its base. The held paths stay the same, and there
-- is no error.
pub sync_down_path :
    (sys : System) (h : Hub) (nv : NodeView) (disk : Disk) (q : Text)
    → ((p : Text) → sys.fails p ≡ false)
    → IsKeyed h.files
    → let a = sync_down sys h nv disk in
      let new = news q h.files nv.base nv.conflicts in
      (Map.lookup q a.disk ≡ left sys.now new (Map.lookup q disk))
      × (Map.lookup_or 0 q a.view.base ≡ based new (Map.lookup_or 0 q nv.base))
      × (a.view.conflicts ≡ nv.conflicts)
      × (a.ok ≡ true)
unfolding sync_down pull
sync_down_path sys h nv disk q writes k =
    let u = apply-Updated sys writes nv.base q h.files nv disk k in
    (u.on_disk, u.on_base, u.held, u.ok)

-- Nothing that is not held is left to pull.
pull-nothing :
    (base : Map ℕ) (files : Map FileState)
    → IsKeyed files
    → ((q : Text) (f : FileState)
        → Map.lookup q files ≡ some f
        → Map.lookup_or 0 q base ≡ f.version)
    → pull_from base files ≡ []
unfolding pull_from Map.lookup
pull-nothing base [] k h = refl
pull-nothing base ((p, f) ∷ files) k h =
    let (free, key, tail) = IsKeyed-tail p f files k in
    let rest =
      pull-nothing base files tail (λ q g at. h q g (ground (arith, at, free, eq_text_iff p q))) in
    ground (arith, rest, h p f (rw (eq_text_refl p) refl))

-- Catching up ends: where no path is held and the writes succeed, a SyncDown leaves nothing to pull, so
-- that one after it, with no change of the hub in between, changes neither the view nor the
-- directory.
pub sync_down-caught_up :
    (sys later : System) (h : Hub) (nv : NodeView) (disk : Disk)
    → ((p : Text) → sys.fails p ≡ false)
    → IsKeyed h.files
    → ((p : Text) → Map.lookup_or false p nv.conflicts ≡ false)
    → let a = sync_down sys h nv disk in
      (pull a.view.base h ≡ [])
      × (sync_down later h a.view a.disk ≡ record { view = a.view; disk = a.disk; ok = true })
unfolding sync_down pull apply_files
sync_down-caught_up sys later h nv disk writes k loose =
    let a = sync_down sys h nv disk in
    let nothing : pull a.view.base h ≡ [] =
      pull-nothing a.view.base h.files k
        (λ q f at. ground (arith, at, loose q, (sync_down_path sys h nv disk q writes k).1)) in
    (nothing, rw (nothing) refl)
