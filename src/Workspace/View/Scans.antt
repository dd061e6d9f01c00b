-- ===== src/Workspace/View/Scans.antt =====
-- What a scan of internal/workspace/fsutil.go finds: each path once, and only paths that it has seen.
use avairy.Prelude.{
  ℕ, ◌≡◌, ◌≢◌, refl, sym, ◌∙◌, inl, inr, ◌⊎◌, Bool, true, false, List, [], ◌∷◌, Text, eq_text_iff,
  Option, none, some, Option-cases, Bool-cases, arith, subst, All, eq_text_refl,
}
use mathlib.Core.Option.{some_inj}
use avairy.Prelude.Map
use avairy.Prelude.Map.{Map, IsDistinct, lookup_or-insert}
use avairy.Workspace.Content.{hash_content}
use avairy.Workspace.Hub.{Change, Hub}
use avairy.Workspace.Ignore.{Ignore, is_skipped}
use avairy.Workspace.Disk.{
  Entry, Disk, FileStamp, Stamps, Scanned, scan_changes, scan_entry, scan_read, Payload, payload,
  not_synced, read_error, entry_payload, entry_info, passes_gate, same_hash, scanned_change,
}
use avairy.Workspace.View.{NodeView, Synced, sync_scanned, sync_up}

pub sync_up_scan :
    (now : ℕ) (ig : Ignore) (disk : Disk) (h : Hub) (nv : NodeView) (s : Synced)
    → sync_up now ig disk h nv ≡ some s
    → (sc : Scanned) × (scan_changes ig nv.stamps disk ≡ some sc) × (sync_scanned now sc h nv ≡ s)
unfolding sync_up
sync_up_scan now ig disk h nv s e = ground (arith, e)

-- No change is one of the path.
abbrev pub NotAt : Text → List Change → Type 0
NotAt p cs = All (λ c. c.path ≢ p) cs

abbrev pub Once : List Change → Type 0
Once [] = Unit
Once (c ∷ cs) = NotAt c.path cs × Once cs

abbrev pub IsSeen : Map Bool → Text → Type 0
IsSeen seen p = Map.lookup_or false p seen ≡ true

-- What the walk function adds for one entry.
Added : Text → Scanned → Scanned → Type 0
Added path s t =
    ((t.changed ≡ s.changed) × (t.seen ≡ s.seen))
    ⊎ ((t.changed ≡ s.changed) × (t.seen ≡ Map.insert path true s.seen))
    ⊎ ((c : Change) × (c.path ≡ path)
        × (t.changed ≡ c ∷ s.changed)
        × (t.seen ≡ Map.insert path true s.seen))

scan_read-Added :
    (path : Text) (prev : Option FileStamp) (size time : ℕ) (pl : Payload) (s t : Scanned)
    → scan_read path prev size time pl (record s { seen = Map.insert path true s.seen }) ≡ some t
    → Added path s t
unfolding scan_read Added
scan_read-Added path prev size time not_synced s t e =
    subst (Added path s) (some_inj.0 e) (inr (inl (refl, refl)))
scan_read-Added path prev size time read_error s t e = absurd (cc e)
scan_read-Added path prev size time (payload content mode) s t e =
    elim (Bool-cases (same_hash prev (hash_content content))) [
      | inl same ↦ ground (arith, e, same)
      | inr new ↦ inr (
          inr (
            scanned_change path content mode,
            refl,
            ground (arith, e, new),
            ground (arith, e, new),
          ))
    ]

scan_entry-Added :
    (ig : Ignore) (prev : Stamps) (path : Text) (en : Entry) (s t : Scanned)
    → scan_entry ig prev path en s ≡ some t
    → Added path s t
unfolding scan_entry Added
scan_entry-Added ig prev path en s t e = elim (Bool-cases (is_skipped ig path)) [
  | inl skipped ↦ ground (arith, skipped, e)
  | inr walked ↦ elim (Option-cases (entry_info en)) [
    | inl nothing ↦ ground (arith, walked, nothing, e)
    | inr ((size, time), info) ↦ elim (Bool-cases (passes_gate (Map.lookup path prev) size time)) [
      | inl gate ↦ ground (arith, walked, info, gate, e)
      | inr read ↦
          scan_read-Added path (Map.lookup path prev) size time (entry_payload en) s t
            (ground (arith, walked, info, read, e))
    ]
  ]
]

pub record Sound (t : Scanned) : Type 0 where
  pub once : Once t.changed
  pub seen : All (λ (c : Change). IsSeen t.seen c.path) t.changed

insert-IsSeen : (p q : Text) (seen : Map Bool) → IsSeen seen q → IsSeen (Map.insert p true seen) q
insert-IsSeen p q seen h = ground (arith, h, lookup_or-insert false p q true seen)

insert-IsSeen_all :
    (p : Text) (seen : Map Bool) (cs : List Change)
    → All (λ (c : Change). IsSeen seen c.path) cs
    → All (λ (c : Change). IsSeen (Map.insert p true seen) c.path) cs
insert-IsSeen_all p seen [] h = _
insert-IsSeen_all p seen (c ∷ cs) (h, hs) =
    (insert-IsSeen p c.path seen h, insert-IsSeen_all p seen cs hs)

inserted-IsSeen : (p : Text) (seen : Map Bool) → IsSeen (Map.insert p true seen) p
inserted-IsSeen p seen = ground (arith, lookup_or-insert false p p true seen, eq_text_refl p)

NotAt-at : (p q : Text) (cs : List Change) → p ≡ q → NotAt p cs → NotAt q cs
NotAt-at p q cs e h = subst (λ r. NotAt r cs) e h

-- Soundness of what the fields hold.
from_fields :
    (t : Scanned) (cs : List Change) (seen : Map Bool)
    → t.changed ≡ cs
    → t.seen ≡ seen
    → Once cs
    → All (λ (c : Change). IsSeen seen c.path) cs
    → Sound t
from_fields t cs seen c e once all_seen = record {
  once = subst Once (sym c) once;
  seen =
      subst (λ m. All (λ (c : Change). IsSeen m c.path) t.changed) (sym e)
        (subst (All (λ (c : Change). IsSeen seen c.path)) (sym c) all_seen);
}

Added-Sound :
    (path : Text) (s t : Scanned) → Added path s t → NotAt path s.changed → Sound s → Sound t
unfolding Added
Added-Sound path s t (inl (c, e)) free h = from_fields t s.changed s.seen c e h.once h.seen
Added-Sound path s t (inr (inl (c, e))) free h =
    from_fields t s.changed _ c e h.once (insert-IsSeen_all path s.seen s.changed h.seen)
Added-Sound path s t (inr (inr (d, at, c, e))) free h =
    from_fields t (d ∷ s.changed) _ c e (NotAt-at path d.path s.changed (sym at) free, h.once)
      (
        subst (IsSeen (Map.insert path true s.seen)) (sym at) (inserted-IsSeen path s.seen),
        insert-IsSeen_all path s.seen s.changed h.seen,
      )

Added-NotAt :
    (path q : Text) (s t : Scanned)
    → Added path s t
    → path ≢ q
    → NotAt q s.changed
    → NotAt q t.changed
unfolding Added
Added-NotAt path q s t (inl (c, e)) other h = rw (c) h
Added-NotAt path q s t (inr (inl (c, e))) other h = rw (c) h
Added-NotAt path q s t (inr (inr (d, at, c, e))) other h = rw (c) (λ x. other (sym at ∙ x), h)

-- A path that is not on disk is not found by the scan.
scan_changes-NotAt :
    (ig : Ignore) (prev : Stamps) (disk : Disk) (t : Scanned) (q : Text)
    → Map.lookup q disk ≡ none
    → scan_changes ig prev disk ≡ some t
    → NotAt q t.changed
unfolding scan_changes Map.lookup
scan_changes-NotAt ig prev [] t q free e =
    subst {A = Scanned} (λ u. NotAt q u.changed) (some_inj.0 e) _
scan_changes-NotAt ig prev ((path, en) ∷ disk) t q free e =
    elim (Option-cases (scan_changes ig prev disk)) [
      | inl failed ↦ absurd (cc (e, failed))
      | inr (s, at) ↦
          Added-NotAt path q s t (scan_entry-Added ig prev path en s t (ground (arith, e, at)))
            (λ here. ground (arith, free, here, eq_text_iff path q))
            (scan_changes-NotAt ig prev disk s q (ground (arith, free)) at)
    ]

pub scan_changes-Sound :
    (ig : Ignore) (prev : Stamps) (disk : Disk) (t : Scanned)
    → IsDistinct disk
    → scan_changes ig prev disk ≡ some t
    → Sound t
unfolding scan_changes IsDistinct
scan_changes-Sound ig prev [] t d e =
    subst {A = Scanned} (λ u. Sound u) (some_inj.0 e) (record { once = _; seen = _ })
scan_changes-Sound ig prev ((path, en) ∷ disk) t (free, d) e =
    elim (Option-cases (scan_changes ig prev disk)) [
      | inl failed ↦ absurd (cc (e, failed))
      | inr (s, at) ↦
          Added-Sound path s t (scan_entry-Added ig prev path en s t (ground (arith, e, at)))
            (scan_changes-NotAt ig prev disk s path free at)
            (scan_changes-Sound ig prev disk s d at)
    ]
