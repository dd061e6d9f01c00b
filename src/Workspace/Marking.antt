-- ===== src/Workspace/Marking.antt =====
-- The markers that internal/workspace/conflict.go writes are found again.
use avairy.Prelude.{
  ℕ, ◌≤◌, ◌-◌, ◌≡◌, refl, sym, ap, inl, inr, ◌⊎◌, true, List, [], ◌∷◌, ◌++◌, Text, some, Bool-cases,
  arith, length, take, drop, contains, has_prefix, subst, codes,
}
use mathlib.Core.List.{append_assoc}
use avairy.Prelude.Decimal.{format_uint}
use avairy.Workspace.Markers.{
  Edit, marker_start, marker_mid, marker_end, newline, has_conflict_markers, ends_line, write_side,
  slice, hunk, merge_from, merge_markers,
}

contains-has_prefix : (s sub : Text) → has_prefix s sub ≡ true → contains s sub ≡ true
unfolding contains
contains-has_prefix [] sub h = h
contains-has_prefix (c ∷ s) sub h = ground (arith, h)

contains-append : (xs s sub : Text) → contains s sub ≡ true → contains (xs ++ s) sub ≡ true
unfolding contains
contains-append [] s sub h = h
contains-append (x ∷ xs) s sub h = ground (arith, contains-append xs s sub h)

has_prefix-append : (p s : Text) → has_prefix (p ++ s) p ≡ true
unfolding has_prefix
has_prefix-append [] s = refl
has_prefix-append (c ∷ p) s = ground (arith, has_prefix-append p s)

ends_line-split : (s : Text) → ends_line s ≡ true → (z : Text) × (s ≡ z ++ (newline ∷ []))
unfolding ends_line
ends_line-split [] h = absurd (cc h)
ends_line-split (c ∷ []) h = ([], ground (arith, h))
ends_line-split (c ∷ (d ∷ s)) h =
    let (z, e) = ends_line-split (d ∷ s) h in (c ∷ z, ap (λ t. c ∷ t) e)

write_side_cases :
    (s : Text) → (write_side s ≡ []) ⊎ ((z : Text) × (write_side s ≡ z ++ (newline ∷ [])))
unfolding write_side
write_side_cases [] = inl refl
write_side_cases (c ∷ s) = elim (Bool-cases (ends_line (c ∷ s))) [
  | inl ends ↦ let (z, e) = ends_line-split (c ∷ s) ends in inr (z, rw (write_side, ends) e)
  | inr open_ ↦ inr (c ∷ s, rw (write_side, open_) refl)
]

abbrev mid_line : Text
mid_line = newline ∷ (marker_mid ++ (newline ∷ []))

mid_here : (r : Text) → contains (newline ∷ (marker_mid ++ (newline ∷ r))) mid_line ≡ true
mid_here r =
    contains-has_prefix (newline ∷ (marker_mid ++ (newline ∷ r))) mid_line
      (unfold has_prefix in refl)

-- The two sides are divided by a line of their own.
mid-write_side :
    (ours r : Text)
    → contains (newline ∷ (write_side ours ++ (marker_mid ++ (newline ∷ r)))) mid_line ≡ true
mid-write_side ours r = elim (write_side_cases ours) [
  | inl e ↦ rw (e) (mid_here r)
  | inr (z, e) ↦
      rw (e, append_assoc z (newline ∷ []) (marker_mid ++ (newline ∷ r)))
        (contains-append (newline ∷ z) (newline ∷ (marker_mid ++ (newline ∷ r))) mid_line
          (mid_here r))
]

hunk-start : (v : ℕ) (ours theirs r : Text) → contains (hunk v ours theirs ++ r) marker_start ≡ true
unfolding hunk
hunk-start v ours theirs r =
    contains-has_prefix (hunk v ours theirs ++ r) marker_start (has_prefix-append marker_start _)

hunk-mid : (v : ℕ) (ours theirs r : Text) → contains (hunk v ours theirs ++ r) mid_line ≡ true
unfolding hunk
hunk-mid v ours theirs r =
    let tail =
      write_side theirs ++ (marker_end ++ (codes " v" ++ (format_uint v ++ (newline ∷ [])))) in
    subst (λ t. contains (marker_start ++ (newline ∷ t)) mid_line ≡ true)
      (sym (append_assoc (write_side ours) (marker_mid ++ (newline ∷ tail)) r))
      (contains-append marker_start
        (newline ∷ (write_side ours ++ (marker_mid ++ (newline ∷ (tail ++ r))))) mid_line
        (mid-write_side ours (tail ++ r)))

-- The edits go through the file in order.
unfoldable pub InOrder : ℕ → List Edit → Text → Type 0
InOrder pos [] file = pos ≤ length file
InOrder pos (e ∷ es) file =
    (pos ≤ e.start) × (e.start ≤ e.end) × (e.end ≤ length file) × InOrder e.end es file

slice-some :
    (a b : ℕ) (s : Text) → a ≤ b → b ≤ length s → slice a b s ≡ some (take (b - a) (drop a s))
unfolding slice
slice-some a b s h k = ground (arith, h, k)

merge_from-some :
    (v : ℕ) (file : Text) (pos : ℕ) (es : List Edit)
    → InOrder pos es file
    → (out : Text) × (merge_from v file pos es ≡ some out)
unfolding merge_from InOrder
merge_from-some v file pos [] h = (_, slice-some pos (length file) file h (omega arith))
merge_from-some v file pos (e ∷ es) (p, q, r, h) =
    let (rest, at) = merge_from-some v file e.end es h in
    (
      take (e.start - pos) (drop pos file)
          ++ (hunk v (take (e.end - e.start) (drop e.start file)) e.text ++ rest),
      rw
          (
            slice-some pos e.start file p (omega (arith, q, r)),
            slice-some e.start e.end file q r,
            at,
          )
          refl,
    )

-- Marking locks: for edits in order and within the file, at least one, MergeMarkers succeeds and what
-- it returns has conflict markers, whatever the two sides hold, so that the file is not pushed until
-- someone has edited it.
pub merge_markers-marked :
    (e : Edit) (es : List Edit) (file : Text) (v : ℕ)
    → InOrder 0 (e ∷ es) file
    → (out : Text) × (merge_markers (e ∷ es) file v ≡ some out) × (has_conflict_markers out ≡ true)
unfolding merge_markers merge_from InOrder has_conflict_markers
merge_markers-marked e es file v (p, q, r, h) =
    let (rest, at) = merge_from-some v file e.end es h in
    let before = take (e.start - 0) (drop 0 file) in
    let ours = take (e.end - e.start) (drop e.start file) in
    let body = hunk v ours e.text ++ rest in
    let start = contains-append before body marker_start (hunk-start v ours e.text rest) in
    let mid = contains-append before body mid_line (hunk-mid v ours e.text rest) in
    (
      before ++ body,
      rw (slice-some 0 e.start file p (omega (arith, q, r)), slice-some e.start e.end file q r, at)
          refl,
      ground (arith, start, mid),
    )
