-- ===== src/Workspace/Markers.antt =====
-- internal/workspace/conflict.go. The edits of a line diff come from go-udiff and are an argument,
-- sorted; a slice out of range, where the code panics, is none.
use avairy.Prelude.{
  ℕ, ◌-◌, Bool, false, ◌&&◌, List, [], ◌∷◌, ◌++◌, Text, codes, Option, none, some, leb, length,
  take, drop, contains, ◌==◌, if◌then◌else◌, ◌>>=◌,
}
use avairy.Prelude.Decimal.{format_uint}

abbrev pub marker_start : Text
marker_start = codes "<<<<<<< local (your edit)"

abbrev pub marker_mid : Text
marker_mid = codes "======="

abbrev pub marker_end : Text
marker_end = codes ">>>>>>> hub"

abbrev pub newline : ℕ
newline = 10

-- HasConflictMarkers
unfoldable pub has_conflict_markers : Text → Bool
has_conflict_markers b =
    contains b marker_start && contains b (newline ∷ (marker_mid ++ (newline ∷ [])))

-- type Edit of go-udiff: the bytes from start to end are replaced by text.
pub record Edit : Type 0 where
  pub start : ℕ
  pub end : ℕ
  pub text : Text

unfoldable pub ends_line : Text → Bool
ends_line [] = false
ends_line (c ∷ []) = c == newline
ends_line (c ∷ (d ∷ s)) = ends_line (d ∷ s)

-- writeSide: what it writes
unfoldable pub write_side : Text → Text
unfolding ends_line
write_side [] = []
write_side (c ∷ s) = if ends_line (c ∷ s) then c ∷ s else (c ∷ s) ++ (newline ∷ [])

-- s[a:b]
unfoldable pub slice : ℕ → ℕ → Text → Option Text
slice a b s = if leb a b && leb b (length s) then some (take (b - a) (drop a s)) else none

-- The markers of one edit, around its two sides
unfoldable pub hunk : ℕ → Text → Text → Text
unfolding write_side
hunk version ours theirs =
    marker_start
    ++ (newline
        ∷ (write_side ours
            ++ (marker_mid
                ++ (newline
                    ∷ (write_side theirs
                        ++ (marker_end
                            ++ (codes " v" ++ (format_uint version ++ (newline ∷ [])))))))))

-- The loop of MergeMarkers, from pos
unfoldable pub merge_from : ℕ → Text → ℕ → List Edit → Option Text
unfolding slice hunk
merge_from version file pos [] = slice pos (length file) file
merge_from version file pos (e ∷ es) = do
  before ← slice pos e.start file
  ours ← slice e.start e.end file
  rest ← merge_from version file e.end es
  some (before ++ (hunk version ours e.text ++ rest))

-- MergeMarkers, for the edits from the local to the hub's content
unfoldable pub merge_markers : List Edit → Text → ℕ → Option Text
unfolding merge_from
merge_markers [] file version = some file
merge_markers (e ∷ es) file version = merge_from version file 0 (e ∷ es)
