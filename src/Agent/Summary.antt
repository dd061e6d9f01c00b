-- ===== src/Agent/Summary.antt =====
-- internal/agent/summary.go: what a tool call is shown as, and its key for loop detection. A value of
-- type any in a tool's input is of a type A, with Go's type assertions on it, its text under %v, and
-- the value that a string is. PatchPreview is an argument.
use avairy.Prelude.{
  ℕ, zero, suc, ◌+◌, ◌/◌, ◌%◌, List, [], ◌∷◌, ◌++◌, Text, codes, eq_text, Option, none, some, any,
  length, take, ltb, leb, trim_space, ◌==◌, if◌then◌else◌,
}
use avairy.Prelude.Map
use avairy.Prelude.Map.{Map}
use avairy.Workspace.Content.{hash_content}

pub record Dynamic (A : Type 0) : Type 0 where
  pub as_text : A → Option Text
  pub as_list : A → Option (List A)
  pub as_map : A → Option (Map A)
  pub show : A → Text
  pub of_text : Text → A

pub record ToolCall (A : Type 0) : Type 0 where
  pub id : Text
  pub name : Text
  pub input : Map A
  pub result : Text

-- "…" in UTF-8
abbrev pub ellipsis : Text
ellipsis = 0xe2 ∷ 0x80 ∷ 0xa6 ∷ []

-- trunc
unfoldable pub trunc : Text → ℕ → Text
trunc s n = if leb (length s) n then s else take n s ++ ellipsis

-- s[:i] for the first newline, where there is one
unfoldable pub first_line : Text → Option Text
first_line [] = none
first_line (c ∷ s) =
    let rest = first_line s in
    if c == 10 then some [] else elim rest [ none ↦ none | some l ↦ some (c ∷ l) ]

-- firstLineEllipsis
unfoldable pub first_line_ellipsis : Text → Text
unfolding first_line
first_line_ellipsis s = elim (first_line s) [ none ↦ s | some l ↦ trim_space l ++ (32 ∷ ellipsis) ]

hex_digit : ℕ → ℕ
hex_digit d = if ltb d 10 then 48 + d else 87 + d

hex_fuel : ℕ → ℕ → Text → Text
hex_fuel zero n acc = acc
hex_fuel (suc f) n acc =
    let rest = hex_fuel f (n / 16) (hex_digit (n % 16) ∷ acc) in
    if ltb n 16 then hex_digit n ∷ acc else rest

-- strconv.FormatUint(n, 16) of a uint64, which has 16 digits at most
unfoldable pub format_hex : ℕ → Text
unfolding hex_fuel hex_digit
format_hex n = hex_fuel 16 n []

-- bodyKeys
abbrev pub body_keys : List Text
body_keys =
    codes "content"
    ∷ codes "new_string"
    ∷ codes "old_string"
    ∷ codes "file_text"
    ∷ codes "patch"
    ∷ codes "edits"
    ∷ codes "changes"
    ∷ []

abbrev pub region_keys : List Text
region_keys =
    codes "offset"
    ∷ codes "limit"
    ∷ codes "line"
    ∷ codes "lines"
    ∷ codes "start_line"
    ∷ codes "end_line"
    ∷ codes "view_range"
    ∷ []

abbrev pub detail_keys : List Text
detail_keys =
    codes "command"
    ∷ codes "cmd"
    ∷ codes "file_path"
    ∷ codes "filePath"
    ∷ codes "path"
    ∷ codes "pattern"
    ∷ codes "query"
    ∷ codes "url"
    ∷ []

module _ {A : Type 0} (dyn : Dynamic A) where
  -- in[k].(string), or "" where it is missing or no string
  unfoldable pub text_at : Text → Map A → Text
  text_at k input = elim (Map.lookup k input) [
    | none ↦ []
    | some v ↦ elim (dyn.as_text v) [ none ↦ [] | some s ↦ s ]
  ]

  -- The loop of bodyDigest: "key=value" with a NUL behind it
  unfoldable pub body_text : List Text → Map A → Text
  body_text [] input = []
  body_text (k ∷ ks) input =
      let rest = body_text ks input in
      elim (Map.lookup k input) [ none ↦ rest | some v ↦ k ++ (61 ∷ (dyn.show v ++ (0 ∷ rest))) ]

  -- bodyDigest
  unfoldable pub body_digest : Map A → Text
  unfolding body_text format_hex
  body_digest input = elim (body_text body_keys input) [
    | [] ↦ []
    | c ∷ s ↦ format_hex (hash_content (c ∷ s))
  ]

  -- contentDigest
  unfoldable pub content_digest : Map A → Text
  unfolding text_at body_digest
  content_digest input = elim (text_at (codes "_digest") input) [
    | [] ↦ body_digest input
    | c ∷ s ↦ c ∷ s
  ]

  -- The loop of readRegion, and strings.Join with ","
  unfoldable pub region_text : List Text → Map A → Text
  region_text [] input = []
  region_text (k ∷ ks) input =
      let rest = region_text ks input in
      elim (Map.lookup k input) [
        | none ↦ rest
        | some v ↦ k ++ (61 ∷ (dyn.show v ++ (elim rest [ [] ↦ [] | c ∷ s ↦ 44 ∷ (c ∷ s) ])))
      ]

  -- readRegion
  unfoldable pub read_region : Map A → Text
  unfolding region_text
  read_region input = region_text region_keys input

  first_path : List A → Text
  first_path [] = []
  first_path (v ∷ vs) = elim (dyn.as_map v) [ none ↦ [] | some m ↦ text_at (codes "path") m ]

  -- changesPath
  unfoldable pub changes_path : Map A → Text
  unfolding first_path
  changes_path input = elim (Map.lookup (codes "changes") input) [
    | none ↦ []
    | some v ↦ elim (dyn.as_list v) [ none ↦ [] | some vs ↦ first_path vs ]
  ]

  -- The loop of actionDetail: the first key that holds a string
  unfoldable pub detail_of : List Text → Map A → Option Text
  unfolding text_at
  detail_of [] input = none
  detail_of (k ∷ ks) input =
      let rest = detail_of ks input in elim (text_at k input) [ [] ↦ rest | c ∷ s ↦ some (c ∷ s) ]

  -- actionDetail
  unfoldable pub action_detail : Map A → Text
  unfolding detail_of first_line_ellipsis changes_path trunc
  action_detail input = elim (detail_of detail_keys input) [
    | some v ↦ trunc (first_line_ellipsis v) 120
    | none ↦ trunc (changes_path input) 120
  ]

  -- ToolSummary
  unfoldable pub tool_summary : ToolCall A → Text
  unfolding action_detail
  tool_summary tc = elim (action_detail tc.input) [
    | [] ↦ tc.name
    | c ∷ s ↦ tc.name ++ (codes ": " ++ (c ∷ s))
  ]

  -- The part behind a separator, where there is one
  marked_part : ℕ → Text → Text
  marked_part sep [] = []
  marked_part sep (c ∷ s) = sep ∷ (c ∷ s)

  -- ActionKey
  unfoldable pub action_key : ToolCall A → Text
  unfolding tool_summary content_digest read_region marked_part
  action_key tc =
      tool_summary tc
      ++ (marked_part b'#' (content_digest tc.input) ++ marked_part b'@' (read_region tc.input))

  trim_value : A → A
  trim_value v = elim (dyn.as_text v) [ none ↦ v | some s ↦ dyn.of_text (trunc s 256) ]

  -- The loop of TrimInput
  unfoldable pub trim_values : Map A → Map A
  unfolding trim_value
  trim_values [] = []
  trim_values ((k, v) ∷ input) =
      let rest = trim_values input in
      if any (eq_text k) body_keys then rest else (k, trim_value v) ∷ rest

  put_text : Text → Text → Map A → Map A
  put_text k [] m = m
  put_text k (c ∷ s) m = Map.insert k (dyn.of_text (c ∷ s)) m

  -- TrimInput, for the preview that PatchPreview gives of the input
  unfoldable pub trim_input : (Map A → Text) → Map A → Map A
  unfolding trim_values put_text body_digest changes_path
  trim_input preview [] = []
  trim_input preview (p ∷ ps) =
      let digested = put_text (codes "_digest") (body_digest (p ∷ ps)) (trim_values (p ∷ ps)) in
      let lifted : Map A = elim (Map.lookup (codes "path") digested) [
        | some v ↦ digested
        | none ↦ put_text (codes "path") (changes_path (p ∷ ps)) digested
      ] in
      put_text (codes "_diff") (preview (p ∷ ps)) lifted
