-- ===== src/Workspace/Ignore.antt =====
-- Ignore of internal/workspace/fsutil.go. The matchers that go-gitignore and patternmatcher build from
-- the ignore files are functions here.
use avairy.Prelude.{
  ℕ, Bool, false, ◌||◌, List, [], ◌∷◌, ◌++◌, Text, codes, eq_text, has_prefix, any, length, drop,
  ◌-◌, leb, ◌&&◌, Option, none, some, ◌==◌, if◌then◌else◌,
}

pub record Ignore : Type 0 where
  pub dirs : List Text
  pub prefixes : List Text
  pub suffixes : List Text
  pub git : Option (Text → Bool)
  pub docker : Option (Text → Bool)

-- DefaultIgnore
unfoldable pub default_ignore : Ignore
default_ignore = record {
  dirs =
      codes ".git"
      ∷ codes ".svn"
      ∷ codes ".hg"
      ∷ codes ".avairy"
      ∷ codes ".claude"
      ∷ codes ".codex"
      ∷ codes ".grok"
      ∷ codes ".gemini"
      ∷ codes ".copilot"
      ∷ codes ".aider"
      ∷ codes ".idea"
      ∷ codes ".vscode"
      ∷ codes "node_modules"
      ∷ codes "vendor"
      ∷ codes "target"
      ∷ codes "dist"
      ∷ codes "out"
      ∷ codes "bin"
      ∷ codes "obj"
      ∷ codes "__pycache__"
      ∷ codes ".venv"
      ∷ codes "venv"
      ∷ codes ".pytest_cache"
      ∷ codes ".mypy_cache"
      ∷ codes ".cache"
      ∷ codes ".zig-cache"
      ∷ codes "zig-cache"
      ∷ codes "zig_global_cache"
      ∷ codes ".cmake"
      ∷ codes ".next"
      ∷ codes ".nuxt"
      ∷ codes ".gradle"
      ∷ codes ".terraform"
      ∷ [];
  prefixes = codes "build" ∷ codes "cmake-build" ∷ [];
  suffixes =
      codes ".o"
      ∷ codes ".obj"
      ∷ codes ".a"
      ∷ codes ".lib"
      ∷ codes ".exe"
      ∷ codes ".dll"
      ∷ codes ".so"
      ∷ codes ".dylib"
      ∷ codes ".wasm"
      ∷ codes ".bin"
      ∷ codes ".test"
      ∷ codes ".class"
      ∷ codes ".pyc"
      ∷ codes ".DS_Store"
      ∷ [];
  git = none;
  docker = none;
}

-- IgnoreFor, for the compiled .gitignore with .avairyignore and the compiled .dockerignore, where
-- there are lines for them
unfoldable pub ignore_for : Option (Text → Bool) → Option (Text → Bool) → Ignore
unfolding default_ignore
ignore_for git docker = record default_ignore { git = git; docker = docker }

add_byte : ℕ → List Text → List Text
add_byte c [] = (c ∷ []) ∷ []
add_byte c (s ∷ ss) = (c ∷ s) ∷ ss

-- strings.SplitSeq(rel, "/")
unfoldable pub segments : Text → List Text
unfolding add_byte
segments [] = [] ∷ []
segments (c ∷ s) = let rest = segments s in if c == b'/' then [] ∷ rest else add_byte c rest

-- strings.HasSuffix
unfoldable pub has_suffix : Text → Text → Bool
has_suffix s t = leb (length t) (length s) && eq_text (drop (length s - length t) s) t

matches_opt : Option (Text → Bool) → Text → Bool
matches_opt none rel = false
matches_opt (some m) rel = m rel

unfoldable pub matches_segment : Ignore → Text → Bool
matches_segment ig seg = any (eq_text seg) ig.dirs || any (has_prefix seg) ig.prefixes

-- Ignore.Match
unfoldable pub match_path : Ignore → Text → Bool
unfolding matches_segment segments has_suffix matches_opt
match_path ig rel =
    any (matches_segment ig) (segments rel)
    || (any (has_suffix rel) ig.suffixes || (matches_opt ig.git rel || matches_opt ig.docker rel))

ancestors_from : Text → Text → List Text
ancestors_from prefix [] = []
ancestors_from prefix (c ∷ s) =
    let rest = ancestors_from (prefix ++ (c ∷ [])) s in if c == b'/' then prefix ∷ rest else rest

-- Does the walk leave out a file: does it match, or a directory above it, which is then skipped?
unfoldable pub is_skipped : Ignore → Text → Bool
unfolding match_path ancestors_from
is_skipped ig rel = any (match_path ig) (ancestors_from [] rel) || match_path ig rel
