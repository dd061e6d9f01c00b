-- ===== src/Workspace/Content.antt =====
-- Content of files in internal/workspace/fsutil.go.
use Prim.Native.Nat.{bit_xor}
use avairy.Prelude.{ℕ, ◌*◌, [], ◌∷◌, Text, ◌==◌, any, if◌then◌else◌, u64}

-- bytes.ReplaceAll(b, "\r\n", "\n")
unfoldable pub to_lf : Text → Text
to_lf [] = []
to_lf (c ∷ []) = c ∷ []
to_lf (c ∷ (d ∷ s)) =
    let rest = to_lf (d ∷ s) in if c == 13 then (if d == 10 then rest else c ∷ rest) else c ∷ rest

-- normalizeForTransit: binary content, which holds a NUL, is left as it is.
unfoldable pub normalize_for_transit : Text → Text
unfolding to_lf
normalize_for_transit b = if any (λ c. c == 0) b then b else to_lf b

hash_from : ℕ → Text → ℕ
hash_from h [] = h
hash_from h (c ∷ s) = hash_from (u64 (bit_xor h c * 1099511628211)) s

-- HashContent: FNV-1a over 64 bits.
unfoldable pub hash_content : Text → ℕ
unfolding hash_from
hash_content b = hash_from 14695981039346656037 b
