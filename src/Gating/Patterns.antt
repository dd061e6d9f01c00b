-- ===== src/Gating/Patterns.antt =====
-- Which commands GatedCommand of internal/gating/policy.go finds.
use mathlib.Core.Bool.{false≢true}
use mathlib.Core.List.{append_assoc}
use avairy.Prelude.{
  Bool, true, false, ◌≡◌, inl, inr, refl, sym, ap, ◌∙◌, List, [], ◌∷◌, ◌++◌, Text, contains,
  to_lower, trim_space, any, arith,
}
use avairy.Prelude.Search.{contains-part, to_lower-append, trim_space-part, trim_space-split}
use avairy.Gating.Policy.{gated_command, pattern_sets}

-- What is found in a part of a text is found in the text, for a list of patterns and for a list of
-- such lists.
any-contains-part :
    (pre s post : Text) (ps : List Text)
    → any (λ p. contains s p) ps ≡ true
    → any (λ p. contains (pre ++ (s ++ post)) p) ps ≡ true
unfolding any
any-contains-part pre s post [] h = h
any-contains-part pre s post (p ∷ ps) h =
    ground (arith, contains-part pre s post p, any-contains-part pre s post ps)

any-any-contains-part :
    (pre s post : Text) (sets : List (List Text))
    → any (λ set. any (λ p. contains s p) set) sets ≡ true
    → any (λ set. any (λ p. contains (pre ++ (s ++ post)) p) set) sets ≡ true
unfolding any
any-any-contains-part pre s post [] h = h
any-any-contains-part pre s post (ps ∷ sets) h =
    ground (arith, any-contains-part pre s post ps, any-any-contains-part pre s post sets)

abbrev found_in : Text → Bool
found_in c = any (λ set. any (λ p. contains c p) set) pattern_sets

-- No pattern is found in the empty text.
nothing_in_empty : found_in (to_lower []) ≡ false
unfolding any contains to_lower
nothing_in_empty = refl

found_in-part :
    (pre t post : Text)
    → found_in (to_lower t) ≡ true
    → found_in (to_lower (pre ++ (t ++ post))) ≡ true
found_in-part pre t post h =
    rw (to_lower-append pre (t ++ post), to_lower-append t post)
      (any-any-contains-part (to_lower pre) (to_lower t) (to_lower post) pattern_sets h)

-- A gated command stays gated whatever text stands before and behind it.
pub gated_command-part :
    (pre cmd post : Text) → gated_command cmd ≡ true → gated_command (pre ++ (cmd ++ post)) ≡ true
unfolding gated_command
gated_command-part pre cmd post h =
    let (a, b, e, ends) = trim_space-split cmd in
    elim ends [
      | inl empty ↦
          absurd
            (false≢true (sym nothing_in_empty ∙ ap (λ t. found_in (to_lower t)) (sym empty) ∙ h))
      | inr (front, back) ↦
          let (x', y', f) = trim_space-part (pre ++ a) (trim_space cmd) (b ++ post) front back in
          ap (λ t. found_in (to_lower (trim_space (pre ++ (t ++ post))))) e
          ∙ ap (λ t. found_in (to_lower (trim_space t))) (regroup pre a (trim_space cmd) b post)
          ∙ ap (λ t. found_in (to_lower t)) f
          ∙ found_in-part x' (trim_space cmd) y' h
    ]
  where
    regroup : (p a t b q : Text) → p ++ ((a ++ (t ++ b)) ++ q) ≡ (p ++ a) ++ (t ++ (b ++ q))
    regroup p a t b q = simp append_assoc
