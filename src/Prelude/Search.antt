-- ===== src/Prelude/Search.antt =====
-- What the searching and trimming functions on texts find.
use mathlib.Core.Path.{◌≡◌, refl, sym, ap, ◌∙◌, subst}
use mathlib.Core.Logic.{◌⊎◌, inl, inr}
use mathlib.Core.Bool.{true, false}
use mathlib.Core.List.{[], ◌∷◌, ◌++◌, reverse, reverse-append, reverse-reverse, append_assoc}
use native.Mathlib.Omega.{arith}
use avairy.Prelude.Tests.{Bool-cases}
use avairy.Prelude.Strings.{Text, has_prefix, contains, to_lower, is_space, trim_left, trim_space}

pub has_prefix-append : (p post : Text) → has_prefix (p ++ post) p ≡ true
unfolding has_prefix
has_prefix-append [] [] = refl
has_prefix-append [] (c ∷ post) = refl
has_prefix-append (c ∷ p) post = ground (arith, has_prefix-append p post)

pub has_prefix-split : (s p : Text) → has_prefix s p ≡ true → (post : Text) × (s ≡ p ++ post)
unfolding has_prefix
has_prefix-split s [] h = (s, refl)
has_prefix-split [] (c ∷ p) h = absurd (cc)
has_prefix-split (d ∷ s) (c ∷ p) h =
    let (post, e) = has_prefix-split s p (ground arith) in (post, ground (arith, e))

pub contains-embed : (pre p post : Text) → contains (pre ++ (p ++ post)) p ≡ true
unfolding contains
contains-embed [] [] [] = refl
contains-embed [] [] (c ∷ post) = refl
contains-embed [] (c ∷ p) post = rw (has_prefix-append (c ∷ p) post)
contains-embed (d ∷ pre) p post = ground (arith, contains-embed pre p post)

pub contains-split :
    (s p : Text) → contains s p ≡ true → (pre : Text) × (post : Text) × (s ≡ pre ++ (p ++ post))
unfolding contains
contains-split [] p h = let (post, e) = has_prefix-split [] p h in ([], post, e)
contains-split (c ∷ s) p h = elim (Bool-cases (has_prefix (c ∷ s) p)) [
  | inl here ↦ let (post, e) = has_prefix-split (c ∷ s) p here in ([], post, e)
  | inr later ↦
      let (pre, post, e) = contains-split s p (ground arith) in (c ∷ pre, post, ap (λ t. c ∷ t) e)
]

-- What is found in a part of a text is found in the text.
pub contains-part :
    (pre s post p : Text) → contains s p ≡ true → contains (pre ++ (s ++ post)) p ≡ true
contains-part pre s post p h =
    let (a, b, e) = contains-split s p h in
    subst (λ t. contains t p ≡ true)
      (append_assoc pre a (p ++ (b ++ post))
        ∙ ap (λ t. pre ++ t)
            (sym (append_assoc a (p ++ b) post ∙ ap (λ t. a ++ t) (append_assoc p b post))
              ∙ ap (λ t. t ++ post) (sym e)))
      (contains-embed (pre ++ a) p (b ++ post))

pub to_lower-append : (s t : Text) → to_lower (s ++ t) ≡ to_lower s ++ to_lower t
unfolding to_lower
to_lower-append [] t = refl
to_lower-append (c ∷ s) t = rw (to_lower-append s t)

-- The text starts with a byte that is no space.
abbrev Solid : Text → Type 0
Solid [] = ⊥
Solid (c ∷ s) = is_space c ≡ false

trim_left-part :
    (x t y : Text) → Solid t → (x' : Text) × (trim_left (x ++ (t ++ y)) ≡ x' ++ (t ++ y))
unfolding trim_left
trim_left-part [] [] y h = absurd h
trim_left-part [] (c ∷ t) y h = ([], rw h)
trim_left-part (d ∷ x) t y h = elim (Bool-cases (is_space d)) [
  | inl space ↦ let (x', e) = trim_left-part x t y h in (x', rw space e)
  | inr solid ↦ (d ∷ x, rw solid)
]

trim_left-split :
    (s : Text) → (a : Text) × (s ≡ a ++ trim_left s) × ((trim_left s ≡ []) ⊎ Solid (trim_left s))
unfolding trim_left
trim_left-split [] = ([], refl, inl refl)
trim_left-split (c ∷ s) = elim (Bool-cases (is_space c)) [
  | inl space ↦
      let (a, e, h) = trim_left-split s in (c ∷ a, rw space (ap (λ t. c ∷ t) e), rw space h)
  | inr solid ↦ ([], rw solid, rw solid (inr solid))
]

-- A part of a text that starts and ends with no space is a part of the trimmed text.
pub trim_space-part :
    (x t y : Text)
    → Solid t
    → Solid (reverse t)
    → (x' : Text) × (y' : Text) × (trim_space (x ++ (t ++ y)) ≡ x' ++ (t ++ y'))
unfolding trim_space
trim_space-part x t y h g =
    let (x', e) = trim_left-part x t y h in
    let (y', f) = trim_left-part (reverse y) (reverse t) (reverse x') g in
    (
      x',
      reverse y',
      ap (λ s. reverse (trim_left (reverse s))) e
          ∙ ap (λ s. reverse (trim_left s)) (back x' t y)
          ∙ ap (λ s. reverse s) f
          ∙ there x' t y',
    )
  where
    back : (x t y : Text) → reverse (x ++ (t ++ y)) ≡ reverse y ++ (reverse t ++ reverse x)
    back x t y = simp (reverse-append, append_assoc)

    there : (x t y : Text) → reverse (y ++ (reverse t ++ reverse x)) ≡ x ++ (t ++ reverse y)
    there x t y = simp (reverse-append, reverse-reverse, append_assoc)

Solid-front : (s t : Text) → (s ++ t ≡ []) ⊎ Solid (s ++ t) → (s ≡ []) ⊎ Solid s
Solid-front [] t h = inl refl
Solid-front (c ∷ s) t (inl e) = absurd (cc)
Solid-front (c ∷ s) t (inr h) = inr h

empty_reverse : (v : Text) → reverse v ≡ [] → v ≡ []
empty_reverse v e = sym (reverse-reverse v) ∙ ap (λ s. reverse s) e

-- The trimmed text is a part of the text, and is empty or starts and ends with no space.
pub trim_space-split :
    (s : Text)
    → (a b : Text) × (s ≡ a ++ (trim_space s ++ b))
      × ((trim_space s ≡ []) ⊎ (Solid (trim_space s) × Solid (reverse (trim_space s))))
unfolding trim_space
trim_space-split s =
    let (a, e, h) = trim_left-split s in
    let (b, f, g) = trim_left-split (reverse (trim_left s)) in
    let v = trim_left (reverse (trim_left s)) in
    let whole : trim_left s ≡ reverse v ++ reverse b =
      sym (reverse-reverse (trim_left s)) ∙ ap (λ t. reverse t) f ∙ reverse-append b v in
    (
      a,
      reverse b,
      e ∙ ap (λ t. a ++ t) whole,
      ends v g (Solid-front (reverse v) (reverse b) (subst (λ t. (t ≡ []) ⊎ Solid t) whole h)),
    )
  where
    ends :
        (v : Text)
        → (v ≡ []) ⊎ Solid v
        → (reverse v ≡ []) ⊎ Solid (reverse v)
        → (reverse v ≡ []) ⊎ (Solid (reverse v) × Solid (reverse (reverse v)))
    ends v (inl e) h = inl (ap (λ t. reverse t) e)
    ends v (inr g) (inl e) = inl e
    ends v (inr g) (inr h) = inr (h, subst Solid (sym (reverse-reverse v)) g)
