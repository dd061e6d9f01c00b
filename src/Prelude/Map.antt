-- ===== src/Prelude/Map.antt =====
-- Go's maps with string keys, as association lists. Where the code ranges over a map, the order of
-- the list stands for Go's arbitrary one.
use mathlib.Core.Path.{◌≡◌, refl, subst}
use mathlib.Core.Logic.{◌≢◌, ◌⊎◌, inl, inr}
use mathlib.Core.Option.{Option, none, some}
use mathlib.Core.List.{List, [], ◌∷◌}
use native.Mathlib.Omega.{arith}
use avairy.Prelude.Tests.{if◌then◌else◌, Bool-cases}
use avairy.Prelude.Strings.{Text, eq_text, eq_text_iff, eq_text_refl}

abbrev pub Map {ℓ} : Type ℓ → Type ℓ
Map V = List (Text × V)

module _ {ℓ} {V : Type ℓ} where
  -- v, ok := m[k]
  unfoldable pub lookup : Text → Map V → Option V
  lookup k [] = none
  lookup k ((j, v) ∷ m) = if eq_text j k then some v else lookup k m

  -- m[k] = v
  unfoldable pub insert : Text → V → Map V → Map V
  insert k v [] = (k, v) ∷ []
  insert k v ((j, w) ∷ m) = if eq_text j k then (k, v) ∷ m else (j, w) ∷ insert k v m

  -- delete(m, k)
  unfoldable pub erase : Text → Map V → Map V
  erase k [] = []
  erase k ((j, v) ∷ m) = let rest = erase k m in if eq_text j k then rest else (j, v) ∷ rest

  -- The values, in the order of the list.
  unfoldable pub values : Map V → List V
  values [] = []
  values ((k, v) ∷ m) = v ∷ values m

  -- m[k], which is the zero value where the key is missing
  unfoldable pub lookup_or : V → Text → Map V → V
  unfolding lookup
  lookup_or d k m = elim (lookup k m) [ none ↦ d | some v ↦ v ]

  pub lookup-insert :
      (k j : Text) (v : V) (m : Map V)
      → lookup j (insert k v m) ≡ (if eq_text k j then some v else lookup j m)
  unfolding lookup insert
  lookup-insert k j v [] = refl
  lookup-insert k j v ((i, w) ∷ m) =
      ground (arith, eq_text_iff k j, eq_text_iff i k, eq_text_iff i j, lookup-insert k j v m)

  pub lookup-erase :
      (k j : Text) (m : Map V) → lookup j (erase k m) ≡ (if eq_text k j then none else lookup j m)
  unfolding lookup erase
  lookup-erase k j [] = ground arith
  lookup-erase k j ((i, w) ∷ m) =
      ground (arith, eq_text_iff k j, eq_text_iff i k, eq_text_iff i j, lookup-erase k j m)

  -- What is found after a write is the value written or stood there before.
  pub lookup-insert_cases :
      (k j : Text) (v x : V) (m : Map V)
      → lookup j (insert k v m) ≡ some x
      → ((k ≡ j) × (v ≡ x)) ⊎ ((k ≢ j) × (lookup j m ≡ some x))
  lookup-insert_cases k j v x m h = ground (arith, lookup-insert k j v m, eq_text_iff k j)

  -- What is found after a deletion stood there before, under another key.
  pub lookup-erase_cases :
      (k j : Text) (x : V) (m : Map V)
      → lookup j (erase k m) ≡ some x
      → (k ≢ j) × (lookup j m ≡ some x)
  lookup-erase_cases k j x m h = ground (arith, lookup-erase k j m, eq_text_iff k j)

  pub lookup-insert_same : (k : Text) (v : V) (m : Map V) → lookup k (insert k v m) ≡ some v
  lookup-insert_same k v m = simp (lookup-insert, eq_text_refl)

  pub lookup-insert_other :
      (k j : Text) (v : V) (m : Map V) → k ≢ j → lookup j (insert k v m) ≡ lookup j m
  lookup-insert_other k j v m h = ground (arith, lookup-insert k j v m, eq_text_iff k j)

  pub lookup-erase_other : (k j : Text) (m : Map V) → k ≢ j → lookup j (erase k m) ≡ lookup j m
  lookup-erase_other k j m h = ground (arith, lookup-erase k j m, eq_text_iff k j)

  pub lookup-empty : (k : Text) → lookup k [] ≡ none
  unfolding lookup
  lookup-empty k = refl

pub ruleset map_laws = (lookup-insert, lookup-erase, lookup-empty)

pub lookup_or-insert {ℓ} :
    {V : Type ℓ} (d : V) (k j : Text) (v : V) (m : Map V)
    → lookup_or d j (insert k v m) ≡ (if eq_text k j then v else lookup_or d j m)
unfolding lookup_or
lookup_or-insert d k j v m = ground (arith, lookup-insert k j v m)

pub lookup_or-erase {ℓ} :
    {V : Type ℓ} (d : V) (k j : Text) (m : Map V)
    → lookup_or d j (erase k m) ≡ (if eq_text k j then d else lookup_or d j m)
unfolding lookup_or
lookup_or-erase d k j m = ground (arith, lookup-erase k j m)

-- No key stands in the map twice.
unfoldable pub IsDistinct {ℓ} : {V : Type ℓ} → Map V → Type ℓ
unfolding lookup
IsDistinct {V = V} [] = lookup {V = V} [] [] ≡ none
IsDistinct ((k, v) ∷ m) = (lookup k m ≡ none) × IsDistinct m

pub insert-IsDistinct {ℓ} :
    {V : Type ℓ} (k : Text) (v : V) (m : Map V) → IsDistinct m → IsDistinct (insert k v m)
unfolding insert IsDistinct lookup
insert-IsDistinct k v [] d = (refl, refl)
insert-IsDistinct k v ((j, w) ∷ m) (free, d) = elim (Bool-cases (eq_text j k)) [
  | inl same ↦ rw (same) (subst (λ i. lookup i m ≡ none) ((eq_text_iff j k).0 same) free, d)
  | inr other ↦ rw (other) (
    ground (arith, lookup-insert k j v m, eq_text_iff k j, eq_text_iff j k),
    insert-IsDistinct k v m d,
  )
]

pub erase-IsDistinct {ℓ} :
    {V : Type ℓ} (k : Text) (m : Map V) → IsDistinct m → IsDistinct (erase k m)
unfolding erase IsDistinct lookup
erase-IsDistinct k [] d = d
erase-IsDistinct k ((j, w) ∷ m) (free, d) = elim (Bool-cases (eq_text j k)) [
  | inl same ↦ rw (same) (erase-IsDistinct k m d)
  | inr other ↦ rw (other) (ground (arith, lookup-erase k j m), erase-IsDistinct k m d)
]
