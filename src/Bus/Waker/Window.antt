-- ===== src/Bus/Waker/Window.antt =====
-- Instants in the window of internal/bus/bus.go's Waker.
use avairy.Prelude.{
  ℕ, ◌+◌, ◌≤◌, ◌<◌, ◌≡◌, refl, ◌&&◌, List, [], ◌∷◌, ◌++◌, length, select, select-append, All, ltb,
  leb, arith,
}
use avairy.Bus.Waker.{within}

-- The instants in the window that ends at `at`.
unfoldable pub in_window : ℕ → ℕ → List ℕ → List ℕ
in_window window at = select (λ t. leb t at && ltb at (t + window))

pub within-within :
    (window now at : ℕ) (ts : List ℕ)
    → now ≤ at
    → within window at (within window now ts) ≡ within window at ts
unfolding within select
within-within window now at [] h = refl
within-within window now at (t ∷ ts) h = ground (arith, within-within window now at ts)

pub length-in_window-le :
    (window at : ℕ) (ts : List ℕ) → length (in_window window at ts) ≤ length (within window at ts)
unfolding in_window within select
length-in_window-le window at [] = omega arith
length-in_window-le window at (t ∷ ts) = ground (arith, length-in_window-le window at ts)

pub length-within-le : (window at : ℕ) (ts : List ℕ) → length (within window at ts) ≤ length ts
unfolding within select
length-within-le window at [] = omega arith
length-within-le window at (t ∷ ts) = ground (arith, length-within-le window at ts)

pub in_window-later :
    (window at now : ℕ) (ts : List ℕ)
    → at < now
    → in_window window at (ts ++ now ∷ []) ≡ in_window window at ts
unfolding in_window select
in_window-later window at now [] h = ground arith
in_window-later window at now (t ∷ ts) h = ground (arith, in_window-later window at now ts)

pub within-append :
    (window at : ℕ) (ts us : List ℕ)
    → within window at (ts ++ us) ≡ within window at ts ++ within window at us
unfolding within
within-append window at ts us = select-append (λ t. ltb at (t + window)) ts us

pub All-later :
    (last now : ℕ) (ts : List ℕ) → last ≤ now → All (λ t. t ≤ last) ts → All (λ t. t ≤ now) ts
All-later last now [] h a = tt
All-later last now (t ∷ ts) h a = (omega arith, All-later last now ts h a.1)

pub All-snoc : (now : ℕ) (ts : List ℕ) → All (λ t. t ≤ now) ts → All (λ t. t ≤ now) (ts ++ now ∷ [])
All-snoc now [] a = (omega arith, tt)
All-snoc now (t ∷ ts) a = (a.0, All-snoc now ts a.1)

-- No wake lies ahead of the clock, so the window is cut off on one side only.
pub in_window-within :
    (window at : ℕ) (ts : List ℕ)
    → All (λ t. t ≤ at) ts
    → in_window window at ts ≡ within window at ts
unfolding in_window within select
in_window-within window at [] a = refl
in_window-within window at (t ∷ ts) a = ground (arith, in_window-within window at ts a.1)
