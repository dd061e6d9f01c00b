-- ===== src/Facilitator/Cycles.antt =====
-- What isCycle of internal/facilitator/facilitator.go finds, and when a nudge is held back.
use mathlib.Core.List.{append-nil}
use avairy.Prelude.{
  ℕ, ◌+◌, ◌≡◌, ◌↔◌, refl, sym, ap, ◌∙◌, true, false, ◌&&◌, List, [], ◌∷◌, ◌++◌, Text, eq_text_iff,
  eq_text_refl, length, drop, drop-length, ltb, arith,
}
use avairy.Prelude.Map.{lookup-insert, lookup-erase}
use avairy.Facilitator.Loops.{
  Facilitator, Trigger, agree, is_cycle, suppressed, mark_nudged, clear_cooldown, cooldown,
}

agree-append :
    (xs ys us vs : List Text)
    → length xs ≡ length ys
    → agree (xs ++ us) (ys ++ vs) ≡ (agree xs ys && agree us vs)
unfolding agree
agree-append [] [] us vs h = refl
agree-append [] (y ∷ ys) us vs h = absurd (omega arith)
agree-append (x ∷ xs) [] us vs h = absurd (omega arith)
agree-append (x ∷ xs) (y ∷ ys) us vs h = ground (arith, agree-append xs ys us vs)

agree_iff :
    (xs ys zs : List Text) → length xs ≡ length ys → (agree xs (ys ++ zs) ≡ true) ↔ (xs ≡ ys)
unfolding agree
agree_iff [] [] zs h = ground arith
agree_iff [] (y ∷ ys) zs h = absurd (omega arith)
agree_iff (x ∷ xs) [] zs h = absurd (omega arith)
agree_iff (x ∷ xs) (y ∷ ys) zs h = ground (arith, eq_text_iff x y, agree_iff xs ys zs)

-- Three blocks of p actions each are a cycle of period p exactly when they are one block three
-- times.
pub is_cycle_iff :
    (p : ℕ) (b c d : List Text)
    → length b ≡ p
    → length c ≡ p
    → length d ≡ p
    → (is_cycle (b ++ (c ++ d)) p ≡ true) ↔ ((c ≡ b) × (d ≡ b))
unfolding is_cycle
is_cycle_iff p b c d hb hc hd =
    let rest : drop p (b ++ (c ++ d)) ≡ c ++ d =
      ap (λ n. drop n (b ++ (c ++ d))) (sym hb) ∙ drop-length b (c ++ d) in
    let split = agree-append c b d (c ++ d) (hc ∙ sym hb) in
    let first : (agree c b ≡ true) ↔ (c ≡ b) =
      rw (append-nil b) at (agree_iff c b [] (hc ∙ sym hb)) in
    let second = agree_iff d c d (hd ∙ sym hc) in
    rw (is_cycle, rest, split) (ground (arith, first, second))

-- Once a trigger was nudged, the same trigger of that agent is held back exactly while the cooldown
-- runs, and not any more after the cooldown was cleared.
pub suppressed-mark_nudged :
    (now later : ℕ) (t : Trigger) (f : Facilitator)
    → (suppressed later t (mark_nudged now t f) ≡ ltb later (now + cooldown))
      × (suppressed later t (clear_cooldown t.agent t.kind (mark_nudged now t f)) ≡ false)
unfolding suppressed mark_nudged clear_cooldown
suppressed-mark_nudged now later t f =
    (simp (lookup-insert, eq_text_refl), simp (lookup-erase, eq_text_refl))
