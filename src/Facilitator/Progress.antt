-- ===== src/Facilitator/Progress.antt =====
-- New actions are progress, repeated ones are a loop: trackLoop of
-- internal/facilitator/facilitator.go.
use mathlib.Core.List.{append_assoc, append-nil}
use avairy.Prelude.{
  ℕ, ◌+◌, ◌-◌, ◌*◌, ◌≤◌, ◌<◌, ◌≡◌, ◌≢◌, ◌⊎◌, refl, sym, ap, ◌∙◌, inl, inr, Bool, true, false, ◌&&◌,
  List, [], ◌∷◌, ◌++◌, Text, eq_text, eq_text_refl, none, some, length, length-append, drop,
  drop-append, length-drop, drop-length, any, any-drop, ltb, leb, All, Bool-cases, Option-cases,
  arith,
}
use avairy.Prelude.Map
use avairy.Prelude.Map.{lookup-insert, lookup-erase, lookup_or-insert}
use avairy.Facilitator.Loops.{
  Facilitator, agree, is_cycle, window, find_cycle, periods, is_last, circling, track_action,
  track_loop,
}

-- The new action stands behind a part of the history, and keeps the end of the history that fits.
window-suffix :
    (u r : List Text) (sig : Text)
    → length r < 12
    → (k : ℕ) × (window (u ++ r) sig ≡ drop k u ++ (r ++ sig ∷ []))
unfolding window
window-suffix u r sig h =
    let whole : (u ++ r) ++ sig ∷ [] ≡ u ++ (r ++ sig ∷ []) = append_assoc u r (sig ∷ []) in
    elim (Bool-cases (ltb 12 (length (u ++ (r ++ sig ∷ []))))) [
      | inr fits ↦ (0, rw (whole, fits) refl)
      | inl long ↦ (
        length (u ++ (r ++ sig ∷ [])) - 12,
        rw (whole, long)
            (drop-append (length (u ++ (r ++ sig ∷ [])) - 12) u (r ++ sig ∷ [])
              (omega (arith, length-append u (r ++ sig ∷ []), length-append r (sig ∷ [])))),
      )
    ]

leb→le : (a b : ℕ) → leb a b ≡ true → a ≤ b
leb→le a b h = ground arith

-- The last action of a list that agrees with the front of another stands in that front.
agree-last :
    (xs ys zs : List Text) (sig : Text)
    → length xs < length ys
    → agree (xs ++ sig ∷ []) (ys ++ zs) ≡ true
    → any (eq_text sig) ys ≡ true
unfolding agree any
agree-last [] [] zs sig h e = absurd (omega arith)
agree-last [] (y ∷ ys) zs sig h e = ground arith
agree-last (x ∷ xs) [] zs sig h e = absurd (omega arith)
agree-last (x ∷ xs) (y ∷ ys) zs sig h e =
    let ih = agree-last xs ys zs sig (omega arith) (ground arith) in ground arith

is_cycle-new :
    (u : List Text) (sig : Text) (p : ℕ)
    → 0 < p
    → p ≤ length u
    → any (eq_text sig) u ≡ false
    → is_cycle (u ++ sig ∷ []) p ≡ false
unfolding is_cycle
is_cycle-new u sig p pos le new = elim (Bool-cases (is_cycle (u ++ sig ∷ []) p)) [
  | inr other ↦ other
  | inl same ↦
      let again =
        agree-last (drop p u) u (sig ∷ []) sig (omega (arith, length-drop p u))
          (rw (drop-append p u (sig ∷ []) le) at same) in
      absurd (cc (again, new))
]

find_cycle-new :
    (ps : List ℕ) (u : List Text) (sig : Text)
    → All (λ p. 0 < p) ps
    → any (eq_text sig) u ≡ false
    → find_cycle (u ++ sig ∷ []) ps ≡ none
unfolding find_cycle
find_cycle-new [] u sig pos new = refl
find_cycle-new (p ∷ ps) u sig pos new =
    let w = u ++ sig ∷ [] in
    let m = length w - p * 3 in
    elim (Bool-cases (leb (p * 3) (length w))) [
      | inr short ↦ rw (find_cycle, short) refl
      | inl long ↦
          let le : m ≤ length u = omega (arith, length-append u (sig ∷ [])) in
          let no : is_cycle (drop m w) p ≡ false = rw (drop-append m u (sig ∷ []) le) (
            is_cycle-new (drop m u) sig p pos.0
              (omega (
                arith,
                length-drop m u,
                length-append u (sig ∷ []),
                leb→le (p * 3) (length w) long,
              ))
              (any-drop (eq_text sig) m u new)) in
          rw (find_cycle, long, no) (find_cycle-new ps u sig pos.1 new)
    ]

-- An action that the agent's window does not hold is progress: it triggers nothing, and the count of
-- the circling detection starts again at zero.
pub track_loop-new :
    (agent sig : Text) (mutating : Bool) (f : Facilitator)
    → any (eq_text sig) (Map.lookup_or [] agent f.recent) ≡ false
    → let (f', t) = track_loop agent sig mutating f in
      (t ≡ none) × (Map.lookup_or 0 agent f'.stale ≡ 0)
unfolding track_loop track_action circling
track_loop-new agent sig mutating f new =
    let old = Map.lookup_or [] agent f.recent in
    elim (Bool-cases (mutating && is_last sig old)) [
      | inl edit ↦ rw (edit, track_loop) (refl, simp (lookup_or-insert, eq_text_refl))
      | inr act ↦
          let (k, w) = window-suffix old [] sig (omega arith) in
          let w' : window old sig ≡ drop k old ++ sig ∷ [] =
            ap (λ u. window u sig) (sym (append-nil old)) ∙ w in
          let positive : All (λ p. 0 < p) periods =
            (omega arith, (omega arith, (omega arith, (omega arith, tt)))) in
          let none_found : find_cycle (window old sig) periods ≡ none =
            rw w' (
              find_cycle-new periods (drop k old) sig positive
                (any-drop (eq_text sig) k old new)) in
          rw (track_loop, act, track_action, none_found, circling, new)
            (refl, simp (lookup_or-insert, eq_text_refl))
    ]

-- What the window of the agent is after an action that triggers nothing.
track_loop-recent :
    (agent sig : Text) (f : Facilitator)
    → (track_loop agent sig false f).1 ≡ none
    → Map.lookup_or [] agent (track_loop agent sig false f).0.recent
      ≡ window (Map.lookup_or [] agent f.recent) sig
unfolding track_loop track_action circling
track_loop-recent agent sig f h =
    let old = Map.lookup_or [] agent f.recent in
    let kept : Map.lookup_or [] agent (Map.insert agent (window old sig) f.recent)
        ≡ window old sig =
      simp (lookup_or-insert, eq_text_refl) in
    ground (arith, kept)

cycle_of_three :
    (v : List Text) (sig : Text) → find_cycle (v ++ (sig ∷ sig ∷ sig ∷ [])) periods ≡ some 1
unfolding find_cycle is_cycle agree
cycle_of_three v sig =
    let w = v ++ (sig ∷ sig ∷ sig ∷ []) in
    let long : length w ≡ length v + 3 = omega (arith, length-append v (sig ∷ sig ∷ sig ∷ [])) in
    let end : drop (length w - 3) w ≡ sig ∷ sig ∷ sig ∷ [] =
      ap (λ n. drop n w) (omega arith) ∙ drop-length v (sig ∷ sig ∷ sig ∷ []) in
    let fits : leb 3 (length w) ≡ true = ground arith in
    let cycle : is_cycle (drop (length w - 3) w) 1 ≡ true = rw end (simp (eq_text_refl)) in
    rw (fits, cycle) refl

track_loop-cycle :
    (agent sig : Text) (f : Facilitator)
    → find_cycle (window (Map.lookup_or [] agent f.recent) sig) periods ≡ some 1
    → (track_loop agent sig false f).1 ≢ none
unfolding track_loop track_action
track_loop-cycle agent sig f e = rw (track_loop, track_action, e) (λ h. absurd (cc))

-- Three windows on, the same action stands at the end three times.
three_windows :
    (old : List Text) (sig : Text)
    → find_cycle (window (window (window old sig) sig) sig) periods ≡ some 1
three_windows old sig =
    let (k1, w1) = window-suffix old [] sig (omega arith) in
    let (k2, w2) = window-suffix (drop k1 old) (sig ∷ []) sig (omega arith) in
    let (k3, w3) = window-suffix (drop k2 (drop k1 old)) (sig ∷ sig ∷ []) sig (omega arith) in
    let w1' : window old sig ≡ drop k1 old ++ sig ∷ [] =
      ap (λ u. window u sig) (sym (append-nil old)) ∙ w1 in
    rw (w1', w2, w3) (cycle_of_three (drop k3 (drop k2 (drop k1 old))) sig)

-- The same action three times in a row that changes no file is a loop: one of the three triggers,
-- whatever the agent did before.
pub repeat_triggers :
    (agent sig : Text) (f : Facilitator)
    → let r1 = track_loop agent sig false f in
      let r2 = track_loop agent sig false r1.0 in
      let r3 = track_loop agent sig false r2.0 in (r1.1 ≢ none) ⊎ (r2.1 ≢ none) ⊎ (r3.1 ≢ none)
repeat_triggers agent sig f =
    let r1 = track_loop agent sig false f in
    let r2 = track_loop agent sig false r1.0 in
    elim (Option-cases r1.1) [
      | inr (t, e) ↦ inl (λ h. absurd (cc))
      | inl e1 ↦ elim (Option-cases r2.1) [
        | inr (t, e) ↦ inr (inl (λ h. absurd (cc)))
        | inl e2 ↦
            let recent =
              track_loop-recent agent sig r1.0 e2
              ∙ ap (λ u. window u sig) (track_loop-recent agent sig f e1) in
            inr (
              inr (
                track_loop-cycle agent sig r2.0 (
                  ap (λ u. find_cycle (window u sig) periods) recent
                  ∙ three_windows (Map.lookup_or [] agent f.recent) sig)))
      ]
    ]
