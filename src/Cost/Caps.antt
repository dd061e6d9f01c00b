-- ===== src/Cost/Caps.antt =====
-- OnExceed of internal/cost/cost.go fires once for each scope.
use avairy.Prelude.{
  ℕ, suc, ◌+◌, ◌≤◌, ◌≡◌, refl, subst, inl, inr, Bool, true, false, ◌&&◌, List, [], ◌∷◌, ◌++◌, Text,
  eq_text, eq_text_iff, Option, none, some, arith, if◌then◌else◌, Bool-cases,
}
use avairy.Prelude.Map
use avairy.Prelude.Map.{Map, lookup_or-insert}
use avairy.Cost.{
  Money, Spend, Monitor, Breach, agent_breach, total_breach, is_breach, raise_flag, observe_usage,
  observe, observe_all, agent_key, total_key,
}

module _ {A : Type 0} (money : Money A) where
  -- How often OnExceed was called for the total.
  pub total_breaches : List (Breach A) → ℕ
  total_breaches [] = 0
  total_breaches (total_breach x ∷ bs) = suc (total_breaches bs)
  total_breaches (agent_breach agent x ∷ bs) = total_breaches bs

  -- How often it was called for the agent.
  pub agent_breaches : Text → List (Breach A) → ℕ
  agent_breaches agent [] = 0
  agent_breaches agent (total_breach x ∷ bs) = agent_breaches agent bs
  agent_breaches agent (agent_breach other x ∷ bs) =
      let rest = agent_breaches agent bs in if eq_text other agent then suc rest else rest

  agent_breaches-append :
      (agent : Text) (xs ys : List (Breach A))
      → agent_breaches agent (xs ++ ys) ≡ agent_breaches agent xs + agent_breaches agent ys
  unfolding agent_breaches
  agent_breaches-append agent [] ys = omega arith
  agent_breaches-append agent (total_breach x ∷ xs) ys = agent_breaches-append agent xs ys
  agent_breaches-append agent (agent_breach other x ∷ xs) ys =
      ground (arith, agent_breaches-append agent xs ys)

  total_breaches-append :
      (xs ys : List (Breach A)) → total_breaches (xs ++ ys) ≡ total_breaches xs + total_breaches ys
  unfolding total_breaches
  total_breaches-append [] ys = omega arith
  total_breaches-append (total_breach x ∷ xs) ys = ground (arith, total_breaches-append xs ys)
  total_breaches-append (agent_breach other x ∷ xs) ys = total_breaches-append xs ys

  -- 1 where the flag is up.
  abbrev up : Text → Map Bool → ℕ
  up key flagged = if Map.lookup_or false key flagged then 1 else 0

  lookup-raise_flag :
      (b : Bool) (key j : Text) (flagged : Map Bool)
      → Map.lookup_or false j (raise_flag money b key flagged)
        ≡ (if b && eq_text key j then true else Map.lookup_or false j flagged)
  unfolding raise_flag
  lookup-raise_flag true key j flagged = lookup_or-insert false key j true flagged
  lookup-raise_flag false key j flagged = refl

  breach-flag :
      (key : Text) (cap spent : A) (flagged : Map Bool)
      → is_breach money key cap spent flagged ≡ true
      → Map.lookup_or false key flagged ≡ false
  unfolding is_breach
  breach-flag key cap spent flagged h = ground arith

  agent_step :
      (agent other : Text) (x y : A) (a t : Bool) (f : Map Bool)
      → (a ≡ true → Map.lookup_or false (agent_key money other) f ≡ false)
      → agent_breaches agent (
            (if a then agent_breach other x ∷ [] else [])
            ++ (if t then total_breach y ∷ [] else []))
          + up (agent_key money agent) f
        ≤ up
            (agent_key money agent)
            (raise_flag money t (total_key money) (raise_flag money a (agent_key money other) f))
  unfolding agent_breaches eq_text
  agent_step agent other x y a t f h =
      let inner = lookup-raise_flag a (agent_key money other) (agent_key money agent) f in
      let outer =
        lookup-raise_flag t (total_key money) (agent_key money agent)
          (raise_flag money a (agent_key money other) f) in
      elim (Bool-cases (eq_text other agent)) [
        | inr another ↦ ground (arith, inner, outer)
        | inl same ↦
            let mine : a ≡ true → Map.lookup_or false (agent_key money agent) f ≡ false =
              subst (λ k. a ≡ true → Map.lookup_or false (agent_key money k) f ≡ false)
                ((eq_text_iff other agent).0 same) h in
            ground (arith, inner, outer)
      ]

  total_step :
      (other : Text) (x y : A) (a t : Bool) (f : Map Bool)
      → (t ≡ true
          → Map.lookup_or false (total_key money) (raise_flag money a (agent_key money other) f)
            ≡ false)
      → total_breaches (
            (if a then agent_breach other x ∷ [] else [])
            ++ (if t then total_breach y ∷ [] else []))
          + up (total_key money) f
        ≤ up
            (total_key money)
            (raise_flag money t (total_key money) (raise_flag money a (agent_key money other) f))
  unfolding total_breaches eq_text
  total_step other x y a t f h =
      let inner = lookup-raise_flag a (agent_key money other) (total_key money) f in
      let outer =
        lookup-raise_flag t (total_key money) (total_key money)
          (raise_flag money a (agent_key money other) f) in
      ground (arith, inner, outer)

  observe-agent :
      (agent other : Text) (u : Option (Spend A)) (m : Monitor A)
      → let r = observe money other u m in
        agent_breaches agent r.1 + up (agent_key money agent) m.flagged
        ≤ up (agent_key money agent) r.0.flagged
  unfolding observe observe_usage agent_breaches
  observe-agent agent other none m = omega arith
  observe-agent agent other (some u) m =
      agent_step agent other _ _ _ _ m.flagged
        (breach-flag (agent_key money other) m.agent_cap _ m.flagged)

  observe-total :
      (other : Text) (u : Option (Spend A)) (m : Monitor A)
      → let r = observe money other u m in
        total_breaches r.1 + up (total_key money) m.flagged ≤ up (total_key money) r.0.flagged
  unfolding observe observe_usage total_breaches
  observe-total other none m = omega arith
  observe-total other (some u) m =
      total_step other _ _ _ _ m.flagged (breach-flag (total_key money) m.total_cap _ _)

  observe_all-agent :
      (agent : Text) (us : List (Text × Option (Spend A))) (m : Monitor A)
      → let r = observe_all money us m in
        agent_breaches agent r.1 + up (agent_key money agent) m.flagged
        ≤ up (agent_key money agent) r.0.flagged
  unfolding observe_all agent_breaches
  observe_all-agent agent [] m = omega arith
  observe_all-agent agent ((other, u) ∷ us) m =
      let r = observe money other u m in
      omega (
        arith,
        observe-agent agent other u m,
        observe_all-agent agent us r.0,
        agent_breaches-append agent r.1 (observe_all money us r.0).1,
      )

  observe_all-total :
      (us : List (Text × Option (Spend A))) (m : Monitor A)
      → let r = observe_all money us m in
        total_breaches r.1 + up (total_key money) m.flagged ≤ up (total_key money) r.0.flagged
  unfolding observe_all total_breaches
  observe_all-total [] m = omega arith
  observe_all-total ((other, u) ∷ us) m =
      let r = observe money other u m in
      omega (
        arith,
        observe-total other u m,
        observe_all-total us r.0,
        total_breaches-append r.1 (observe_all money us r.0).1,
      )

  up-le : (key : Text) (flagged : Map Bool) → up key flagged ≤ 1
  up-le key flagged = ground arith

  -- Whatever the agents spend and however money is counted, OnExceed is called at most once for each
  -- agent and at most once for the total.
  pub exceeds_once :
      (us : List (Text × Option (Spend A))) (agent : Text) (m : Monitor A)
      → let bs = (observe_all money us m).1 in
        (agent_breaches agent bs ≤ 1) × (total_breaches bs ≤ 1)
  exceeds_once us agent m =
      let r = observe_all money us m in
      (
        omega (arith, observe_all-agent agent us m, up-le (agent_key money agent) r.0.flagged),
        omega (arith, observe_all-total us m, up-le (total_key money) r.0.flagged),
      )
