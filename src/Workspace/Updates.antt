-- ===== src/Workspace/Updates.antt =====
-- Runs of writes to internal/workspace/hub.go: no update is lost.
use avairy.Prelude.{
  ℕ, suc, ◌+◌, ◌^◌, ◌≤◌, ◌<◌, ◌≡◌, ◌≢◌, refl, sym, ap, subst, ◌∙◌, inl, inr, ◌⊎◌, true, false, List,
  [], ◌∷◌, Text, eq_text, eq_text_iff, eq_text_refl, some, ◌==◌, if◌then◌else◌, u64, u64-eq_of_lt,
  length, Option-cases, Bool-cases, arith,
}
use mathlib.Core.Bool.{false≢true}
use avairy.Prelude.Map
use avairy.Prelude.Map.{lookup-insert}
use avairy.Workspace.Hub.{FileState, Change, Hub, push, stored, store}
use avairy.Workspace.Versions.{
  version_of, known_file, holds, normal, Op, pushes, step, run, Effect, step-Effect,
  push-eq-compare_and_set,
}

-- No version on the hub is above the bound.
pub record IsBelow (n : ℕ) (h : Hub) : Type 0 where
  pub at_path : (path : Text) (f : FileState) → Map.lookup path h.files ≡ some f → f.version ≤ n

-- The same state of the file, or one of a higher version.
abbrev pub Later : FileState → FileState → Type 0
Later f g = (f.version < g.version) ⊎ (f ≡ g)

version_of-known :
    (path : Text) (h : Hub) (f : FileState)
    → Map.lookup path h.files ≡ some f
    → version_of path h ≡ f.version
version_of-known path h f e = rw (e, version_of)

version_of-le : (n : ℕ) (path : Text) (h : Hub) → IsBelow n h → version_of path h ≤ n
version_of-le n path h b = elim (Option-cases (Map.lookup path h.files)) [
  | inl e ↦ rw (e, version_of) (omega arith)
  | inr (f, e) ↦ rw (e, version_of) (b.at_path path f e)
]

next-lt :
    (n : ℕ) (path : Text) (h : Hub)
    → n + 1 < 2 ^ 64
    → IsBelow n h
    → u64 (version_of path h + 1) ≡ version_of path h + 1
next-lt n path h room b =
    u64-eq_of_lt (version_of path h + 1) (omega (arith, version_of-le n path h b))

Effect-IsBelow :
    (n : ℕ) (h h' : Hub) → n + 1 < 2 ^ 64 → IsBelow n h → Effect h h' → IsBelow (n + 1) h'
unfolding Effect
Effect-IsBelow n h h' room b (inl same) = record {
  at_path = λ p f e. omega (arith, b.at_path p f (ap (λ m. Map.lookup p m) (sym same) ∙ e));
}
Effect-IsBelow n h h' room b (inr (path, g, files, v)) = record {
  at_path = λ p f e.
      let v' : g.version ≤ n + 1 =
        omega (arith, v, next-lt n path h room b, version_of-le n path h b) in
      let e' : (if eq_text path p then some g else Map.lookup p h.files) ≡ some f =
        sym (lookup-insert path p g h.files) ∙ ap (λ m. Map.lookup p m) (sym files) ∙ e in
      ground (arith, b.at_path p f);
}

Effect-Later :
    (n : ℕ) (h h' : Hub) (p : Text) (f : FileState)
    → n + 1 < 2 ^ 64
    → IsBelow n h
    → Effect h h'
    → Map.lookup p h.files ≡ some f
    → (g : FileState) × (Map.lookup p h'.files ≡ some g) × Later f g
unfolding Effect
Effect-Later n h h' p f room b (inl same) e = (f, ap (λ m. Map.lookup p m) same ∙ e, inr refl)
Effect-Later n h h' p f room b (inr (path, g, files, v)) e =
    let e' : Map.lookup p h'.files ≡ (if eq_text path p then some g else Map.lookup p h.files) =
      ap (λ m. Map.lookup p m) files ∙ lookup-insert path p g h.files in
    elim (Bool-cases (eq_text path p)) [
      | inl same ↦
          let here : Map.lookup path h.files ≡ some f =
            ap (λ q. Map.lookup q h.files) ((eq_text_iff path p).0 same) ∙ e in
          (
            g,
            ground arith,
            inl (omega (arith, v, next-lt n path h room b, version_of-known path h f here)),
          )
      | inr other ↦ (f, ground arith, inr refl)
    ]

Later-trans : {f g k : FileState} → Later f g → Later g k → Later f k
Later-trans {f} {g} {k} (inl p) (inl q) = inl (omega arith)
Later-trans {f} {g} {k} (inl p) (inr e) = inl (subst (λ x. f.version < x.version) e p)
Later-trans {f} {g} {k} (inr e) q = subst (λ x. Later x k) (sym e) q

run-IsBelow :
    (os : List Op) (n : ℕ) (h : Hub)
    → n + length os < 2 ^ 64
    → IsBelow n h
    → IsBelow (n + length os) (run os h)
unfolding run
run-IsBelow [] n h room b = record { at_path = λ p f e. omega (arith, b.at_path p f e) }
run-IsBelow (o ∷ os) n h room b =
    let ih =
      run-IsBelow os (n + 1) (step o h) (omega arith)
        (Effect-IsBelow n h (step o h) (omega arith) b (step-Effect o h)) in
    record { at_path = λ p f e. omega (arith, ih.at_path p f e) }

-- Over every run of pushes and resolves a file stays on the hub, its version never falls, and while
-- its version is the same it is the same file, content, writer and deletion mark included: a version
-- names one state of its path. The counters are taken not to wrap.
pub run-Later :
    (os : List Op) (n : ℕ) (h : Hub) (p : Text) (f : FileState)
    → n + length os < 2 ^ 64
    → IsBelow n h
    → Map.lookup p h.files ≡ some f
    → (g : FileState) × (Map.lookup p (run os h).files ≡ some g) × Later f g
unfolding run
run-Later [] n h p f room b e = (f, e, inr refl)
run-Later (o ∷ os) n h p f room b e =
    let (g, at_g, fg) = Effect-Later n h (step o h) p f (omega arith) b (step-Effect o h) e in
    let (k, at_k, gk) =
      run-Later os (n + 1) (step o h) p g (omega arith)
        (Effect-IsBelow n h (step o h) (omega arith) b (step-Effect o h)) at_g in
    (k, at_k, Later-trans fg gk)

push_moved :
    (now : ℕ) (node : Text) (c : Change) (n : ℕ) (h : Hub)
    → n + 1 < 2 ^ 64
    → IsBelow n h
    → (push now node c h).1.applied ≡ true
    → (push now node c h).1.version ≢ c.base
    → (f : FileState) × (Map.lookup c.path (push now node c h).0.files ≡ some f)
      × (c.base < f.version)
push_moved now node c n h room b won moved = elim (Bool-cases (c.base == version_of c.path h)) [
  | inr other ↦
      let lost : (push now node c h).1.applied ≡ false =
        rw (push-eq-compare_and_set now node c h, other) in
      absurd (false≢true (sym lost ∙ won))
  | inl current ↦ elim (Bool-cases (holds (normal c) h)) [
    | inl held ↦
        let still : (push now node c h).1.version ≡ version_of c.path h =
          rw (push-eq-compare_and_set now node c h, current, held) in
        absurd (moved (still ∙ ground arith))
    | inr new ↦ (
      stored now node (normal c) (u64 (version_of c.path h + 1)),
      rw (push-eq-compare_and_set now node c h, current, new)
          (unfold store in simp (lookup-insert, eq_text_refl)),
      unfold stored in ground (arith, next-lt n c.path h room b),
    )
  ]
]

-- No lost update: once a push from some base has moved its path to another version, a push of that
-- path from the same base, by any node and after any further writes, is refused with a conflict that
-- carries the hub's file of then, and leaves the hub as it is. The counters are taken not to wrap.
pub no_lost_update :
    (now later : ℕ) (node rival : Text) (c d : Change) (os : List Op) (n : ℕ) (h : Hub)
    → n + suc (length os) < 2 ^ 64
    → IsBelow n h
    → (push now node c h).1.applied ≡ true
    → (push now node c h).1.version ≢ c.base
    → d.path ≡ c.path
    → d.base ≡ c.base
    → let h' = run (pushes now node c ∷ os) h in
      push later rival d h' ≡ (
        h',
        record {
          applied = false;
          version = 0;
          conflict = some (record {
            path = d.path;
            base = d.base;
            hub = known_file d.path h';
            incoming = normal d;
          });
        },
      )
unfolding run step
no_lost_update now later node rival c d os n h room b won moved same_path same_base =
    let h1 = (push now node c h).0 in
    let (f, at_f, above) = push_moved now node c n h (omega arith) b won moved in
    let (g, at_g, fg) =
      run-Later os (n + 1) h1 c.path f (omega arith)
        (Effect-IsBelow n h h1 (omega arith) b (step-Effect (pushes now node c) h)) at_f in
    let at_d : Map.lookup d.path (run os h1).files ≡ some g =
      ap (λ p. Map.lookup p (run os h1).files) same_path ∙ at_g in
    let other : (d.base == version_of d.path (run os h1)) ≡ false =
      ground (arith, version_of-known d.path (run os h1) g at_d) in
    rw (push-eq-compare_and_set later rival d (run os h1), other)
