-- ===== src/Control/Rulings.antt =====
-- Every verdict of internal/control/approvals.go rests on a ruling of the operator.
use avairy.Prelude.{
  ℕ, ◌+◌, ◌≡◌, refl, sym, ap, ◌∙◌, inl, inr, ◌⊎◌, Bool, true, false, List, [], ◌∷◌, ◌++◌, Text,
  eq_text, eq_text_iff, none, some, if◌then◌else◌, Option-cases, Bool-cases, arith,
}
use avairy.Prelude.Map
use avairy.Prelude.Map.{lookup-insert, lookup-erase, lookup_or-insert}
use avairy.Control.Approvals.{
  Approval, Waiter, Approvals, Event, requested, ruled, returned, Op, asks, resolves, answers,
  gives_up, new_approvals, session_key, ask, rule, resolve, answer, give_up, step, run,
  decision_allow, decision_deny, decision_allow_for_session,
}

-- The event is in the list.
abbrev pub Occurs : Event → List Event → Type 0
Occurs e [] = ⊥
Occurs e (x ∷ xs) = (x ≡ e) ⊎ Occurs e xs

-- The operator has ruled allow_for_session on a request with the session key.
abbrev pub Granted : Text → List Event → Type 0
Granted key past =
    (b : Approval) × Occurs (ruled b decision_allow_for_session) past
    × (session_key b.agent_id b.kind ≡ key)

-- A verdict is a denial, a ruling on this very request, or an allow after a ruling
-- allow_for_session on a request of the same agent and kind, as the session key joins them.
abbrev pub Justified : Approval → Text → List Event → Type 0
Justified a d past =
    (d ≡ decision_deny)
    ⊎ Occurs (ruled a d) past
    ⊎ ((d ≡ decision_allow) × Granted (session_key a.agent_id a.kind) past)

-- Each verdict is justified by what came before it.
abbrev pub AllJustified : List Event → Type 0
AllJustified [] = Unit
AllJustified (returned a d ∷ past) = Justified a d past × AllJustified past
AllJustified (_ ∷ past) = AllJustified past

record Inv (s : Approvals) (past : List Event) : Type 0 where
  sound : AllJustified past
  waiting :
      (id : Text) (a : Approval)
      → Map.lookup id s.pending ≡ some a
      → Map.lookup id s.waiters ≡ some (record { approval = a; ch = none })
  delivered :
      (id : Text) (w : Waiter) (d : Text)
      → Map.lookup id s.waiters ≡ some w
      → w.ch ≡ some d
      → Occurs (ruled w.approval d) past
  granted : (key : Text) → Map.lookup_or false key s.session_allow ≡ true → Granted key past

enter-Inv :
    (s : Approvals) (past : List Event) (a : Approval) (n : ℕ)
    → Inv s past
    → Inv
        (record s {
          seq = n;
          pending = Map.insert a.id a s.pending;
          waiters = Map.insert a.id (record { approval = a; ch = none }) s.waiters;
        })
        (requested a ∷ past)
enter-Inv s past a n v = record {
  sound = v.sound;
  waiting = λ j b e.
      let w : Waiter = record { approval = a; ch = none } in
      ground
        (arith, lookup-insert a.id j a s.pending, lookup-insert a.id j w s.waiters, v.waiting j b);
  delivered = λ j w d e c.
      let fresh : Waiter = record { approval = a; ch = none } in
      let e' : (if eq_text a.id j then some fresh else Map.lookup j s.waiters) ≡ some w =
        sym (lookup-insert a.id j fresh s.waiters) ∙ e in
      inr (v.delivered j w d (ground arith) c);
  granted = λ key g. let (b, o, k) = v.granted key g in (b, inr o, k);
}

granted_after :
    (m : Map.Map Bool) (key decision : Text) (a : Approval) (past : List Event)
    → (Map.lookup_or false key m ≡ true → Granted key past)
    → Map.lookup_or false key (
        if eq_text decision decision_allow_for_session
        then Map.insert (session_key a.agent_id a.kind) true m
        else m)
      ≡ true
    → Granted key (ruled a decision ∷ past)
granted_after m key decision a past old g =
    elim (Bool-cases (eq_text decision decision_allow_for_session)) [
      | inr once ↦ let (b, o, k) = old (rw once at g) in (b, inr o, k)
      | inl blanket ↦ elim (Bool-cases (eq_text (session_key a.agent_id a.kind) key)) [
        | inl mine ↦ (
          a,
          inl (ap (ruled a) ((eq_text_iff decision decision_allow_for_session).0 blanket)),
          (eq_text_iff (session_key a.agent_id a.kind) key).0 mine,
        )
        | inr other ↦
            let (b, o, k) = old (
              rw (blanket, lookup_or-insert false (session_key a.agent_id a.kind) key true m, other)
                at g) in
            (b, inr o, k)
      ]
    ]

rule-Inv :
    (s : Approvals) (past : List Event) (id decision : Text) (a : Approval)
    → Inv s past
    → Map.lookup id s.pending ≡ some a
    → Inv (rule id decision a s) (ruled a decision ∷ past)
unfolding rule
rule-Inv s past id decision a v e = record {
  sound = v.sound;
  waiting = λ j b f. ground (
    arith,
    lookup-erase id j s.pending,
    lookup-insert id j (record { approval = a; ch = some decision }) s.waiters,
    v.waiting j b,
  );
  delivered = λ j w d f c.
      let ruled_one : Waiter = record { approval = a; ch = some decision } in
      let f' : (if eq_text id j then some ruled_one else Map.lookup j s.waiters) ≡ some w =
        sym (lookup-insert id j ruled_one s.waiters) ∙ f in
      elim (Bool-cases (eq_text id j)) [
        | inl same ↦ let w_is : ruled_one ≡ w = ground arith in inl (cc (w_is, c))
        | inr other ↦ inr (v.delivered j w d (ground arith) c)
      ];
  granted = λ key g. granted_after s.session_allow key decision a past (v.granted key) g;
}

leave-Inv :
    (s : Approvals) (past : List Event) (id decision : Text) (a : Approval)
    → Inv s past
    → Justified a decision past
    → Inv
        (record s { pending = Map.erase id s.pending; waiters = Map.erase id s.waiters })
        (returned a decision ∷ past)
leave-Inv s past id decision a v j = record {
  sound = (j, v.sound);
  waiting = λ i b f.
      ground (arith, lookup-erase id i s.pending, lookup-erase id i s.waiters, v.waiting i b);
  delivered = λ i w d f c.
      let f' : (if eq_text id i then none else Map.lookup i s.waiters) ≡ some w =
        sym (lookup-erase id i s.waiters) ∙ f in
      inr (v.delivered i w d (ground arith) c);
  granted = λ key g. let (b, o, k) = v.granted key g in (b, inr o, k);
}

ask-Inv :
    (now : ℕ) (req : Approval) (s : Approvals) (past : List Event)
    → Inv s past
    → Inv (ask now req s).0 ((ask now req s).1 ++ past)
unfolding ask
ask-Inv now req s past v =
    elim (Bool-cases (Map.lookup_or false (session_key req.agent_id req.kind) s.session_allow)) [
      | inl blanket ↦
          rw (blanket, ask)
            (record {
              sound = (
                inr (inr (refl, v.granted (session_key req.agent_id req.kind) blanket)),
                v.sound,
              );
              waiting = v.waiting;
              delivered = λ i w d f c. inr (v.delivered i w d f c);
              granted = λ key g. let (b, o, k) = v.granted key g in (b, inr o, k);
            })
      | inr prompt ↦ rw (prompt, ask) (enter-Inv s past _ (s.seq + 1) v)
    ]

step-Inv :
    (o : Op) (s : Approvals) (past : List Event)
    → Inv s past
    → Inv (step o s).0 ((step o s).1 ++ past)
unfolding step resolve answer give_up
step-Inv (asks now req) s past v = ask-Inv now req s past v
step-Inv (resolves id decision) s past v = elim (Option-cases (Map.lookup id s.pending)) [
  | inl e ↦ rw (e, resolve) v
  | inr (a, e) ↦ rw (e, resolve) (rule-Inv s past id decision a v e)
]
step-Inv (answers id) s past v = elim (Option-cases (Map.lookup id s.waiters)) [
  | inl e ↦ rw (e, answer) v
  | inr (w, e) ↦ elim (Option-cases w.ch) [
    | inl c ↦ rw (e, c, answer) v
    | inr (d, c) ↦
        rw (e, c, answer) (leave-Inv s past id d w.approval v (inr (inl (v.delivered id w d e c))))
  ]
]
step-Inv (gives_up id) s past v = elim (Option-cases (Map.lookup id s.waiters)) [
  | inl e ↦ rw (e, give_up) v
  | inr (w, e) ↦ rw (e, give_up) (leave-Inv s past id decision_deny w.approval v (inl refl))
]

run-Inv :
    (os : List Op) (s : Approvals) (past : List Event)
    → Inv s past
    → Inv (run os s past).0 (run os s past).1
unfolding run
run-Inv [] s past v = v
run-Inv (o ∷ os) s past v = run-Inv os (step o s).0 ((step o s).1 ++ past) (step-Inv o s past v)

new_approvals-Inv : Inv new_approvals []
unfolding new_approvals Map.lookup Map.lookup_or
new_approvals-Inv = record {
  sound = tt;
  waiting = λ id a e. absurd (cc);
  delivered = λ id w d e c. absurd (cc);
  granted = λ key g. absurd (cc);
}

-- Whatever way the calls of Ask, the operator's rulings and the timeouts of a new broker interleave,
-- every verdict other than a denial rests on an earlier ruling of the operator: the same decision on
-- that very request, or, for an allow, an allow_for_session on a request with the same session key.
pub verdicts_justified : (os : List Op) → AllJustified (run os new_approvals []).1
verdicts_justified os = (run-Inv os new_approvals [] new_approvals-Inv).sound
