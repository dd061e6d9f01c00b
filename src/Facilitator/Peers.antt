-- ===== src/Facilitator/Peers.antt =====
-- Whom the nudger of internal/facilitator/nudger.go names, and when it asks the human.
use avairy.Prelude.{
  ◌≡◌, ◌≢◌, ◌↔◌, ◌⊎◌, refl, inl, inr, ap, List, [], ◌∷◌, Text, eq_text, eq_text_iff, All,
  Bool-cases, arith, lt_text, to_lower,
}
use avairy.Prelude.Map.{Map}
use avairy.Facilitator.Loops.{Trigger}
use avairy.Facilitator.Nudger.{
  Agent, escalate, insert_agent, sorted_by_id, better, best_of, best_peer, first_other, first_peer,
  caps_of, decide_blocked,
}

module _ {κ} (P : Agent → Type κ) where
  All-insert_agent :
      (a : Agent) (agents : List Agent) → P a → All P agents → All P (insert_agent a agents)
  unfolding insert_agent
  All-insert_agent a [] p h = (p, tt)
  All-insert_agent a (b ∷ bs) p h = elim (Bool-cases (lt_text b.id a.id)) [
    | inl less ↦ rw less (h.0, All-insert_agent a bs p h.1)
    | inr more ↦ rw more (p, h)
  ]

  All-sorted_by_id : (agents : List Agent) → All P agents → All P (sorted_by_id agents)
  unfolding sorted_by_id
  All-sorted_by_id [] h = tt
  All-sorted_by_id (a ∷ agents) h =
      All-insert_agent a (sorted_by_id agents) h.0 (All-sorted_by_id agents h.1)

  insert_agent-All :
      (a : Agent) (agents : List Agent) → All P (insert_agent a agents) → P a × All P agents
  unfolding insert_agent
  insert_agent-All a [] h = h
  insert_agent-All a (b ∷ bs) h = elim (Bool-cases (lt_text b.id a.id)) [
    | inl less ↦
        let (hb, rest) = rw less at h in
        let (ha, hbs) = insert_agent-All a bs rest in (ha, (hb, hbs))
    | inr more ↦ rw more at h
  ]

  sorted_by_id-All : (agents : List Agent) → All P (sorted_by_id agents) → All P agents
  unfolding sorted_by_id
  sorted_by_id-All [] h = tt
  sorted_by_id-All (a ∷ agents) h =
      let (ha, rest) = insert_agent-All a (sorted_by_id agents) h in
      (ha, sorted_by_id-All agents rest)

abbrev pub Named : Agent → Type 0
Named a = a.id ≢ []

abbrev pub IsSelf : Text → Agent → Type 0
IsSelf id a = a.id ≡ id

first_other_iff :
    (id : Text) (agents : List Agent)
    → All Named agents
    → (first_other id agents ≡ []) ↔ All (IsSelf id) agents
unfolding first_other
first_other_iff id [] h = ((λ e. tt), (λ e. refl))
first_other_iff id (a ∷ agents) h = elim (Bool-cases (eq_text a.id id)) [
  | inl own ↦
      let ih = first_other_iff id agents h.1 in
      let same = (eq_text_iff a.id id).0 own in rw own ((λ e. (same, ih.0 e)), (λ g. ih.1 g.1))
  | inr other ↦ rw other ((λ e. absurd (h.0 e)), (λ g. absurd (cc ((eq_text_iff a.id id).1 g.0))))
]

first_peer_iff :
    (roster : List Agent) (id : Text)
    → All Named roster
    → (first_peer roster id ≡ []) ↔ All (IsSelf id) roster
unfolding first_peer
first_peer_iff roster id h =
    let iff = first_other_iff id (sorted_by_id roster) (All-sorted_by_id Named roster h) in
    (
      (λ e. sorted_by_id-All (IsSelf id) roster (iff.0 e)),
      (λ g. iff.1 (All-sorted_by_id (IsSelf id) roster g)),
    )

-- With no other agent there is no better one.
best_of_self :
    (id detail : Text) (blocked : Map Text) (agents : List Agent) (best : Text × Map Text)
    → All (IsSelf id) agents
    → best_of id detail blocked agents best ≡ best
unfolding best_of better
best_of_self id detail blocked [] best h = refl
best_of_self id detail blocked (a ∷ agents) (i, caps) h =
    rw ((eq_text_iff a.id id).1 h.0) (best_of_self id detail blocked agents (i, caps) h.1)

best_peer_self :
    (roster : List Agent) (id detail : Text)
    → All (IsSelf id) roster
    → best_peer roster id detail ≡ ([], [])
unfolding best_peer
best_peer_self roster id detail h =
    best_of_self id (to_lower detail) (caps_of id [] roster) (sorted_by_id roster) ([], [])
      (All-sorted_by_id (IsSelf id) roster h)

kind_iff :
    (t : Trigger) (roster : List Agent)
    → ((decide_blocked t roster).kind ≡ escalate)
      ↔ (((best_peer roster t.agent t.detail).0 ≡ []) × (first_peer roster t.agent ≡ []))
unfolding decide_blocked
kind_iff t roster = ground (
  arith,
  eq_text_iff (best_peer roster t.agent t.detail).0 [],
  eq_text_iff (first_peer roster t.agent) [],
)

-- Over a roster of named agents the nudger asks the human exactly where the roster has no agent but
-- the blocked one.
pub escalates_iff :
    (t : Trigger) (roster : List Agent)
    → All Named roster
    → ((decide_blocked t roster).kind ≡ escalate) ↔ All (IsSelf t.agent) roster
escalates_iff t roster h =
    let first = first_peer_iff roster t.agent h in
    let no_better = best_peer_self roster t.agent t.detail in
    let kind = kind_iff t roster in
    ((λ e. first.0 (kind.0 e).1), (λ g. kind.1 (ap (λ r. r.0) (no_better g), first.1 g)))

abbrev IsOther : Text → Text × Map Text → Type 0
IsOther id best = (best.0 ≡ []) ⊎ (best.0 ≢ id)

better-IsOther :
    (id detail : Text) (blocked : Map Text) (a : Agent) (best : Text × Map Text)
    → IsOther id best
    → IsOther id (better id detail blocked a best)
unfolding better
better-IsOther id detail blocked a (i, caps) h = ground (arith, eq_text_iff a.id id)

best_of-IsOther :
    (id detail : Text) (blocked : Map Text) (agents : List Agent) (best : Text × Map Text)
    → IsOther id best
    → IsOther id (best_of id detail blocked agents best)
unfolding best_of
best_of-IsOther id detail blocked [] best h = h
best_of-IsOther id detail blocked (a ∷ agents) best h =
    best_of-IsOther id detail blocked agents (better id detail blocked a best)
      (better-IsOther id detail blocked a best h)

-- The peer that the nudger takes for better positioned, if it names one, is another agent than the
-- blocked one.
pub best_peer_other :
    (roster : List Agent) (id detail : Text)
    → ((best_peer roster id detail).0 ≡ []) ⊎ ((best_peer roster id detail).0 ≢ id)
unfolding best_peer
best_peer_other roster id detail =
    best_of-IsOther id (to_lower detail) (caps_of id [] roster) (sorted_by_id roster) ([], [])
      (inl refl)
