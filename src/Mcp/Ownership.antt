-- ===== src/Mcp/Ownership.antt =====
-- One agent answers a team request: internal/mcp/coordination.go.
use avairy.Prelude.{
  ℕ, ◌+◌, ◌≤◌, ◌<◌, ◌≡◌, ◌≢◌, refl, sym, ap, subst, ◌∙◌, inl, inr, ◌⊎◌, false, List, [], ◌∷◌, Text,
  eq_text, eq_text_iff, eq_text_refl, Option, none, some, All, Bool-cases, arith,
}
use avairy.Prelude.Map
use avairy.Prelude.Map.{lookup-insert}
use avairy.Journal.Memory.{Memory}
use avairy.Mcp.Coordination.{
  Claim, Claims, denied, granted, Request, handle, handle_all, handle_claim_response, claim_ttl,
  is_held,
}

-- Since `start` the thread belongs to the agent.
abbrev pub Owns : Text → Text → ℕ → Claims → Type 0
Owns id thread start claims =
    (c : Claim) × (Map.lookup thread claims ≡ some c) × (c.by ≡ id) × (start ≤ c.at)

-- The call comes in the claim's first five minutes.
abbrev pub IsDuring : ℕ → Request → Type 0
IsDuring start r = (start ≤ r.now) × (r.now < start + claim_ttl)

granted-Owns :
    (id thread : Text) (now : ℕ) (s : Memory × Claims)
    → (handle_claim_response id (some thread) now s).1 ≡ granted
    → Owns id thread now (handle_claim_response id (some thread) now s).0.1
unfolding handle_claim_response
granted-Owns id thread now (jrnl, claims) h = (
  record { by = id; at = now },
  ground (
    arith,
    lookup-insert thread thread (record { by = id; at = now }) claims,
    eq_text_refl thread,
  ),
  refl,
  omega arith,
)

rival_denied :
    (rival id thread : Text) (start later : ℕ) (s : Memory × Claims)
    → Owns id thread start s.1
    → start ≤ later
    → later < start + claim_ttl
    → rival ≢ id
    → rival ≢ []
    → handle_claim_response rival (some thread) later s ≡ (s, denied id)
unfolding handle_claim_response
rival_denied rival id thread start later (jrnl, claims) (c, at_thread, mine, since) h g other
      named =
    ground (arith, eq_text_iff c.by rival, eq_text_iff rival [])

-- What a granted call leaves of the claim on a thread that another agent owns, or it itself.
insert-Owns :
    (id thread t caller : Text) (start now : ℕ) (claims : Claims)
    → Owns id thread start claims
    → start ≤ now
    → (t ≢ thread) ⊎ (caller ≡ id)
    → Owns id thread start (Map.insert t (record { by = caller; at = now }) claims)
insert-Owns id thread t caller start now claims (c, at_thread, mine, since) h ok =
    elim (Bool-cases (eq_text t thread)) [
      | inr apart ↦ (
        c,
        lookup-insert t thread (record { by = caller; at = now }) claims ∙ rw (apart, at_thread),
        mine,
        since,
      )
      | inl same ↦ (
        record { by = caller; at = now },
        lookup-insert t thread (record { by = caller; at = now }) claims ∙ rw same,
        ground (arith, eq_text_iff t thread),
        h,
      )
    ]

-- A call leaves the claims alone, or claims a thread that no other agent holds.
claims_effect :
    (caller : Text) (asked : Option Text) (now : ℕ) (s : Memory × Claims)
    → ((handle_claim_response caller asked now s).0.1 ≡ s.1)
      ⊎ ((t : Text) × ((handle_claim_response caller asked now s).0.1
            ≡ Map.insert t (record { by = caller; at = now }) s.1)
          × (is_held caller now (Map.lookup t s.1) ≡ false))
unfolding handle_claim_response
claims_effect caller none now s = inl (ground arith)
claims_effect caller (some t) now (jrnl, claims) = elim (Bool-cases (eq_text caller [])) [
  | inl unnamed ↦ inl (ground arith)
  | inr named ↦ elim (Bool-cases (is_held caller now (Map.lookup t claims))) [
    | inl held ↦ inl (ground arith)
    | inr free ↦ inr (t, ground arith, free)
  ]
]

free_for_owner :
    (id caller thread t : Text) (start now : ℕ) (claims : Claims)
    → Owns id thread start claims
    → now < start + claim_ttl
    → is_held caller now (Map.lookup t claims) ≡ false
    → (t ≢ thread) ⊎ (caller ≡ id)
unfolding is_held
free_for_owner id caller thread t start now claims (c, at_thread, mine, since) h free =
    elim (Bool-cases (eq_text t thread)) [
      | inr apart ↦ inl (λ e. ground (arith, eq_text_iff t thread))
      | inl same ↦
          let at_t : Map.lookup t claims ≡ some c =
            ap (λ k. Map.lookup k claims) ((eq_text_iff t thread).0 same) ∙ at_thread in
          inr (ground (arith, eq_text_iff c.by caller))
    ]

handle-Owns :
    (r : Request) (id thread : Text) (start : ℕ) (s : Memory × Claims)
    → Owns id thread start s.1
    → IsDuring start r
    → Owns id thread start (handle r s).0.1
unfolding handle
handle-Owns r id thread start s owns d = elim (claims_effect r.caller r.thread_id r.now s) [
  | inl same ↦ subst (Owns id thread start) (sym same) owns
  | inr (t, e, free) ↦ subst (Owns id thread start) (sym e) (
      insert-Owns id thread t r.caller start r.now s.1 owns d.0
        (free_for_owner id r.caller thread t start r.now s.1 owns d.1 free))
]

handle_all-Owns :
    (rs : List Request) (id thread : Text) (start : ℕ) (s : Memory × Claims)
    → Owns id thread start s.1
    → All (IsDuring start) rs
    → Owns id thread start (handle_all rs s).0.1
unfolding handle_all
handle_all-Owns [] id thread start s owns d = owns
handle_all-Owns (r ∷ rs) id thread start s owns d =
    handle_all-Owns rs id thread start (handle r s).0 (handle-Owns r id thread start s owns d.0) d.1

-- Exactly one agent owns a team request: once a claim on a thread is granted, then whatever calls
-- follow within five minutes of it, on this thread and on others, by the owner and by its rivals,
-- every other named agent that claims the thread in that time is denied, is told who owns it, and
-- changes nothing.
pub sole_responder :
    (id rival thread : Text) (now later : ℕ) (s : Memory × Claims) (rs : List Request)
    → (handle_claim_response id (some thread) now s).1 ≡ granted
    → All (IsDuring now) rs
    → now ≤ later
    → later < now + claim_ttl
    → rival ≢ id
    → rival ≢ []
    → let s' = (handle_all rs (handle_claim_response id (some thread) now s).0).0 in
      handle_claim_response rival (some thread) later s' ≡ (s', denied id)
sole_responder id rival thread now later s rs won during h g other named =
    rival_denied rival id thread now later _
      (handle_all-Owns rs id thread now _ (granted-Owns id thread now s won) during) h g other named
