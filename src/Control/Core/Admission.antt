-- ===== src/Control/Core/Admission.antt =====
-- Who is admitted by handleEnroll of internal/control/core.go.
use avairy.Prelude.{
  ℕ, ◌≡◌, ◌≢◌, ◌↔◌, refl, inl, inr, ◌⊎◌, true, false, [], ◌∷◌, Text, eq_text_iff, none, some,
  Option-cases, arith, codes,
}
use avairy.Prelude.Map
use avairy.Prelude.Map.{
  Map, lookup-insert, lookup-insert_cases, lookup-insert_same, lookup-insert_other,
}
use avairy.Control.Core.{Core, decoded, sends, http_error}
use avairy.Control.Core.Enroll.{
  EnrollRequest, Fresh, on_enroll, journals_enroll, Verdict, handle_enroll, enroll, enroll_error,
  enroll_checked, enroll_verdict, is_bound, admit, register, spend_token, refused, enrolled,
  rejoined,
}

-- What entitles a node: a verified certificate with its id, or, where certificates are not required,
-- a token that is pending or bound to it.
abbrev pub Credential : Text → EnrollRequest → Core → Type 0
Credential cert_id req c =
    ((cert_id ≢ []) × (cert_id ≡ req.node_id))
    ⊎ ((cert_id ≡ []) × (req.token ≢ []) × (c.require_client_cert ≡ false))

abbrev pub Entitled : Text → EnrollRequest → Core → Type 0
Entitled cert_id req c =
    (req.node_id ≢ [])
    × Credential cert_id req c
    × ((cert_id ≢ []) ⊎ (req.token ≡ c.pending) ⊎ (Map.lookup req.token c.bound ≡ some req.node_id))

is_bound_iff :
    (token node : Text) (bound : Map Text)
    → node ≢ []
    → (is_bound token node bound ≡ true) ↔ (Map.lookup token bound ≡ some node)
unfolding is_bound Map.lookup_or
is_bound_iff token node bound ne = elim (Option-cases (Map.lookup token bound)) [
  | inl e ↦ rw (e) (ground (arith, eq_text_iff [] node))
  | inr (v, e) ↦ rw (e) (ground (arith, eq_text_iff v node))
]

-- The early returns leave requests with a node id and a credential.
enroll_error_iff :
    (cert_id : Text) (req : EnrollRequest) (c : Core)
    → (enroll_error cert_id req c ≡ none) ↔ ((req.node_id ≢ []) × Credential cert_id req c)
unfolding enroll_error
enroll_error_iff cert_id req c = ground (
  arith,
  eq_text_iff cert_id [],
  eq_text_iff req.node_id [],
  eq_text_iff req.token [],
  eq_text_iff cert_id req.node_id,
)

enroll_verdict_iff :
    (cert_id : Text) (req : EnrollRequest) (c : Core)
    → req.node_id ≢ []
    → (enroll_verdict cert_id req c ≢ refused) ↔ (
        (cert_id ≢ [])
        ⊎ (req.token ≡ c.pending)
        ⊎ (Map.lookup req.token c.bound ≡ some req.node_id))
unfolding enroll_verdict
enroll_verdict_iff cert_id req c ne = ground (
  arith,
  eq_text_iff cert_id [],
  eq_text_iff req.token c.pending,
  is_bound_iff req.token req.node_id c.bound ne,
)

-- The outcomes of an enrolment.
abbrev Admits : ℕ → Text → EnrollRequest → Fresh → Core → Type 0
Admits now cert_id req fresh c =
    (event : Text) × (enroll now cert_id req fresh c ≡ admit now cert_id req fresh event c)

abbrev Refuses : ℕ → Text → EnrollRequest → Fresh → Core → Type 0
Refuses now cert_id req fresh c =
    (message : Text) × (enroll now cert_id req fresh c ≡ ((c, []), http_error 401 message))

checked_outcome :
    (now : ℕ) (cert_id : Text) (req : EnrollRequest) (fresh : Fresh) (c : Core) (v : Verdict)
    → enroll_verdict cert_id req c ≡ v
    → enroll_error cert_id req c ≡ none
    → ((v ≢ refused) × Admits now cert_id req fresh c)
      ⊎ ((v ≡ refused) × Refuses now cert_id req fresh c)
unfolding enroll enroll_checked
checked_outcome now cert_id req fresh c refused e ok = inr (
  refl,
  (
    codes "invalid enrollment token (unknown, or bound to another node)",
    rw (enroll, ok, enroll_checked, e) refl,
  ),
)
checked_outcome now cert_id req fresh c enrolled e ok =
    inl (λ r. absurd (cc), (codes "node_enrolled", rw (enroll, ok, enroll_checked, e) refl))
checked_outcome now cert_id req fresh c rejoined e ok =
    inl (λ r. absurd (cc), (codes "node_rejoined", rw (enroll, ok, enroll_checked, e) refl))

error_outcome :
    (now : ℕ) (cert_id : Text) (req : EnrollRequest) (fresh : Fresh) (c : Core) (m : Text)
    → enroll_error cert_id req c ≡ some m
    → Refuses now cert_id req fresh c
unfolding enroll
error_outcome now cert_id req fresh c m e = (m, rw (enroll, e) refl)

-- An enrolment request that can be read is admitted where its node is entitled, and refused with 401
-- otherwise. Admitting registers the node and a session for it, binds a pending token to it and
-- replaces that token, and returns the session's token; a refusal changes nothing.
pub enroll_iff :
    (now : ℕ) (cert_id : Text) (req : EnrollRequest) (fresh : Fresh) (c : Core)
    → (Entitled cert_id req c
        × (event : Text) × (handle_enroll now cert_id (decoded req) fresh c ≡ (
          (
            register now cert_id req fresh.session (spend_token cert_id req fresh.pending c),
            on_enroll req.node_id req.caps ∷ journals_enroll req.node_id event req.os req.caps ∷ [],
          ),
          sends fresh.session,
        )))
      ⊎ ((¬ Entitled cert_id req c)
          × (message : Text) × (handle_enroll now cert_id (decoded req) fresh c
              ≡ ((c, []), http_error 401 message)))
unfolding handle_enroll admit
enroll_iff now cert_id req fresh c = elim (Option-cases (enroll_error cert_id req c)) [
  | inr (m, e) ↦
      let (message, out) = error_outcome now cert_id req fresh c m e in
      inr (
        λ (ne, cred, how). absurd (cc (e, (enroll_error_iff cert_id req c).1 (ne, cred))),
        message,
        out,
      )
  | inl ok ↦
      let (ne, cred) = (enroll_error_iff cert_id req c).0 ok in
      elim (checked_outcome now cert_id req fresh c (enroll_verdict cert_id req c) refl ok) [
        | inl (v, (event, out)) ↦
            inl ((ne, cred, (enroll_verdict_iff cert_id req c ne).0 v), event, out)
        | inr (v, (message, out)) ↦
            inr (λ (n, k, how). (enroll_verdict_iff cert_id req c ne).1 how v, message, out)
      ]
]
