-- ===== src/Control/Core/Tokens.antt =====
-- Tokens and sessions over the runs of internal/control/core.go.
use avairy.Prelude.{
  ℕ, ◌≡◌, ◌≢◌, refl, sym, ap, ◌∙◌, inl, inr, ◌⊎◌, Bool, true, false, List, [], ◌∷◌, ◌&&◌, not, Text,
  eq_text, eq_text_iff, none, some, any, arith, if◌then◌else◌, subst,
}
use avairy.Prelude.Map
use avairy.Prelude.Map.{
  Map, lookup-insert, lookup-insert_cases, lookup-insert_same, lookup-insert_other,
}
use avairy.Control.Core.{
  Core, Body, decoded, malformed, Reply, http_error, queue_consult, auth, resolve_node_conflict,
  queue_reconfigure, set_node_directive, current_token, new_pending_token,
}
use avairy.Control.Core.Enroll.{EnrollRequest, Fresh, handle_enroll, register, spend_token}
use avairy.Control.Core.Sync.{handle_push, handle_heartbeat}
use avairy.Control.Core.Runs.{
  Input, enrolls, shows_token, rotates_token, beats, pushes_files, contacts, queues_consult,
  queues_reconfigure, resolves_conflict, directs, sweeps, shared, contact, step, run,
}
use avairy.Control.Core.Admission.{Entitled, enroll_iff}
use avairy.Control.Core.Frame.{
  outside, emptied, outside-touch, outside-handle_push, outside-handle_heartbeat,
  outside-sweep_liveness, auth_cases,
}

-- No token stands bound while it waits for its first node.
pub record IsSound (c : Core) : Type 0 where
  pub unspent : Map.lookup c.pending c.bound ≡ none

-- A token that randToken returns is new: neither bound nor pending.
abbrev pub IsNew : Text → Core → Type 0
IsNew token c = (Map.lookup token c.bound ≡ none) × (token ≢ c.pending)

abbrev pub DrawsNew : Input → Core → Type 0
DrawsNew (enrolls now cert_id body fresh) c = IsNew fresh.pending c
DrawsNew (shows_token fresh) c = IsNew fresh c
DrawsNew (rotates_token fresh) c = IsNew fresh c
DrawsNew _ c = c ≡ c

-- Every token drawn in the run is new when it is drawn.
unfoldable pub AllNew : List Input → Core → Type 0
AllNew [] c = c ≡ c
AllNew (i ∷ is) c = DrawsNew i c × AllNew is (step i c)

-- Is it an enrolment in which the TLS layer has verified the node's certificate?
unfoldable pub certifies : Text → Input → Bool
certifies n (enrolls now cert_id body fresh) = not (eq_text cert_id []) && eq_text cert_id n
certifies n _ = false

-- A step keeps the requirement and the bindings, and what it adds to the sessions has a credential.
record Effect (i : Input) (c d : Core) : Type 0 where
  required : d.require_client_cert ≡ c.require_client_cert
  sound : IsSound c → DrawsNew i c → IsSound d
  kept : IsSound c → (t n : Text) → Map.lookup t c.bound ≡ some n → Map.lookup t d.bound ≡ some n
  credential :
      (s n : Text)
      → Map.lookup s d.sessions ≡ some n
      → (Map.lookup s c.sessions ≡ some n)
        ⊎ (certifies n i ≡ true)
        ⊎ ((c.require_client_cert ≡ false) × (t : Text) × (Map.lookup t d.bound ≡ some n))

-- The same sessions, tokens and requirement.
record SameAccess (c d : Core) : Type 0 where
  sessions : d.sessions ≡ c.sessions
  bound : d.bound ≡ c.bound
  pending : d.pending ≡ c.pending
  required : d.require_client_cert ≡ c.require_client_cert

same : (c : Core) → SameAccess c c
same c = record { sessions = refl; bound = refl; pending = refl; required = refl }

outside-SameAccess : (c d : Core) → outside d ≡ outside c → SameAccess c d
outside-SameAccess c d e = record {
  sessions = ap (λ o. o.sessions) e;
  bound = ap (λ o. o.bound) e;
  pending = ap (λ o. o.pending) e;
  required = ap (λ o. o.required) e;
}

emptied-SameAccess :
    (node : Text) (c d : Core) → outside d ≡ emptied node (outside c) → SameAccess c d
emptied-SameAccess node c d e = record {
  sessions = ap (λ o. o.sessions) e;
  bound = ap (λ o. o.bound) e;
  pending = ap (λ o. o.pending) e;
  required = ap (λ o. o.required) e;
}

auth-SameAccess :
    {A : Type 0} {E : Type 0} (header : Text) (handler : Text → Core → (Core × List E) × Reply A)
    (c : Core)
    → ((node : Text) → SameAccess c (handler node c).0.0)
    → SameAccess c (auth header handler c).0.0
auth-SameAccess header handler c h = elim (auth_cases header handler c) [
  | inl (_, e) ↦ subst (λ r. SameAccess c r.0.0) (sym e) (same c)
  | inr (node, _, e) ↦ subst (λ r. SameAccess c r.0.0) (sym e) (h node)
]

SameAccess-Effect : (i : Input) (c d : Core) → SameAccess c d → Effect i c d
SameAccess-Effect i c d e = record {
  required = e.required;
  sound = λ v _. record { unspent = cc (v.unspent, e.pending, e.bound) };
  kept = λ v t n h. cc (h, e.bound);
  credential = λ s n h. inl (cc (h, e.sessions));
}

-- The switch of the token: either nothing, or it was pending and is now bound to the node.
spend_cases :
    (cert_id : Text) (req : EnrollRequest) (fresh : Text) (c : Core)
    → (((cert_id ≢ []) ⊎ (req.token ≢ c.pending)) × (spend_token cert_id req fresh c ≡ c))
      ⊎ ((req.token ≡ c.pending)
          × (spend_token cert_id req fresh c
              ≡ record c { bound = Map.insert req.token req.node_id c.bound; pending = fresh }))
unfolding spend_token
spend_cases cert_id req fresh c =
    ground (arith, eq_text_iff cert_id [], eq_text_iff req.token c.pending)

module _ (now : ℕ) (cert_id : Text) (req : EnrollRequest) (fresh : Fresh) (c : Core) where
  certified :
      (cert_id ≢ [])
      → (cert_id ≡ req.node_id)
      → certifies req.node_id (enrolls now cert_id (decoded req) fresh) ≡ true
  unfolding certifies
  certified ne e = ground (arith, eq_text_iff cert_id [], eq_text_iff cert_id req.node_id)

  -- The credential of the node that is registered.
  has_credential :
      Entitled cert_id req c
      → (certifies req.node_id (enrolls now cert_id (decoded req) fresh) ≡ true)
        ⊎ ((c.require_client_cert ≡ false)
            × (t : Text) × (Map.lookup t (spend_token cert_id req fresh.pending c).bound
                ≡ some req.node_id))
  has_credential (ne, inl (has, e), how) = inl (certified has e)
  has_credential (ne, inr (no_cert, has, free), how) =
      elim (spend_cases cert_id req fresh.pending c) [
        | inl (other, e) ↦ inr (
          free,
          req.token,
          rw (e) (elim how [
            | inl cert ↦ absurd (cert no_cert)
            | inr (inl spent) ↦ elim other [
              | inl cert ↦ absurd (cert no_cert)
              | inr old ↦ absurd (old spent)
            ]
            | inr (inr bound) ↦ bound
          ]),
        )
        | inr (spent, e) ↦
            inr (free, req.token, rw (e) (lookup-insert_same req.token req.node_id c.bound))
      ]

  spend_kept :
      IsSound c
      → (t n : Text) → Map.lookup t c.bound ≡ some n
      → Map.lookup t (spend_token cert_id req fresh.pending c).bound ≡ some n
  spend_kept v t n h = elim (spend_cases cert_id req fresh.pending c) [
    | inl (other, e) ↦ rw (e) h
    | inr (spent, e) ↦
        rw (e) (
          lookup-insert_other req.token t req.node_id c.bound (λ same. absurd (cc (v.unspent))) ∙ h)
  ]

  spend-IsSound :
      IsSound c → IsNew fresh.pending c → IsSound (spend_token cert_id req fresh.pending c)
  spend-IsSound v (free, other) = elim (spend_cases cert_id req fresh.pending c) [
    | inl (_, e) ↦ rw (e) v
    | inr (spent, e) ↦ rw (e) (record {
      unspent =
          lookup-insert_other req.token fresh.pending req.node_id c.bound
            (λ same. other (sym same ∙ spent))
          ∙ free;
    })
  ]

  spend_rest :
      ((spend_token cert_id req fresh.pending c).sessions ≡ c.sessions)
      × ((spend_token cert_id req fresh.pending c).require_client_cert ≡ c.require_client_cert)
  unfolding spend_token
  spend_rest = (ground arith, ground arith)

  admit-Effect :
      Entitled cert_id req c
      → Effect
          (enrolls now cert_id (decoded req) fresh)
          c
          (register now cert_id req fresh.session (spend_token cert_id req fresh.pending c))
  unfolding register
  admit-Effect ent = record {
    required = spend_rest.1;
    sound = λ v new. record { unspent = (spend-IsSound v new).unspent };
    kept = λ v t n h. spend_kept v t n h;
    credential = λ s n h.
        let d = spend_token cert_id req fresh.pending c in
        elim (lookup-insert_cases fresh.session s req.node_id n d.sessions h) [
          | inl (_, e) ↦ inr (
              subst
                (λ m.
                  (certifies m (enrolls now cert_id (decoded req) fresh) ≡ true)
                  ⊎ ((c.require_client_cert ≡ false)
                      × (t : Text) × (Map.lookup t d.bound ≡ some m)))
                e (has_credential ent))
          | inr (_, old) ↦ inl (ap (Map.lookup s) (sym spend_rest.0) ∙ old)
        ];
  }

enroll-Effect :
    (now : ℕ) (cert_id : Text) (body : Body EnrollRequest) (fresh : Fresh) (c : Core)
    → Effect (enrolls now cert_id body fresh) c (handle_enroll now cert_id body fresh c).0.0
unfolding handle_enroll
enroll-Effect now cert_id (malformed m) fresh c =
    SameAccess-Effect (enrolls now cert_id (malformed m) fresh) c c (same c)
enroll-Effect now cert_id (decoded req) fresh c = elim (enroll_iff now cert_id req fresh c) [
  | inl (ent, event, e) ↦
      subst (λ r. Effect (enrolls now cert_id (decoded req) fresh) c r.0.0) (sym e)
        (admit-Effect now cert_id req fresh c ent)
  | inr (_, message, e) ↦
      subst (λ r. Effect (enrolls now cert_id (decoded req) fresh) c r.0.0) (sym e)
        (SameAccess-Effect (enrolls now cert_id (decoded req) fresh) c c (same c))
]

fresh_pending-Effect :
    (i : Input) (c : Core) (token : Text)
    → (IsSound c → DrawsNew i c → Map.lookup token c.bound ≡ none)
    → Effect i c (record c { pending = token })
fresh_pending-Effect i c token h = record {
  required = refl;
  sound = λ v new. record { unspent = h v new };
  kept = λ v t n b. b;
  credential = λ s n g. inl g;
}

step-Effect : (i : Input) (c : Core) → Effect i c (step i c)
unfolding step current_token new_pending_token queue_consult queue_reconfigure set_node_directive
    resolve_node_conflict
step-Effect (enrolls now cert_id body fresh) c = enroll-Effect now cert_id body fresh c
step-Effect (shows_token fresh) c =
    fresh_pending-Effect (shows_token fresh) c (if eq_text c.pending [] then fresh else c.pending)
      (λ v new. ground (arith, new.0, v.unspent))
step-Effect (rotates_token fresh) c =
    fresh_pending-Effect (rotates_token fresh) c fresh (λ v new. new.0)
step-Effect (beats now header conflicts) c = SameAccess-Effect (beats now header conflicts) c _ (
    auth-SameAccess header (handle_heartbeat now conflicts) c
      (λ node. emptied-SameAccess node c _ (outside-handle_heartbeat now conflicts node c)))
step-Effect (pushes_files now header body) c =
    SameAccess-Effect (pushes_files now header body) c _ (
      auth-SameAccess header (handle_push now body) c
        (λ node. outside-SameAccess c _ (outside-handle_push now body node c)))
step-Effect (contacts now header) c = SameAccess-Effect (contacts now header) c _ (
    auth-SameAccess header (contact now) c
      (λ node. outside-SameAccess c _ (outside-touch now node c)))
step-Effect (queues_consult node cmd) c =
    SameAccess-Effect (queues_consult node cmd) c _
      (record { sessions = refl; bound = refl; pending = refl; required = refl })
step-Effect (queues_reconfigure node cmd) c =
    SameAccess-Effect (queues_reconfigure node cmd) c _
      (record { sessions = refl; bound = refl; pending = refl; required = refl })
step-Effect (resolves_conflict node path) c =
    SameAccess-Effect (resolves_conflict node path) c _ (record {
      sessions = ground arith;
      bound = ground arith;
      pending = ground arith;
      required = ground arith;
    })
step-Effect (directs node decision) c =
    SameAccess-Effect (directs node decision) c _
      (record { sessions = refl; bound = refl; pending = refl; required = refl })
step-Effect (sweeps now) c =
    SameAccess-Effect (sweeps now) c _ (outside-SameAccess c _ (outside-sweep_liveness now c))
step-Effect (shared op) c =
    SameAccess-Effect (shared op) c _
      (record { sessions = refl; bound = refl; pending = refl; required = refl })

run-IsSound : (is : List Input) (c : Core) → IsSound c → AllNew is c → IsSound (run is c)
unfolding run AllNew
run-IsSound [] c v new = v
run-IsSound (i ∷ is) c v (new, rest) =
    run-IsSound is (step i c) ((step-Effect i c).sound v new) rest

run_kept :
    (is : List Input) (c : Core) (t n : Text)
    → IsSound c
    → AllNew is c
    → Map.lookup t c.bound ≡ some n
    → Map.lookup t (run is c).bound ≡ some n
unfolding run AllNew
run_kept [] c t n v new h = h
run_kept (i ∷ is) c t n v (new, rest) h =
    let e = step-Effect i c in run_kept is (step i c) t n (e.sound v new) rest (e.kept v t n h)

-- A token admits one node: once it is bound to a node, then after any further steps an enrolment with
-- it and without a certificate, by any other node, is refused with 401 and changes nothing. No token
-- drawn in the meantime repeats one that is pending or bound.
pub token_admits_one :
    (is : List Input) (c : Core) (now : ℕ) (req : EnrollRequest) (fresh : Fresh) (n : Text)
    → IsSound c
    → AllNew is c
    → Map.lookup req.token c.bound ≡ some n
    → req.node_id ≢ n
    → (message : Text) × (handle_enroll now [] (decoded req) fresh (run is c)
        ≡ ((run is c, []), http_error 401 message))
token_admits_one is c now req fresh n v new h other =
    let d = run is c in
    let bound = run_kept is c req.token n v new h in
    elim (enroll_iff now [] req fresh d) [
      | inr (_, message, e) ↦ (message, e)
      | inl ((_, _, how), _, _) ↦ absurd (elim how [
        | inl cert ↦ cert refl
        | inr (inl spent) ↦ cc ((run-IsSound is c v new).unspent)
        | inr (inr same) ↦ other (cc (bound, same))
      ])
    ]

-- Every session that a run adds belongs to a node with a credential: some enrolment of the run carried
-- a verified certificate with its id, or certificates are not required and a token is bound to the
-- node. So under RequireClientCert only nodes with a certificate get a session. No drawn token
-- repeats one that is pending or bound.
pub session_credential :
    (is : List Input) (c : Core) (s n : Text)
    → IsSound c
    → AllNew is c
    → Map.lookup s (run is c).sessions ≡ some n
    → (Map.lookup s c.sessions ≡ some n)
      ⊎ (any (certifies n) is ≡ true)
      ⊎ ((c.require_client_cert ≡ false) × (t : Text) × (Map.lookup t (run is c).bound ≡ some n))
unfolding run AllNew any
session_credential [] c s n v new h = inl h
session_credential (i ∷ is) c s n v (new, rest) h =
    let e = step-Effect i c in
    elim (session_credential is (step i c) s n (e.sound v new) rest h) [
      | inr (inl later) ↦ inr (inl (ground arith))
      | inr (inr (free, t, b)) ↦ inr (inr (sym e.required ∙ free, t, b))
      | inl old ↦ elim (e.credential s n old) [
        | inl older ↦ inl older
        | inr (inl here) ↦ inr (inl (ground arith))
        | inr (inr (free, t, b)) ↦
            inr (inr (free, t, run_kept is (step i c) t n (e.sound v new) rest b))
      ]
    ]
