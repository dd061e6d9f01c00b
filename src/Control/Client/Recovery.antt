-- ===== src/Control/Client/Recovery.antt =====
-- postCtx and reenroll of internal/control/node.go against the core of internal/control/core.go.
use avairy.Prelude.{
  ℕ, ◌≡◌, ◌≢◌, refl, ap, inl, inr, ◌⊎◌, true, false, List, [], ◌∷◌, Text, eq_text, Option, none,
  some, Option-cases, Bool-cases, not, ◌&&◌, codes, eq_text_iff, trim_prefix, has_prefix, length,
  drop,
}
use avairy.Prelude.Map
use avairy.Prelude.Map.{lookup-insert_same}
use avairy.Control.Core.{Core, Reply, decoded, auth, http_error, bearer}
use avairy.Control.Core.Enroll.{EnrollRequest, Fresh, handle_enroll, register, spend_token}
use avairy.Control.Core.Admission.{Entitled, enroll_iff}
use avairy.Control.Client.{Node, enroll_request, enroll_again}
use avairy.Control.Client.Posts.{
  Posted, replied, post, is_unauthorized, path_enroll, authorization, token_of,
}

-- What core c replies to a post on the session.
abbrev pub answers :
    {A : Type 0} {E : Type 0} → (Text → Core → (Core × List E) × Reply A) → Core → Text → Posted A
answers handler c session = replied (auth (authorization session) handler c).1

-- Core after the enrolment of the node.
abbrev pub after_enroll : ℕ → Text → Fresh → Node → Core → Core
after_enroll now cert_id fresh n c =
    register now cert_id (enroll_request n) fresh.session
      (spend_token cert_id (enroll_request n) fresh.pending c)

abbrev pub issues : ℕ → Text → Fresh → Core → EnrollRequest → Option Text
issues now cert_id fresh c req = token_of (handle_enroll now cert_id (decoded req) fresh c).1

bearer-authorization : (session : Text) → session ≢ [] → bearer (authorization session) ≡ session
unfolding bearer authorization trim_prefix has_prefix length drop
bearer-authorization [] ne = absurd (ne refl)
bearer-authorization (b ∷ s) ne = refl

answers-known :
    {A : Type 0} {E : Type 0} (handler : Text → Core → (Core × List E) × Reply A) (c : Core)
    (session node : Text)
    → session ≢ []
    → Map.lookup session c.sessions ≡ some node
    → answers handler c session ≡ replied (handler node c).1
unfolding auth
answers-known handler c session node ne e =
    rw (answers, auth, bearer-authorization session ne, e) refl

answers-unknown :
    {A : Type 0} {E : Type 0} (handler : Text → Core → (Core × List E) × Reply A) (c : Core)
    (session : Text)
    → session ≢ []
    → Map.lookup session c.sessions ≡ none
    → answers handler c session ≡ replied (http_error 401 (codes "unauthorized"))
unfolding auth
answers-unknown handler c session ne e = rw (answers, auth, bearer-authorization session ne, e) refl

enroll_again-issued :
    (now : ℕ) (cert_id session : Text) (fresh : Fresh) (n : Node) (c : Core)
    → issues now cert_id fresh c (enroll_request n) ≡ some session
    → session ≢ []
    → enroll_again (issues now cert_id fresh c) n ≡ (record n { session = session }, true)
unfolding enroll_again
enroll_again-issued now cert_id [] fresh n c e ne = absurd (ne refl)
enroll_again-issued now cert_id (b ∷ bs) fresh n c e ne = rw (enroll_again, e) refl

enroll_again-refused :
    (now : ℕ) (cert_id : Text) (fresh : Fresh) (n : Node) (c : Core)
    → issues now cert_id fresh c (enroll_request n) ≡ none
    → enroll_again (issues now cert_id fresh c) n ≡ (n, false)
unfolding enroll_again
enroll_again-refused now cert_id fresh n c e = rw (enroll_again, e) refl

lost_retries :
    {A : Type 0} {E : Type 0} (handler : Text → Core → (Core × List E) × Reply A) (path : Text)
    (n : Node) (c : Core)
    → n.reenroll_on_expiry ≡ true
    → path ≢ path_enroll
    → n.session ≢ []
    → Map.lookup n.session c.sessions ≡ none
    → (is_unauthorized (answers handler c n.session)
        && (n.reenroll_on_expiry && not (eq_text path path_enroll)))
      ≡ true
unfolding is_unauthorized
lost_retries handler path n c may other ne lost = elim (Bool-cases (eq_text path path_enroll)) [
  | inl same ↦ absurd (other ((eq_text_iff path path_enroll).0 same))
  | inr apart ↦ rw (answers-unknown handler c n.session ne lost, may, apart) refl
]

-- A post of a node that has a session and may enrol again by itself, to a path other than the
-- enrolment's, whose handler itself never answers 401, where the session that core would give is not
-- empty and nothing else changes core between the node's calls. Where core knows the node's session,
-- the post is sent once, answered by the handler, and the node is left as it is. Where core has lost
-- the session and the node is entitled to enrol, the node takes the new session, and the second and
-- last post, on that session, is answered by the handler for the node's own id. Where core has lost the
-- session and the node is not entitled, the post is sent once, answered 401, and the node is left as it
-- is.
pub post_recovers :
    {A : Type 0} {E : Type 0} (handler : Text → Core → (Core × List E) × Reply A) (now : ℕ)
    (cert_id : Text) (fresh : Fresh) (path : Text) (n : Node) (c : Core)
    → n.reenroll_on_expiry ≡ true
    → path ≢ path_enroll
    → n.session ≢ []
    → fresh.session ≢ []
    → ((node : Text) (d : Core) → is_unauthorized (replied (handler node d).1) ≡ false)
    → let r =
        post path
          (answers handler c)
          (issues now cert_id fresh c)
          (answers handler (after_enroll now cert_id fresh n c))
          n in
      ((node : Text) × (Map.lookup n.session c.sessions ≡ some node)
        × (r ≡ ((n, replied (handler node c).1), n.session ∷ [])))
      ⊎ ((Map.lookup n.session c.sessions ≡ none)
          × Entitled cert_id (enroll_request n) c
          × (r ≡ (
            (
              record n { session = fresh.session },
              replied (handler n.id (after_enroll now cert_id fresh n c)).1,
            ),
            n.session ∷ fresh.session ∷ [],
          )))
      ⊎ ((Map.lookup n.session c.sessions ≡ none)
          × (¬ Entitled cert_id (enroll_request n) c)
          × (r ≡ ((n, replied (http_error 401 (codes "unauthorized"))), n.session ∷ [])))
unfolding post register enroll_request
post_recovers handler now cert_id fresh path n c may other ne new_ne calm =
    elim (Option-cases (Map.lookup n.session c.sessions)) [
      | inr (node, known) ↦ inl (
        node,
        known,
        rw (post, answers-known handler c n.session node ne known, calm node c) refl,
      )
      | inl lost ↦
          let first = answers-unknown handler c n.session ne lost in
          let retries = lost_retries handler path n c may other ne lost in
          elim (enroll_iff now cert_id (enroll_request n) fresh c) [
            | inl (entitled, event, out) ↦
                let again =
                  enroll_again-issued now cert_id fresh.session fresh n c
                    (ap (λ r. token_of r.1) out) new_ne in
                let known : Map.lookup fresh.session (after_enroll now cert_id fresh n c).sessions
                    ≡ some n.id =
                  lookup-insert_same fresh.session n.id _ in
                inr (
                  inl (
                    lost,
                    entitled,
                    rw
                        (
                          post,
                          retries,
                          again,
                          answers-known handler (after_enroll now cert_id fresh n c) fresh.session
                              n.id new_ne known,
                        )
                        refl,
                  ))
            | inr (stranger, message, out) ↦
                let again =
                  enroll_again-refused now cert_id fresh n c (ap (λ r. token_of r.1) out) in
                inr (inr (lost, stranger, rw (post, retries, again, first) refl))
          ]
    ]
