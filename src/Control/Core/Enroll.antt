-- ===== src/Control/Core/Enroll.antt =====
-- handleEnroll of internal/control/core.go. `cert_id` is what verifiedNodeID finds in the TLS state:
-- the identity in a client certificate that the TLS layer has verified, or "". The code draws the
-- session's token in a refused request too, and drops it.
use avairy.Prelude.{
  ℕ, Bool, true, ◌&&◌, not, List, [], ◌∷◌, Text, eq_text, Option, none, some, if◌then◌else◌, codes,
}
use avairy.Prelude.Map
use avairy.Prelude.Map.{Map}
use avairy.Control.Core.{Core, Body, decoded, malformed, Reply, sends, http_error}

pub record EnrollRequest : Type 0 where
  pub token : Text
  pub node_id : Text
  pub os : Text
  pub caps : Map Text

-- The tokens that randToken would return in the call: the next pending one, and the session's.
pub record Fresh : Type 0 where
  pub pending : Text
  pub session : Text

-- What the outside sees: OnEnroll, then the journal's node_enrolled or node_rejoined.
pub data EnrollEvent : Type 0 where
  on_enroll : Text → Map Text → EnrollEvent
  journals_enroll : Text → Text → Text → Map Text → EnrollEvent

-- The early returns: no node id, no credential, or a certificate of another node.
unfoldable pub enroll_error : Text → EnrollRequest → Core → Option Text
enroll_error cert_id req c =
    if eq_text req.node_id []
    then some (codes "invalid enrollment: missing node id")
    else if c.require_client_cert && eq_text cert_id []
    then some
        (codes "invalid enrollment: client certificate required (token enrollment is disabled)")
    else if eq_text cert_id [] && eq_text req.token []
    then some (codes "invalid enrollment: token or client certificate required")
    else if not (eq_text cert_id []) && not (eq_text cert_id req.node_id)
    then some (codes "client certificate identity does not match node id")
    else none

pub data Verdict : Type 0 where
  refused : Verdict
  enrolled : Verdict
  rejoined : Verdict

-- m[k] == v, where a missing key reads as ""
unfoldable pub is_bound : Text → Text → Map Text → Bool
is_bound token node bound = eq_text (Map.lookup_or [] token bound) node

-- The switch: what it decides.
unfoldable pub enroll_verdict : Text → EnrollRequest → Core → Verdict
unfolding is_bound
enroll_verdict cert_id req c =
    if not (eq_text cert_id [])
    then (elim (Map.lookup req.node_id c.nodes) [ none ↦ enrolled | some n ↦ rejoined ])
    else if eq_text req.token c.pending
    then enrolled
    else if is_bound req.token req.node_id c.bound
    then rejoined
    else refused

-- The switch: a pending token is bound to the node and replaced.
unfoldable pub spend_token : Text → EnrollRequest → Text → Core → Core
spend_token cert_id req fresh c =
    if eq_text cert_id [] && eq_text req.token c.pending
    then record c { bound = Map.insert req.token req.node_id c.bound; pending = fresh }
    else c

-- The node and its session are registered.
unfoldable pub register : ℕ → Text → EnrollRequest → Text → Core → Core
register now cert_id req session c = record c {
  sessions = Map.insert session req.node_id c.sessions;
  nodes =
      Map.insert req.node_id
        (record {
          id = req.node_id;
          os = req.os;
          caps = req.caps;
          last_seen = now;
          live = true;
          ephemeral = eq_text cert_id [];
        })
        c.nodes;
}

unfoldable pub admit :
    ℕ → Text → EnrollRequest → Fresh → Text → Core → (Core × List EnrollEvent) × Reply Text
unfolding spend_token register
admit now cert_id req fresh event c = (
  (
    register now cert_id req fresh.session (spend_token cert_id req fresh.pending c),
    on_enroll req.node_id req.caps ∷ journals_enroll req.node_id event req.os req.caps ∷ [],
  ),
  sends fresh.session,
)

unfoldable pub enroll_checked :
    ℕ → Text → EnrollRequest → Fresh → Core → (Core × List EnrollEvent) × Reply Text
unfolding enroll_verdict admit
enroll_checked now cert_id req fresh c = elim (enroll_verdict cert_id req c) [
  | refused ↦ (
    (c, []),
    http_error 401 (codes "invalid enrollment token (unknown, or bound to another node)"),
  )
  | enrolled ↦ admit now cert_id req fresh (codes "node_enrolled") c
  | rejoined ↦ admit now cert_id req fresh (codes "node_rejoined") c
]

unfoldable pub enroll :
    ℕ → Text → EnrollRequest → Fresh → Core → (Core × List EnrollEvent) × Reply Text
unfolding enroll_error enroll_checked
enroll now cert_id req fresh c = elim (enroll_error cert_id req c) [
  | some message ↦ ((c, []), http_error 401 message)
  | none ↦ enroll_checked now cert_id req fresh c
]

-- Core.handleEnroll
unfoldable pub handle_enroll :
    ℕ → Text → Body EnrollRequest → Fresh → Core → (Core × List EnrollEvent) × Reply Text
unfolding enroll
handle_enroll now cert_id (malformed message) fresh c = ((c, []), http_error 400 message)
handle_enroll now cert_id (decoded req) fresh c = enroll now cert_id req fresh c
