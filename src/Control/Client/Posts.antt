-- ===== src/Control/Client/Posts.antt =====
-- postCtx and reenroll of internal/control/node.go. One post is a status with a body or an error:
-- `transport` is doPost, for the session that the request carries. The second post of a retry goes
-- to the core as it is then, so it has a transport of its own.
use avairy.Prelude.{
  Bool, false, ◌&&◌, not, List, [], ◌∷◌, ◌++◌, Text, codes, eq_text, Option, some, none, ◌==◌,
  if◌then◌else◌,
}
use avairy.Control.Core.{Reply, sends, http_error}
use avairy.Control.Core.Enroll.{EnrollRequest}
use avairy.Control.Client.{Node, enroll_again}

-- What doPost returns: core's reply, or an error without a status.
pub data Posted (A : Type 0) : Type 0 where
  replied : Reply A → Posted A
  unreachable : Text → Posted A

unfoldable pub is_unauthorized : {A : Type 0} → Posted A → Bool
is_unauthorized (replied (http_error status message)) = status == 401
is_unauthorized (replied (sends a)) = false
is_unauthorized (unreachable message) = false

abbrev pub path_enroll : Text
path_enroll = codes "/enroll"

-- Node.postCtx with the sessions that its posts carried
unfoldable pub post :
    {A : Type 0}
    → Text
    → (Text → Posted A)
    → (EnrollRequest → Option Text)
    → (Text → Posted A)
    → Node
    → (Node × Posted A) × List Text
unfolding is_unauthorized
post path transport core again n =
    let first = transport n.session in
    if is_unauthorized first && (n.reenroll_on_expiry && not (eq_text path path_enroll))
    then (let (n', enrolled) = enroll_again core n in
        if enrolled
        then ((n', again n'.session), n.session ∷ n'.session ∷ [])
        else ((n', first), n.session ∷ []))
    else ((n, first), n.session ∷ [])

-- The Authorization header of doPost
unfoldable pub authorization : Text → Text
authorization [] = []
authorization (b ∷ session) = codes "Bearer " ++ (b ∷ session)

-- What a node is given for its enrolment by a core that answers
abbrev pub token_of : Reply Text → Option Text
token_of (sends session) = some session
token_of (http_error status message) = none
