-- ===== src/Control/Core/Forgotten.antt =====
-- A node that internal/control/core.go has forgotten keeps its session.
use avairy.Prelude.{◌≡◌, Bool, true, false, Text, none, some}
use avairy.Prelude.Map
use avairy.Prelude.Map.{Map, IsDistinct}
use avairy.Control.Core.{Core}
use avairy.Control.Core.Runs.{Input, enrolls}

-- The node n is not there, and the session s stands.
record Lost (n s : Text) (c : Core) : Type 0 where
  absent : Map.lookup n c.nodes ≡ none
  served : Map.lookup s c.sessions ≡ some n
  distinct : IsDistinct c.nodes

unfoldable pub is_enrolment : Input → Bool
is_enrolment (enrolls now cert_id body fresh) = true
is_enrolment _ = false
