-- ===== src/Examples/Operators.antt =====
-- Approvals of internal/control and response claims of internal/mcp at concrete runs.
use avairy.Prelude.{◌≡◌, refl, List, [], ◌∷◌, codes, some, arith, eq_text}
use avairy.Prelude.Map
use avairy.Control.Approvals.{Approval, Op, asks, resolves, answers, gives_up, run, new_approvals}
use avairy.Control.Rulings.{AllJustified, verdicts_justified}
use avairy.Journal.Memory.{Memory}
use avairy.Journal.Memory
use avairy.Mcp.Coordination.{Request, Claims, denied, handle_all, handle_claim_response}
use avairy.Mcp.Ownership.{sole_responder}

abbrev request : Approval
request = record {
  id = [];
  agent_id = codes "ada";
  kind = codes "command";
  summary = codes "git push";
  reason = [];
  diff = [];
  at = 0;
}

-- A grant for the session, the answers to it, and a request that times out.
abbrev session : List Op
session =
    asks 1 request
    ∷ asks 2 (record request { agent_id = codes "bob" })
    ∷ resolves (codes "ap1") (codes "allow_for_session")
    ∷ answers (codes "ap1")
    ∷ asks 3 request
    ∷ gives_up (codes "ap2")
    ∷ []

verdicts_justified_example : AllJustified (run session new_approvals []).1
verdicts_justified_example = verdicts_justified session

abbrev start : Memory × Claims
start = (Memory.new, [])

abbrev rival_call : Request
rival_call = record { caller = codes "bob"; thread_id = some (codes "m1"); now = 20 }

sole_responder_example :
    let s' =
      (handle_all
        (rival_call ∷ [])
        (handle_claim_response (codes "ada") (some (codes "m1")) 10 start).0).0 in
    handle_claim_response (codes "bob") (some (codes "m1")) 30 s' ≡ (s', denied (codes "ada"))
unfolding handle_claim_response Map.lookup eq_text
sole_responder_example =
    sole_responder (codes "ada") (codes "bob") (codes "m1") 10 30 start (rival_call ∷ []) refl
      ((omega arith, omega arith), tt) (omega arith) (omega arith) (λ e. ground arith)
      (λ e. ground arith)
