-- ===== src/Mcp/Coordination.antt =====
-- claim_response of internal/mcp/coordination.go. The caller's identity is "" where it is not
-- resolved; a missing thread_id is none. The locked part and the Append are one step.
use avairy.Prelude.{
  ℕ, ◌+◌, Bool, false, ◌&&◌, not, List, [], ◌∷◌, Text, codes, eq_text, Option, none, some, ltb,
  if◌then◌else◌,
}
use avairy.Prelude.Map
use avairy.Prelude.Map.{Map}
use avairy.Journal.Record.{Kind, system_data}
use avairy.Journal.Memory.{Memory, append}

-- 5 * time.Minute
abbrev pub claim_ttl : ℕ
claim_ttl = 300_000_000_000

-- type claim
pub record Claim : Type 0 where
  pub by : Text
  pub at : ℕ

abbrev pub Claims : Type 0
Claims = Map Claim

-- The result of the tool: its two errors, "denied" with the owner, and "granted".
pub data Outcome : Type 0 where
  no_identity no_thread : Outcome
  denied : Text → Outcome
  granted : Outcome

-- Does another agent's claim still hold?
unfoldable pub is_held : Text → ℕ → Option Claim → Bool
is_held id now none = false
is_held id now (some c) = not (eq_text c.by id) && ltb now (c.at + claim_ttl)

-- The owner of the thread, "" where it has none.
owner : Option Claim → Text
owner none = []
owner (some c) = c.by

claim_thread : Text → Text → ℕ → Memory × Claims → (Memory × Claims) × Outcome
claim_thread id thread now (jrnl, claims) =
    let found = Map.lookup thread claims in
    if is_held id now found then ((jrnl, claims), denied (owner found)) else (
      (
        if eq_text (owner found) id
            then jrnl
            else append Kind.system id
                (system_data
                  ((codes "event", codes "response_claimed") ∷ (codes "thread", thread) ∷ []))
                now jrnl,
        Map.insert thread (record { by = id; at = now }) claims,
      ),
      granted,
    )

-- handleClaimResponse
unfoldable pub handle_claim_response :
    Text → Option Text → ℕ → Memory × Claims → (Memory × Claims) × Outcome
unfolding claim_thread is_held owner
handle_claim_response id none now s = if eq_text id [] then (s, no_identity) else (s, no_thread)
handle_claim_response id (some thread) now s =
    if eq_text id [] then (s, no_identity) else claim_thread id thread now s

-- One call of the tool.
pub record Request : Type 0 where
  pub caller : Text
  pub thread_id : Option Text
  pub now : ℕ

unfoldable pub handle : Request → Memory × Claims → (Memory × Claims) × Outcome
unfolding handle_claim_response
handle r s = handle_claim_response r.caller r.thread_id r.now s

-- The calls in the order in which they get the lock, and what each is told.
unfoldable pub handle_all :
    List Request → Memory × Claims → (Memory × Claims) × List (Request × Outcome)
handle_all [] s = (s, [])
handle_all (r ∷ rs) s =
    let (s', o) = handle r s in let (s'', os) = handle_all rs s' in (s'', (r, o) ∷ os)
