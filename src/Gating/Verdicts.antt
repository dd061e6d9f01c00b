-- ===== src/Gating/Verdicts.antt =====
-- When an action goes ahead: the hook of internal/gating/hook.go over the policy of
-- internal/gating/policy.go.
use avairy.Prelude.{false, ◌≡◌, ◌↔◌, ◌⊎◌, some, arith}
use avairy.Gating.Policy.{Policy, Request, allow, allow_for_session, Verdict, is_gated, decide}
use avairy.Gating.Hook.{HookInput, hook_handler, hook_to_request, allowed}

-- The hook lets a tool call go ahead exactly when the policy does not gate its request, or an
-- approver is wired that answers it with allow or allow_for_session and without an error. So with
-- no approver every gated call is denied.
pub hook_allows_iff :
    (p : Policy) (i : HookInput)
    → (hook_handler (decide p) (some i) ≡ allowed) ↔ (
        (is_gated p (hook_to_request i) ≡ false)
        ⊎ ((approver : Request → Verdict) × (p.approve ≡ some approver)
            × ((approver (hook_to_request i)).failed ≡ false)
            × (((approver (hook_to_request i)).decision ≡ allow)
                ⊎ ((approver (hook_to_request i)).decision ≡ allow_for_session))))
unfolding hook_handler decide
hook_allows_iff p i = ground arith
