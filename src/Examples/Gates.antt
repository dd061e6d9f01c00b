-- ===== src/Examples/Gates.antt =====
-- The gating policy and hook of internal/gating at concrete requests.
use avairy.Prelude.{◌≡◌, ◌↔◌, ◌⊎◌, true, false, [], ◌∷◌, codes, some}
use avairy.Gating.Policy.{
  Policy, Request, Verdict, deny, allow, allow_for_session, decide, is_gated,
}
use avairy.Gating.Hook.{HookInput, hook_handler, hook_to_request, allowed}
use avairy.Gating.Verdicts.{hook_allows_iff}

abbrev strict : Request → Verdict
strict r = record { decision = deny; failed = false }

abbrev policy : Policy
policy = record { approve = some strict; gate_edits = true }

abbrev shell_call : HookInput
shell_call = record {
  tool_name = codes "Bash";
  tool_input = (codes "command", codes "git push origin") ∷ [];
}

hook_allows_iff_example : (hook_handler (decide policy) (some shell_call) ≡ allowed) ↔ (
    (is_gated policy (hook_to_request shell_call) ≡ false)
    ⊎ ((approver : Request → Verdict) × (policy.approve ≡ some approver)
        × ((approver (hook_to_request shell_call)).failed ≡ false)
        × (((approver (hook_to_request shell_call)).decision ≡ allow)
            ⊎ ((approver (hook_to_request shell_call)).decision ≡ allow_for_session))))
hook_allows_iff_example = hook_allows_iff policy shell_call
