-- ===== src/Gating/Hook.antt =====
-- internal/gating/hook.go: the answer to a PreToolUse hook. A tool's input is the map of its string
-- fields; another value reads as the empty string, as in the code.
use avairy.Prelude.{
  Bool, true, false, Text, codes, Option, none, some, eq_text, if◌then◌else◌, any, [], ◌∷◌,
}
use avairy.Prelude.Map
use avairy.Prelude.Map.{Map}
use avairy.Gating.Policy.{
  command, file_write, Request, Decision, allow, deny, allow_for_session, Verdict,
}

-- type hookInput
pub record HookInput : Type 0 where
  pub tool_name : Text
  pub tool_input : Map Text

-- permissionDecision, or the status 400 for a payload that does not decode.
pub data Answer : Type 0 where
  allowed denied bad_request : Answer

is_edit : Text → Bool
is_edit name =
    any (eq_text name)
      (codes "Edit" ∷ codes "Write" ∷ codes "NotebookEdit" ∷ codes "MultiEdit" ∷ [])

-- hookToRequest
unfoldable pub hook_to_request : HookInput → Request
unfolding is_edit
hook_to_request i =
    if eq_text i.tool_name (codes "Bash")
    then record {
      agent_id = [];
      kind = command;
      summary = Map.lookup_or [] (codes "command") i.tool_input;
    }
    else if is_edit i.tool_name
    then record {
      agent_id = [];
      kind = file_write;
      summary = Map.lookup_or [] (codes "file_path") i.tool_input;
    }
    else record { agent_id = []; kind = command; summary = i.tool_name }

abbrev permits : Decision → Bool
permits allow = true
permits allow_for_session = true
permits deny = false

-- The switch over the verdict.
unfoldable pub answer : Verdict → Answer
answer v = if v.failed then denied else if permits v.decision then allowed else denied

-- HookHandler, for the payload as it decodes
unfoldable pub hook_handler : (Request → Verdict) → Option HookInput → Answer
unfolding answer
hook_handler decide none = bad_request
hook_handler decide (some i) = answer (decide (hook_to_request i))
