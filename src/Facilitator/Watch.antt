-- ===== src/Facilitator/Watch.antt =====
-- Observe of internal/facilitator/facilitator.go, with what it publishes. A record of the journal is
-- seen as far as the code looks at it; the roster's agents at the time are an argument. The fresh
-- look, a session of its own that is started for a loop, is an event.
pub mod Spacing
use avairy.Prelude.{
  ℕ, Bool, true, false, ◌&&◌, ◌||◌, not, List, [], ◌∷◌, ◌++◌, Text, codes, eq_text, Option, none,
  some, any, if◌then◌else◌,
}
use avairy.Prelude.Map
use avairy.Prelude.Map.{Map}
use avairy.Agent.Summary.{Dynamic, ToolCall, action_key}
use avairy.Facilitator.Loops.{
  TriggerKind, trigger_blocked, trigger_loop, Trigger, Facilitator, track_loop, suppressed,
  mark_nudged, clear_cooldown,
}
use avairy.Facilitator.Nudger.{Agent, Nudge, NudgeKind, escalate, decide_nudge}

-- A system record with its actor and its data, the tool call of an agent's tool_use event, or anything
-- else.
pub data Seen (A : Type 0) : Type 0 where
  system_record : Text → Map Text → Seen A
  tool_use_record : Text → ToolCall A → Seen A
  other_record : Seen A

-- A publish of the facilitator, to one agent or to all, or the start of a fresh look
pub data WatchEvent : Type 0 where
  tells : Text → Text → WatchEvent
  tells_all : Text → WatchEvent
  fresh_look : Trigger → WatchEvent

-- fileMutators
abbrev pub file_mutators : List Text
file_mutators =
    codes "Edit"
    ∷ codes "Write"
    ∷ codes "MultiEdit"
    ∷ codes "NotebookEdit"
    ∷ codes "apply_patch"
    ∷ codes "fileChange"
    ∷ []

unfoldable pub is_stuck : Text → Bool
is_stuck status = eq_text status (codes "blocked") || eq_text status (codes "low_confidence")

-- Progress clears the cooldown of a block.
unfoldable pub clear_on_progress : Option (Text × Text) → Facilitator → Facilitator
unfolding is_stuck
clear_on_progress none f = f
clear_on_progress (some (agent, status)) f =
    if is_stuck status then f else clear_cooldown agent trigger_blocked f

-- Facilitator.publish
unfoldable pub publish_nudge : Nudge → WatchEvent
publish_nudge n = elim n.kind [
  | escalate ↦ tells_all (codes "needs a human decision: " ++ n.body)
  | _ ↦ if eq_text n.to [] then tells_all n.body else tells n.to n.body
]

unfoldable pub publish_nudges : List Nudge → List WatchEvent
unfolding publish_nudge
publish_nudges [] = []
publish_nudges (n ∷ ns) = publish_nudge n ∷ publish_nudges ns

look : Bool → Trigger → List WatchEvent
look looks t = elim t.kind [
  | trigger_loop ↦ if looks then fresh_look t ∷ [] else []
  | trigger_blocked ↦ []
]

-- What Observe does about a trigger, and the trigger where it acts on it
unfoldable pub act :
    ℕ
    → Bool
    → List Agent
    → Option Trigger
    → Facilitator
    → (Facilitator × List WatchEvent) × Option Trigger
unfolding publish_nudges look
act now looks roster none f = ((f, []), none)
act now looks roster (some t) f =
    if suppressed now t f
    then ((f, []), none)
    else ((mark_nudged now t f, publish_nudges (decide_nudge t roster) ++ look looks t), some t)

module _ {A : Type 0} (dyn : Dynamic A) where
  -- mutatesFiles
  unfoldable pub mutates_files : ToolCall A → Bool
  mutates_files tc = any (eq_text tc.name) file_mutators

  -- signature of a tool_use event
  unfoldable pub signature : ToolCall A → Text
  signature tc = codes "tool:" ++ action_key dyn tc

  -- reportStatus: the agent and its status
  unfoldable pub report_status : Seen A → Option (Text × Text)
  report_status (system_record actor fields) =
      if eq_text (Map.lookup_or [] (codes "event") fields) (codes "report_status")
      then some (actor, Map.lookup_or [] (codes "status") fields)
      else none
  report_status _ = none

  detail_of_report : Seen A → Text
  detail_of_report (system_record actor fields) = Map.lookup_or [] (codes "detail") fields
  detail_of_report _ = []

  detect_report : Option (Text × Text) → Text → Option Trigger
  detect_report none detail = none
  detect_report (some (agent, status)) detail =
      if is_stuck status
      then some (record { kind = trigger_blocked; agent = agent; detail = detail })
      else none

  -- Facilitator.detect
  unfoldable pub detect : Seen A → Facilitator → Facilitator × Option Trigger
  unfolding detect_report detail_of_report report_status signature mutates_files
  detect (tool_use_record actor tc) f = track_loop actor (signature tc) (mutates_files tc) f
  detect r f = (f, detect_report (report_status r) (detail_of_report r))

  -- Facilitator.Observe; `looks` tells whether FreshLook is set
  unfoldable pub observe_record :
      ℕ
      → Bool
      → List Agent
      → Seen A
      → Facilitator
      → (Facilitator × List WatchEvent) × Option Trigger
  unfolding clear_on_progress detect act
  observe_record now looks roster r f =
      let (f', t) = detect r (clear_on_progress (report_status r) f) in act now looks roster t f'
