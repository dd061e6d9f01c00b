-- ===== src/Control/Core/Relay.antt =====
-- handleInbox, handleEvents, handleApprove and handleBundle of internal/control/core.go. What a call
-- asks for elsewhere is an argument: what the drainer returns for the agent, the ruling of the
-- operator, the bundle that git builds. Money is the type of the code's amounts (float64), with a
-- test for zero.
use avairy.Prelude.{
  ℕ, Bool, true, ◌||◌, List, [], ◌∷◌, Text, codes, eq_text, Option, none, some, if◌then◌else◌,
}
use avairy.Prelude.Map.{Map}
use avairy.Control.Core.{Core, Body, decoded, malformed, Reply, sends, http_error, touch}
use avairy.Control.Approvals.{Approval}

pub record InboxMessage : Type 0 where
  pub id : Text
  pub from : Text
  pub body : Text
  pub delivery : Text
  pub interrupt : Bool
  pub no_wake : Bool
  pub to_kind : Text

-- Core.handleInbox, for the agent of the request; no drainer gives no message
unfoldable pub handle_inbox :
    {E : Type 0}
    → ℕ
    → Option (Text → List InboxMessage)
    → Body Text
    → Text
    → Core
    → (Core × List E) × Reply (List InboxMessage)
handle_inbox now drainer (malformed message) node c = ((c, []), http_error 400 message)
handle_inbox now none (decoded agent) node c = ((touch now node c, []), sends [])
handle_inbox now (some drain) (decoded agent) node c = ((touch now node c, []), sends (drain agent))

abbrev pub event_agent_sleeping : Text
event_agent_sleeping = codes "sleeping"

abbrev pub event_agent_awake : Text
event_agent_awake = codes "awake"

abbrev pub event_reconfigured : Text
event_reconfigured = codes "reconfigured"

-- Core.handleApprove: the approval that is asked for, and the reply with the operator's ruling on it
unfoldable pub handle_approve :
    ℕ → Body Approval → (Approval → Text) → Text → Core → (Core × List Approval) × Reply Text
handle_approve now (malformed message) rule node c = ((c, []), http_error 400 message)
handle_approve now (decoded req) rule node c =
    let asked : Approval =
      if eq_text req.agent_id [] then record req { agent_id = node } else req in
    ((touch now node c, asked ∷ []), sends (rule asked))

-- What Bundle returns: an error, or the bytes of the bundle.
pub data BundleResult : Type 0 where
  bundle_error : Text → BundleResult
  bundle : Text → BundleResult

-- The reply of handleBundle: raw bytes, or 204 where there is nothing new
pub data BundleReply : Type 0 where
  no_content : BundleReply
  octets : Text → BundleReply

reply_bundle : BundleResult → Reply BundleReply
reply_bundle (bundle_error message) = http_error 500 message
reply_bundle (bundle []) = sends no_content
reply_bundle (bundle (b ∷ bs)) = sends (octets (b ∷ bs))

-- Core.handleBundle, for the commits that the node has
unfoldable pub handle_bundle :
    {E : Type 0}
    → ℕ
    → Option (List Text → BundleResult)
    → Body (List Text)
    → Text
    → Core
    → (Core × List E) × Reply BundleReply
unfolding reply_bundle
handle_bundle now build (malformed message) node c = ((c, []), http_error 400 message)
handle_bundle now none (decoded have) node c =
    ((touch now node c, []), http_error 404 (codes "no canonical repo on core"))
handle_bundle now (some build) (decoded have) node c =
    ((touch now node c, []), reply_bundle (build have))

module _ (Money : Type 0) (is_zero : Money → Bool) where
  pub record AgentEventReport : Type 0 where
    pub agent_id : Text
    pub type : Text
    pub text : Text
    pub tool : Text
    pub tool_input : Map Text
    pub cost_usd : Money

  -- A record of the journal: a system event, with its detail, or an event of an agent's stream, with
  -- its tool call and its cost.
  pub data RelayEvent : Type 0 where
    journals_system : Text → Text → Option Text → RelayEvent
    journals_stream : Text → Text → Text → Option (Text × Map Text) → Option Money → RelayEvent

  -- One round of the loop
  unfoldable pub relay_event : AgentEventReport → RelayEvent
  relay_event e =
      if eq_text e.type event_agent_sleeping || eq_text e.type event_agent_awake
      then journals_system e.agent_id
          (if eq_text e.type event_agent_awake then codes "agent_awake" else codes "agent_sleeping")
          none
      else if eq_text e.type event_reconfigured
      then journals_system e.agent_id (codes "reconfigured") (some e.text)
      else journals_stream e.agent_id e.type e.text
          (if eq_text e.tool [] then none else some (e.tool, e.tool_input))
          (if is_zero e.cost_usd then none else some e.cost_usd)

  unfoldable pub relay_events : List AgentEventReport → List RelayEvent
  unfolding relay_event
  relay_events [] = []
  relay_events (e ∷ es) = relay_event e ∷ relay_events es

  -- Core.handleEvents
  unfoldable pub handle_events :
      ℕ → Body (List AgentEventReport) → Text → Core → (Core × List RelayEvent) × Reply Bool
  unfolding relay_events
  handle_events now (malformed message) node c = ((c, []), http_error 400 message)
  handle_events now (decoded es) node c = ((touch now node c, relay_events es), sends true)
