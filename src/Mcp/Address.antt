-- ===== src/Mcp/Address.antt =====
-- The addresses of the tools, internal/mcp/helpers.go and agents.go, and send_message of
-- internal/mcp/messaging.go. The texts of the errors are left out, and a required argument that is
-- missing is none. The registered agents are a list of ids and roles, in the order of the range.
use avairy.Prelude.{
  ℕ, Bool, true, false, not, ◌&&◌, ◌||◌, List, [], ◌∷◌, ◌++◌, Text, codes, eq_text, Option, none,
  some, any, ◌==◌, ◌>>=◌, if◌then◌else◌,
}
use avairy.Prelude.Map
use avairy.Prelude.Map.{Map}
use avairy.Agent.{Delivery, interrupt, steer}
use avairy.Bus.Message.{ToKind, to_agent, to_role, to_broadcast, to_team, to_facilitator, Addr}
use avairy.Bus.Router.{Bus, kind_name, publish}
use avairy.Journal.Memory.{Memory}

-- Broadcast, Team and Facilitator of internal/bus.
abbrev everyone : ToKind → Addr
everyone kind = record { kind = kind; value = [] }

address_text : ToKind → Text → Text
address_text to_broadcast v = codes "all"
address_text to_team v = codes "team"
address_text to_facilitator v = codes "facilitator"
address_text kind v = kind_name kind ++ (b':' ∷ v)

-- addrString
unfoldable pub addr_string : Addr → Text
unfolding address_text
addr_string a = address_text a.kind a.value

-- strings.Cut at one byte.
unfoldable cut : ℕ → Text → Option (Text × Text)
cut sep [] = none
cut sep (c ∷ s) =
    let rest = cut sep s in
    if c == sep then some ([], s) else (rest >>= (λ (before, after). some (c ∷ before, after)))

-- The two kinds of address with a value; an empty value is refused before.
unfoldable cut_addr : Text × Text → Option Addr
cut_addr (kind, []) = none
cut_addr (kind, c ∷ v) =
    if eq_text kind (codes "agent")
    then some (record { kind = to_agent; value = c ∷ v })
    else if eq_text kind (codes "role")
    then some (record { kind = to_role; value = c ∷ v })
    else none

-- parseAddr
unfoldable pub parse_addr : Text → Option Addr
unfolding cut cut_addr
parse_addr to =
    if eq_text to (codes "broadcast") || eq_text to (codes "all")
    then some (everyone to_broadcast)
    else if eq_text to (codes "team")
    then some (everyone to_team)
    else if eq_text to (codes "facilitator")
    then some (everyone to_facilitator)
    else (cut b':' to >>= cut_addr)

-- AgentRoles
unfoldable pub agent_roles : Text → Map Text → List Text
agent_roles id caps =
    let os = Map.lookup_or [] (codes "os") caps in
    codes "backend" ∷ id ∷ (if not (eq_text os []) && not (eq_text os id) then os ∷ [] else [])

unfoldable pub has_address : ToKind → Text → Text → List Text → Bool
has_address to_agent v id roles = eq_text id v
has_address to_role v id roles = any (λ r. eq_text r v) roles
has_address _ v id roles = false

-- hasRecipient
unfoldable pub has_recipient : Text → Addr → Map (List Text) → Bool
unfolding has_address
has_recipient from addr agents =
    any (λ a. not (eq_text a.0 from) && has_address addr.kind addr.value a.0 a.1) agents

-- The result of send_message: its errors, and the id of the message.
pub data Sent : Type 0 where
  no_identity no_to no_body bad_address no_agent : Sent
  sent : Text → Sent

abbrev pub is_directed : ToKind → Bool
is_directed to_agent = true
is_directed to_role = true
is_directed _ = false

-- The choice of the delivery; an argument that is missing is "steer".
delivery_of : Text → Delivery
delivery_of d = if eq_text d (codes "interrupt") then interrupt else steer

-- handleSendMessage from the parsed address on.
send_parsed :
    ℕ → Text → Text → Text → Map (List Text) → Memory × Bus → Option Addr → (Memory × Bus) × Sent
unfolding delivery_of
send_parsed now from body d agents s none = (s, bad_address)
send_parsed now from body d agents s (some addr) =
    if is_directed addr.kind && not (has_recipient from addr agents)
    then (s, no_agent)
    else let (jrnl, bus, m) = publish now from addr body (delivery_of d) s.0 s.1 in
      ((jrnl, bus), sent m.id)

with_arguments :
    ℕ
    → Text
    → Option Text
    → Option Text
    → Text
    → Map (List Text)
    → Memory × Bus
    → (Memory × Bus) × Sent
unfolding send_parsed
with_arguments now from none body d agents s = (s, no_to)
with_arguments now from (some to) none d agents s = (s, no_body)
with_arguments now from (some to) (some body) d agents s =
    send_parsed now from body d agents s (parse_addr to)

-- handleSendMessage; `from` is the caller's identity, "" where it is not resolved.
unfoldable pub handle_send_message :
    ℕ
    → Text
    → Option Text
    → Option Text
    → Text
    → Map (List Text)
    → Memory × Bus
    → (Memory × Bus) × Sent
unfolding with_arguments
handle_send_message now from to body d agents s =
    if eq_text from [] then (s, no_identity) else with_arguments now from to body d agents s
