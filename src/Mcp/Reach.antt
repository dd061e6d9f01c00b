-- ===== src/Mcp/Reach.antt =====
-- The addresses of send_message and read_inbox, and the subscribers that a directed message reaches:
-- internal/mcp/helpers.go, agents.go and messaging.go.
use Prim.{absurd}
use avairy.Prelude.{
  ◌≡◌, ◌≢◌, refl, sym, ap, true, false, ◌∷◌, [], map, Text, List, eq_text, some, any, arith, All,
}
use avairy.Bus.Message.{
  ToKind, to_agent, to_role, to_broadcast, to_team, to_facilitator, Addr, sender_facilitator,
}
use avairy.Bus.Message.{Message}
use avairy.Bus.Router.{Subscriber, matches, matches_kind}
use avairy.Mcp.Address.{addr_string, parse_addr, has_address, has_recipient, is_directed}

-- What an address of the kind has for a value.
abbrev pub IsValue : ToKind → Text → Type 0
IsValue to_agent v = v ≢ []
IsValue to_role v = v ≢ []
IsValue _ v = v ≡ []

read_back :
    (kind : ToKind) (v : Text)
    → IsValue kind v
    → parse_addr (addr_string (record { kind = kind; value = v }))
      ≡ some (record { kind = kind; value = v })
unfolding parse_addr addr_string eq_text
read_back to_agent [] h = absurd (h refl)
read_back to_agent (c ∷ v) h = refl
read_back to_role [] h = absurd (h refl)
read_back to_role (c ∷ v) h = refl
read_back to_broadcast v h = ap (λ t. some (record { kind = to_broadcast; value = t })) (sym h)
read_back to_team v h = ap (λ t. some (record { kind = to_team; value = t })) (sym h)
read_back to_facilitator v h = ap (λ t. some (record { kind = to_facilitator; value = t })) (sym h)

-- parse_addr reads back every address that addr_string writes, where the value of an agent's or a
-- role's address is not empty and another kind's value is.
pub parse_addr-addr_string :
    (a : Addr) → IsValue a.kind a.value → parse_addr (addr_string a) ≡ some a
parse_addr-addr_string a h = read_back a.kind a.value h

eq_text_comm : (s t : Text) → eq_text s t ≡ eq_text t s
unfolding eq_text
eq_text_comm [] [] = refl
eq_text_comm [] (d ∷ t) = refl
eq_text_comm (c ∷ s) [] = refl
eq_text_comm (c ∷ s) (d ∷ t) = grind (arith, eq_text_comm s t)

any_comm : (v : Text) (roles : List Text) → any (λ r. eq_text r v) roles ≡ any (eq_text v) roles
unfolding any
any_comm v [] = refl
any_comm v (r ∷ roles) = grind (arith, eq_text_comm r v, any_comm v roles)

-- The registration that stands behind a subscriber.
abbrev pub registration : Subscriber → Text × List Text
registration s = (s.agent_id, s.roles)

address-kind :
    (s : Subscriber) (m : Message)
    → is_directed m.to.kind ≡ true
    → has_address m.to.kind m.to.value s.agent_id s.roles ≡ matches_kind m.to.kind s m
unfolding has_address matches_kind
address-kind s m h = by_kind m.to.kind h
  where
    by_kind :
        (kind : ToKind)
        → is_directed kind ≡ true
        → has_address kind m.to.value s.agent_id s.roles ≡ matches_kind kind s m
    by_kind to_agent h = refl
    by_kind to_role h = any_comm m.to.value s.roles
    by_kind to_broadcast h = ground (arith, h)
    by_kind to_team h = ground (arith, h)
    by_kind to_facilitator h = ground (arith, h)

-- Where the registered agents are exactly the agents of the bus's subscribers, each with the id and
-- the roles of its subscriber, and none of them is the facilitator, has_recipient holds of a message
-- to an agent or a role exactly when the message matches one of the subscribers.
pub has_recipient-matches :
    (m : Message) (subs : List Subscriber)
    → is_directed m.to.kind ≡ true
    → All (λ s. eq_text s.agent_id sender_facilitator ≡ false) subs
    → has_recipient m.from m.to (map registration subs) ≡ any (λ s. matches s m) subs
unfolding has_recipient any matches
has_recipient-matches m [] h peers = refl
has_recipient-matches m (s ∷ subs) h (peer, peers) =
    grind (arith, peer, address-kind s m h, has_recipient-matches m subs h peers)
