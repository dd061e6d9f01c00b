-- ===== src/Examples/Addresses.antt =====
-- The addresses of the tools of internal/mcp at concrete inputs: "a" writes to the role of "b".
use avairy.Prelude.{◌≡◌, ◌≢◌, refl, true, false, [], ◌∷◌, map, codes, eq_text, some, any, arith}
use avairy.Agent.{steer}
use avairy.Bus.Message.{to_role, Addr, Message}
use avairy.Bus.Router.{Subscriber, matches}
use avairy.Mcp.Address.{addr_string, parse_addr, has_recipient}
use avairy.Mcp.Reach.{registration, parse_addr-addr_string, has_recipient-matches}

abbrev linux : Addr
linux = record { kind = to_role; value = codes "linux" }

abbrev hello : Message
hello = record {
  id = [];
  from = codes "a";
  to = linux;
  body = codes "hi";
  delivery = steer;
  interrupt = false;
  no_wake = false;
  time = 0;
}

abbrev peer : Subscriber
peer = record {
  id = 1;
  agent_id = codes "b";
  roles = codes "backend" ∷ codes "linux" ∷ [];
  queue = [];
}

peer_found : has_recipient (codes "a") linux (map registration (peer ∷ [])) ≡ true
unfolding has_recipient any eq_text
peer_found = refl

nonempty : codes "linux" ≢ []
nonempty = ground arith

parse_addr-addr_string_example : parse_addr (addr_string linux) ≡ some linux
parse_addr-addr_string_example = parse_addr-addr_string linux nonempty

has_recipient-matches_example :
    has_recipient hello.from hello.to (map registration (peer ∷ []))
    ≡ any (λ s. matches s hello) (peer ∷ [])
unfolding eq_text
has_recipient-matches_example = has_recipient-matches hello (peer ∷ []) refl (refl, tt)
