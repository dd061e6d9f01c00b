-- ===== src/Examples/Buses.antt =====
-- Waker and message bus of internal/bus at concrete calls.
use avairy.Prelude.{
  not, ℕ, ◌+◌, ◌≤◌, ◌≡◌, ◌≢◌, refl, true, false, ◌&&◌, List, [], ◌∷◌, codes, length, All, ltb,
  if◌then◌else◌, arith,
}
use avairy.Prelude.Map
use avairy.Agent.{steer}
use avairy.Bus.Message.{to_agent, to_team, Message, dedup_window}
use avairy.Bus.Waker.{always_wakes, is_direct, wake}
use avairy.Bus.Waker.Window.{in_window}
use avairy.Bus.Waker.Rate.{Call, wake-eq-limiter, wake_rate, Ordered, waker_of, wakes_of}
use avairy.Bus.Router.{Subscriber, new_bus, is_duplicate, publish_message, route, dedup_key}
use avairy.Bus.Router.Dedup.{repeated_message}
use avairy.Bus.Router.Isolation.{
  Op, publishes, subscribes, cancels, receives, run, inboxes, InboxOk,
}
use avairy.Journal.Memory.{Memory}
use avairy.Journal.Memory

abbrev call : ℕ → Call
call t = record { from = codes "ada"; kind = to_team; interrupt = false; now = t }

-- Seven calls in a second.
abbrev burst : List Call
burst = call 1 ∷ call 2 ∷ call 3 ∷ call 4 ∷ call 5 ∷ call 6 ∷ call 1_000_000_000 ∷ []

burst-Ordered : Ordered 0 burst
burst-Ordered = (
  omega arith,
  (omega arith, (omega arith, (omega arith, (omega arith, (omega arith, (omega arith, tt)))))),
)

wake-eq-limiter_example : (wake (codes "ada") to_team false 2_000_000_000 (waker_of burst)).1 ≡ (
    if always_wakes (codes "ada") false
    then true
    else is_direct to_team
      && ltb (length (in_window 30_000_000_000 2_000_000_000 (wakes_of burst))) 6)
wake-eq-limiter_example = wake-eq-limiter burst (call 2_000_000_000) burst-Ordered (omega arith)

wake_rate_example : length (in_window 30_000_000_000 1_000_000_000 (wakes_of burst)) ≤ 6
wake_rate_example = wake_rate burst 1_000_000_000 burst-Ordered

abbrev hello : Message
hello = record {
  id = [];
  from = codes "ada";
  to = record { kind = to_agent; value = codes "bob" };
  body = codes "hello";
  delivery = steer;
  interrupt = false;
  no_wake = false;
  time = 0;
}

abbrev hello_again : Message
hello_again = record hello { no_wake = true }

repeated_message_example :
    let (j', b', _) = publish_message 1 hello Memory.new new_bus in
    publish_message 2 hello_again j' b' ≡ (
      if not hello_again.interrupt && ltb 2 (1 + dedup_window)
      then (j', b', hello_again)
      else route 2 hello_again j' b')
repeated_message_example =
    repeated_message 1 2 hello hello_again Memory.new new_bus
      (unfold is_duplicate new_bus Map.lookup in refl) refl (unfold dedup_key in refl)

abbrev ada-HasNoNul : All (λ (c : ℕ). c ≢ 0) (codes "ada")
ada-HasNoNul = ((λ e. omega arith), ((λ e. omega arith), ((λ e. omega arith), tt)))

abbrev bob-HasNoNul : All (λ (c : ℕ). c ≢ 0) (codes "bob")
bob-HasNoNul = ((λ e. omega arith), ((λ e. omega arith), ((λ e. omega arith), tt)))

abbrev traffic : List Op
traffic =
    subscribes (codes "ada") (codes "architect" ∷ [])
    ∷ subscribes (codes "bob") []
    ∷ publishes 1 hello
    ∷ receives 1
    ∷ publishes 2 (record hello { body = codes "again" })
    ∷ cancels 0
    ∷ []

inboxes_example : All InboxOk (run traffic (Memory.new, new_bus)).1.subs
inboxes_example = inboxes traffic Memory.new

abbrev bob : Subscriber
bob = record { id = 1; agent_id = codes "bob"; roles = []; queue = [] }
