-- ===== src/Bus/Router/Isolation.antt =====
-- Who finds a message of internal/bus/bus.go in its inbox.
use avairy.Prelude.{
  ℕ, ◌≤◌, ◌≡◌, ◌≢◌, ◌↔◌, Bool, true, List, [], ◌∷◌, ◌++◌, map, Text, eq_text, eq_text_iff, ltb→lt,
  All, drop, any, ltb, select, length, length-append, ◌==◌, not, arith, inl, inr, Bool-cases,
}
use avairy.Bus.Message.{to_agent, to_role, to_facilitator, Message, sender_facilitator}
use avairy.Journal.Memory.{Memory}
use avairy.Bus.Router.{
  Subscriber, Bus, matches, deliver, stamp, route, publish_message, subscribe, cancel, receive,
  is_duplicate, pop_queue, new_bus,
}

-- The message is meant for the participant: not for its sender, for the facilitator if and only if
-- it is addressed to it, and otherwise for everyone, the agent or the role of its address.
pub record MeantFor (agent_id : Text) (roles : List Text) (m : Message) : Type 0 where
  pub not_own : agent_id ≢ m.from
  pub facilitator : (agent_id ≡ sender_facilitator) ↔ (m.to.kind ≡ to_facilitator)
  pub agent : m.to.kind ≡ to_agent → agent_id ≡ m.to.value
  pub role : m.to.kind ≡ to_role → any (eq_text m.to.value) roles ≡ true

abbrev pub Meant : Subscriber → Message → Type 0
Meant s = MeantFor s.agent_id s.roles

-- A subscriber matches a message exactly when the message is meant for it.
pub matches_iff : (s : Subscriber) (m : Message) → (matches s m ≡ true) ↔ Meant s m
unfolding matches
matches_iff s m = ground (
  arith,
  eq_text_iff s.agent_id m.from,
  eq_text_iff s.agent_id sender_facilitator,
  eq_text_iff s.agent_id m.to.value,
)

-- The calls of the bus, and the reads of the channels that Subscribe hands out.
pub data Op : Type 0 where
  publishes : ℕ → Message → Op
  subscribes : Text → List Text → Op
  cancels receives : ℕ → Op

unfoldable pub step : Op → Memory × Bus → Memory × Bus
step (publishes now m) (jrnl, b) = let (jrnl', b', _) = publish_message now m jrnl b in (jrnl', b')
step (subscribes agent_id roles) (jrnl, b) = (jrnl, (subscribe agent_id roles b).0)
step (cancels i) (jrnl, b) = (jrnl, cancel i b)
step (receives i) (jrnl, b) = (jrnl, receive i b)

unfoldable pub run : List Op → Memory × Bus → Memory × Bus
run [] s = s
run (o ∷ os) s = run os (step o s)

-- What a participant finds in its channel was meant for it, and fits.
abbrev pub InboxOk : Subscriber → Type 0
InboxOk s = All (Meant s) s.queue × (length s.queue ≤ 64)

abbrev SubsOk : List Subscriber → Type 0
SubsOk = All InboxOk

All-snoc {ℓ κ} :
    {A : Type ℓ} (P : A → Type κ) (xs : List A) (x : A) → All P xs → P x → All P (xs ++ x ∷ [])
All-snoc P [] x h p = (p, tt)
All-snoc P (y ∷ xs) x h p = (h.0, All-snoc P xs x h.1 p)

All-map :
    (f : Subscriber → Subscriber) (ss : List Subscriber)
    → ((s : Subscriber) → InboxOk s → InboxOk (f s))
    → SubsOk ss
    → SubsOk (map f ss)
All-map f [] k h = tt
All-map f (s ∷ ss) k h = (k s h.0, All-map f ss k h.1)

All-select : (p : Subscriber → Bool) (ss : List Subscriber) → SubsOk ss → SubsOk (select p ss)
unfolding select
All-select p [] h = tt
All-select p (s ∷ ss) h = elim (Bool-cases (p s)) [
  | inl kept ↦ rw kept (h.0, All-select p ss h.1)
  | inr gone ↦ rw gone (All-select p ss h.1)
]

-- The predicate names the agent and the roles only, which no delivery changes.
deliver-InboxOk : (m : Message) (s : Subscriber) → InboxOk s → InboxOk (deliver m s)
unfolding deliver
deliver-InboxOk m s h = elim (Bool-cases (matches s m)) [
  | inl meant ↦ elim (Bool-cases (ltb (length s.queue) 64)) [
    | inl room ↦
        rw (meant, room, deliver)
          (
            All-snoc (Meant s) s.queue m h.0 ((matches_iff s m).0 meant),
            omega (arith, length-append s.queue (m ∷ []), ltb→lt (length s.queue) 64 room),
          )
    | inr full ↦ rw (meant, full, deliver) h
  ]
  | inr other ↦ rw (other, deliver) h
]

drop-InboxOk :
    (P : Message → Type 0) (q : List Message)
    → All P q × (length q ≤ 64)
    → All P (drop 1 q) × (length (drop 1 q) ≤ 64)
drop-InboxOk P [] h = h
drop-InboxOk P (m ∷ q) h = (h.0.1, omega arith)

pop_queue-InboxOk : (i : ℕ) (s : Subscriber) → InboxOk s → InboxOk (pop_queue i s)
pop_queue-InboxOk i s h = elim (Bool-cases (s.id == i)) [
  | inl mine ↦ rw (mine, pop_queue) (drop-InboxOk (Meant s) s.queue h)
  | inr other ↦ rw (other, pop_queue) h
]

publish-SubsOk :
    (now : ℕ) (m : Message) (jrnl : Memory) (b : Bus)
    → SubsOk b.subs
    → SubsOk (publish_message now m jrnl b).1.subs
unfolding publish_message route
publish-SubsOk now m jrnl b h = elim (Bool-cases (is_duplicate now m b)) [
  | inl seen ↦ rw (seen, publish_message) h
  | inr fresh ↦
      rw (fresh, publish_message)
        (All-map (deliver (stamp now b m)) b.subs (deliver-InboxOk (stamp now b m)) h)
]

step-SubsOk : (o : Op) (s : Memory × Bus) → SubsOk s.1.subs → SubsOk (step o s).1.subs
unfolding step subscribe cancel receive
step-SubsOk (publishes now m) (jrnl, b) h = publish-SubsOk now m jrnl b h
step-SubsOk (subscribes agent_id roles) (jrnl, b) h = All-snoc InboxOk b.subs _ h (tt, omega arith)
step-SubsOk (cancels i) (jrnl, b) h = All-select (λ s. not (s.id == i)) b.subs h
step-SubsOk (receives i) (jrnl, b) h = All-map (pop_queue i) b.subs (pop_queue-InboxOk i) h

run-SubsOk : (os : List Op) (s : Memory × Bus) → SubsOk s.1.subs → SubsOk (run os s).1.subs
unfolding run
run-SubsOk [] s h = h
run-SubsOk (o ∷ os) s h = run-SubsOk os (step o s) (step-SubsOk o s h)

-- Whatever is published, subscribed, cancelled and received on a new bus, each message that waits
-- in a participant's channel was meant for that participant, and no channel holds more than 64.
pub inboxes : (os : List Op) (jrnl : Memory) → All InboxOk (run os (jrnl, new_bus)).1.subs
unfolding new_bus
inboxes os jrnl = run-SubsOk os (jrnl, new_bus) tt
