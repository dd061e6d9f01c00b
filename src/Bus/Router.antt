-- ===== src/Bus/Router.antt =====
-- Bus of internal/bus/bus.go. The subscribers stand in a list where the code has a Go map, so their
-- order is the arbitrary one in which the code ranges over it; a channel holds 64 messages. One `now`
-- stands for the clock readings of one publish, which is taken as one step.
pub mod Dedup
pub mod Isolation
use avairy.Prelude.{
  ℕ, ◌+◌, Bool, true, false, ◌&&◌, ◌||◌, not, drop, List, [], ◌∷◌, ◌++◌, map, Text, codes, eq_text,
  Option, none, some, length, any, select, ltb, ◌==◌, if◌then◌else◌, u64,
}
use avairy.Prelude.Map
use avairy.Prelude.Map.{Map}
use avairy.Prelude.Decimal.{format_uint}
use avairy.Agent.{Delivery, interrupt, steer}
use avairy.Bus.Message.{
  ToKind, to_agent, to_role, to_broadcast, to_team, to_facilitator, Addr, Message,
  sender_facilitator, dedup_window,
}
use avairy.Journal.Record.{Kind, message_data}
use avairy.Journal.Memory.{Memory, append}

pub record Subscriber : Type 0 where
  pub id : ℕ
  pub agent_id : Text
  pub roles : List Text
  pub queue : List Message

pub record Bus : Type 0 where
  pub seq : ℕ
  pub subs : List Subscriber
  pub next_sub : ℕ
  pub recent : Map ℕ

-- New
unfoldable pub new_bus : Bus
new_bus = record { seq = 0; subs = []; next_sub = 0; recent = [] }

-- The string that a ToKind is.
abbrev pub kind_name : ToKind → Text
kind_name to_agent = codes "agent"
kind_name to_role = codes "role"
kind_name to_broadcast = codes "broadcast"
kind_name to_team = codes "team"
kind_name to_facilitator = codes "facilitator"

unfoldable pub matches_kind : ToKind → Subscriber → Message → Bool
matches_kind to_broadcast s m = true
matches_kind to_team s m = true
matches_kind to_agent s m = eq_text s.agent_id m.to.value
matches_kind to_role s m = any (eq_text m.to.value) s.roles
matches_kind to_facilitator s m = false

unfoldable pub is_facilitator_kind : ToKind → Bool
is_facilitator_kind to_facilitator = true
is_facilitator_kind _ = false

-- Bus.matches
unfoldable pub matches : Subscriber → Message → Bool
unfolding matches_kind is_facilitator_kind
matches s m =
    if eq_text s.agent_id m.from
    then false
    else if eq_text s.agent_id sender_facilitator
    then is_facilitator_kind m.to.kind
    else matches_kind m.to.kind s m

-- The key of the map `recent`.
unfoldable pub dedup_key : Message → Text
dedup_key m = m.from ++ (0 ∷ (kind_name m.to.kind ++ (b':' ∷ (m.to.value ++ (0 ∷ m.body)))))

abbrev pub seen_within : ℕ → Option ℕ → Bool
seen_within now none = false
seen_within now (some last) = ltb now (last + dedup_window)

-- The test that drops a message: now.Sub(last) < dedupWindow.
unfoldable pub is_duplicate : ℕ → Message → Bus → Bool
is_duplicate now m b = not m.interrupt && seen_within now (Map.lookup (dedup_key m) b.recent)

-- The map `recent` after a message that is not dropped; past 1024 keys it is flushed.
unfoldable pub remember : ℕ → Message → Map ℕ → Map ℕ
remember now m recent =
    if m.interrupt
    then recent
    else Map.insert (dedup_key m) now (if ltb 1024 (length recent) then [] else recent)

-- select { case s.ch <- msg: default: }, for a matching subscriber
unfoldable pub deliver : Message → Subscriber → Subscriber
deliver m s =
    if matches s m && ltb (length s.queue) 64 then record s { queue = s.queue ++ m ∷ [] } else s

-- The message with its id and time.
unfoldable pub stamp : ℕ → Bus → Message → Message
stamp now b m = record m { id = b'm' ∷ format_uint (u64 (b.seq + 1)); time = now }

unfoldable pub route : ℕ → Message → Memory → Bus → Memory × Bus × Message
unfolding stamp remember deliver
route now m jrnl b =
    let msg = stamp now b m in
    (
      append Kind.message msg.from (message_data msg) now jrnl,
      record b {
        seq = u64 (b.seq + 1);
        subs = map (deliver msg) b.subs;
        recent = remember now m b.recent;
      },
      msg,
    )

-- Bus.publish
unfoldable pub publish_message : ℕ → Message → Memory → Bus → Memory × Bus × Message
unfolding route is_duplicate
publish_message now m jrnl b = if is_duplicate now m b then (jrnl, b, m) else route now m jrnl b

abbrev draft : Text → Addr → Text → Delivery → Message
draft from to body d = record {
  id = [];
  from = from;
  to = to;
  body = body;
  delivery = d;
  interrupt = false;
  no_wake = false;
  time = 0;
}

-- Bus.Publish
unfoldable pub publish : ℕ → Text → Addr → Text → Delivery → Memory → Bus → Memory × Bus × Message
unfolding publish_message
publish now from to body d jrnl b = publish_message now (draft from to body d) jrnl b

-- Bus.Interrupt; the body is "⎋ stop" in UTF-8.
unfoldable pub interrupt_turn : ℕ → Text → Addr → Memory → Bus → Memory × Bus × Message
unfolding publish_message
interrupt_turn now from to jrnl b =
    publish_message now
      (record (draft from to (0xe2 ∷ 0x8e ∷ 0x8b ∷ codes " stop") interrupt) { interrupt = true })
      jrnl b

-- Bus.PublishContext
unfoldable pub publish_context : ℕ → Text → Addr → Text → Memory → Bus → Memory × Bus × Message
unfolding publish_message
publish_context now from to body jrnl b =
    publish_message now (record (draft from to body steer) { no_wake = true }) jrnl b

-- Bus.Subscribe returns the id, by which the channel is found in `subs`.
unfoldable pub subscribe : Text → List Text → Bus → Bus × ℕ
subscribe agent_id roles b =
    let s : Subscriber = record {
      id = b.next_sub;
      agent_id = agent_id;
      roles = roles;
      queue = [];
    } in
    (record b { next_sub = b.next_sub + 1; subs = b.subs ++ s ∷ [] }, b.next_sub)

-- The cancel function of Subscribe.
unfoldable pub cancel : ℕ → Bus → Bus
cancel i b = record b { subs = select (λ s. not (s.id == i)) b.subs }

abbrev pub pop_queue : ℕ → Subscriber → Subscriber
pop_queue i s = if s.id == i then record s { queue = drop 1 s.queue } else s

-- <-ch: the owner of the channel takes its oldest message.
unfoldable pub receive : ℕ → Bus → Bus
receive i b = record b { subs = map (pop_queue i) b.subs }
