-- ===== src/Facilitator/Loops.antt =====
-- Loop detection and the nudge cooldown of internal/facilitator/facilitator.go. The signature of an
-- action and whether it changes files are arguments of track_loop, as in the code.
use avairy.Prelude.{
  ℕ, ◌+◌, ◌-◌, ◌*◌, Bool, true, false, ◌&&◌, not, List, [], ◌∷◌, ◌++◌, map, Text, codes, eq_text,
  Option, none, some, length, drop, any, ltb, leb, if◌then◌else◌, trim_prefix,
}
use avairy.Prelude.Map
use avairy.Prelude.Map.{Map}

-- type TriggerKind
pub data TriggerKind : Type 0 where
  trigger_blocked trigger_loop : TriggerKind

pub record Trigger : Type 0 where
  pub kind : TriggerKind
  pub agent : Text
  pub detail : Text

-- The state of a Facilitator.
pub record Facilitator : Type 0 where
  pub recent : Map (List Text)
  pub stale : Map ℕ
  pub last_nudge : Map ℕ

-- New
unfoldable pub new_facilitator : Facilitator
new_facilitator = record { recent = []; stale = []; last_nudge = [] }

abbrev pub loop_n : ℕ
loop_n = 3

abbrev pub loop_max_period : ℕ
loop_max_period = 4

abbrev pub circle_n : ℕ
circle_n = 6

-- 45 * time.Second
abbrev pub cooldown : ℕ
cooldown = 45_000_000_000

-- Are the first actions the ones at the same places of the second list? The first is the shorter.
unfoldable pub agree : List Text → List Text → Bool
agree [] ys = true
agree (x ∷ xs) [] = false
agree (x ∷ xs) (y ∷ ys) = eq_text x y && agree xs ys

-- isCycle: tail[i] is tail[i - p], from i = p on.
unfoldable pub is_cycle : List Text → ℕ → Bool
unfolding agree
is_cycle tail p = agree (drop p tail) tail

join : Text → List Text → Text
join sep [] = []
join sep (s ∷ []) = s
join sep (s ∷ (t ∷ ss)) = s ++ (sep ++ join sep (t ∷ ss))

abbrev shown : Text → Text
shown s = trim_prefix s (codes "tool:")

-- cycleDetail; the separator is " → " in UTF-8.
unfoldable pub cycle_detail : List Text → Text
unfolding join
cycle_detail block = join (32 ∷ 0xe2 ∷ 0x86 ∷ 0x92 ∷ 32 ∷ []) (map shown block)

distinct : List Text → List Text → List Text
distinct seen [] = []
distinct seen (s ∷ ss) =
    let rest = distinct (s ∷ seen) ss in
    let other = distinct seen ss in if any (eq_text s) seen then other else s ∷ rest

-- circlingDetail
unfoldable pub circling_detail : List Text → Text
unfolding distinct join
circling_detail w =
    codes "circling these actions without progress: "
    ++ join (codes ", ") (distinct [] (map shown w))

-- The history with the action, cut to its last loopMaxPeriod * loopN entries.
unfoldable pub window : List Text → Text → List Text
window old sig =
    let w = old ++ sig ∷ [] in
    if ltb (loop_max_period * loop_n) (length w)
    then drop (length w - loop_max_period * loop_n) w
    else w

-- The loop over the periods: the first one at which the history ends in a cycle.
unfoldable pub find_cycle : List Text → List ℕ → Option ℕ
unfolding is_cycle
find_cycle w [] = none
find_cycle w (p ∷ ps) =
    let rest = find_cycle w ps in
    if leb (p * loop_n) (length w)
    then (if is_cycle (drop (length w - p * loop_n) w) p then some p else rest)
    else none

abbrev pub periods : List ℕ
periods = 1 ∷ 2 ∷ 3 ∷ 4 ∷ []

-- resetLoop
unfoldable pub reset_loop : Text → Facilitator → Facilitator
reset_loop agent f = record f {
  recent = Map.insert agent [] f.recent;
  stale = Map.erase agent f.stale;
}

unfoldable pub is_last : Text → List Text → Bool
is_last sig [] = false
is_last sig (s ∷ []) = eq_text s sig
is_last sig (s ∷ (t ∷ ss)) = is_last sig (t ∷ ss)

-- The part of trackLoop behind the search for a cycle: is the agent circling?
unfoldable pub circling : Text → Bool → List Text → Facilitator → Facilitator × Option Trigger
unfolding reset_loop
circling agent novel w f =
    let n = Map.lookup_or 0 agent f.stale + 1 in
    if novel
    then (record f { stale = Map.insert agent 0 f.stale }, none)
    else if leb circle_n n
    then (
      reset_loop agent f,
      some (record { kind = trigger_loop; agent = agent; detail = circling_detail w }),
    )
    else (record f { stale = Map.insert agent n f.stale }, none)

-- The part of trackLoop for an action that is added to the history.
unfoldable pub track_action : Text → Text → List Text → Facilitator → Facilitator × Option Trigger
unfolding window find_cycle reset_loop circling
track_action agent sig old f =
    let w = window old sig in
    let f' : Facilitator = record f { recent = Map.insert agent w f.recent } in
    elim (find_cycle w periods) [
      | some p ↦ (
        reset_loop agent f',
        some (record {
          kind = trigger_loop;
          agent = agent;
          detail = cycle_detail (drop (length w - p) w);
        }),
      )
      | none ↦ circling agent (not (any (eq_text sig) old)) w f'
    ]

-- Facilitator.trackLoop
unfoldable pub track_loop : Text → Text → Bool → Facilitator → Facilitator × Option Trigger
unfolding track_action is_last
track_loop agent sig mutating f =
    let old = Map.lookup_or [] agent f.recent in
    if mutating && is_last sig old
    then (record f { stale = Map.insert agent 0 f.stale }, none)
    else track_action agent sig old f

abbrev kind_text : TriggerKind → Text
kind_text trigger_blocked = codes "blocked"
kind_text trigger_loop = codes "loop"

-- nudgeKey
unfoldable pub nudge_key : Text → TriggerKind → Text
nudge_key agent k = agent ++ (0 ∷ kind_text k)

abbrev within_cooldown : ℕ → Option ℕ → Bool
within_cooldown now none = false
within_cooldown now (some last) = ltb now (last + cooldown)

-- Facilitator.suppressed
unfoldable pub suppressed : ℕ → Trigger → Facilitator → Bool
unfolding nudge_key
suppressed now t f = within_cooldown now (Map.lookup (nudge_key t.agent t.kind) f.last_nudge)

-- Facilitator.markNudged
unfoldable pub mark_nudged : ℕ → Trigger → Facilitator → Facilitator
unfolding nudge_key
mark_nudged now t f = record f {
  last_nudge = Map.insert (nudge_key t.agent t.kind) now f.last_nudge;
}

-- Facilitator.clearCooldown
unfoldable pub clear_cooldown : Text → TriggerKind → Facilitator → Facilitator
unfolding nudge_key
clear_cooldown agent k f = record f { last_nudge = Map.erase (nudge_key agent k) f.last_nudge }
