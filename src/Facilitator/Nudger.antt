-- ===== src/Facilitator/Nudger.antt =====
-- RuleNudger of internal/facilitator/nudger.go. A body is written with the texts of the code; "—" is
-- three bytes in UTF-8. The ids of a roster are distinct, so the order of sort.Slice is the one here.
use avairy.Prelude.{
  Bool, ◌&&◌, not, List, [], ◌∷◌, ◌++◌, map, Text, codes, eq_text, lt_text, to_lower, contains,
  length, any, ltb, leb, if◌then◌else◌,
}
use avairy.Prelude.Map
use avairy.Prelude.Map.{Map}
use avairy.Facilitator.Loops.{Trigger, trigger_blocked, trigger_loop}

-- type Agent
pub record Agent : Type 0 where
  pub id : Text
  pub caps : Map Text

-- type NudgeKind
pub data NudgeKind : Type 0 where
  remind consult escalate : NudgeKind

-- type Nudge
pub record Nudge : Type 0 where
  pub kind : NudgeKind
  pub to : Text
  pub body : Text

unfoldable pub insert_agent : Agent → List Agent → List Agent
insert_agent a [] = a ∷ []
insert_agent a (b ∷ bs) =
    let rest = insert_agent a bs in if lt_text b.id a.id then b ∷ rest else a ∷ b ∷ bs

-- sortedByID
unfoldable pub sorted_by_id : List Agent → List Agent
unfolding insert_agent
sorted_by_id [] = []
sorted_by_id (a ∷ agents) = insert_agent a (sorted_by_id agents)

-- capSynonyms
unfoldable pub cap_synonyms : Text → List Text
cap_synonyms v =
    if eq_text v (codes "darwin")
    then codes "darwin" ∷ codes "macos" ∷ codes "mac os" ∷ codes "osx" ∷ []
    else if eq_text v (codes "windows")
    then codes "windows" ∷ codes "win32" ∷ []
    else if eq_text v (codes "arm64")
    then codes "arm64" ∷ codes "aarch64" ∷ codes "apple silicon" ∷ []
    else if eq_text v (codes "amd64")
    then codes "amd64" ∷ codes "x86_64" ∷ codes "x86-64" ∷ []
    else []

-- Does the value count as a term of its own?
unfoldable pub is_telling : Text → Bool
is_telling v =
    leb 3 (length v)
    && not (any (eq_text v) (codes "true" ∷ codes "false" ∷ codes "yes" ∷ codes "no" ∷ []))

-- capMentioned
unfoldable pub cap_mentioned : Text → Text → Text → Bool
unfolding cap_synonyms is_telling
cap_mentioned detail k v =
    let vl = to_lower v in
    any (λ t. leb 3 (length t) && contains detail t)
      (cap_synonyms vl ++ ((if is_telling vl then vl ∷ [] else []) ++ (to_lower k ∷ [])))

-- The capabilities that the text names and the blocked agent lacks.
unfoldable pub matched_caps : Text → Map Text → Map Text → Map Text
unfolding cap_mentioned
matched_caps detail blocked [] = []
matched_caps detail blocked ((k, v) ∷ caps) =
    let rest = matched_caps detail blocked caps in
    if eq_text (Map.lookup_or [] k blocked) v
    then rest
    else if cap_mentioned detail k v
    then (k, v) ∷ rest
    else rest

-- The capabilities of the blocked agent: those of the last roster entry with its id.
unfoldable pub caps_of : Text → Map Text → List Agent → Map Text
caps_of id found [] = found
caps_of id found (a ∷ agents) = caps_of id (if eq_text a.id id then a.caps else found) agents

-- One round of the loop of bestPeer.
unfoldable pub better : Text → Text → Map Text → Agent → Text × Map Text → Text × Map Text
unfolding matched_caps
better blocked_id detail blocked a (best_id, best_caps) =
    let matched = matched_caps detail blocked a.caps in
    if eq_text a.id blocked_id
    then (best_id, best_caps)
    else if ltb (length best_caps) (length matched)
    then (a.id, matched)
    else (best_id, best_caps)

unfoldable pub best_of : Text → Text → Map Text → List Agent → Text × Map Text → Text × Map Text
unfolding better
best_of blocked_id detail blocked [] best = best
best_of blocked_id detail blocked (a ∷ agents) best =
    best_of blocked_id detail blocked agents (better blocked_id detail blocked a best)

-- bestPeer
unfoldable pub best_peer : List Agent → Text → Text → Text × Map Text
unfolding best_of caps_of sorted_by_id
best_peer roster blocked_id detail =
    best_of blocked_id (to_lower detail) (caps_of blocked_id [] roster) (sorted_by_id roster)
      ([], [])

unfoldable pub first_other : Text → List Agent → Text
first_other exclude [] = []
first_other exclude (a ∷ agents) =
    if not (eq_text a.id exclude) then a.id else first_other exclude agents

-- firstPeer
unfoldable pub first_peer : List Agent → Text → Text
unfolding first_other sorted_by_id
first_peer roster exclude = first_other exclude (sorted_by_id roster)

insert_text : Text → List Text → List Text
insert_text t [] = t ∷ []
insert_text t (u ∷ us) = let rest = insert_text t us in if lt_text u t then u ∷ rest else t ∷ u ∷ us

sort_texts : List Text → List Text
sort_texts [] = []
sort_texts (t ∷ ts) = insert_text t (sort_texts ts)

join_comma : List Text → Text
join_comma [] = []
join_comma (t ∷ []) = t
join_comma (t ∷ (u ∷ us)) = t ++ (44 ∷ join_comma (u ∷ us))

cap_text : Text × Text → Text
cap_text (k, v) = k ++ (61 ∷ v)

-- capStr
unfoldable pub cap_str : Map Text → Text
unfolding sort_texts insert_text join_comma cap_text
cap_str m = join_comma (sort_texts (map cap_text m))

abbrev dash : Text
dash = 32 ∷ 0xe2 ∷ 0x80 ∷ 0x94 ∷ 32 ∷ []

-- The case TriggerBlocked of Decide.
unfoldable pub decide_blocked : Trigger → List Agent → Nudge
unfolding best_peer first_peer cap_str
decide_blocked t roster =
    let (peer, caps) = best_peer roster t.agent t.detail in
    let first = first_peer roster t.agent in
    if not (eq_text peer [])
    then record {
      kind = consult;
      to = t.agent;
      body =
          peer
          ++ (codes " looks better positioned for this ("
              ++ (cap_str caps
                  ++ (codes ")"
                      ++ (dash
                          ++ codes "consider handing off the repro or asking them to try it."))));
    }
    else if not (eq_text first [])
    then record {
      kind = remind;
      to = t.agent;
      body =
          codes "You reported being blocked. Consider asking "
          ++ (first ++ codes " for their opinion.");
    }
    else record {
      kind = escalate;
      to = [];
      body = codes "an agent is blocked and no peer can help: " ++ t.detail;
    }

-- RuleNudger.Decide
unfoldable pub decide_nudge : Trigger → List Agent → List Nudge
unfolding decide_blocked
decide_nudge t roster = elim t.kind [
  | trigger_loop ↦
      record {
        kind = remind;
        to = t.agent;
        body =
            codes "You seem to be repeating the same step. Try a fresh perspective"
            ++ (dash
                ++ codes
                    "start an ephemeral session for a clean look, or ask a peer for their opinion.");
      }
      ∷ []
  | trigger_blocked ↦ decide_blocked t roster ∷ []
]
