-- ===== src/Examples/Costs.antt =====
-- The monitor of internal/cost with whole cents for money.
use avairy.Prelude.{ℕ, ◌+◌, ◌≤◌, List, [], ◌∷◌, Text, codes, Option, none, some, leb, ltb}
use avairy.Cost.{Money, Spend, Monitor, new_monitor, observe_all}
use avairy.Cost.Caps.{agent_breaches, total_breaches, exceeds_once}

abbrev cents : Money ℕ
cents = record {
  zero_amount = 0;
  plus = λ a b. a + b;
  reaches = λ spent cap. leb cap spent;
  is_cap = λ cap. ltb 0 cap;
}

abbrev turn : Text × Option (Spend ℕ)
turn = (codes "ada", some (record { cost_usd = 60; input_tokens = 9; output_tokens = 4 }))

abbrev turns : List (Text × Option (Spend ℕ))
turns = turn ∷ (codes "bob", none) ∷ turn ∷ turn ∷ []

abbrev capped : Monitor ℕ
capped = new_monitor cents 100 150

exceeds_once_example :
    (agent_breaches cents (codes "ada") (observe_all cents turns capped).1 ≤ 1)
    × (total_breaches cents (observe_all cents turns capped).1 ≤ 1)
exceeds_once_example = exceeds_once cents turns (codes "ada") capped
