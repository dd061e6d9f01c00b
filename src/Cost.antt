-- ===== src/Cost.antt =====
-- Monitor of internal/cost/cost.go. An amount of money is a float64 in the code, whose sum and
-- comparison are parameters here: `plus`, `reaches` (spent >= cap) and `is_cap` (cap > 0). The counts
-- of tokens are taken not to wrap. A record that carries no usage of a finished turn is none.
pub mod Caps
use avairy.Prelude.{
  ℕ, ◌+◌, Bool, true, false, ◌&&◌, not, List, [], ◌∷◌, ◌++◌, Text, codes, Option, none, some,
  if◌then◌else◌,
}
use avairy.Prelude.Map
use avairy.Prelude.Map.{Map}

-- float64, as far as the monitor uses it.
pub record Money (A : Type 0) : Type 0 where
  pub zero_amount : A
  pub plus : A → A → A
  pub reaches : A → A → Bool
  pub is_cap : A → Bool

-- type Usage, and type Spend
pub record Spend (A : Type 0) : Type 0 where
  pub cost_usd : A
  pub input_tokens : ℕ
  pub output_tokens : ℕ

pub record Monitor (A : Type 0) : Type 0 where
  pub agent_cap : A
  pub total_cap : A
  pub per_agent : Map (Spend A)
  pub total : Spend A
  pub flagged : Map Bool

-- A call of OnExceed: its scope and what was spent. The scope "total" has no agent.
pub data Breach (A : Type 0) : Type 0 where
  agent_breach : Text → A → Breach A
  total_breach : A → Breach A

module _ {A : Type 0} (money : Money A) where
  abbrev pub no_spend : Spend A
  no_spend = record { cost_usd = money.zero_amount; input_tokens = 0; output_tokens = 0 }

  -- New
  unfoldable pub new_monitor : A → A → Monitor A
  new_monitor agent_cap total_cap = record {
    agent_cap = agent_cap;
    total_cap = total_cap;
    per_agent = [];
    total = no_spend;
    flagged = [];
  }

  unfoldable pub add_usage : Spend A → Spend A → Spend A
  add_usage s u = record {
    cost_usd = money.plus s.cost_usd u.cost_usd;
    input_tokens = s.input_tokens + u.input_tokens;
    output_tokens = s.output_tokens + u.output_tokens;
  }

  -- Is a cap set, reached, and its flag not yet up?
  unfoldable pub is_breach : Text → A → A → Map Bool → Bool
  is_breach key cap spent flagged =
      money.is_cap cap && (money.reaches spent cap && not (Map.lookup_or false key flagged))

  abbrev pub agent_key : Text → Text
  agent_key agent = codes "a:" ++ agent

  abbrev pub total_key : Text
  total_key = codes "total"

  -- The flag that a breach raises.
  unfoldable pub raise_flag : Bool → Text → Map Bool → Map Bool
  raise_flag breach key flagged = if breach then Map.insert key true flagged else flagged

  -- Monitor.Observe for the usage of an agent's finished turn: the monitor and the calls of OnExceed.
  unfoldable pub observe_usage : Text → Spend A → Monitor A → Monitor A × List (Breach A)
  unfolding add_usage is_breach raise_flag
  observe_usage agent u m =
      let s = add_usage (Map.lookup_or no_spend agent m.per_agent) u in
      let total = add_usage m.total u in
      let a = is_breach (agent_key agent) m.agent_cap s.cost_usd m.flagged in
      let flagged = raise_flag a (agent_key agent) m.flagged in
      let t = is_breach total_key m.total_cap total.cost_usd flagged in
      (
        record m {
          per_agent = Map.insert agent s m.per_agent;
          total = total;
          flagged = raise_flag t total_key flagged;
        },
        (if a then agent_breach agent s.cost_usd ∷ [] else [])
            ++ (if t then total_breach total.cost_usd ∷ [] else []),
      )

  -- Monitor.Observe
  unfoldable pub observe : Text → Option (Spend A) → Monitor A → Monitor A × List (Breach A)
  unfolding observe_usage
  observe agent none m = (m, [])
  observe agent (some u) m = observe_usage agent u m

  -- Monitor.Run, with the calls of OnExceed in order
  unfoldable pub observe_all :
      List (Text × Option (Spend A)) → Monitor A → Monitor A × List (Breach A)
  observe_all [] m = (m, [])
  observe_all ((agent, u) ∷ us) m =
      let (m', bs) = observe agent u m in let (m'', bs') = observe_all us m' in (m'', bs ++ bs')
