-- ===== src/Economics.antt =====
-- packages/core/src/cachepilot_core/economics.py: whether a warm is worth its price.
pub mod Gate
pub mod Budget
mod Examples
use cachepilot.Prelude.{ℕ, String, ◌≡◌, Bool, true, false, if◌then◌else◌}
use cachepilot.Numbers.{Arith, Conversion, add, sub, mul, le, lt, nought, to_decimal}
use cachepilot.Pricing.{PricingTable, estimate_resume_costs}

pub data WarmAction : Type 0 where
  warm economic_stop skip_unknown_pricing skip_no_continuation skip_not_economic : WarmAction

pub record EconomicConfig (D : Type 0) : Type 0 where
  pub enabled : Bool
  pub budget_ratio : D
  pub safety_margin : D
  pub minimum_expected_savings : D

pub record WarmDecision (F D : Type 0) : Type 0 where
  pub action : WarmAction
  pub reason : String
  pub resume_probability : F
  pub expected_avoidable_loss : D
  pub expected_value : D
  pub next_warm_cost : D
  pub cumulative_warm_cost : D
  pub max_warm_budget : D
  pub remaining_budget : D
  pub safety_margin : D

-- `WarmDecision.should_warm`
abbrev is_warm : WarmAction → Bool
is_warm warm = true
is_warm _ = false

pub should_warm : {F D : Type 0} → WarmDecision F D → Bool
should_warm decision = is_warm decision.action

-- An argument of type `Decimal | float`.
pub data Amount (F D : Type 0) : Type 0 where
  dec : D → Amount F D
  flt : F → Amount F D

module _ {F D : Type 0} ⦃f : Arith F⦄ ⦃d : Arith D⦄ ⦃c : Conversion F D⦄ where
  abbrev pub as_decimal : Amount F D → D
  as_decimal (dec x) = x
  as_decimal (flt x) = to_decimal x

  -- `EconomicController._decision`
  decision_of : EconomicConfig D → WarmAction → String → F → D → D → D → D → D → WarmDecision F D
  decision_of config action reason resume_probability avoidable expected next cumulative margin =
      let max_budget = mul expected config.budget_ratio in
      record {
        action = action;
        reason = reason;
        resume_probability = resume_probability;
        expected_avoidable_loss = avoidable;
        expected_value = expected;
        next_warm_cost = next;
        cumulative_warm_cost = cumulative;
        max_warm_budget = max_budget;
        remaining_budget = sub max_budget cumulative;
        safety_margin = margin;
      }

  -- The tests from the expected value on, with the avoidable loss positive.
  evaluate_value : EconomicConfig D → D → D → D → D → F → WarmDecision F D
  unfolding decision_of
  evaluate_value config avoidable expected next_cost cumulative p =
      let max_budget = mul expected config.budget_ratio in
      let remaining = sub max_budget cumulative in
      let net_savings = sub expected (add cumulative next_cost) in
      let margin = config.safety_margin in
      if le expected (add next_cost config.safety_margin)
      then decision_of config skip_not_economic
          "expected avoidable loss does not cover next warm cost + safety margin" p avoidable
          expected next_cost cumulative margin
      else if le remaining next_cost
      then decision_of config economic_stop
          "cumulative warm cost exhausted the warm budget — let the cache expire" p avoidable
          expected next_cost cumulative margin
      else if lt net_savings config.minimum_expected_savings
      then decision_of config skip_not_economic "expected net savings below minimum" p avoidable
          expected next_cost cumulative margin
      else decision_of config warm "due_and_economically_positive" p avoidable expected next_cost
          cumulative margin

  -- `EconomicController.evaluate`
  pub evaluate :
      EconomicConfig D
      → (cold_resume_cost cached_resume_cost next_warm_cost cumulative_warm_cost : Amount F D)
      → (resume_probability : F) → (pricing_known : Bool) → WarmDecision F D
  unfolding evaluate_value
  evaluate config cold cached next_warm cumulative_warm p pricing_known =
      let next_cost = as_decimal next_warm in
      let cumulative = as_decimal cumulative_warm in
      let avoidable = sub (as_decimal cold) (as_decimal cached) in
      let expected = mul (to_decimal p) avoidable in
      if pricing_known
      then if le p nought
        then decision_of config skip_no_continuation "zero continuation probability — never warm" p
            nought nought next_cost cumulative config.safety_margin
        else if le avoidable nought
        then decision_of config skip_not_economic
            "no avoidable loss (cold resume not more expensive than cached resume)" p avoidable
            nought next_cost cumulative config.safety_margin
        else evaluate_value config avoidable expected next_cost cumulative p
      else decision_of config skip_unknown_pricing
          "pricing unknown — never claim savings with incomplete cost data" p nought nought
          next_cost cumulative config.safety_margin

  -- `EconomicController.evaluate_resume`
  pub evaluate_resume :
      EconomicConfig D
      → (prefix_tokens : ℕ) → PricingTable D
      → (resume_probability : F) → (next_warm_cost cumulative_warm_cost : Amount F D)
      → (completion_tokens : ℕ) → (pricing_known : Bool) → WarmDecision F D
  evaluate_resume config prefix_tokens pricing p next_warm cumulative_warm completion_tokens known =
      let (cold, cached) = estimate_resume_costs prefix_tokens pricing completion_tokens in
      evaluate config (dec cold) (dec cached) next_warm cumulative_warm p known
