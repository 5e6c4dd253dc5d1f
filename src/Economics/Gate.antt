-- ===== src/Economics/Gate.antt =====
-- When exactly the controller decides to warm, and why it otherwise does not.
use cachepilot.Prelude.{◌≡◌, ◌↔◌, ◌⊎◌, Bool, true, false, ◌&&◌, arith}
use cachepilot.Numbers.{Arith, Conversion, add, sub, mul, le, lt, nought, to_decimal}
use cachepilot.Economics.{
  economic_stop, skip_unknown_pricing, skip_no_continuation, skip_not_economic, EconomicConfig,
  should_warm, Amount, as_decimal, evaluate,
}

module _ {F D : Type 0} ⦃f : Arith F⦄ ⦃d : Arith D⦄ ⦃c : Conversion F D⦄ where
  -- The loss that a cold resume would add, and its expectation.
  abbrev pub avoidable : Amount F D → Amount F D → D
  avoidable cold cached = sub (as_decimal cold) (as_decimal cached)

  abbrev pub expected : Amount F D → Amount F D → F → D
  expected cold cached p = mul (to_decimal p) (avoidable cold cached)

  -- What has to hold for a warm.
  pub record IsWorthwhile (config : EconomicConfig D) (cold cached next spent : Amount F D) (p : F)
      (known : Bool) : Type 0 where
    pub priced : known ≡ true
    pub continues : lt nought p ≡ true
    pub loses : lt nought (avoidable cold cached) ≡ true
    pub covers : lt (add (as_decimal next) config.safety_margin) (expected cold cached p) ≡ true
    pub fits :
        lt
          (as_decimal next)
          (sub (mul (expected cold cached p) config.budget_ratio) (as_decimal spent))
        ≡ true
    pub saves :
        lt
          (sub (expected cold cached p) (add (as_decimal spent) (as_decimal next)))
          config.minimum_expected_savings
        ≡ false

  -- The controller decides to warm exactly when the pricing is known, the continuation probability
  -- is positive, there is an avoidable loss, its expectation exceeds the next warm's cost and the
  -- safety margin, the next warm fits strictly into what is left of the budget, and the expected net
  -- savings are not below the minimum.
  pub evaluate-warm_iff :
      (config : EconomicConfig D) (cold cached next spent : Amount F D) (p : F) (known : Bool)
      → (should_warm (evaluate config cold cached next spent p known) ≡ true)
        ↔ IsWorthwhile config cold cached next spent p known
  unfolding should_warm evaluate
  evaluate-warm_iff config cold cached next spent p known = ground arith

  -- When each refusal is given: unknown pricing before all else; then no continuation; then, with the
  -- amounts in this order, no avoidable loss, an expectation that does not exceed the next warm's cost and
  -- the safety margin, a budget whose rest the next warm would use up, and net savings below the minimum.
  -- The third is the budget stop, the other amounts are the refusal as uneconomic.
  pub evaluate-refusals :
      (config : EconomicConfig D) (cold cached next spent : Amount F D) (p : F) (known : Bool)
      → let action = (evaluate config cold cached next spent p known).action in
        let loss = avoidable cold cached in
        let value = expected cold cached p in
        let cost = as_decimal next in
        let covered = lt (add cost config.safety_margin) value in
        let within = lt cost (sub (mul value config.budget_ratio) (as_decimal spent)) in
        let open_case = known && (lt nought p && lt nought loss) in
        ((action ≡ skip_unknown_pricing) ↔ (known ≡ false))
        × ((action ≡ skip_no_continuation) ↔ ((known ≡ true) × (le p nought ≡ true)))
        × ((action ≡ economic_stop) ↔ ((open_case ≡ true) × (covered ≡ true) × (within ≡ false)))
        × ((action ≡ skip_not_economic) ↔ (
            ((known ≡ true) × (lt nought p ≡ true) × (le loss nought ≡ true))
            ⊎ ((open_case ≡ true) × (covered ≡ false))
            ⊎ ((open_case ≡ true)
                × (covered ≡ true)
                × (within ≡ true)
                × (lt (sub value (add (as_decimal spent) cost)) config.minimum_expected_savings
                    ≡ true))))
  unfolding evaluate
  evaluate-refusals config cold cached next spent p known = ground arith
