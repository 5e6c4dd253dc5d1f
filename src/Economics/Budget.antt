-- ===== src/Economics/Budget.antt =====
-- Spending only ever closes the gate: a refusal lasts, and an exhausted budget ends the warming.
use cachepilot.Prelude.{◌≡◌, Bool, true, false, arith, false_of_not_true}
use cachepilot.Numbers.{Arith, IsOrdered, Conversion, add, sub, mul, le, nought, one, to_decimal}
use cachepilot.Numbers.Laws.{lt_of_lt_of_le, le_of_lt, add_mono_left, le-add-nonneg}
use cachepilot.Economics.{EconomicConfig, should_warm, Amount, as_decimal, evaluate}
use cachepilot.Economics.Gate.{IsWorthwhile, avoidable, expected, evaluate-warm_iff}

module _ {F D : Type 0} ⦃f : Arith F⦄ ⦃d : Arith D⦄ ⦃c : Conversion F D⦄ ⦃laws : IsOrdered D⦄ where
  abbrev budget : EconomicConfig D → Amount F D → Amount F D → F → D
  budget config cold cached p = mul (expected cold cached p) config.budget_ratio

  -- What is worthwhile after more has been spent was worthwhile before.
  earlier_IsWorthwhile :
      (config : EconomicConfig D) (cold cached next spent more : Amount F D) (p : F) (known : Bool)
      → le (as_decimal spent) (as_decimal more) ≡ true
      → IsWorthwhile config cold cached next more p known
      → IsWorthwhile config cold cached next spent p known
  earlier_IsWorthwhile config cold cached next spent more p known h w = record {
    priced = w.priced;
    continues = w.continues;
    loses = w.loses;
    covers = w.covers;
    fits =
        lt_of_lt_of_le (as_decimal next) (sub (budget config cold cached p) (as_decimal more))
          (sub (budget config cold cached p) (as_decimal spent)) w.fits
          (laws.sub_mono (budget config cold cached p) (budget config cold cached p)
            (as_decimal more) (as_decimal spent) (laws.le_refl _) h);
    saves = ground (
      arith,
      laws.le_trans config.minimum_expected_savings
          (sub (expected cold cached p) (add (as_decimal more) (as_decimal next)))
          (sub (expected cold cached p) (add (as_decimal spent) (as_decimal next))),
      laws.sub_mono (expected cold cached p) (expected cold cached p)
          (add (as_decimal more) (as_decimal next)) (add (as_decimal spent) (as_decimal next))
          (laws.le_refl _) (add_mono_left (as_decimal spent) (as_decimal more) (as_decimal next) h),
    );
  }

  -- A refusal is permanent: with the other inputs unchanged, a controller that refuses to warm
  -- refuses at every larger cumulative cost too.
  refusal_permanent :
      (config : EconomicConfig D) (cold cached next spent more : Amount F D) (p : F) (known : Bool)
      → le (as_decimal spent) (as_decimal more) ≡ true
      → should_warm (evaluate config cold cached next spent p known) ≡ false
      → should_warm (evaluate config cold cached next more p known) ≡ false
  refusal_permanent config cold cached next spent more p known h refused =
      let before = evaluate-warm_iff config cold cached next spent p known in
      let after = evaluate-warm_iff config cold cached next more p known in
      false_of_not_true _ λ warms. cc (
        before.1
          (earlier_IsWorthwhile config cold cached next spent more p known h (after.0 warms)))

  -- Once the cumulative cost reaches the budget, no warm with a cost of zero or more is made.
  exhausted_budget :
      (config : EconomicConfig D) (cold cached next spent : Amount F D) (p : F) (known : Bool)
      → le nought (as_decimal next) ≡ true
      → le (mul (expected cold cached p) config.budget_ratio) (as_decimal spent) ≡ true
      → should_warm (evaluate config cold cached next spent p known) ≡ false
  exhausted_budget config cold cached next spent p known hn h = false_of_not_true _ λ warms.
      let w = (evaluate-warm_iff config cold cached next spent p known).0 warms in
      let left = laws.sub_nonpos _ _ h in ground (arith, w.fits, laws.le_trans _ _ _ left hn)

  -- A warm that is made costs no more than the loss it can avoid, whatever the probability of at
  -- most one, as long as no cost is negative.
  warm-cost-le-avoidable :
      (config : EconomicConfig D) (cold cached next spent : Amount F D) (p : F) (known : Bool)
      → le nought config.safety_margin ≡ true
      → le nought (to_decimal {D = D} p) ≡ true
      → le (to_decimal p) (one {R = D}) ≡ true
      → should_warm (evaluate config cold cached next spent p known) ≡ true
      → le (as_decimal next) (avoidable cold cached) ≡ true
  warm-cost-le-avoidable config cold cached next spent p known hm hp h1 warms =
      let w = (evaluate-warm_iff config cold cached next spent p known).0 warms in
      let loss = avoidable cold cached in
      let loses : le nought loss ≡ true = le_of_lt nought loss w.loses in
      let next_le = le-add-nonneg (as_decimal next) config.safety_margin hm in
      let covers =
        le_of_lt (add (as_decimal next) config.safety_margin) (expected cold cached p) w.covers in
      let shrinks =
        laws.le_trans _ _ _ (laws.mul_comm (to_decimal p) loss)
          (laws.mul_shrinks loss (to_decimal p) loses hp h1) in
      laws.le_trans _ _ _ next_le (laws.le_trans _ _ _ covers shrinks)
