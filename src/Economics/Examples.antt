-- ===== src/Economics/Examples.antt =====
-- The economic controller on concrete costs, in fixed-point numbers.
use cachepilot.Prelude.{◌≡◌, ◌↔◌, ◌⊎◌, ◌&&◌, true, false}
use cachepilot.Prelude.Int.{ℤ, pos}
use cachepilot.Numbers.{le, lt, add, sub, mul, nought}
use cachepilot.Numbers.Fixed.{fixed_point, fixed_conversion, fixed_laws}
use cachepilot.Economics.{
  economic_stop, skip_unknown_pricing, skip_no_continuation, skip_not_economic, EconomicConfig,
  should_warm, Amount, dec, flt, as_decimal, evaluate,
}
use cachepilot.Economics.Gate.{
  IsWorthwhile, avoidable, expected, evaluate-warm_iff, evaluate-refusals,
}

abbrev config : EconomicConfig ℤ
config = record {
  enabled = true;
  budget_ratio = pos 250;
  safety_margin = pos 10;
  minimum_expected_savings = pos 0;
}

-- A cold resume at 2.000, a cached one at 0.200 and a warm at 0.050.
abbrev cold : Amount ℤ ℤ
cold = dec (pos 2000)

abbrev cached : Amount ℤ ℤ
cached = dec (pos 200)

abbrev next : Amount ℤ ℤ
next = dec (pos 50)

abbrev spent : ℤ → Amount ℤ ℤ
spent n = flt n

evaluate-warm_iff_example :
    (should_warm (evaluate config cold cached next (spent (pos 0)) (pos 800) true) ≡ true)
    ↔ IsWorthwhile config cold cached next (spent (pos 0)) (pos 800) true
evaluate-warm_iff_example = evaluate-warm_iff config cold cached next (spent (pos 0)) (pos 800) true

-- The expected loss is 1.440, of which a budget of 0.360 leaves 0.020 for a warm at 0.050.
evaluate-refusals_example :
    let action = (evaluate config cold cached next (spent (pos 340)) (pos 800) true).action in
    let loss = avoidable cold cached in
    let value = expected cold cached (pos 800) in
    let cost = as_decimal next in
    let covered = lt (add cost config.safety_margin) value in
    let within = lt cost (sub (mul value config.budget_ratio) (as_decimal (spent (pos 340)))) in
    let open_case = true && (lt nought (pos 800) && lt nought loss) in
    ((action ≡ skip_unknown_pricing) ↔ (true ≡ false))
    × ((action ≡ skip_no_continuation) ↔ ((true ≡ true) × (le (pos 800) nought ≡ true)))
    × ((action ≡ economic_stop) ↔ ((open_case ≡ true) × (covered ≡ true) × (within ≡ false)))
    × ((action ≡ skip_not_economic) ↔ (
        ((true ≡ true) × (lt nought (pos 800) ≡ true) × (le loss nought ≡ true))
        ⊎ ((open_case ≡ true) × (covered ≡ false))
        ⊎ ((open_case ≡ true)
            × (covered ≡ true)
            × (within ≡ true)
            × (lt
                  (sub value (add (as_decimal (spent (pos 340))) cost))
                  config.minimum_expected_savings
                ≡ true))))
evaluate-refusals_example =
    evaluate-refusals config cold cached next (spent (pos 340)) (pos 800) true
