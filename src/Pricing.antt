-- ===== src/Pricing.antt =====
-- packages/core/src/cachepilot_core/pricing.py: cost estimates and the order of cost sources.
pub mod Resume
use cachepilot.Prelude.{
  ℕ, ◌-◌, ◌≡◌, Bool, true, false, ◌&&◌, not, Option, none, some, is_some, if◌then◌else◌,
}
use cachepilot.Numbers.{Arith, lit, add, mul, div, le, lt, nought}
use cachepilot.Usage.{TokenUsage}

-- `as_of` is never read.
pub record PricingTable (D : Type 0) : Type 0 where
  pub input_per_mtok : D
  pub output_per_mtok : D
  pub cache_read_per_mtok : D
  pub cache_write_per_mtok : D

pub data CostSource : Type 0 where
  provider_returned live_pricing config_override unknown : CostSource

pub record CostResolution (D : Type 0) : Type 0 where
  pub amount : Option D
  pub source : CostSource

abbrev is_unknown : CostSource → Bool
is_unknown unknown = true
is_unknown _ = false

pub is_known : {D : Type 0} → CostResolution D → Bool
is_known r = is_some r.amount && not (is_unknown r.source)

module _ {D : Type 0} ⦃d : Arith D⦄ where
  -- `Decimal(n)`
  abbrev pub of_ℕ : ℕ → D
  of_ℕ n = lit n 1

  -- `prompt - read - write` on ℕ stops at zero, which is the `max(..., 0)` of the source.
  pub estimate_cost : TokenUsage D → PricingTable D → D
  estimate_cost usage pricing =
      let uncached = usage.prompt_tokens - usage.cache_read_tokens - usage.cache_write_tokens in
      let raw =
        add
          (add
            (add (mul (of_ℕ uncached) pricing.input_per_mtok)
              (mul (of_ℕ usage.cache_read_tokens) pricing.cache_read_per_mtok))
            (mul (of_ℕ usage.cache_write_tokens) pricing.cache_write_per_mtok))
          (mul (of_ℕ usage.completion_tokens) pricing.output_per_mtok) in
      div raw (lit 1_000_000 1)

  -- The usage of a resume that finds no cache, at a provider that prices cache writes or does not.
  cold_usage : ℕ → PricingTable D → ℕ → TokenUsage D
  cold_usage prefix_tokens pricing completion_tokens =
      if lt nought pricing.cache_write_per_mtok
      then record {
        prompt_tokens = prefix_tokens;
        completion_tokens = completion_tokens;
        cache_read_tokens = 0;
        cache_write_tokens = prefix_tokens;
        cost = none;
      }
      else record {
        prompt_tokens = prefix_tokens;
        completion_tokens = completion_tokens;
        cache_read_tokens = 0;
        cache_write_tokens = 0;
        cost = none;
      }

  pub estimate_resume_costs : ℕ → PricingTable D → ℕ → D × D
  unfolding cold_usage
  estimate_resume_costs prefix_tokens pricing completion_tokens =
      let cached : TokenUsage D = record {
        prompt_tokens = prefix_tokens;
        completion_tokens = completion_tokens;
        cache_read_tokens = prefix_tokens;
        cache_write_tokens = 0;
        cost = none;
      } in
      (
        estimate_cost (cold_usage prefix_tokens pricing completion_tokens) pricing,
        estimate_cost cached pricing,
      )

  -- `CostResolver.resolve`
  pub resolve : TokenUsage D → Option (PricingTable D) → Option D → CostResolution D
  resolve usage pricing override = elim usage.cost [
    | some c ↦ record { amount = some c; source = provider_returned }
    | none ↦ elim pricing [
      | some p ↦ record { amount = some (estimate_cost usage p); source = live_pricing }
      | none ↦ elim override [
        | some o ↦ record { amount = some o; source = config_override }
        | none ↦ record { amount = none; source = unknown }
      ]
    ]
  ]
