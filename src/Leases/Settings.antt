-- ===== src/Leases/Settings.antt =====
-- The environment parsers of leases.py. Python's `float`, `Decimal` and `int` on a text are arguments,
-- as are `strip` and `lower`; a text that they refuse is `none`. A NaN is left out: a decimal NaN
-- raises at the first comparison.
pub mod Environment
use cachepilot.Prelude.{
  ℕ, String, ◌≡◌, Bool, true, false, ◌&&◌, ◌||◌, not, Option, none, some, [], ◌∷◌, arith, contains,
  leb, str_eq, if◌then◌else◌,
}
use cachepilot.Prelude.Int.{ℤ, pos, negsuc}
use cachepilot.Numbers.{Arith, le, lt, eq, nought}
use cachepilot.Dict.{Dict, lookup}
use cachepilot.Pricing.{PricingTable}

-- `raw.strip()` and then the parser; `none` for a text that is missing or malformed.
abbrev pub parsed :
    {A : Type 0} → (String → Option A) → (String → String) → Option String → Option A
parsed parse strip none = none
parsed parse strip (some raw) = parse (strip raw)

module _ {F : Type 0} ⦃f : Arith F⦄ (parse : String → Option F) (strip : String → String) where
  unfoldable pub env_float : Option String → F → F
  env_float raw default = elim (parsed parse strip raw) [ none ↦ default | some value ↦ value ]

  unfoldable pub env_float_or_none : Option String → Option F
  env_float_or_none none = none
  env_float_or_none (some raw) = if str_eq (strip raw) "" then none else elim (parse (strip raw)) [
    | none ↦ none
    | some value ↦ if lt nought value then some value else none
  ]

  -- `maximum is not None and (value > maximum or (not maximum_exclusive and value == maximum))`
  abbrev above : F → Option F → Bool → Bool
  above value none exclusive = false
  above value (some maximum) exclusive = lt maximum value || (not exclusive && eq value maximum)

  unfoldable pub env_bounded :
      Option String
      → (default minimum : F) → (maximum : Option F) → (minimum_exclusive maximum_exclusive : Bool)
      → F
  env_bounded raw default minimum maximum minimum_exclusive maximum_exclusive =
      elim (parsed parse strip raw) [
        | none ↦ default
        | some value ↦
            if lt value minimum || (not minimum_exclusive && eq value minimum)
            then default
            else if above value maximum maximum_exclusive
            then default
            else value
      ]

  -- A rate that is there, parses and is not negative.
  abbrev rate : Option String → Option F
  rate raw = elim (parsed parse strip raw) [
    | none ↦ none
    | some value ↦ if lt value nought then none else some value
  ]

  abbrev table : Option F → Option F → Option F → Option F → Option (PricingTable F)
  table (some input) (some output) (some read) (some write) = some (record {
    input_per_mtok = input;
    output_per_mtok = output;
    cache_read_per_mtok = read;
    cache_write_per_mtok = write;
  })
  table _ _ _ _ = none

  unfoldable pub pricing_from_env : Dict String → Option (PricingTable F)
  pricing_from_env env =
      table (rate (lookup "CACHEPILOT_PRICING_INPUT_PER_MTK" env))
        (rate (lookup "CACHEPILOT_PRICING_OUTPUT_PER_MTK" env))
        (rate (lookup "CACHEPILOT_PRICING_CACHE_READ_PER_MTK" env))
        (rate (lookup "CACHEPILOT_PRICING_CACHE_WRITE_PER_MTK" env))

-- A number below one falls back.
unfoldable pub env_int : (String → Option ℤ) → (String → String) → Option String → ℕ → ℕ
env_int parse strip raw default = elim (parsed parse strip raw) [
  | none ↦ default
  | some (pos n) ↦ if leb 1 n then n else default
  | some (negsuc n) ↦ default
]

unfoldable pub env_flag : (String → String) → (String → String) → Option String → Bool → Bool
env_flag strip lower none default = default
env_flag strip lower (some raw) default =
    let value = lower (strip raw) in
    if contains value ("1" ∷ "true" ∷ "yes" ∷ "on" ∷ [])
    then true
    else if contains value ("0" ∷ "false" ∷ "no" ∷ "off" ∷ [])
    then false
    else default

module _ {F : Type 0} ⦃f : Arith F⦄ (parse : String → Option F) (strip : String → String) where
  -- Whatever the text, a bounded setting lies between its minimum and its maximum, both included, as
  -- long as its default does.
  env_bounded-range :
      (raw : Option String) (default minimum maximum : F) (open_below open_above : Bool)
      → le minimum default ≡ true
      → le default maximum ≡ true
      → let value =
          env_bounded parse strip raw default minimum (some maximum) open_below open_above in
        (le minimum value ≡ true) × (le value maximum ≡ true)
  unfolding env_bounded
  env_bounded-range raw default minimum maximum open_below open_above hl hu = ground arith

  -- The edges are the wrong way round: a text that reads as the minimum gives the default where the
  -- bound is inclusive, and the minimum itself where it is exclusive (if the maximum is above it).
  pub env_bounded-minimum :
      (text : String) (default minimum maximum : F)
      → parse (strip text) ≡ some minimum
      → le minimum minimum ≡ true
      → le minimum maximum ≡ true
      → lt minimum maximum ≡ true
      → (env_bounded parse strip (some text) default minimum (some maximum) false false ≡ default)
        × (env_bounded parse strip (some text) default minimum (some maximum) true false ≡ minimum)
  unfolding env_bounded
  env_bounded-minimum text default minimum maximum reads h below = ground arith

  -- Configured pricing is complete or absent: where there is a table, no rate is negative.
  pricing_from_env-rates :
      (env : Dict String) (p : PricingTable F)
      → pricing_from_env parse strip env ≡ some p
      → (le nought p.input_per_mtok ≡ true)
        × (le nought p.output_per_mtok ≡ true)
        × (le nought p.cache_read_per_mtok ≡ true)
        × (le nought p.cache_write_per_mtok ≡ true)
  unfolding pricing_from_env
  pricing_from_env-rates env p e = ground arith
