-- ===== src/Leases/Settings/Environment.antt =====
-- `LeaseSettings.from_env` of leases.py: what the environment makes of the settings, and the ranges that
-- the model demands. `none` is a raised validation error.
use cachepilot.Prelude.{
  String, Bool, true, false, ◌&&◌, Option, none, some, leb, get_or, if◌then◌else◌,
}
use cachepilot.Prelude.Int.{ℤ}
use cachepilot.Numbers.{Arith, Conversion, le, lt, lit, nought, one, to_float}
use cachepilot.Dict.{Dict, lookup}
use cachepilot.Economics.{EconomicConfig}
use cachepilot.Leases.{LeaseSettings}
use cachepilot.Leases.Settings.{
  env_float, env_float_or_none, env_bounded, env_int, env_flag, pricing_from_env,
}

-- Python's readings of a text.
pub record Parsing (F D : Type 0) : Type 0 where
  pub strip : String → String
  pub lower : String → String
  pub float_of : String → Option F
  pub decimal_of : String → Option D
  pub int_of : String → Option ℤ

module _ {R : Type 0} ⦃n : Arith R⦄ where
  -- `ge=0` and `le=1` of a field.
  abbrev pub is_share : R → Bool
  is_share x = le nought x && le x one

  abbrev pub is_forced : Option R → Bool
  is_forced none = true
  is_forced (some seconds) = lt nought seconds

module _ {D : Type 0} ⦃d : Arith D⦄ where
  -- The ranges of `EconomicConfig`.
  unfoldable pub is_economics : EconomicConfig D → Bool
  is_economics e =
      (lt nought e.budget_ratio && le e.budget_ratio one)
      && (le nought e.safety_margin && le nought e.minimum_expected_savings)

module _ {F D : Type 0} ⦃f : Arith F⦄ ⦃d : Arith D⦄ where
  -- The ranges of `LeaseSettings`.
  unfoldable pub is_settings : LeaseSettings F D → Bool
  unfolding is_economics
  is_settings s =
      (lt nought s.warm_fraction && le s.warm_fraction one)
      && ((le nought s.minimum_margin_s && le nought s.latency_multiplier)
          && (is_share s.jitter_fraction
              && ((lt nought s.default_ttl_s && lt nought s.scheduler_interval_s)
                  && ((is_forced s.ttl_force_seconds && leb 1 s.ttl_minimum_samples)
                      && (is_economics s.economics
                          && (is_share s.resume_probability
                              && is_share s.detached_resume_probability))))))

module _ {F D : Type 0} ⦃f : Arith F⦄ ⦃d : Arith D⦄ ⦃c : Conversion F D⦄ (p : Parsing F D)
    (env : Dict String) where
  abbrev pub float_at : String → F → F
  unfolding env_float
  float_at name default = env_float p.float_of p.strip (lookup name env) default

  abbrev pub flag_at : String → Bool
  unfolding env_flag
  flag_at name = env_flag p.strip p.lower (some (get_or (lookup name env) "true")) true

  abbrev pub probability_at : String → D → D
  unfolding env_bounded
  probability_at name default =
      env_bounded p.decimal_of p.strip (lookup name env) default nought (some one) false false

  abbrev pub economics_read : EconomicConfig D
  unfolding env_bounded
  economics_read = record {
    enabled = flag_at "CACHEPILOT_ECONOMICS_ENABLED";
    budget_ratio =
        env_bounded p.decimal_of p.strip (lookup "CACHEPILOT_ECONOMICS_BUDGET_RATIO" env)
          (lit 70 100) nought (some one) true false;
    safety_margin = nought;
    minimum_expected_savings =
        env_bounded p.decimal_of p.strip
          (lookup "CACHEPILOT_ECONOMICS_MINIMUM_EXPECTED_SAVINGS_USD" env) nought nought none false
          false;
  }

  unfoldable pub settings_read : LeaseSettings F D
  unfolding env_float_or_none env_int pricing_from_env
  settings_read = record {
    warm_fraction = float_at "CACHEPILOT_LEASE_WARM_FRACTION" (lit 80 100);
    minimum_margin_s = float_at "CACHEPILOT_LEASE_MINIMUM_MARGIN_S" (lit 10 1);
    latency_multiplier = float_at "CACHEPILOT_LEASE_LATENCY_MULTIPLIER" (lit 2 1);
    jitter_fraction = float_at "CACHEPILOT_LEASE_JITTER_FRACTION" (lit 3 100);
    default_ttl_s = float_at "CACHEPILOT_LEASE_DEFAULT_TTL_S" (lit 300 1);
    scheduler_interval_s = float_at "CACHEPILOT_LEASE_SCHEDULER_INTERVAL_S" one;
    ttl_force_seconds =
        env_float_or_none p.float_of p.strip (lookup "CACHEPILOT_TTL_FORCE_SECONDS" env);
    ttl_minimum_samples = env_int p.int_of p.strip (lookup "CACHEPILOT_TTL_MINIMUM_SAMPLES" env) 3;
    dry_run = flag_at "CACHEPILOT_LEASE_DRY_RUN";
    economics = economics_read;
    pricing = pricing_from_env p.decimal_of p.strip env;
    resume_probability =
        to_float (probability_at "CACHEPILOT_ECONOMICS_RESUME_PROBABILITY" (lit 95 100));
    detached_resume_probability =
        to_float (probability_at "CACHEPILOT_ECONOMICS_DETACHED_RESUME_PROBABILITY" (lit 20 100));
  }

  -- `LeaseSettings.from_env`
  unfoldable pub from_env : Option (LeaseSettings F D)
  unfolding is_settings
  from_env = if is_settings settings_read then some settings_read else none
