-- ===== src/Leases/Requests.antt =====
-- `LeaseManager`: the start and the end of a real request, and the cost and TTL refresh after it.
use cachepilot.Prelude.{ℕ, ◌+◌, String, true, false, Option, none, some, leb, if◌then◌else◌}
use cachepilot.Numbers.{Arith, Conversion, to_float}
use cachepilot.Pricing.{CostResolution, estimate_cost, estimate_resume_costs, is_known}
use cachepilot.Pricing.{resolve as resolve_cost}
use cachepilot.Telemetry.{Outcome, is_failed, is_verified, is_hit}
use cachepilot.Ttl.Resolver.{resolve as resolve_ttl}
use cachepilot.Usage.{TokenUsage}
use cachepilot.Leases.{is_invalidated, CacheLease, LeaseManager, LeaseRuntime, Hashing}
use cachepilot.Leases.Runtime.{
  runtime_for, put_runtime, put_lease, find_lease, with_lease, arm_lease, disarm_lease,
  cancel_pending_warm,
}
use cachepilot.Leases.Lifecycle.{is_empty}

-- The breaker after a request that did not fail.
unfoldable pub close_circuit : Outcome → LeaseRuntime → LeaseRuntime
close_circuit outcome r =
    if is_verified outcome
    then record r { circuit_open = false; consecutive_warm_misses = 0 }
    else r

-- The usage of a bounded warm: the prefix read from the cache and one output token.
abbrev pub warm_usage : {D : Type 0} → ℕ → TokenUsage D
warm_usage prefix = record {
  prompt_tokens = prefix;
  completion_tokens = 1;
  cache_read_tokens = prefix;
  cache_write_tokens = 0;
  cost = none;
}

module _ {F D : Type 0} where
  unfoldable pub before_normal_request : F → String → LeaseManager F D → Option (LeaseManager F D)
  unfolding put_lease find_lease put_runtime runtime_for cancel_pending_warm
  before_normal_request now id m = with_lease id m λ l.
      let r = runtime_for id m in
      let m' = put_runtime id (record r { real_request_active = true }) m in
      cancel_pending_warm id
        (put_lease id (record l { generation = l.generation + 1; last_real_request_at = now }) m')

  -- The lease after a request that did not fail.
  unfoldable pub touch : F → Outcome → CacheLease F D → CacheLease F D
  unfolding arm_lease disarm_lease
  touch now outcome l =
      let touched = record l {
        last_cache_touch_at = some now;
        last_confirmed_hit_at = if is_hit outcome then some now else l.last_confirmed_hit_at;
      } in
      if is_empty l.active_targets then disarm_lease touched else arm_lease touched

  unfoldable pub after_normal_request :
      F → String → Outcome → LeaseManager F D → Option (LeaseManager F D)
  unfolding put_lease find_lease put_runtime runtime_for touch close_circuit
  after_normal_request now id outcome m = with_lease id m λ l.
      let r = record (runtime_for id m) { real_request_active = false } in
      if is_invalidated l.state
      then put_runtime id r m
      else if is_failed outcome
      then put_runtime id r m
      else put_lease id (touch now outcome l) (put_runtime id (close_circuit outcome r) m)

module _ {F D : Type 0} ⦃f : Arith F⦄ (hash : Hashing) where
  unfoldable pub refresh_ttl : String → LeaseManager F D → Option (LeaseManager F D)
  unfolding put_lease find_lease
  refresh_ttl id m = with_lease id m λ l. elim m.ttl_resolver [
    | none ↦ m
    | some r ↦
        let out =
          resolve_ttl hash.sha256 r l.provider l.model l.api_mode l.base_url l.route_fingerprint
            none in
        put_lease id (record l { estimated_ttl_s = out.ttl_s; ttl_confidence = out.confidence }) m
  ]

module _ {F D : Type 0} ⦃f : Arith F⦄ ⦃d : Arith D⦄ ⦃c : Conversion F D⦄ where
  -- `float(resolution.amount)` if the cost is known.
  unfoldable pub known_cost : CostResolution D → Option F
  known_cost r = elim r.amount [
    | none ↦ none
    | some a ↦ if is_known r then some (to_float a) else none
  ]

  unfoldable pub priced : TokenUsage D → LeaseManager F D → CacheLease F D → CacheLease F D
  unfolding known_cost
  priced usage m l = elim m.pricing [
    | some p ↦
        let (cold, cached) = estimate_resume_costs usage.prompt_tokens p 0 in
        record l {
          prefix_tokens = some usage.prompt_tokens;
          estimated_cold_resume_cost_usd = some (to_float cold);
          estimated_cached_resume_cost_usd = some (to_float cached);
          next_warm_cost_usd = some (to_float (estimate_cost (warm_usage usage.prompt_tokens) p));
        }
    | none ↦ record l {
      prefix_tokens = some usage.prompt_tokens;
      estimated_cold_resume_cost_usd = none;
      estimated_cached_resume_cost_usd = none;
      next_warm_cost_usd = known_cost (resolve_cost usage none m.price_override);
    }
  ]

  unfoldable pub update_cost_estimates :
      String → TokenUsage D → LeaseManager F D → Option (LeaseManager F D)
  unfolding put_lease find_lease priced
  update_cost_estimates id usage m =
      with_lease id m
        λ l. if leb usage.prompt_tokens 0 then m else put_lease id (priced usage m l) m
