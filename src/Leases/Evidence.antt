-- ===== src/Leases/Evidence.antt =====
-- What a finished warm does to its lease: the touch needs evidence, the cost is always counted, and
-- outcomes that are no hit open the circuit.
use cachepilot.Prelude.{
  ◌+◌, ◌≡◌, Bool, true, false, ◌||◌, not, Option, none, some, arith, ltb, leb, is_some,
  if◌then◌else◌,
}
use cachepilot.Numbers.{Arith, Conversion, add, to_float}
use cachepilot.Telemetry.{confirmed_hit, miss_rebuilt, is_hit}
use cachepilot.Leases.{CacheLease, LeaseRuntime, WarmResult, is_invalidated}
use cachepilot.Leases.Runtime.{arm_lease}
use cachepilot.Leases.Warm.{miss, charge, fold_outcome, apply_warm_result, settle, caught}

module _ {D : Type 0} where
  -- The outcome is a verified touch of the cache: a hit, or a rebuild that wrote to the cache.
  abbrev pub is_evidence : WarmResult D → Bool
  is_evidence result = elim result.outcome [
    | some confirmed_hit ↦ true
    | some miss_rebuilt ↦ ltb 0 result.usage.cache_write_tokens
    | _ ↦ false
  ]

  -- The warm ran, and its outcome is no confirmed hit.
  abbrev pub is_miss : WarmResult D → Bool
  is_miss result = elim result.outcome [ none ↦ false | some o ↦ not (is_hit o) ]

module _ {F D : Type 0} ⦃f : Arith F⦄ ⦃d : Arith D⦄ ⦃c : Conversion F D⦄ where
  -- What a lease and its runtime are after a warm, by the evidence in its result.
  pub record IsSettled (now : F) (result : WarmResult D) (l l' : CacheLease F D)
      (r r' : LeaseRuntime) : Type 0 where
    pub touch :
        l'.last_cache_touch_at ≡ (if is_evidence result then some now else l.last_cache_touch_at)
    pub count : l'.warm_count ≡ (if is_some result.outcome then l.warm_count + 1 else l.warm_count)
    pub cost : l'.warm_cost_usd ≡ (
        if is_some result.outcome
        then add l.warm_cost_usd (to_float result.cost_usd)
        else l.warm_cost_usd)
    pub same_generation : l'.generation ≡ l.generation
    pub same_targets : l'.active_targets ≡ l.active_targets
    pub same_ttl : l'.estimated_ttl_s ≡ l.estimated_ttl_s
    pub same_invalidation : is_invalidated l'.state ≡ is_invalidated l.state
    pub misses :
        is_miss result ≡ true
        → (r'.consecutive_warm_misses ≡ r.consecutive_warm_misses + 1)
          × (r'.circuit_open ≡ (r.circuit_open || leb 2 (r.consecutive_warm_misses + 1)))
    pub other : is_miss result ≡ false → r'.circuit_open ≡ r.circuit_open
    pub reset : result.outcome ≡ some confirmed_hit → r'.consecutive_warm_misses ≡ 0
    pub free : r'.warm_request_active ≡ false

  -- A warm that has returned leaves the touch where it was unless the result is evidence of a cache
  -- touch (a confirmed hit, or a rebuilt miss with cache writes), counts every outcome and its cost, a
  -- failure's included, and neither the generation nor the targets, the TTL or an invalidation
  -- change. An outcome that is no hit is one more miss and opens the circuit from the second in a
  -- row on; no other outcome changes the circuit, and a hit sets the misses back to zero. The warm is
  -- no longer in flight.
  pub settle-IsSettled :
      (now : F) (result : Option (WarmResult D)) (l : CacheLease F D) (r : LeaseRuntime)
      → IsSettled now (caught result) l (settle now result l r).0 r (settle now result l r).1
  unfolding settle apply_warm_result fold_outcome charge miss arm_lease
  settle-IsSettled now result l r = ground arith
