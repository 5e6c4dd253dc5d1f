-- ===== src/Leases/Scheduler.antt =====
-- `LeaseManager`: the safe deadline, the economic gate and the evaluation of a lease.
use cachepilot.Prelude.{
  ℕ, ◌^◌, String, Bool, true, false, ◌&&◌, not, Option, none, some, ◌∷◌, is_some, get_or, contains,
  every, starts_with, ◌==◌, if◌then◌else◌,
}
use cachepilot.Numbers.{Arith, Conversion, lit, add, sub, mul, lt, max, min, nought, one}
use cachepilot.Economics.{WarmDecision, Amount, dec, flt, should_warm}
use cachepilot.Economics.{evaluate as evaluate_costs}
use cachepilot.Snapshots.{RequestSnapshot}
use cachepilot.Snapshots
use cachepilot.Leases.{
  is_invalidated, is_economic_stop, warm_scheduled, warming, economic_stop, CacheLease,
  LeaseManager, Hashing, LeaseDecision, scheduled, skipped_dry_run, skipped_busy, skipped_stale,
  skipped_no_targets, skipped_already_warming, skipped_unknown_ttl, skipped_unsupported,
  skipped_circuit_open, stopped_no_targets, stopped_invalidated, stopped_economic,
}
use cachepilot.Leases.Runtime.{runtime_for, put_runtime, put_lease, find_lease}
use cachepilot.Leases.Lifecycle.{is_empty}

-- What an evaluation comes to: a decision, a wait for the lock of the cache identity with the
-- generation that authorizes the warm, or a warm request on its way to the executor.
pub data Evaluation (F : Type 0) : Type 0 where
  done : LeaseDecision → Evaluation F
  waiting : ℕ → Evaluation F
  sent : RequestSnapshot F → Evaluation F

module _ {F D : Type 0} ⦃f : Arith F⦄ where
  unfoldable pub network_margin : LeaseManager F D → F
  network_margin m =
      max m.settings.minimum_margin_s (mul m.latency_p95_s m.settings.latency_multiplier)

  -- `_jitter_for`: between minus and plus the fraction, from the digest of the fingerprint.
  unfoldable pub jitter_for : Hashing → String → LeaseManager F D → F
  jitter_for hash fp m =
      let unit = lit (hash.head64 fp) (2 ^ 64) in
      mul (sub (mul unit (lit 2 1)) one) m.settings.jitter_fraction

  unfoldable pub next_deadline : Hashing → CacheLease F D → LeaseManager F D → Option F
  unfolding network_margin jitter_for
  next_deadline hash l m = elim l.last_cache_touch_at [
    | none ↦ none
    | some touch ↦
        let ttl = max l.estimated_ttl_s nought in
        let safe_deadline =
          min (add touch (mul ttl m.settings.warm_fraction))
            (sub (add touch ttl) (network_margin m)) in
        let jitter = jitter_for hash l.cache_fingerprint m in
        some (add touch (mul (sub safe_deadline touch) (add one jitter)))
  ]

  unfoldable pub resume_probability : CacheLease F D → LeaseManager F D → F
  resume_probability l m =
      if is_empty l.active_targets
      then nought
      else if every (λ t. starts_with t "detached-") l.active_targets
      then m.settings.detached_resume_probability
      else m.settings.resume_probability

module _ {F D : Type 0} ⦃f : Arith F⦄ ⦃d : Arith D⦄ ⦃c : Conversion F D⦄ where
  abbrev amount_or_nought : Option F → Amount F D
  amount_or_nought none = dec nought
  amount_or_nought (some x) = flt x

  unfoldable pub evaluate_economics : CacheLease F D → LeaseManager F D → WarmDecision F D
  unfolding resume_probability
  evaluate_economics l m =
      let cold = l.estimated_cold_resume_cost_usd in
      let cached = l.estimated_cached_resume_cost_usd in
      evaluate_costs m.settings.economics (amount_or_nought cold) (amount_or_nought cached)
        (amount_or_nought l.next_warm_cost_usd) (flt l.warm_cost_usd) (resume_probability l m)
        (is_some cold && is_some cached)

  -- The gate's answer, and the lease with the decision recorded.
  unfoldable pub economic_gate : CacheLease F D → LeaseManager F D → Bool × CacheLease F D
  unfolding evaluate_economics
  economic_gate l m =
      if m.settings.economics.enabled
      then (
        should_warm (evaluate_economics l m),
        record l { last_warm_decision = some (evaluate_economics l m) },
      )
      else (true, l)

module _ {F D : Type 0} where
  -- The request that a warm would replay, if one can be built at all.
  unfoldable pub replayable : CacheLease F D → LeaseManager F D → Option (RequestSnapshot F)
  replayable l m = elim m.snapshot_store [
    | none ↦ none
    | some s ↦ if m.has_executor then Snapshots.get l.cache_fingerprint s else none
  ]

  -- The state while a warm is in flight: the flag, the lease state and the lock.
  unfoldable pub send_warm : String → CacheLease F D → LeaseManager F D → LeaseManager F D
  unfolding put_lease put_runtime runtime_for
  send_warm id l m =
      let r = runtime_for id m in
      let m' =
        put_lease id (record l { state = warming })
          (put_runtime id (record r { warm_request_active = true }) m) in
      record m' { locked = l.cache_fingerprint ∷ m'.locked }

  -- The part of `_warm_if_due` under the lock, up to the call of the executor.
  unfoldable pub warm_locked :
      ℕ → String → CacheLease F D → LeaseManager F D → Evaluation F × LeaseManager F D
  unfolding replayable runtime_for
  warm_locked generation id l m =
      let r = runtime_for id m in
      if r.real_request_active
      then (done skipped_busy, m)
      else if is_empty l.active_targets
      then (done skipped_no_targets, m)
      else if not (l.generation == generation)
      then (done skipped_stale, m)
      else if m.settings.dry_run
      then (done skipped_dry_run, m)
      else if r.circuit_open
      then (done skipped_circuit_open, m)
      else elim (replayable l m) [
        | none ↦ (done skipped_unsupported, m)
        | some snapshot ↦ (sent snapshot, send_warm id l m)
      ]

  -- `_warm_if_due`, up to the call of the executor. The recorded generation is consumed.
  unfoldable pub warm_if_due :
      String → CacheLease F D → LeaseManager F D → Evaluation F × LeaseManager F D
  unfolding put_runtime runtime_for warm_locked
  warm_if_due id l m =
      let r = runtime_for id m in
      let generation = get_or r.scheduled_generation l.generation in
      let m' = put_runtime id (record r { scheduled_generation = none; pending_warm = false }) m in
      if r.real_request_active
      then (done skipped_busy, m')
      else if not (l.generation == generation)
      then (done skipped_stale, m')
      else if contains l.cache_fingerprint m'.locked
      then (waiting generation, m')
      else warm_locked generation id l m'

  -- Before the deadline: the warm is scheduled for the lease's generation.
  unfoldable pub schedule : String → CacheLease F D → LeaseManager F D → LeaseManager F D
  unfolding put_lease put_runtime runtime_for
  schedule id l m =
      let r = runtime_for id m in
      put_lease id (if is_economic_stop l.state then l else record l { state = warm_scheduled }) (
        put_runtime id (record r { scheduled_generation = some l.generation; pending_warm = true })
          m)

module _ {F D : Type 0} ⦃f : Arith F⦄ ⦃d : Arith D⦄ ⦃c : Conversion F D⦄ (hash : Hashing) where
  -- From the deadline on: the gate, and the warm.
  unfoldable pub evaluate_due :
      String → CacheLease F D → LeaseManager F D → Evaluation F × LeaseManager F D
  unfolding economic_gate put_lease
  evaluate_due id l m =
      let (open_gate, l') = economic_gate l m in
      if open_gate
      then warm_if_due id l' (put_lease id l' m)
      else (done stopped_economic, put_lease id (record l' { state = economic_stop }) m)

  unfoldable pub evaluate_found :
      F → String → CacheLease F D → LeaseManager F D → Evaluation F × LeaseManager F D
  unfolding runtime_for evaluate_due schedule
  evaluate_found now id l m =
      let r = runtime_for id m in
      if is_empty l.active_targets
      then (done stopped_no_targets, m)
      else if r.real_request_active
      then (done skipped_busy, m)
      else if r.warm_request_active
      then (done skipped_already_warming, m)
      else if is_invalidated l.state
      then (done stopped_invalidated, m)
      else if r.circuit_open
      then (done skipped_circuit_open, m)
      else elim (next_deadline hash l m) [
        | none ↦ (done skipped_unknown_ttl, m)
        | some due_at ↦
            if lt now due_at then (done scheduled, schedule id l m) else evaluate_due id l m
      ]

  -- `evaluate_lease`
  unfoldable pub evaluate_lease : F → String → LeaseManager F D → Evaluation F × LeaseManager F D
  unfolding evaluate_found find_lease
  evaluate_lease now id m = elim (find_lease id m) [
    | none ↦ (done stopped_no_targets, m)
    | some l ↦ evaluate_found now id l m
  ]

  -- An evaluation that waited for the lock goes on once it has it.
  unfoldable pub resume_waiting : ℕ → String → LeaseManager F D → Evaluation F × LeaseManager F D
  unfolding warm_locked find_lease
  resume_waiting generation id m = elim (find_lease id m) [
    | none ↦ (done stopped_no_targets, m)
    | some l ↦ warm_locked generation id l m
  ]
