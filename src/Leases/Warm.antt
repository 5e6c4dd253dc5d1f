-- ===== src/Leases/Warm.antt =====
-- `LeaseManager`: the end of a warm, and the scheduler's tick.
use cachepilot.Prelude.{
  ℕ, ◌+◌, String, true, false, Option, none, some, List, [], ◌∷◌, ltb, leb, str_eq, if◌then◌else◌,
}
use cachepilot.Numbers.{Arith, Conversion, add, to_float, nought}
use cachepilot.Dict.{keys}
use cachepilot.Snapshots.{RequestSnapshot}
use cachepilot.Telemetry.{Outcome, confirmed_hit, miss_rebuilt, success_unverified, failed}
use cachepilot.Usage.{no_usage}
use cachepilot.Leases.{
  CacheLease, LeaseManager, LeaseRuntime, Hashing, WarmResult, LeaseDecision, skipped_unsupported,
  warmed_confirmed_hit, warmed_miss_rebuilt, warmed_unverified, warmed_failed,
}
use cachepilot.Leases.Runtime.{runtime_for, put_runtime, put_lease, find_lease, arm_lease}
use cachepilot.Leases.Scheduler.{Evaluation, done, waiting, sent, evaluate_lease}

-- One more outcome that did not confirm a hit; the second in a row opens the circuit.
unfoldable pub miss : LeaseRuntime → LeaseRuntime
miss r =
    let r' = record r { consecutive_warm_misses = r.consecutive_warm_misses + 1 } in
    if leb 2 r'.consecutive_warm_misses then record r' { circuit_open = true } else r'

-- What the executor returned; an exception counts as a failed warm without usage or cost.
abbrev pub caught : {D : Type 0} ⦃d : Arith D⦄ → Option (WarmResult D) → WarmResult D
caught (some result) = result
caught none = record { outcome = some failed; usage = no_usage; cost_usd = nought }

module _ {F D : Type 0} ⦃f : Arith F⦄ ⦃c : Conversion F D⦄ where
  -- `warm_count += 1; warm_cost_usd += float(cost)`
  unfoldable pub charge : D → CacheLease F D → CacheLease F D
  charge cost l = record l {
    warm_count = l.warm_count + 1;
    warm_cost_usd = add l.warm_cost_usd (to_float cost);
  }

  -- The lease, its runtime and the decision after an outcome that the warm did have.
  unfoldable pub fold_outcome :
      F
      → Outcome
      → ℕ
      → CacheLease F D
      → LeaseRuntime
      → CacheLease F D × LeaseRuntime × LeaseDecision
  unfolding miss
  fold_outcome now confirmed_hit writes l r = (
    record l { last_cache_touch_at = some now; last_confirmed_hit_at = some now },
    record r { consecutive_warm_misses = 0 },
    warmed_confirmed_hit,
  )
  fold_outcome now miss_rebuilt writes l r = (
    if ltb 0 writes then record l { last_cache_touch_at = some now } else l,
    miss r,
    warmed_miss_rebuilt,
  )
  fold_outcome now success_unverified writes l r = (l, miss r, warmed_unverified)
  fold_outcome now failed writes l r = (l, miss r, warmed_failed)

  -- `_apply_warm_result`
  unfoldable pub apply_warm_result :
      F
      → WarmResult D
      → CacheLease F D
      → LeaseRuntime
      → CacheLease F D × LeaseRuntime × LeaseDecision
  unfolding fold_outcome charge
  apply_warm_result now result l r = elim result.outcome [
    | none ↦ (l, r, skipped_unsupported)
    | some o ↦ fold_outcome now o result.usage.cache_write_tokens (charge result.cost_usd l) r
  ]

module _ {F D : Type 0} ⦃f : Arith F⦄ ⦃d : Arith D⦄ ⦃c : Conversion F D⦄ where
  -- The rest of `_warm_if_due` after the executor, with the lease and its runtime.
  unfoldable pub settle :
      F
      → Option (WarmResult D)
      → CacheLease F D
      → LeaseRuntime
      → CacheLease F D × LeaseRuntime × LeaseDecision
  unfolding apply_warm_result arm_lease
  settle now result l r =
      apply_warm_result now (caught result) (arm_lease l) (record r { warm_request_active = false })

-- The lock is released: one entry of the fingerprint goes.
unfoldable pub release : String → List String → List String
release fp [] = []
release fp (x ∷ xs) = if str_eq x fp then xs else x ∷ release fp xs

module _ {F D : Type 0} ⦃f : Arith F⦄ ⦃d : Arith D⦄ ⦃c : Conversion F D⦄ where
  unfoldable pub finished_warm :
      F
      → Option (WarmResult D)
      → String
      → CacheLease F D
      → LeaseManager F D
      → LeaseDecision × LeaseManager F D
  unfolding settle release put_lease put_runtime runtime_for
  finished_warm now result id l m =
      let (l', r', decision) = settle now result l (runtime_for id m) in
      let m' = put_runtime id r' (put_lease id l' m) in
      (decision, record m' { locked = release l.cache_fingerprint m'.locked })

  -- The executor has returned for the warm of a lease: a lease is never removed, so it is found.
  unfoldable pub finish_warm :
      F
      → Option (WarmResult D)
      → String
      → LeaseManager F D
      → Option (LeaseDecision × LeaseManager F D)
  unfolding find_lease finished_warm
  finish_warm now result id m = elim (find_lease id m) [
    | none ↦ none
    | some l ↦ some (finished_warm now result id l m)
  ]

  module _ (hash : Hashing) (execute : RequestSnapshot F → Option (WarmResult D) × F) where
    after_evaluation :
        String → Evaluation F × LeaseManager F D → Option LeaseDecision × LeaseManager F D
    unfolding finish_warm
    after_evaluation id (done decision, m) = (some decision, m)
    after_evaluation id (waiting generation, m) = (none, m)
    after_evaluation id (sent snapshot, m) =
        let (result, later) = execute snapshot in
        elim (finish_warm later result id m) [
          | none ↦ (none, m)
          | some (decision, m') ↦ (some decision, m')
        ]

    -- One round of `tick` with nothing in between; `execute` gives what the executor returns and the
    -- time at which it does. No decision is what an evaluation leaves that waits for a lock.
    unfoldable pub tick_lease :
        F → String → LeaseManager F D → Option LeaseDecision × LeaseManager F D
    unfolding after_evaluation evaluate_lease
    tick_lease now id m = after_evaluation id (evaluate_lease hash now id m)

    unfoldable pub tick_from :
        (String → F)
        → List String
        → LeaseManager F D
        → List (String × Option LeaseDecision) × LeaseManager F D
    unfolding tick_lease
    tick_from now [] m = ([], m)
    tick_from now (id ∷ ids) m =
        let (decision, m') = tick_lease (now id) id m in
        let (rest, m'') = tick_from now ids m' in ((id, decision) ∷ rest, m'')

    -- `tick`; `now` gives the time at which each lease is evaluated.
    unfoldable pub tick :
        (String → F) → LeaseManager F D → List (String × Option LeaseDecision) × LeaseManager F D
    unfolding tick_from
    tick now m = tick_from now (keys m.leases) m
