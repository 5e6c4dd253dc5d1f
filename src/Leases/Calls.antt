-- ===== src/Leases/Calls.antt =====
-- The calls that the relay makes on the lease manager, one after the other: the event loop is single
-- threaded, and other calls come in between where a warm waits for its executor.
use cachepilot.Prelude.{ℕ, String, ◌≡◌, Option, none, some, List, [], ◌∷◌}
use cachepilot.Numbers.{Arith, Conversion}
use cachepilot.Snapshots.{RequestSnapshot}
use cachepilot.Snapshots
use cachepilot.Telemetry.{Outcome}
use cachepilot.Usage.{TokenUsage}
use cachepilot.Leases.{LeaseIdentity, LeaseManager, Hashing, WarmResult}
use cachepilot.Leases.Runtime.{find_lease}
use cachepilot.Leases.Lifecycle.{arm, invalidate, complete, target_started, target_finished}
use cachepilot.Leases.Registry.{find_or_create_lease}
use cachepilot.Leases.Requests.{
  before_normal_request, after_normal_request, refresh_ttl, update_cost_estimates,
}
use cachepilot.Leases.Scheduler.{evaluate_lease, resume_waiting}
use cachepilot.Leases.Warm.{finish_warm}

pub data Call (F D : Type 0) : Type 0 where
  arms invalidates completes : String → Call F D
  target_starts target_finishes : String → String → Call F D
  creates : String → LeaseIdentity → Option F → F → Call F D
  request_starts : F → String → Call F D
  request_ends : F → String → Outcome → Call F D
  refreshes : String → Call F D
  estimates : String → TokenUsage D → Call F D
  remembers : RequestSnapshot F → Call F D
  forgets : String → Call F D
  evaluates : F → String → Call F D
  resumes : ℕ → String → Call F D
  warm_returns : F → Option (WarmResult D) → String → Call F D

module _ {F D : Type 0} where
  abbrev pub with_snapshots :
      (Snapshots.SnapshotStore F → Snapshots.SnapshotStore F) → LeaseManager F D → LeaseManager F D
  with_snapshots g m = record m {
    snapshot_store = elim m.snapshot_store [ none ↦ none | some s ↦ some (g s) ];
  }

module _ {F D : Type 0} ⦃f : Arith F⦄ ⦃d : Arith D⦄ ⦃c : Conversion F D⦄ (hash : Hashing) where
  abbrev second {ℓ} : {A : Type ℓ} → Option (A × LeaseManager F D) → Option (LeaseManager F D)
  second none = none
  second (some (_, m)) = some m

  -- The manager after a call; `none` where the call raises.
  unfoldable pub step : Call F D → LeaseManager F D → Option (LeaseManager F D)
  step (arms id) m = arm id m
  step (invalidates id) m = invalidate id m
  step (completes id) m = complete id m
  step (target_starts id t) m = target_started id t m
  step (target_finishes id t) m = target_finished id t m
  step (creates id req ttl confidence) m =
      second (find_or_create_lease hash id req ttl confidence m)
  step (request_starts now id) m = before_normal_request now id m
  step (request_ends now id o) m = after_normal_request now id o m
  step (refreshes id) m = refresh_ttl hash id m
  step (estimates id usage) m = update_cost_estimates id usage m
  step (remembers snapshot) m = some (with_snapshots (Snapshots.store snapshot) m)
  step (forgets fp) m = some (with_snapshots (Snapshots.drop fp) m)
  step (evaluates now id) m = some (evaluate_lease hash now id m).1
  step (resumes generation id) m = some (resume_waiting hash generation id m).1
  step (warm_returns now result id) m = second (finish_warm now result id m)

  -- The manager after a call, which leaves it as it was if it raises.
  unfoldable pub advance : Call F D → LeaseManager F D → LeaseManager F D
  advance x m = elim (step x m) [ none ↦ m | some m' ↦ m' ]

  -- A history.
  unfoldable pub run : List (Call F D) → LeaseManager F D → LeaseManager F D
  run [] m = m
  run (x ∷ xs) m = run xs (advance x m)

  -- Where a call makes a lease, its id is new: `uuid4` does not repeat itself.
  abbrev pub IsFreshCall : Call F D → LeaseManager F D → Type 0
  IsFreshCall (creates id req ttl confidence) m = find_lease id m ≡ none
  IsFreshCall _ m = Unit

  abbrev pub IsFresh : List (Call F D) → LeaseManager F D → Type 0
  IsFresh [] m = Unit
  IsFresh (x ∷ xs) m = IsFreshCall x m × IsFresh xs (advance x m)
