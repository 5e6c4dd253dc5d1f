-- ===== src/Leases/History/Runs.antt =====
-- What no sequence of calls undoes.
use cachepilot.Prelude.{String, ◌≡◌, refl, some, List, [], ◌∷◌, arith, Option-cases, inl, inr}
use mathlib.Core.Path.{subst}
use mathlib.Core.Option.{some-injective}
use cachepilot.Numbers.{Arith, Conversion}
use cachepilot.Snapshots
use cachepilot.Leases.{CacheLease, LeaseManager, Hashing}
use cachepilot.Leases.Runtime.{find_lease}
use cachepilot.Leases.Registry.{find_or_create_lease}
use cachepilot.Leases.Warm.{finish_warm}
use cachepilot.Leases.Calls.{
  Call, arms, invalidates, completes, target_starts, target_finishes, creates, request_starts,
  request_ends, refreshes, estimates, remembers, forgets, evaluates, resumes, warm_returns,
  with_snapshots, step, advance, run, IsFreshCall, IsFresh,
}
use cachepilot.Leases.History.{Evolves, Keeps, refl_Keeps, trans_Keeps, same_Keeps}
use cachepilot.Leases.History.Methods.{
  arm-Keeps, invalidate-Keeps, complete-Keeps, target_started-Keeps, target_finished-Keeps,
  before_normal_request-Keeps, after_normal_request-Keeps,
}
use cachepilot.Leases.History.Settling.{
  finish_warm-Keeps, update_cost_estimates-Keeps, refresh_ttl-Keeps,
}
use cachepilot.Leases.History.Creation.{find_or_create_lease-Keeps}
use cachepilot.Leases.History.Warms.{evaluate_lease-Keeps, resume_waiting-Keeps}
use cachepilot.Leases.Scheduler.{evaluate_lease, resume_waiting}

module _ {F D : Type 0} ⦃f : Arith F⦄ ⦃d : Arith D⦄ ⦃c : Conversion F D⦄ (hash : Hashing) where
  step-Keeps :
      (x : Call F D) (m m' : LeaseManager F D)
      → IsFreshCall hash x m
      → step hash x m ≡ some m'
      → Keeps m m'
  unfolding step find_lease
  step-Keeps (arms id) m m' h e = arm-Keeps id m m' e
  step-Keeps (invalidates id) m m' h e = invalidate-Keeps id m m' e
  step-Keeps (completes id) m m' h e = complete-Keeps id m m' e
  step-Keeps (target_starts id t) m m' h e = target_started-Keeps id t m m' e
  step-Keeps (target_finishes id t) m m' h e = target_finished-Keeps id t m m' e
  step-Keeps (creates id req ttl confidence) m m' h e =
      elim (Option-cases (find_or_create_lease hash id req ttl confidence m)) [
        | inl raised ↦ ground arith
        | inr ((j, m1), made) ↦
            let same : m1 ≡ m' = ground arith in
            subst (Keeps m) same
              (find_or_create_lease-Keeps hash id j req ttl confidence m m1 h made)
      ]
  step-Keeps (request_starts now id) m m' h e = before_normal_request-Keeps now id m m' e
  step-Keeps (request_ends now id o) m m' h e = after_normal_request-Keeps now id o m m' e
  step-Keeps (refreshes id) m m' h e = refresh_ttl-Keeps hash id m m' e
  step-Keeps (estimates id usage) m m' h e = update_cost_estimates-Keeps id usage m m' e
  step-Keeps (remembers snapshot) m m' h e =
      let m1 : LeaseManager F D = with_snapshots (Snapshots.store snapshot) m in
      subst (Keeps m) (some-injective m1 m' e) (same_Keeps m m1 (λ j. refl))
  step-Keeps (forgets fp) m m' h e =
      let m1 : LeaseManager F D = with_snapshots (Snapshots.drop fp) m in
      subst (Keeps m) (some-injective m1 m' e) (same_Keeps m m1 (λ j. refl))
  step-Keeps (evaluates now id) m m' h e =
      let same : (evaluate_lease hash now id m).1 ≡ m' = ground arith in
      subst (Keeps m) same (evaluate_lease-Keeps hash now id m)
  step-Keeps (resumes generation id) m m' h e =
      let same : (resume_waiting hash generation id m).1 ≡ m' = ground arith in
      subst (Keeps m) same (resume_waiting-Keeps hash generation id m)
  step-Keeps (warm_returns now result id) m m' h e =
      elim (Option-cases (finish_warm now result id m)) [
        | inl raised ↦ ground arith
        | inr ((decision, m1), made) ↦
            let same : m1 ≡ m' = ground arith in
            subst (Keeps m) same (finish_warm-Keeps now result id decision m m1 made)
      ]

  advance-Keeps :
      (x : Call F D) (m : LeaseManager F D) → IsFreshCall hash x m → Keeps m (advance hash x m)
  unfolding advance
  advance-Keeps x m h = elim (Option-cases (step hash x m)) [
    | inl raised ↦ rw (raised, advance) (refl_Keeps m)
    | inr (m', made) ↦ rw (made, advance) (step-Keeps x m m' h made)
  ]

  run_all-Keeps :
      (xs : List (Call F D)) (m : LeaseManager F D) → IsFresh hash xs m → Keeps m (run hash xs m)
  unfolding run
  run_all-Keeps [] m h = refl_Keeps m
  run_all-Keeps (x ∷ xs) m (h, hs) =
      trans_Keeps m (advance hash x m) (run hash xs (advance hash x m)) (advance-Keeps x m h)
        (run_all-Keeps xs (advance hash x m) hs)

  -- Over any sequence of calls of the manager's methods, evaluations, lock waits and returning warms
  -- in any order, in which each new lease gets an id that is not in use, a lease never goes away, its
  -- id and its cache identity stay the same, and its generation and its warm count never fall.
  pub run-Evolves :
      (xs : List (Call F D)) (j : String) (l : CacheLease F D) (m : LeaseManager F D)
      → IsFresh hash xs m
      → find_lease j m ≡ some l
      → (l' : CacheLease F D) × (find_lease j (run hash xs m) ≡ some l') × Evolves l l'
  run-Evolves xs j l m fresh found = run_all-Keeps xs m fresh j l found
