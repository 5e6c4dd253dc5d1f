-- ===== src/Leases/Rounds.antt =====
-- Rounds of the scheduler: evaluations, and those that waited for a lock going on, with no other call in
-- between. What they leave as it is.
use cachepilot.Prelude.{
  ℕ, String, ◌≡◌, refl, sym, ap, ◌∙◌, true, false, none, some, map, List, [], ◌∷◌, arith, str_eq,
  eq_iff, Bool-cases, Option-cases, inl, inr,
}
use mathlib.Core.Path.{subst}
use cachepilot.Numbers.{Arith, Conversion}
use cachepilot.Leases.{CacheLease, LeaseManager, LeaseRuntime, Hashing, economic_stop}
use cachepilot.Leases.Runtime.{runtime_for, put_runtime, put_lease, find_lease}
use cachepilot.Leases.Runtime.Laws.{runtime-put_runtime}
use cachepilot.Leases.Scheduler.{
  economic_gate, replayable, send_warm, warm_locked, warm_if_due, schedule, evaluate_due,
  evaluate_found, evaluate_lease, resume_waiting,
}
use cachepilot.Leases.Calls.{Call, evaluates, resumes, step, advance, run, IsFresh}
use cachepilot.Leases.History.Warms.{
  consumed, warm_locked-either, warm_if_due-either, evaluate_found-either,
}
use cachepilot.Leases.History.Runs.{run-Evolves}

-- A call of the scheduler.
pub data Round (F : Type 0) : Type 0 where
  evaluated : F → String → Round F
  resumed : ℕ → String → Round F

abbrev pub call_of : {F D : Type 0} → Round F → Call F D
call_of (evaluated now id) = evaluates now id
call_of (resumed generation id) = resumes generation id

module _ {F D : Type 0} where
  -- No request has started or ended, and the snapshots are the same.
  pub record Stays (m m' : LeaseManager F D) : Type 0 where
    pub busy :
        (j : String)
        → (runtime_for j m').real_request_active ≡ (runtime_for j m).real_request_active
    pub snapshots : m'.snapshot_store ≡ m.snapshot_store
    pub executor : m'.has_executor ≡ m.has_executor

  refl_Stays : (m : LeaseManager F D) → Stays m m
  refl_Stays m = record { busy = λ j. refl; snapshots = refl; executor = refl }

  trans_Stays : (a b c : LeaseManager F D) → Stays a b → Stays b c → Stays a c
  trans_Stays a b c h k = record {
    busy = λ j. k.busy j ∙ h.busy j;
    snapshots = k.snapshots ∙ h.snapshots;
    executor = k.executor ∙ h.executor;
  }

  put_lease-Stays :
      (id : String) (l : CacheLease F D) (m : LeaseManager F D) → Stays m (put_lease id l m)
  unfolding put_lease runtime_for
  put_lease-Stays id l m = record { busy = λ j. refl; snapshots = refl; executor = refl }

  put_runtime-Stays :
      (id : String) (r : LeaseRuntime) (m : LeaseManager F D)
      → r.real_request_active ≡ (runtime_for id m).real_request_active
      → Stays m (put_runtime id r m)
  unfolding put_runtime
  put_runtime-Stays id r m same = record {
    busy = λ j. elim (Bool-cases (str_eq id j)) [
      | inl here ↦ ground (
        arith,
        runtime-put_runtime id j r m,
        same,
        ap (λ k. (runtime_for k m).real_request_active) ((eq_iff id j).0 here),
      )
      | inr there ↦ ground (arith, runtime-put_runtime id j r m)
    ];
    snapshots = refl;
    executor = refl;
  }

  send_warm-Stays :
      (id : String) (l : CacheLease F D) (m : LeaseManager F D) → Stays m (send_warm id l m)
  unfolding send_warm put_lease runtime_for
  send_warm-Stays id l m =
      let step =
        put_runtime-Stays id (record (runtime_for id m) { warm_request_active = true }) m refl in
      record { busy = step.busy; snapshots = step.snapshots; executor = step.executor }

  warm_locked-Stays :
      (generation : ℕ) (id : String) (l : CacheLease F D) (m : LeaseManager F D)
      → Stays m (warm_locked generation id l m).1
  warm_locked-Stays generation id l m = elim (warm_locked-either generation id l m) [
    | inl same ↦ subst (Stays m) (sym same) (refl_Stays m)
    | inr sends ↦ subst (Stays m) (sym sends) (send_warm-Stays id l m)
  ]

  warm_if_due-Stays :
      (id : String) (l : CacheLease F D) (m : LeaseManager F D) → Stays m (warm_if_due id l m).1
  warm_if_due-Stays id l m =
      let here =
        put_runtime-Stays id
          (record (runtime_for id m) { scheduled_generation = none; pending_warm = false }) m
          refl in
      elim (warm_if_due-either id l m) [
        | inl same ↦ subst (Stays m) (sym same) here
        | inr (generation, locked) ↦ subst (Stays m) (sym locked) (
            trans_Stays m (consumed id m) _ here
              (warm_locked-Stays generation id l (consumed id m)))
      ]

  schedule-Stays :
      (id : String) (l : CacheLease F D) (m : LeaseManager F D) → Stays m (schedule id l m)
  unfolding schedule
  schedule-Stays id l m =
      let r : LeaseRuntime = record (runtime_for id m) {
        scheduled_generation = some l.generation;
        pending_warm = true;
      } in
      trans_Stays m (put_runtime id r m) _ (put_runtime-Stays id r m refl)
        (put_lease-Stays id _ (put_runtime id r m))

  replayable-same :
      (l l' : CacheLease F D) (m m' : LeaseManager F D)
      → l'.identity ≡ l.identity
      → Stays m m'
      → replayable l' m' ≡ replayable l m
  unfolding replayable
  replayable-same l l' m m' same stays = ground (arith, stays.snapshots, stays.executor, same)

module _ {F D : Type 0} ⦃f : Arith F⦄ ⦃d : Arith D⦄ ⦃c : Conversion F D⦄ (hash : Hashing) where
  evaluate_due-Stays :
      (id : String) (l : CacheLease F D) (m : LeaseManager F D)
      → Stays m (evaluate_due hash id l m).1
  unfolding evaluate_due
  evaluate_due-Stays id l m =
      let l' : CacheLease F D = (economic_gate l m).1 in
      elim (Bool-cases (economic_gate l m).0) [
        | inl passes ↦
            rw (passes, evaluate_due)
              (trans_Stays m (put_lease id l' m) _ (put_lease-Stays id l' m)
                (warm_if_due-Stays id l' (put_lease id l' m)))
        | inr stops ↦
            rw (stops, evaluate_due) (put_lease-Stays id (record l' { state = economic_stop }) m)
      ]

  evaluate_lease-Stays :
      (now : F) (id : String) (m : LeaseManager F D) → Stays m (evaluate_lease hash now id m).1
  unfolding evaluate_lease
  evaluate_lease-Stays now id m = elim (Option-cases (find_lease id m)) [
    | inl missing ↦ rw (missing, evaluate_lease) (refl_Stays m)
    | inr (l, found) ↦
        let whole : (evaluate_found hash now id l m).1 ≡ (evaluate_lease hash now id m).1 =
          ground arith in
        subst (Stays m) whole (elim (evaluate_found-either hash now id l m) [
          | inl same ↦ subst (Stays m) (sym same) (refl_Stays m)
          | inr (inl waits) ↦ subst (Stays m) (sym waits) (schedule-Stays id l m)
          | inr (inr due) ↦ subst (Stays m) (sym due) (evaluate_due-Stays id l m)
        ])
  ]

  resume_waiting-Stays :
      (generation : ℕ) (id : String) (m : LeaseManager F D)
      → Stays m (resume_waiting hash generation id m).1
  unfolding resume_waiting
  resume_waiting-Stays generation id m = elim (Option-cases (find_lease id m)) [
    | inl missing ↦ rw (missing, resume_waiting) (refl_Stays m)
    | inr (l, found) ↦ rw (found, resume_waiting) (warm_locked-Stays generation id l m)
  ]

  call-Stays : (x : Round F) (m : LeaseManager F D) → Stays m (advance hash (call_of x) m)
  unfolding advance step
  call-Stays (evaluated now id) m = evaluate_lease-Stays now id m
  call-Stays (resumed generation id) m = resume_waiting-Stays generation id m

  -- The manager after rounds of the scheduler.
  abbrev pub after_rounds : List (Round F) → LeaseManager F D → LeaseManager F D
  after_rounds xs m = run hash (map call_of xs) m

  pub rounds-Stays : (xs : List (Round F)) (m : LeaseManager F D) → Stays m (after_rounds xs m)
  unfolding run
  rounds-Stays [] m = refl_Stays m
  rounds-Stays (x ∷ xs) m =
      trans_Stays m (advance hash (call_of x) m) _ (call-Stays x m)
        (rounds-Stays xs (advance hash (call_of x) m))

  -- The scheduler makes no lease.
  rounds-IsFresh : (xs : List (Round F)) (m : LeaseManager F D) → IsFresh hash (map call_of xs) m
  rounds-IsFresh [] m = tt
  rounds-IsFresh (evaluated now id ∷ xs) m = (tt, rounds-IsFresh xs _)
  rounds-IsFresh (resumed generation id ∷ xs) m = (tt, rounds-IsFresh xs _)

  -- What could be replayed for a lease stays over rounds of the scheduler.
  pub rounds-replayable :
      (xs : List (Round F)) (id : String) (l : CacheLease F D) (m : LeaseManager F D)
      → find_lease id m ≡ some l
      → (l' : CacheLease F D) × (find_lease id (after_rounds xs m) ≡ some l')
        × (replayable l' (after_rounds xs m) ≡ replayable l m)
  rounds-replayable xs id l m found =
      let (l', found', later) =
        run-Evolves hash (map call_of xs) id l m (rounds-IsFresh xs m) found in
      let stays = rounds-Stays xs m in
      (l', found', replayable-same l l' m (after_rounds xs m) later.same_identity stays)
