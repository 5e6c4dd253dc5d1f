-- ===== src/Leases/History/Warms.antt =====
-- What an evaluation and the end of a warm keep, and the refresh of costs and TTL.
use cachepilot.Prelude.{
  ℕ, String, ◌≡◌, refl, sym, ◌∙◌, ◌⊎◌, true, false, not, none, some, arith, contains, get_or, ◌==◌,
  if◌then◌else◌, Bool-cases, Option-cases, inl, inr,
}
use mathlib.Core.Path.{subst}
use cachepilot.Numbers.{Arith, Conversion}
use cachepilot.Leases.{
  CacheLease, LeaseManager, LeaseRuntime, Hashing, is_economic_stop, warm_scheduled, warming,
  economic_stop,
}
use cachepilot.Leases.Runtime.{runtime_for, put_runtime, put_lease, find_lease}
use cachepilot.Leases.Runtime.Laws.{find-put_runtime, find-put_lease_self}
use cachepilot.Leases.Scheduler.{
  economic_gate, send_warm, warm_locked, warm_if_due, schedule, evaluate_due, evaluate_found,
  evaluate_lease, resume_waiting,
}
use cachepilot.Leases.History.{
  Evolves, Keeps, refl_Keeps, trans_Keeps, put-Keeps, put_runtime-Keeps,
}

module _ {F D : Type 0} where
  send_warm-Keeps :
      (id : String) (l : CacheLease F D) (m : LeaseManager F D)
      → find_lease id m ≡ some l
      → Keeps m (send_warm id l m)
  unfolding send_warm find_lease
  send_warm-Keeps id l m found =
      let r : LeaseRuntime = record (runtime_for id m) { warm_request_active = true } in
      put-Keeps id l (record l { state = warming }) m (put_runtime id r m) found
        (λ j. find-put_runtime id j r m) (ground arith)

  pub warm_locked-either :
      (generation : ℕ) (id : String) (l : CacheLease F D) (m : LeaseManager F D)
      → ((warm_locked generation id l m).1 ≡ m)
        ⊎ ((warm_locked generation id l m).1 ≡ send_warm id l m)
  unfolding warm_locked
  warm_locked-either generation id l m = ground arith

  pub warm_locked-Keeps :
      (generation : ℕ) (id : String) (l : CacheLease F D) (m : LeaseManager F D)
      → find_lease id m ≡ some l
      → Keeps m (warm_locked generation id l m).1
  warm_locked-Keeps generation id l m found = elim (warm_locked-either generation id l m) [
    | inl same ↦ subst (Keeps m) (sym same) (refl_Keeps m)
    | inr sends ↦ subst (Keeps m) (sym sends) (send_warm-Keeps id l m found)
  ]

  abbrev pub consumed : String → LeaseManager F D → LeaseManager F D
  consumed id m =
      put_runtime id
        (record (runtime_for id m) { scheduled_generation = none; pending_warm = false }) m

  pub warm_if_due-either :
      (id : String) (l : CacheLease F D) (m : LeaseManager F D)
      → ((warm_if_due id l m).1 ≡ consumed id m)
        ⊎ ((generation : ℕ) × ((warm_if_due id l m).1
              ≡ (warm_locked generation id l (consumed id m)).1))
  unfolding warm_if_due
  warm_if_due-either id l m = elim (Bool-cases ((runtime_for id m).real_request_active)) [
    | inl busy ↦ inl (ground arith)
    | inr idle ↦
        elim (Bool-cases
          (not (l.generation == get_or (runtime_for id m).scheduled_generation l.generation))) [
            | inl stale ↦ inl (ground arith)
            | inr fresh ↦ elim (Bool-cases (contains l.cache_fingerprint (consumed id m).locked)) [
              | inl held ↦ inl (ground arith)
              | inr free ↦
                  inr (get_or (runtime_for id m).scheduled_generation l.generation, ground arith)
            ]
          ]
  ]

  warm_if_due-Keeps :
      (id : String) (l : CacheLease F D) (m : LeaseManager F D)
      → find_lease id m ≡ some l
      → Keeps m (warm_if_due id l m).1
  warm_if_due-Keeps id l m found =
      let here =
        put_runtime-Keeps id
          (record (runtime_for id m) { scheduled_generation = none; pending_warm = false }) m in
      elim (warm_if_due-either id l m) [
        | inl same ↦ subst (Keeps m) (sym same) here
        | inr (generation, locked) ↦ subst (Keeps m) (sym locked) (
            trans_Keeps m (consumed id m) (warm_locked generation id l (consumed id m)).1 here (
              warm_locked-Keeps generation id l (consumed id m)
                (find-put_runtime id id _ m ∙ found)))
      ]

  schedule-Keeps :
      (id : String) (l : CacheLease F D) (m : LeaseManager F D)
      → find_lease id m ≡ some l
      → Keeps m (schedule id l m)
  unfolding schedule
  schedule-Keeps id l m found =
      let r : LeaseRuntime = record (runtime_for id m) {
        scheduled_generation = some l.generation;
        pending_warm = true;
      } in
      put-Keeps id l (if is_economic_stop l.state then l else record l { state = warm_scheduled }) m
        (put_runtime id r m) found (λ j. find-put_runtime id j r m) (ground arith)

module _ {F D : Type 0} ⦃f : Arith F⦄ ⦃d : Arith D⦄ ⦃c : Conversion F D⦄ (hash : Hashing) where
  gate-Evolves :
      (l : CacheLease F D) (m : LeaseManager F D)
      → Evolves l (economic_gate l m).1
        × Evolves l (record (economic_gate l m).1 { state = economic_stop })
  unfolding economic_gate
  gate-Evolves l m = elim (Bool-cases m.settings.economics.enabled) [
    | inl on ↦ rw on ground arith
    | inr off ↦ rw off ground arith
  ]

  evaluate_due-Keeps :
      (id : String) (l : CacheLease F D) (m : LeaseManager F D)
      → find_lease id m ≡ some l
      → Keeps m (evaluate_due hash id l m).1
  unfolding evaluate_due
  evaluate_due-Keeps id l m found =
      let l' : CacheLease F D = (economic_gate l m).1 in
      let stopped : CacheLease F D = record l' { state = economic_stop } in
      elim (Bool-cases (economic_gate l m).0) [
        | inl passes ↦
            rw (passes, evaluate_due)
              (trans_Keeps m (put_lease id l' m) (warm_if_due id l' (put_lease id l' m)).1
                (put-Keeps id l l' m m found (λ j. refl) (gate-Evolves l m).0)
                (warm_if_due-Keeps id l' (put_lease id l' m) (find-put_lease_self id l' m)))
        | inr stops ↦
            rw (stops, evaluate_due)
              (put-Keeps id l stopped m m found (λ j. refl) (gate-Evolves l m).1)
      ]

  pub evaluate_found-either :
      (now : F) (id : String) (l : CacheLease F D) (m : LeaseManager F D)
      → ((evaluate_found hash now id l m).1 ≡ m)
        ⊎ (((evaluate_found hash now id l m).1 ≡ schedule id l m)
            ⊎ ((evaluate_found hash now id l m).1 ≡ (evaluate_due hash id l m).1))
  unfolding evaluate_found
  evaluate_found-either now id l m = ground arith

  pub evaluate_lease-Keeps :
      (now : F) (id : String) (m : LeaseManager F D) → Keeps m (evaluate_lease hash now id m).1
  unfolding evaluate_lease
  evaluate_lease-Keeps now id m = elim (Option-cases (find_lease id m)) [
    | inl missing ↦ rw (missing, evaluate_lease) (refl_Keeps m)
    | inr (l, found) ↦
        let whole : (evaluate_found hash now id l m).1 ≡ (evaluate_lease hash now id m).1 =
          ground arith in
        subst (Keeps m) whole (elim (evaluate_found-either now id l m) [
          | inl same ↦ subst (Keeps m) (sym same) (refl_Keeps m)
          | inr (inl waits) ↦ subst (Keeps m) (sym waits) (schedule-Keeps id l m found)
          | inr (inr due) ↦ subst (Keeps m) (sym due) (evaluate_due-Keeps id l m found)
        ])
  ]

  pub resume_waiting-Keeps :
      (generation : ℕ) (id : String) (m : LeaseManager F D)
      → Keeps m (resume_waiting hash generation id m).1
  unfolding resume_waiting
  resume_waiting-Keeps generation id m = elim (Option-cases (find_lease id m)) [
    | inl missing ↦ rw (missing, resume_waiting) (refl_Keeps m)
    | inr (l, found) ↦
        let whole : (warm_locked generation id l m).1 ≡ (resume_waiting hash generation id m).1 =
          ground arith in
        subst (Keeps m) whole (warm_locked-Keeps generation id l m found)
  ]
