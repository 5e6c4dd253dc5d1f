-- ===== src/Leases/Safety.antt =====
-- When an evaluation sends a warm request: every condition that `evaluate_lease` and `_warm_if_due`
-- ask for, and no other.
use cachepilot.Prelude.{
  ℕ, String, ◌≡◌, refl, sym, Bool, true, false, not, Option, none, some, arith, ◌↔◌, get_or,
  contains, Bool-cases, Option-cases, inl, inr,
}
use mathlib.Core.Path.{subst}
use mathlib.Core.Option.{some-injective}
use cachepilot.Numbers.{Arith, Conversion, lt}
use cachepilot.Snapshots.{RequestSnapshot}
use cachepilot.Leases.{CacheLease, LeaseManager, LeaseRuntime, Hashing, is_invalidated}
use cachepilot.Leases.Runtime.{runtime_for, put_runtime, put_lease, find_lease}
use cachepilot.Leases.Runtime.Laws.{runtime-put_runtime_self}
use cachepilot.Leases.Lifecycle.{is_empty}
use cachepilot.Leases.Scheduler.{
  sent, next_deadline, economic_gate, replayable, warm_locked, warm_if_due, evaluate_due,
  evaluate_found, evaluate_lease,
}

module _ {F D : Type 0} where
  -- Under the lock: no real request, a target, the authorized generation, and a request to replay.
  pub record IsSendable (generation : ℕ) (l : CacheLease F D) (r : LeaseRuntime)
      (m : LeaseManager F D) (snapshot : RequestSnapshot F) : Type 0 where
    pub idle : r.real_request_active ≡ false
    pub targeted : is_empty l.active_targets ≡ false
    pub authorized : l.generation ≡ generation
    pub wet : m.settings.dry_run ≡ false
    pub closed : r.circuit_open ≡ false
    pub replays : replayable l m ≡ some snapshot

  pub warm_locked-sent :
      (generation : ℕ) (id : String) (l : CacheLease F D) (m : LeaseManager F D)
      (snapshot : RequestSnapshot F)
      → (warm_locked generation id l m).0 ≡ sent snapshot
      → IsSendable generation l (runtime_for id m) m snapshot
  unfolding warm_locked
  warm_locked-sent generation id l m snapshot e = ground arith

  pub warm_locked-sends :
      (generation : ℕ) (id : String) (l : CacheLease F D) (m : LeaseManager F D)
      (snapshot : RequestSnapshot F)
      → IsSendable generation l (runtime_for id m) m snapshot
      → (warm_locked generation id l m).0 ≡ sent snapshot
  unfolding warm_locked
  warm_locked-sends generation id l m snapshot h = ground arith

  -- With the recorded generation consumed, and the lock of the identity free.
  pub record IsClear (id : String) (l : CacheLease F D) (m : LeaseManager F D)
      (snapshot : RequestSnapshot F) : Type 0 where
    pub idle : (runtime_for id m).real_request_active ≡ false
    pub targeted : is_empty l.active_targets ≡ false
    pub authorized : get_or (runtime_for id m).scheduled_generation l.generation ≡ l.generation
    pub wet : m.settings.dry_run ≡ false
    pub closed : (runtime_for id m).circuit_open ≡ false
    pub replays : replayable l m ≡ some snapshot
    pub unlocked : contains l.cache_fingerprint m.locked ≡ false

  abbrev consumed : String → LeaseManager F D → LeaseManager F D
  consumed id m =
      put_runtime id
        (record (runtime_for id m) { scheduled_generation = none; pending_warm = false }) m

  consumed_lem :
      (id : String) (l : CacheLease F D) (m : LeaseManager F D)
      → (runtime_for id (consumed id m)
          ≡ record (runtime_for id m) { scheduled_generation = none; pending_warm = false })
        × ((consumed id m).locked ≡ m.locked)
        × ((consumed id m).settings ≡ m.settings)
        × (replayable l (consumed id m) ≡ replayable l m)
  unfolding put_runtime replayable
  consumed_lem id l m = (runtime-put_runtime_self id _ m, refl, refl, refl)

  locked_iff :
      (generation : ℕ) (id : String) (l : CacheLease F D) (m : LeaseManager F D)
      (snapshot : RequestSnapshot F)
      → ((warm_locked generation id l m).0 ≡ sent snapshot)
        ↔ IsSendable generation l (runtime_for id m) m snapshot
  locked_iff generation id l m snapshot =
      (warm_locked-sent generation id l m snapshot, warm_locked-sends generation id l m snapshot)

  pub warm_if_due-sent :
      (id : String) (l : CacheLease F D) (m : LeaseManager F D) (snapshot : RequestSnapshot F)
      → ((warm_if_due id l m).0 ≡ sent snapshot) ↔ IsClear id l m snapshot
  unfolding warm_if_due
  warm_if_due-sent id l m snapshot =
      let (r, k, t, p) = consumed_lem id l m in
      ground (
        arith,
        r,
        k,
        t,
        p,
        locked_iff (get_or (runtime_for id m).scheduled_generation l.generation) id l
            (consumed id m) snapshot,
      )

module _ {F : Type 0} ⦃f : Arith F⦄ where
  -- There is a deadline, and it has come.
  abbrev pub is_due : F → Option F → Bool
  is_due now none = false
  is_due now (some due_at) = not (lt now due_at)

module _ {F D : Type 0} ⦃f : Arith F⦄ ⦃d : Arith D⦄ ⦃c : Conversion F D⦄ (hash : Hashing) where
  -- The conditions of a warm at a time, read off the manager before the evaluation.
  pub record MayWarm (now : F) (id : String) (l : CacheLease F D) (m : LeaseManager F D)
      (snapshot : RequestSnapshot F) : Type 0 where
    pub targeted : is_empty l.active_targets ≡ false
    pub idle : (runtime_for id m).real_request_active ≡ false
    pub alone : (runtime_for id m).warm_request_active ≡ false
    pub live : is_invalidated l.state ≡ false
    pub closed : (runtime_for id m).circuit_open ≡ false
    pub due : is_due now (next_deadline hash l m) ≡ true
    pub worthwhile : (economic_gate l m).0 ≡ true
    pub authorized : get_or (runtime_for id m).scheduled_generation l.generation ≡ l.generation
    pub unlocked : contains l.cache_fingerprint m.locked ≡ false
    pub wet : m.settings.dry_run ≡ false
    pub replays : replayable l m ≡ some snapshot

  gate-same :
      (l : CacheLease F D) (m : LeaseManager F D)
      → ((economic_gate l m).1.cache_fingerprint ≡ l.cache_fingerprint)
        × ((economic_gate l m).1.generation ≡ l.generation)
        × ((economic_gate l m).1.active_targets ≡ l.active_targets)
  unfolding economic_gate
  gate-same l m = ground arith

  gate-IsClear :
      (id : String) (l : CacheLease F D) (m : LeaseManager F D) (snapshot : RequestSnapshot F)
      → IsClear id (economic_gate l m).1 (put_lease id (economic_gate l m).1 m) snapshot
        ↔ IsClear id l m snapshot
  unfolding economic_gate put_lease runtime_for replayable
  gate-IsClear id l m snapshot = elim (Bool-cases m.settings.economics.enabled) [
    | inl on ↦ rw on ground arith
    | inr off ↦ rw off ground arith
  ]

  evaluate_due-sent :
      (id : String) (l : CacheLease F D) (m : LeaseManager F D) (snapshot : RequestSnapshot F)
      → ((evaluate_due hash id l m).0 ≡ sent snapshot)
        ↔ ((economic_gate l m).0 ≡ true) × IsClear id l m snapshot
  unfolding evaluate_due
  evaluate_due-sent id l m snapshot = ground (
    arith,
    gate-IsClear id l m snapshot,
    warm_if_due-sent id (economic_gate l m).1 (put_lease id (economic_gate l m).1 m) snapshot,
  )

  found-sent :
      (now : F) (id : String) (l : CacheLease F D) (m : LeaseManager F D)
      (snapshot : RequestSnapshot F)
      → ((evaluate_found hash now id l m).0 ≡ sent snapshot) ↔ MayWarm now id l m snapshot
  unfolding evaluate_found
  found-sent now id l m snapshot = ground (arith, evaluate_due-sent id l m snapshot)

  -- An evaluation sends a warm request exactly when the lease is there and every condition holds
  -- before it: a target, no real request and no warm in flight, not invalidated, the breaker closed,
  -- the deadline reached, the economic gate open, the recorded generation (if there is one) still the
  -- lease's, the lock of the cache identity free, no dry run, and a snapshot that can be replayed,
  -- which is the one that is sent.
  pub evaluate_lease-sent_iff :
      (now : F) (id : String) (m : LeaseManager F D) (snapshot : RequestSnapshot F)
      → ((evaluate_lease hash now id m).0 ≡ sent snapshot)
        ↔ ((l : CacheLease F D) × (find_lease id m ≡ some l) × MayWarm now id l m snapshot)
  unfolding evaluate_lease
  evaluate_lease-sent_iff now id m snapshot = elim (Option-cases (find_lease id m)) [
    | inl missing ↦ ground arith
    | inr (l, found) ↦
        rw (found, evaluate_lease)
          (
            λ e. (l, refl, (found-sent now id l m snapshot).0 e),
            λ h.
                let (l', same, may) = h in
                (found-sent now id l m snapshot).1
                  (subst (λ x. MayWarm now id x m snapshot) (some-injective l' l (sym same)) may),
          )
  ]
