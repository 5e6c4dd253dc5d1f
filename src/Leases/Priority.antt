-- ===== src/Leases/Priority.antt =====
-- A real request wins against a scheduled warm.
use cachepilot.Prelude.{
  ◌+◌, String, ◌≡◌, refl, sym, ◌∙◌, ap, true, false, some, arith, ◌||◌, ◌≢◌, get_or, if◌then◌else◌,
  Bool-cases, inl, inr,
}
use mathlib.Core.Option.{some-injective}
use cachepilot.Numbers.{Arith, Conversion}
use cachepilot.Snapshots.{RequestSnapshot}
use cachepilot.Telemetry.{Outcome, is_failed}
use cachepilot.Leases.{
  CacheLease, LeaseManager, LeaseRuntime, Hashing, is_invalidated, is_economic_stop, warm_scheduled,
}
use cachepilot.Leases.Runtime.{runtime_for, put_runtime, put_lease, find_lease, cancel_pending_warm}
use cachepilot.Leases.Runtime.Laws.{
  find-put_lease_self, runtime-put_runtime_self, runtime-put_lease, find-put_runtime, find-cancel,
}
use cachepilot.Leases.Requests.{before_normal_request, after_normal_request, close_circuit, touch}
use cachepilot.Leases.Scheduler.{sent, schedule, evaluate_lease}
use cachepilot.Leases.Safety.{evaluate_lease-sent_iff}

abbrev not_pending : LeaseRuntime → LeaseRuntime
not_pending r = record r { pending_warm = false }

module _ {F D : Type 0} where
  runtime-cancel_self :
      (id : String) (m : LeaseManager F D)
      → runtime_for id (cancel_pending_warm id m)
        ≡ record (runtime_for id m) { pending_warm = false }
  unfolding cancel_pending_warm
  runtime-cancel_self id m = runtime-put_runtime_self id _ m

  -- The manager after the start of a real request on a lease.
  abbrev begun : F → String → CacheLease F D → LeaseManager F D → LeaseManager F D
  begun now id l m = cancel_pending_warm id (
      put_lease id (record l { generation = l.generation + 1; last_real_request_at = now })
        (put_runtime id (record (runtime_for id m) { real_request_active = true }) m))

  pub before_normal_request-begun :
      (now : F) (id : String) (l : CacheLease F D) (m : LeaseManager F D)
      → find_lease id m ≡ some l
      → before_normal_request now id m ≡ some (begun now id l m)
  unfolding before_normal_request
  before_normal_request-begun now id l m found = ground arith

  -- The generation moves on, the request is marked, a pending warm is cancelled, and the rest of the
  -- lease's runtime stays.
  pub begun_lem :
      (now : F) (id : String) (l : CacheLease F D) (m : LeaseManager F D)
      → (find_lease id (begun now id l m)
          ≡ some (record l { generation = l.generation + 1; last_real_request_at = now }))
        × (runtime_for id (begun now id l m)
            ≡ record (runtime_for id m) { real_request_active = true; pending_warm = false })
  begun_lem now id l m = (
    find-cancel id id _ ∙ find-put_lease_self id _ _,
    runtime-cancel_self id _
        ∙ ap not_pending (runtime-put_lease id id _ _ ∙ runtime-put_runtime_self id _ m),
  )

  abbrev ended : String → LeaseManager F D → LeaseRuntime
  ended id m = record (runtime_for id m) { real_request_active = false }

  -- What the end of a request does to an invalidated lease, or after a failure: it is no longer
  -- active, and that is all.
  pub after_normal_request-refused :
      (now : F) (id : String) (o : Outcome) (l : CacheLease F D) (m : LeaseManager F D)
      → find_lease id m ≡ some l
      → (is_invalidated l.state || is_failed o) ≡ true
      → after_normal_request now id o m ≡ some (put_runtime id (ended id m) m)
  unfolding after_normal_request
  after_normal_request-refused now id o l m found h = ground arith

  pub after_normal_request-touched :
      (now : F) (id : String) (o : Outcome) (l : CacheLease F D) (m : LeaseManager F D)
      → find_lease id m ≡ some l
      → (is_invalidated l.state || is_failed o) ≡ false
      → after_normal_request now id o m
        ≡ some (put_lease id (touch now o l) (put_runtime id (close_circuit o (ended id m)) m))
  unfolding after_normal_request
  after_normal_request-touched now id o l m found h = ground arith

  -- The generation and the scheduled generation that the end of a request leaves.
  after_normal_request-generation :
      (now : F) (id : String) (o : Outcome) (l : CacheLease F D) (m m' : LeaseManager F D)
      → find_lease id m ≡ some l
      → after_normal_request now id o m ≡ some m'
      → ((l' : CacheLease F D) × (find_lease id m' ≡ some l') × (l'.generation ≡ l.generation))
        × ((runtime_for id m').scheduled_generation ≡ (runtime_for id m).scheduled_generation)
  unfolding touch close_circuit
  after_normal_request-generation now id o l m m' found e =
      elim (Bool-cases (is_invalidated l.state || is_failed o)) [
        | inl refused ↦
            let same =
              some-injective _ m'
                (sym (after_normal_request-refused now id o l m found refused) ∙ e) in
            rw (sym same) (
              (l, find-put_runtime id id _ m ∙ found, refl),
              ap (λ r. r.scheduled_generation) (runtime-put_runtime_self id (ended id m) m),
            )
        | inr touched ↦
            let same =
              some-injective _ m'
                (sym (after_normal_request-touched now id o l m found touched) ∙ e) in
            rw (sym same) (
              (touch now o l, find-put_lease_self id (touch now o l) _, ground arith),
              ap (λ r. r.scheduled_generation)
                    (runtime-put_lease id id (touch now o l) _
                      ∙ runtime-put_runtime_self id (close_circuit o (ended id m)) m)
                  ∙ ground arith,
            )
      ]

  -- The lease and its runtime after an evaluation that only schedules.
  schedule_lem :
      (id : String) (l : CacheLease F D) (m : LeaseManager F D)
      → ((l' : CacheLease F D) × (find_lease id (schedule id l m) ≡ some l')
          × (l'.generation ≡ l.generation))
        × ((runtime_for id (schedule id l m)).scheduled_generation ≡ some l.generation)
  unfolding schedule
  schedule_lem id l m =
      let l' : CacheLease F D =
        if is_economic_stop l.state then l else record l { state = warm_scheduled } in
      let m' : LeaseManager F D =
        put_runtime id
          (record (runtime_for id m) {
            scheduled_generation = some l.generation;
            pending_warm = true;
          })
          m in
      (
        (l', find-put_lease_self id l' m', ground arith),
        ap (λ r. r.scheduled_generation)
            (runtime-put_lease id id l' m' ∙ runtime-put_runtime_self id _ m),
      )

  -- What a scheduled warm is after a real request: the lease has the next generation, and the
  -- runtime still the one for which the warm was scheduled.
  overtaken :
      (t1 t2 : F) (id : String) (o : Outcome) (l : CacheLease F D) (m m1 m2 : LeaseManager F D)
      → before_normal_request t1 id (schedule id l m) ≡ some m1
      → after_normal_request t2 id o m1 ≡ some m2
      → (l' : CacheLease F D) × (find_lease id m2 ≡ some l')
        × (l'.generation ≡ l.generation + 1)
        × ((runtime_for id m2).scheduled_generation ≡ some l.generation)
  overtaken t1 t2 id o l m m1 m2 e h =
      let ((l0, found, g0), s0) = schedule_lem id l m in
      let same : begun t1 id l0 (schedule id l m) ≡ m1 =
        some-injective _ m1
          (sym (before_normal_request-begun t1 id l0 (schedule id l m) found) ∙ e) in
      let (there, run) = begun_lem t1 id l0 (schedule id l m) in
      let there' = ap (find_lease id) (sym same) ∙ there in
      let run' = ap (λ x. runtime_for id x) (sym same) ∙ run in
      let ((l', found', g), s) = after_normal_request-generation t2 id o _ m1 m2 there' h in
      (l', found', g ∙ ap (λ n. n + 1) g0, s ∙ ap (λ r. r.scheduled_generation) run' ∙ s0)

module _ {F D : Type 0} ⦃f : Arith F⦄ ⦃d : Arith D⦄ ⦃c : Conversion F D⦄ (hash : Hashing) where
  -- A real request wins: after a warm is scheduled, if a real request starts and ends, however it
  -- ends, then the next evaluation sends no warm, at whatever time it comes.
  pub real_request_wins :
      (t1 t2 now : F) (id : String) (o : Outcome) (l : CacheLease F D) (m m1 m2 : LeaseManager F D)
      (snapshot : RequestSnapshot F)
      → before_normal_request t1 id (schedule id l m) ≡ some m1
      → after_normal_request t2 id o m1 ≡ some m2
      → (evaluate_lease hash now id m2).0 ≢ sent snapshot
  real_request_wins t1 t2 now id o l m m1 m2 snapshot e h sends =
      let (l', found, g, s) = overtaken t1 t2 id o l m m1 m2 e h in
      let (l2, found2, may) = (evaluate_lease-sent_iff hash now id m2 snapshot).0 sends in
      let same = some-injective l2 l' (sym found2 ∙ found) in
      let stale = may.authorized in
      omega
        (arith, g, ap (λ x. x.generation) same, sym (ap (λ q. get_or q l2.generation) s) ∙ stale)
