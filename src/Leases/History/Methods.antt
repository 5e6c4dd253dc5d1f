-- ===== src/Leases/History/Methods.antt =====
-- What each method of the manager keeps.
use cachepilot.Prelude.{
  ◌∙◌, sym, [], ◌+◌, String, ◌≡◌, refl, true, false, ◌||◌, some, List, arith, str_eq, length, ◌==◌,
  Bool-cases, inl, inr,
}
use mathlib.Core.Path.{subst}
use mathlib.Core.Option.{some-injective}
use cachepilot.Telemetry.{Outcome, is_failed}
use cachepilot.Leases.{invalidated, is_invalidated, CacheLease, LeaseManager, LeaseRuntime}
use cachepilot.Leases.Runtime.{
  runtime_for, put_runtime, put_lease, find_lease, arm_lease, disarm_lease, cancel_pending_warm,
}
use cachepilot.Leases.Priority.{after_normal_request-refused, after_normal_request-touched}
use cachepilot.Leases.Runtime.Laws.{with_lease-eq-some, find-put_runtime, find-cancel}
use cachepilot.Leases.Lifecycle.{
  arm, invalidate, complete, target_started, started, target_finished, finished, add_target,
  discard_target, is_empty,
}
use cachepilot.Leases.Requests.{before_normal_request, after_normal_request, close_circuit, touch}
use cachepilot.Leases.History.{
  Evolves, Keeps, refl_Keeps, trans_Keeps, put-Keeps, put_runtime-Keeps, cancel-Keeps,
  with_lease-Keeps,
}

module _ {F D : Type 0} where
  arm-Evolves : (l : CacheLease F D) → Evolves l (arm_lease l)
  unfolding arm_lease
  arm-Evolves l = ground arith

  pub arm-Keeps : (id : String) (m m' : LeaseManager F D) → arm id m ≡ some m' → Keeps m m'
  unfolding arm
  arm-Keeps id m m' e =
      with_lease-Keeps id m m' _
        (λ l found. put-Keeps id l (arm_lease l) m m found (λ j. refl) (arm-Evolves l)) e

  pub invalidate-Keeps :
      (id : String) (m m' : LeaseManager F D) → invalidate id m ≡ some m' → Keeps m m'
  unfolding invalidate
  invalidate-Keeps id m m' e =
      with_lease-Keeps id m m' _
        (λ l found.
          put-Keeps id l (record l { state = invalidated }) m m found (λ j. refl) (ground arith))
        e

  pub complete-Keeps :
      (id : String) (m m' : LeaseManager F D) → complete id m ≡ some m' → Keeps m m'
  unfolding complete
  complete-Keeps id m m' e =
      with_lease-Keeps id m m' _
        (λ l found.
          put-Keeps id l (disarm_lease (record l { active_targets = [] })) m
            (cancel_pending_warm id m) found (λ j. find-cancel id j m) (ground arith))
        e

  arm_with-Evolves :
      (ts : List String) (l : CacheLease F D)
      → Evolves l (arm_lease (record l { active_targets = ts }))
  unfolding arm_lease
  arm_with-Evolves ts l = ground arith

  with_targets-Evolves :
      (ts : List String) (l : CacheLease F D)
      → Evolves l (record l { active_targets = ts })
        × Evolves l (disarm_lease (record l { active_targets = ts }))
  unfolding disarm_lease
  with_targets-Evolves ts l = ground arith

  started-Evolves : (t : String) (l : CacheLease F D) → Evolves l (started t l)
  unfolding started
  started-Evolves t l = elim (Bool-cases (length (add_target t l.active_targets) == 1)) [
    | inl first ↦ rw (first, started) (arm_with-Evolves (add_target t l.active_targets) l)
    | inr later ↦ rw (later, started) (with_targets-Evolves (add_target t l.active_targets) l).0
  ]

  pub target_started-Keeps :
      (id t : String) (m m' : LeaseManager F D) → target_started id t m ≡ some m' → Keeps m m'
  unfolding target_started
  target_started-Keeps id t m m' e =
      with_lease-Keeps id m m' _
        (λ l found. elim (Bool-cases (str_eq t "")) [
          | inl empty ↦ rw empty (refl_Keeps m)
          | inr there ↦
              rw there (put-Keeps id l (started t l) m m found (λ j. refl) (started-Evolves t l))
        ])
        e

  finished-Keeps :
      (id t : String) (l : CacheLease F D) (m : LeaseManager F D)
      → find_lease id m ≡ some l
      → Keeps m (finished id t l m)
  unfolding finished
  finished-Keeps id t l m found =
      let l' : CacheLease F D = record l { active_targets = discard_target t l.active_targets } in
      elim (Bool-cases (is_empty l'.active_targets)) [
        | inl last ↦
            rw (last, finished)
              (put-Keeps id l (disarm_lease l') m (cancel_pending_warm id m) found
                (λ j. find-cancel id j m)
                (with_targets-Evolves (discard_target t l.active_targets) l).1)
        | inr others ↦
            rw (others, finished)
              (put-Keeps id l l' m m found (λ j. refl)
                (with_targets-Evolves (discard_target t l.active_targets) l).0)
      ]

  pub target_finished-Keeps :
      (id t : String) (m m' : LeaseManager F D) → target_finished id t m ≡ some m' → Keeps m m'
  unfolding target_finished
  target_finished-Keeps id t m m' e =
      with_lease-Keeps id m m' _
        (λ l found. elim (Bool-cases (str_eq t "")) [
          | inl empty ↦ rw empty (refl_Keeps m)
          | inr there ↦ rw there (finished-Keeps id t l m found)
        ])
        e

  pub before_normal_request-Keeps :
      (now : F) (id : String) (m m' : LeaseManager F D)
      → before_normal_request now id m ≡ some m'
      → Keeps m m'
  unfolding before_normal_request
  before_normal_request-Keeps now id m m' e =
      with_lease-Keeps id m m' _
        (λ l found.
          let l' : CacheLease F D = record l {
            generation = l.generation + 1;
            last_real_request_at = now;
          } in
          let r : LeaseRuntime = record (runtime_for id m) { real_request_active = true } in
          trans_Keeps m (put_lease id l' (put_runtime id r m))
            (cancel_pending_warm id (put_lease id l' (put_runtime id r m)))
            (put-Keeps id l l' m (put_runtime id r m) found (λ j. find-put_runtime id j r m)
              (ground arith))
            (cancel-Keeps id (put_lease id l' (put_runtime id r m))))
        e

  touch-Evolves : (now : F) (o : Outcome) (l : CacheLease F D) → Evolves l (touch now o l)
  unfolding touch arm_lease disarm_lease
  touch-Evolves now o l = ground arith

  pub after_normal_request-Keeps :
      (now : F) (id : String) (o : Outcome) (m m' : LeaseManager F D)
      → after_normal_request now id o m ≡ some m'
      → Keeps m m'
  unfolding after_normal_request
  after_normal_request-Keeps now id o m m' e =
      let (l, found, made) = with_lease-eq-some id m _ e in
      let r : LeaseRuntime = record (runtime_for id m) { real_request_active = false } in
      elim (Bool-cases (is_invalidated l.state || is_failed o)) [
        | inl refused ↦
            subst (Keeps m)
              (some-injective _ m'
                (sym (after_normal_request-refused now id o l m found refused) ∙ e))
              (put_runtime-Keeps id r m)
        | inr touched ↦
            subst (Keeps m)
              (some-injective _ m'
                (sym (after_normal_request-touched now id o l m found touched) ∙ e))
              (put-Keeps id l (touch now o l) m (put_runtime id (close_circuit o r) m) found
                (λ j. find-put_runtime id j (close_circuit o r) m) (touch-Evolves now o l))
      ]
