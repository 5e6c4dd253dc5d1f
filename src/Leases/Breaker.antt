-- ===== src/Leases/Breaker.antt =====
-- The circuit breaker over several warms of a lease, and the request that closes it.
use cachepilot.Prelude.{
  String, ◌≡◌, refl, sym, ◌∙◌, ap, true, false, Option, some, List, [], ◌∷◌, ◌++◌, arith,
  if◌then◌else◌, Bool-cases, inl, inr,
}
use mathlib.Core.Option.{some-injective}
use cachepilot.Numbers.{Arith, Conversion}
use cachepilot.Telemetry.{Outcome, is_verified, is_failed}
use cachepilot.Leases.{CacheLease, LeaseRuntime, LeaseManager, WarmResult, is_invalidated}
use cachepilot.Leases.Runtime.{runtime_for, find_lease}
use cachepilot.Leases.Runtime.Laws.{runtime-put_runtime_self, runtime-put_lease}
use cachepilot.Leases.Requests.{close_circuit, after_normal_request, touch}
use cachepilot.Leases.Priority.{after_normal_request-refused, after_normal_request-touched}
use cachepilot.Leases.Warm.{settle, caught}
use cachepilot.Leases.Evidence.{is_miss, settle-IsSettled}

module _ {F D : Type 0} ⦃f : Arith F⦄ ⦃d : Arith D⦄ ⦃c : Conversion F D⦄ where
  -- Warms that return one after the other, each with the time at which it does.
  unfoldable pub settle_all :
      List (F × Option (WarmResult D))
      → CacheLease F D × LeaseRuntime
      → CacheLease F D × LeaseRuntime
  settle_all [] s = s
  settle_all ((now, result) ∷ rest) (l, r) =
      let (l', r', decision) = settle now result l r in settle_all rest (l', r')

  settle_all-append :
      (xs ys : List (F × Option (WarmResult D))) (s : CacheLease F D × LeaseRuntime)
      → settle_all (xs ++ ys) s ≡ settle_all ys (settle_all xs s)
  unfolding settle_all
  settle_all-append [] ys s = refl
  settle_all-append ((now, result) ∷ xs) ys (l, r) = settle_all-append xs ys _

  settle-open :
      (now : F) (result : Option (WarmResult D)) (l : CacheLease F D) (r : LeaseRuntime)
      → r.circuit_open ≡ true
      → (settle now result l r).1.circuit_open ≡ true
  settle-open now result l r h = elim (Bool-cases (is_miss (caught result))) [
    | inl miss ↦ ground (arith, (settle-IsSettled now result l r).misses miss)
    | inr other ↦ ground (arith, (settle-IsSettled now result l r).other other)
  ]

  -- An open circuit stays open over any warms.
  settle_all-open :
      (xs : List (F × Option (WarmResult D))) (s : CacheLease F D × LeaseRuntime)
      → s.1.circuit_open ≡ true
      → (settle_all xs s).1.circuit_open ≡ true
  unfolding settle_all
  settle_all-open [] s h = h
  settle_all-open ((now, result) ∷ xs) (l, r) h =
      settle_all-open xs _ (settle-open now result l r h)

  two_misses :
      (t1 t2 : F) (a b : Option (WarmResult D)) (l : CacheLease F D) (r : LeaseRuntime)
      → is_miss (caught a) ≡ true
      → is_miss (caught b) ≡ true
      → (settle_all ((t1, a) ∷ (t2, b) ∷ []) (l, r)).1.circuit_open ≡ true
  unfolding settle_all
  two_misses t1 t2 a b l r ha hb =
      let (n, _) = (settle-IsSettled t1 a l r).misses ha in
      let (_, o) = (settle-IsSettled t2 b (settle t1 a l r).0 (settle t1 a l r).1).misses hb in
      ground (arith, n, o)

  -- Two warms in a row that return without a confirmed hit open the circuit, whatever came before,
  -- and no warm after them closes it.
  pub two_misses_open :
      (xs ys : List (F × Option (WarmResult D))) (t1 t2 : F) (a b : Option (WarmResult D))
      (s : CacheLease F D × LeaseRuntime)
      → is_miss (caught a) ≡ true
      → is_miss (caught b) ≡ true
      → (settle_all (xs ++ ((t1, a) ∷ (t2, b) ∷ ys)) s).1.circuit_open ≡ true
  unfolding settle_all
  two_misses_open xs ys t1 t2 a b s ha hb =
      let before = settle_all xs s in
      ap (λ z. z.1.circuit_open) (settle_all-append xs ((t1, a) ∷ (t2, b) ∷ ys) s)
      ∙ settle_all-open ys _ (two_misses t1 t2 a b before.0 before.1 ha hb)

module _ {F D : Type 0} where
  -- A real request that ends on a lease that is not invalidated closes an open circuit exactly when
  -- its outcome is verified (a hit or a rebuilt miss).
  pub request_closes_circuit :
      (now : F) (id : String) (o : Outcome) (l : CacheLease F D) (m m' : LeaseManager F D)
      → find_lease id m ≡ some l
      → is_invalidated l.state ≡ false
      → after_normal_request now id o m ≡ some m'
      → (runtime_for id m').circuit_open
        ≡ (if is_verified o then false else (runtime_for id m).circuit_open)
  unfolding close_circuit
  request_closes_circuit now id o l m m' found live e = elim (Bool-cases (is_failed o)) [
    | inl failure ↦
        let same =
          some-injective _ m'
            (sym (after_normal_request-refused now id o l m found (ground arith)) ∙ e) in
        ap (λ x. (runtime_for id x).circuit_open) (sym same)
        ∙ ap (λ r. r.circuit_open) (runtime-put_runtime_self id _ m)
        ∙ ground arith
    | inr fine ↦
        let same =
          some-injective _ m'
            (sym (after_normal_request-touched now id o l m found (ground arith)) ∙ e) in
        ap (λ x. (runtime_for id x).circuit_open) (sym same)
        ∙ ap (λ r. r.circuit_open)
            (runtime-put_lease id id (touch now o l) _ ∙ runtime-put_runtime_self id _ m)
        ∙ ground arith
  ]
