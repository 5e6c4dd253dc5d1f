-- ===== src/Leases/Runtime/Laws.antt =====
-- Lookups after an update of the manager, and the inversion of a method's `_require`.
use cachepilot.Prelude.{
  String, ◌≡◌, refl, ap, ◌∙◌, some, arith, str_eq, eq_refl, Option-cases, inl, inr, if◌then◌else◌,
  get_or,
}
use cachepilot.Dict.Laws.{lookup-insert}
use cachepilot.Leases.{CacheLease, LeaseManager, LeaseRuntime, new_runtime}
use cachepilot.Leases.Runtime.{
  runtime_for, put_runtime, find_lease, put_lease, with_lease, cancel_pending_warm,
}

module _ {F D : Type 0} where
  pub find-put_lease :
      (id j : String) (l : CacheLease F D) (m : LeaseManager F D)
      → find_lease j (put_lease id l m) ≡ (if str_eq id j then some l else find_lease j m)
  unfolding find_lease put_lease
  find-put_lease id j l m = lookup-insert id j l m.leases

  pub find-put_runtime :
      (id j : String) (r : LeaseRuntime) (m : LeaseManager F D)
      → find_lease j (put_runtime id r m) ≡ find_lease j m
  unfolding find_lease put_runtime
  find-put_runtime id j r m = refl

  pub find-cancel :
      (id j : String) (m : LeaseManager F D)
      → find_lease j (cancel_pending_warm id m) ≡ find_lease j m
  unfolding find_lease cancel_pending_warm
  find-cancel id j m = refl

  pub runtime-put_runtime :
      (id j : String) (r : LeaseRuntime) (m : LeaseManager F D)
      → runtime_for j (put_runtime id r m) ≡ (if str_eq id j then r else runtime_for j m)
  unfolding runtime_for put_runtime
  runtime-put_runtime id j r m =
      ap (λ o. get_or o new_runtime) (lookup-insert id j r m.runtime) ∙ ground arith

  pub runtime-put_lease :
      (id j : String) (l : CacheLease F D) (m : LeaseManager F D)
      → runtime_for j (put_lease id l m) ≡ runtime_for j m
  unfolding runtime_for put_lease
  runtime-put_lease id j l m = refl

  pub find-put_lease_self :
      (id : String) (l : CacheLease F D) (m : LeaseManager F D)
      → find_lease id (put_lease id l m) ≡ some l
  find-put_lease_self id l m = simp (find-put_lease, eq_refl)

  pub runtime-put_runtime_self :
      (id : String) (r : LeaseRuntime) (m : LeaseManager F D)
      → runtime_for id (put_runtime id r m) ≡ r
  runtime-put_runtime_self id r m = simp (runtime-put_runtime, eq_refl)

  -- A method that did not raise found the lease.
  pub with_lease-eq-some {ℓ} :
      {A : Type ℓ} (id : String) (m : LeaseManager F D) (g : CacheLease F D → A) {a : A}
      → with_lease id m g ≡ some a
      → (l : CacheLease F D) × (find_lease id m ≡ some l) × (g l ≡ a)
  with_lease-eq-some id m g e = elim (Option-cases (find_lease id m)) [
    | inl missing ↦ cc
    | inr (l, found) ↦ (l, found, ground arith)
  ]

pub ruleset manager_laws =
    (find-put_lease, find-put_runtime, find-cancel, runtime-put_runtime, runtime-put_lease)
