-- ===== src/Leases/Runtime.antt =====
-- Access to a lease and to its runtime record. Python mutates the objects that the dicts hold: here
-- the changed record is put back under its id. A raised `KeyError` is `none`.
pub mod Laws
use cachepilot.Prelude.{String, Bool, false, Option, none, some, get_or}
use cachepilot.Dict.{lookup, insert}
use cachepilot.Leases.{
  LeaseState, is_invalidated, invalidated, armed, inactive, CacheLease, LeaseRuntime, new_runtime,
  LeaseManager,
}
use cachepilot.Prelude.{if◌then◌else◌}

module _ {F D : Type 0} where
  -- `_runtime_for`: a record that is missing is the default one.
  unfoldable pub runtime_for : String → LeaseManager F D → LeaseRuntime
  runtime_for id m = get_or (lookup id m.runtime) new_runtime

  unfoldable pub put_runtime : String → LeaseRuntime → LeaseManager F D → LeaseManager F D
  put_runtime id r m = record m { runtime = insert id r m.runtime }

  unfoldable pub find_lease : String → LeaseManager F D → Option (CacheLease F D)
  find_lease id m = lookup id m.leases

  unfoldable pub put_lease : String → CacheLease F D → LeaseManager F D → LeaseManager F D
  put_lease id l m = record m { leases = insert id l m.leases }

  -- `_require`, and what the method does with the lease.
  abbrev pub with_lease {ℓ} :
      {A : Type ℓ} → String → LeaseManager F D → (CacheLease F D → A) → Option A
  with_lease id m f = elim (find_lease id m) [ none ↦ none | some l ↦ some (f l) ]

  -- `CacheLease.arm`
  unfoldable pub arm_lease : CacheLease F D → CacheLease F D
  arm_lease l = if is_invalidated l.state then l else record l { state = armed }

  -- `CacheLease.disarm`
  unfoldable pub disarm_lease : CacheLease F D → CacheLease F D
  disarm_lease l = record l { state = inactive }

  -- `_cancel_pending_warm`
  unfoldable pub cancel_pending_warm : String → LeaseManager F D → LeaseManager F D
  unfolding put_runtime runtime_for
  cancel_pending_warm id m =
      let r = runtime_for id m in put_runtime id (record r { pending_warm = false }) m
