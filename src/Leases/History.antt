-- ===== src/Leases/History.antt =====
-- Every way in which the lease manager changes, in any order: real requests, targets and completed
-- warms may come between the start and the end of a warm. What no history undoes.
pub mod Methods
mod Examples
pub mod Runs
pub mod Settling
pub mod Creation
pub mod Warms
use cachepilot.Prelude.{
  ℕ, ◌≤◌, String, ◌≡◌, refl, sym, ◌∙◌, ap, true, Option, some, arith, str_eq, eq_iff, Bool-cases,
  inl, inr, if◌then◌else◌,
}
use mathlib.Core.Path.{subst}
use mathlib.Core.Option.{some-injective}
use cachepilot.Leases.{CacheLease, LeaseManager, LeaseRuntime}
use cachepilot.Leases.Runtime.{put_runtime, put_lease, find_lease, with_lease, cancel_pending_warm}
use cachepilot.Leases.Runtime.Laws.{
  find-put_lease, find-put_runtime, find-cancel, with_lease-eq-some,
}

module _ {F D : Type 0} where
  -- The same lease later: its identity is fixed, and its counters do not fall.
  pub record Evolves (l l' : CacheLease F D) : Type 0 where
    pub same_id : l'.lease_id ≡ l.lease_id
    pub same_identity : l'.identity ≡ l.identity
    pub generation_grows : l.generation ≤ l'.generation
    pub warms_grow : l.warm_count ≤ l'.warm_count

  pub refl_Evolves : (l : CacheLease F D) → Evolves l l
  refl_Evolves l = ground arith

  trans_Evolves : (a b c : CacheLease F D) → Evolves a b → Evolves b c → Evolves a c
  trans_Evolves a b c h k = record {
    same_id = k.same_id ∙ h.same_id;
    same_identity = k.same_identity ∙ h.same_identity;
    generation_grows = omega (arith, h.generation_grows, k.generation_grows);
    warms_grow = omega (arith, h.warms_grow, k.warms_grow);
  }

  -- Every lease of one manager is in the other, later.
  abbrev pub Keeps : LeaseManager F D → LeaseManager F D → Type 0
  Keeps m m' =
      (j : String) (l : CacheLease F D)
      → find_lease j m ≡ some l
      → (l' : CacheLease F D) × (find_lease j m' ≡ some l') × Evolves l l'

  pub refl_Keeps : (m : LeaseManager F D) → Keeps m m
  refl_Keeps m j l e = (l, e, refl_Evolves l)

  pub trans_Keeps : (a b c : LeaseManager F D) → Keeps a b → Keeps b c → Keeps a c
  trans_Keeps a b c h k j l e =
      let (l', found, step) = h j l e in
      let (l'', found', step') = k j l' found in (l'', found', trans_Evolves l l' l'' step step')

  pub same_Keeps :
      (m m' : LeaseManager F D) → ((j : String) → find_lease j m' ≡ find_lease j m) → Keeps m m'
  same_Keeps m m' h j l e = (l, h j ∙ e, refl_Evolves l)

  put_lease-Keeps :
      (id : String) (l l' : CacheLease F D) (m : LeaseManager F D)
      → find_lease id m ≡ some l
      → Evolves l l'
      → Keeps m (put_lease id l' m)
  put_lease-Keeps id l l' m found step j old e = elim (Bool-cases (str_eq id j)) [
    | inl same ↦
        let here : some l ≡ some old =
          sym found ∙ ap (λ k. find_lease k m) ((eq_iff id j).0 same) ∙ e in
        (
          l',
          find-put_lease id j l' m ∙ ground arith,
          subst (λ x. Evolves x l') (some-injective l old here) step,
        )
    | inr other ↦ (old, find-put_lease id j l' m ∙ ground arith, refl_Evolves old)
  ]

  pub put_runtime-Keeps :
      (id : String) (r : LeaseRuntime) (m : LeaseManager F D) → Keeps m (put_runtime id r m)
  put_runtime-Keeps id r m = same_Keeps m _ λ j. find-put_runtime id j r m

  pub cancel-Keeps : (id : String) (m : LeaseManager F D) → Keeps m (cancel_pending_warm id m)
  cancel-Keeps id m = same_Keeps m _ λ j. find-cancel id j m

  -- A lease is put back, changed, into a manager that has the same leases.
  pub put-Keeps :
      (id : String) (l l' : CacheLease F D) (m m' : LeaseManager F D)
      → find_lease id m ≡ some l
      → ((j : String) → find_lease j m' ≡ find_lease j m)
      → Evolves l l'
      → Keeps m (put_lease id l' m')
  put-Keeps id l l' m m' found same step =
      trans_Keeps m m' (put_lease id l' m') (same_Keeps m m' same)
        (put_lease-Keeps id l l' m' (same id ∙ found) step)

  -- A method that succeeds on a lease: it is enough that its effect keeps what was there.
  pub with_lease-Keeps :
      (id : String) (m m' : LeaseManager F D) (g : CacheLease F D → LeaseManager F D)
      → ((l : CacheLease F D) → find_lease id m ≡ some l → Keeps m (g l))
      → with_lease id m g ≡ some m'
      → Keeps m m'
  with_lease-Keeps id m m' g h e =
      let (l, found, made) = with_lease-eq-some id m g e in subst (Keeps m) made (h l found)
