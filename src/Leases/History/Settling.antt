-- ===== src/Leases/History/Settling.antt =====
-- What the end of a warm and the refresh of the TTL and of the costs keep.
use cachepilot.Prelude.{
  String, ◌≡◌, refl, Option, some, arith, leb, Bool-cases, Option-cases, inl, inr,
}
use mathlib.Core.Path.{subst}
use cachepilot.Numbers.{Arith, Conversion}
use cachepilot.Usage.{TokenUsage}
use cachepilot.Leases.{CacheLease, LeaseManager, LeaseRuntime, LeaseDecision, Hashing, WarmResult}
use cachepilot.Leases.Runtime.{runtime_for, put_runtime, put_lease, find_lease, arm_lease}
use cachepilot.Leases.Requests.{refresh_ttl, priced, update_cost_estimates}
use cachepilot.Leases.Warm.{
  settle, apply_warm_result, fold_outcome, charge, miss, finish_warm, finished_warm,
}
use cachepilot.Leases.History.{
  Evolves, Keeps, refl_Keeps, trans_Keeps, put-Keeps, put_runtime-Keeps, with_lease-Keeps,
}

module _ {F D : Type 0} ⦃f : Arith F⦄ ⦃d : Arith D⦄ ⦃c : Conversion F D⦄ where
  settle-Evolves :
      (now : F) (result : Option (WarmResult D)) (l : CacheLease F D) (r : LeaseRuntime)
      → Evolves l (settle now result l r).0
  unfolding settle apply_warm_result fold_outcome charge miss arm_lease
  settle-Evolves now result l r = ground arith

  finished_warm-Keeps :
      (now : F) (result : Option (WarmResult D)) (id : String) (l : CacheLease F D)
      (m : LeaseManager F D)
      → find_lease id m ≡ some l
      → Keeps m (finished_warm now result id l m).1
  unfolding finished_warm find_lease
  finished_warm-Keeps now result id l m found =
      let l' : CacheLease F D = (settle now result l (runtime_for id m)).0 in
      let r' : LeaseRuntime = (settle now result l (runtime_for id m)).1 in
      trans_Keeps m (put_lease id l' m) (put_runtime id r' (put_lease id l' m))
        (put-Keeps id l l' m m found (λ j. refl) (settle-Evolves now result l (runtime_for id m)))
        (put_runtime-Keeps id r' (put_lease id l' m))

  pub finish_warm-Keeps :
      (now : F) (result : Option (WarmResult D)) (id : String) (decision : LeaseDecision)
      (m m' : LeaseManager F D)
      → finish_warm now result id m ≡ some (decision, m')
      → Keeps m m'
  unfolding finish_warm
  finish_warm-Keeps now result id decision m m' e = elim (Option-cases (find_lease id m)) [
    | inl missing ↦ ground arith
    | inr (l, found) ↦
        let whole : (finished_warm now result id l m).1 ≡ m' = ground arith in
        subst (Keeps m) whole (finished_warm-Keeps now result id l m found)
  ]

  priced-Evolves :
      (usage : TokenUsage D) (m : LeaseManager F D) (l : CacheLease F D)
      → Evolves l (priced usage m l)
  unfolding priced
  priced-Evolves usage m l = ground arith

  pub update_cost_estimates-Keeps :
      (id : String) (usage : TokenUsage D) (m m' : LeaseManager F D)
      → update_cost_estimates id usage m ≡ some m'
      → Keeps m m'
  unfolding update_cost_estimates
  update_cost_estimates-Keeps id usage m m' e =
      with_lease-Keeps id m m' _
        (λ l found. elim (Bool-cases (leb usage.prompt_tokens 0)) [
          | inl unusable ↦ rw unusable (refl_Keeps m)
          | inr usable ↦
              rw usable
                (put-Keeps id l (priced usage m l) m m found (λ j. refl) (priced-Evolves usage m l))
        ])
        e

  pub refresh_ttl-Keeps :
      (hash : Hashing) (id : String) (m m' : LeaseManager F D)
      → refresh_ttl hash id m ≡ some m'
      → Keeps m m'
  unfolding refresh_ttl
  refresh_ttl-Keeps hash id m m' e =
      with_lease-Keeps id m m' _
        (λ l found. elim (Option-cases m.ttl_resolver) [
          | inl unset ↦ rw unset (refl_Keeps m)
          | inr (r, set) ↦ rw set (put-Keeps id l _ m m found (λ j. refl) (ground arith))
        ])
        e
