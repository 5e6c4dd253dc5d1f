-- ===== src/Leases/History/Creation.antt =====
-- What the finding or creating of a lease keeps.
use cachepilot.Prelude.{
  String, ◌≡◌, ◌⊎◌, Option, none, some, arith, str_eq, eq_iff, Bool-cases, Option-cases, inl, inr,
}
use mathlib.Core.Path.{subst}
use cachepilot.Numbers.{Arith}
use cachepilot.Dict.{lookup}
use cachepilot.Leases.{LeaseIdentity, CacheLease, LeaseManager, Hashing}
use cachepilot.Leases.Runtime.{find_lease}
use cachepilot.Leases.Registry.{is_switched, indexed, create_lease, find_or_create_lease}
use cachepilot.Leases.Switch.{switch}
use cachepilot.Leases.Identity.{created, created-find}
use cachepilot.Leases.History.{Evolves, Keeps, refl_Keeps}

module _ {F D : Type 0} where
  switch-Evolves : (req : LeaseIdentity) (l : CacheLease F D) → Evolves l (switch req l)
  switch-Evolves req l = elim (Bool-cases (is_switched req l)) [
    | inl switched ↦ rw switched ground arith
    | inr kept ↦ rw kept ground arith
  ]

module _ {F D : Type 0} ⦃f : Arith F⦄ (hash : Hashing) where
  created-Keeps :
      (id : String) (req : LeaseIdentity) (ttl : Option F) (confidence : F) (m : LeaseManager F D)
      → find_lease id m ≡ none
      → Keeps m (created hash id req ttl confidence m)
  created-Keeps id req ttl confidence m fresh j l found = (
    switch req l,
    ground (arith, created-find hash id j req ttl confidence m, eq_iff id j),
    switch-Evolves req l,
  )

  -- The method gives the manager as it was, or the one with the new lease.
  find_or_create_lease-either :
      (id j : String) (req : LeaseIdentity) (ttl : Option F) (confidence : F)
      (m m' : LeaseManager F D)
      → find_or_create_lease hash id req ttl confidence m ≡ some (j, m')
      → (m ≡ m') ⊎ (created hash id req ttl confidence m ≡ m')
  unfolding find_or_create_lease indexed create_lease
  find_or_create_lease-either id j req ttl confidence m m' e =
      elim (Option-cases (lookup req.cache_fingerprint m.by_cache_fingerprint)) [
        | inl missing ↦ inr (ground arith)
        | inr (old, entry) ↦ elim (Option-cases (find_lease old m)) [
          | inl dangling ↦ ground arith
          | inr (l, found) ↦ elim (Bool-cases (str_eq l.session_id req.session_id)) [
            | inl same ↦ inl (ground arith)
            | inr other ↦ inr (ground arith)
          ]
        ]
      ]

  pub find_or_create_lease-Keeps :
      (id j : String) (req : LeaseIdentity) (ttl : Option F) (confidence : F)
      (m m' : LeaseManager F D)
      → find_lease id m ≡ none
      → find_or_create_lease hash id req ttl confidence m ≡ some (j, m')
      → Keeps m m'
  find_or_create_lease-Keeps id j req ttl confidence m m' fresh e =
      elim (find_or_create_lease-either id j req ttl confidence m m' e) [
        | inl same ↦ subst (Keeps m) same (refl_Keeps m)
        | inr new ↦ subst (Keeps m) new (created-Keeps id req ttl confidence m fresh)
      ]
