-- ===== src/Leases/Identity.antt =====
-- `find_or_create_lease`: which lease it gives, and what becomes of the others.
use cachepilot.Prelude.{
  String, ◌≡◌, refl, sym, ◌∙◌, ap, false, ◌⊎◌, Option, none, some, arith, str_eq, eq_iff, eq_refl,
  if◌then◌else◌, Bool-cases, Option-cases, inl, inr,
}
use mathlib.Core.Path.{subst}
use mathlib.Core.Option.{some-injective}
use cachepilot.Numbers.{Arith}
use cachepilot.Dict.{lookup, keys}
use cachepilot.Dict.Laws.{lookup-insert, contains-keys}
use cachepilot.Leases.{LeaseIdentity, CacheLease, LeaseManager, Hashing, invalidated}
use cachepilot.Leases.Runtime.{find_lease, put_lease}
use cachepilot.Leases.Registry.{
  indexed, invalidate_switched, initial_ttl, new_lease, register, create_lease,
  find_or_create_lease,
}
use cachepilot.Leases.Switch.{
  switch, switch_found, invalidate_switched-find, invalidate_switched-index, IsReplaced,
  switch-IsReplaced,
}

module _ {F D : Type 0} where
  -- The index by cache fingerprint is sound: each entry leads to a lease with that fingerprint.
  abbrev pub IsIndexed : LeaseManager F D → Type 0
  IsIndexed m =
      (fp id : String)
      → lookup fp m.by_cache_fingerprint ≡ some id
      → (l : CacheLease F D) × (find_lease id m ≡ some l) × (l.cache_fingerprint ≡ fp)

module _ {F D : Type 0} ⦃f : Arith F⦄ (hash : Hashing) where
  invalidate_all-find :
      (req : LeaseIdentity) (j : String) (m : LeaseManager F D)
      → find_lease j (invalidate_switched req (keys m.leases) m) ≡ switch_found req (find_lease j m)
  unfolding find_lease
  invalidate_all-find req j m = elim (Option-cases (lookup j m.leases)) [
    | inl missing ↦ ground (arith, invalidate_switched-find req (keys m.leases) j m)
    | inr (l, found) ↦
        ground (arith, contains-keys j m.leases, invalidate_switched-find req (keys m.leases) j m)
  ]

  abbrev pub created : String → LeaseIdentity → Option F → F → LeaseManager F D → LeaseManager F D
  created id req ttl confidence m =
      register hash id req ttl confidence (invalidate_switched req (keys m.leases) m)

  -- The TTL of a new lease reads the resolver and the settings, which a switch leaves alone.
  pub made : String → LeaseIdentity → Option F → F → LeaseManager F D → CacheLease F D
  made id req ttl confidence m =
      new_lease hash id req
        (initial_ttl hash req ttl confidence (invalidate_switched req (keys m.leases) m))

  pub created-find :
      (id j : String) (req : LeaseIdentity) (ttl : Option F) (confidence : F) (m : LeaseManager F D)
      → find_lease j (created id req ttl confidence m) ≡ (
          if str_eq id j
          then some (made id req ttl confidence m)
          else switch_found req (find_lease j m))
  unfolding register made find_lease put_lease
  created-find id j req ttl confidence m =
      lookup-insert id j _ _
      ∙ ap (λ o. if str_eq id j then some (made id req ttl confidence m) else o)
          (invalidate_all-find req j m)

  created-index :
      (id fp : String) (req : LeaseIdentity) (ttl : Option F) (confidence : F)
      (m : LeaseManager F D)
      → lookup fp (created id req ttl confidence m).by_cache_fingerprint
        ≡ (if str_eq req.cache_fingerprint fp then some id else lookup fp m.by_cache_fingerprint)
  unfolding register put_lease
  created-index id fp req ttl confidence m =
      lookup-insert req.cache_fingerprint fp id _
      ∙ ap (λ d. if str_eq req.cache_fingerprint fp then some id else lookup fp d)
          (invalidate_switched-index req (keys m.leases) m)

  -- The lease that is made stands for the requested identity.
  pub made_lem :
      (id : String) (req : LeaseIdentity) (ttl : Option F) (confidence : F) (m : LeaseManager F D)
      → ((made id req ttl confidence m).identity ≡ req)
        × ((made id req ttl confidence m).lease_id ≡ id)
  unfolding made new_lease
  made_lem id req ttl confidence m = (refl, refl)

  -- The two ways in which the lease is found or created, on a sound index.
  find_or_create_lease-cases :
      (id : String) (req : LeaseIdentity) (ttl : Option F) (confidence : F) (m : LeaseManager F D)
      → IsIndexed m
      → ((old : String) × (l : CacheLease F D) × (find_lease old m ≡ some l)
          × (l.cache_fingerprint ≡ req.cache_fingerprint)
          × (l.session_id ≡ req.session_id)
          × (find_or_create_lease hash id req ttl confidence m ≡ some (old, m)))
        ⊎ (find_or_create_lease hash id req ttl confidence m
            ≡ some (id, created id req ttl confidence m))
  unfolding find_or_create_lease indexed create_lease
  find_or_create_lease-cases id req ttl confidence m sound =
      elim (Option-cases (lookup req.cache_fingerprint m.by_cache_fingerprint)) [
        | inl missing ↦ inr (ground arith)
        | inr (old, entry) ↦
            let (l, found, fits) = sound req.cache_fingerprint old entry in
            elim (Bool-cases (str_eq l.session_id req.session_id)) [
              | inl same ↦ inl (old, l, found, fits, (eq_iff _ _).0 same, ground arith)
              | inr other ↦ inr (ground arith)
            ]
      ]

  -- A lease for the requested identity is always given: on a sound index the method does not raise,
  -- and its lease is of the requested session and of the requested cache identity.
  pub find_or_create_lease-found :
      (id : String) (req : LeaseIdentity) (ttl : Option F) (confidence : F) (m : LeaseManager F D)
      → IsIndexed m
      → (j : String) × (m' : LeaseManager F D) × (l : CacheLease F D) × (find_or_create_lease hash
            id req ttl confidence m
          ≡ some (j, m'))
        × (find_lease j m' ≡ some l)
        × (l.session_id ≡ req.session_id)
        × (l.cache_fingerprint ≡ req.cache_fingerprint)
  find_or_create_lease-found id req ttl confidence m sound =
      elim (find_or_create_lease-cases id req ttl confidence m sound) [
        | inl (old, l, found, fits, same, e) ↦ (old, m, l, e, found, same, fits)
        | inr e ↦
            let (identity, _) = made_lem id req ttl confidence m in
            (
              id,
              created id req ttl confidence m,
              made id req ttl confidence m,
              e,
              ground (arith, created-find id id req ttl confidence m, eq_refl id),
              ap (λ i. i.session_id) identity,
              ap (λ i. i.cache_fingerprint) identity,
            )
      ]

  created-IsIndexed :
      (id : String) (req : LeaseIdentity) (ttl : Option F) (confidence : F) (m : LeaseManager F D)
      → IsIndexed m
      → find_lease id m ≡ none
      → IsIndexed (created id req ttl confidence m)
  created-IsIndexed id req ttl confidence m sound fresh fp j entry =
      elim (Bool-cases (str_eq req.cache_fingerprint fp)) [
        | inl same ↦
            let at : id ≡ j = ground (arith, created-index id fp req ttl confidence m) in
            (
              made id req ttl confidence m,
              ground (arith, created-find id j req ttl confidence m, eq_iff id j),
              ap (λ i. i.cache_fingerprint) (made_lem id req ttl confidence m).0
                  ∙ (eq_iff req.cache_fingerprint fp).0 same,
            )
        | inr other ↦
            let (l, found, fits) =
              sound fp j (ground (arith, created-index id fp req ttl confidence m)) in
            let new : str_eq id j ≡ false = ground (arith, eq_iff id j) in
            (switch req l, ground (arith, created-find id j req ttl confidence m), ground arith)
      ]

  -- The index stays sound under `find_or_create_lease`, given a fresh id.
  pub find_or_create_lease-IsIndexed :
      (id j : String) (req : LeaseIdentity) (ttl : Option F) (confidence : F)
      (m m' : LeaseManager F D)
      → IsIndexed m
      → find_lease id m ≡ none
      → find_or_create_lease hash id req ttl confidence m ≡ some (j, m')
      → IsIndexed m'
  find_or_create_lease-IsIndexed id j req ttl confidence m m' sound fresh e =
      elim (find_or_create_lease-cases id req ttl confidence m sound) [
        | inl (old, l, found, fits, same, h) ↦
            subst IsIndexed (ap (λ p. p.1) (some-injective (old, m) (j, m') (sym h ∙ e))) sound
        | inr h ↦
            subst IsIndexed
              (ap (λ p. p.1)
                (some-injective (id, created id req ttl confidence m) (j, m') (sym h ∙ e)))
              (created-IsIndexed id req ttl confidence m sound fresh)
      ]

  created-switch :
      (id j : String) (req : LeaseIdentity) (ttl : Option F) (confidence : F) (l : CacheLease F D)
      (m m' : LeaseManager F D)
      → IsIndexed m
      → find_lease id m ≡ none
      → find_or_create_lease hash id req ttl confidence m ≡ some (id, m')
      → find_lease j m ≡ some l
      → find_lease j m' ≡ some (switch req l)
  created-switch id j req ttl confidence l m m' sound fresh e there =
      elim (find_or_create_lease-cases id req ttl confidence m sound) [
        | inl (old, l', found, fits, same, h) ↦
            let at : old ≡ id = ap (λ p. p.0) (some-injective (old, m) (id, m') (sym h ∙ e)) in
            cc (found, fresh, at)
        | inr h ↦
            let at =
              ap (λ p. p.1)
                (some-injective (id, created id req ttl confidence m) (id, m') (sym h ∙ e)) in
            let new : str_eq id j ≡ false = ground (arith, eq_iff id j) in
            ap (find_lease j) (sym at) ∙ ground (arith, created-find id j req ttl confidence m)
      ]

  -- A new lease ends every other identity of its session with the provider: where the method gives
  -- the fresh id, each lease that was there is invalidated if it is of the same session and provider
  -- with another cache fingerprint, and otherwise it is as it was.
  pub find_or_create_lease-switches :
      (id j : String) (req : LeaseIdentity) (ttl : Option F) (confidence : F) (l : CacheLease F D)
      (m m' : LeaseManager F D)
      → IsIndexed m
      → find_lease id m ≡ none
      → find_or_create_lease hash id req ttl confidence m ≡ some (id, m')
      → find_lease j m ≡ some l
      → (IsReplaced req l → find_lease j m' ≡ some (record l { state = invalidated }))
        × (¬ IsReplaced req l → find_lease j m' ≡ some l)
  find_or_create_lease-switches id j req ttl confidence l m m' sound fresh e there =
      let left = created-switch id j req ttl confidence l m m' sound fresh e there in
      let (replaced, kept) = switch-IsReplaced req l in
      (λ h. left ∙ ap some (replaced h), λ h. left ∙ ap some (kept h))
