-- ===== src/Leases/Switch.antt =====
-- The loop of `find_or_create_lease` that ends the other cache identities of a session.
use cachepilot.Prelude.{
  String, ◌≡◌, refl, ◌∙◌, true, ◌≢◌, Option, none, some, List, [], ◌∷◌, arith, contains, str_eq,
  eq_iff, if◌then◌else◌, Option-cases, inl, inr,
}
use cachepilot.Dict.{lookup}
use cachepilot.Dict.Laws.{lookup-insert}
use cachepilot.Leases.{LeaseIdentity, CacheLease, LeaseManager, invalidated, is_invalidated}
use cachepilot.Leases.Runtime.{find_lease, put_lease, put_runtime, cancel_pending_warm}
use cachepilot.Leases.Lifecycle.{invalidate}
use cachepilot.Leases.Registry.{is_switched, invalidate_if, invalidate_switched}

module _ {F D : Type 0} where
  -- A lease after a switch of its session to the requested identity.
  abbrev pub switch : LeaseIdentity → CacheLease F D → CacheLease F D
  switch req l = if is_switched req l then record l { state = invalidated } else l

  abbrev pub switch_found : LeaseIdentity → Option (CacheLease F D) → Option (CacheLease F D)
  switch_found req none = none
  switch_found req (some l) = some (switch req l)

  invalidate_if-find :
      (req : LeaseIdentity) (id j : String) (m : LeaseManager F D)
      → find_lease j (invalidate_if req id m)
        ≡ (if str_eq id j then switch_found req (find_lease j m) else find_lease j m)
  unfolding invalidate_if invalidate find_lease put_lease put_runtime cancel_pending_warm
  invalidate_if-find req id j m = elim (Option-cases (lookup id m.leases)) [
    | inl missing ↦ ground (arith, eq_iff id j)
    | inr (l, found) ↦
        ground (arith, eq_iff id j, lookup-insert id j (record l { state = invalidated }) m.leases)
  ]

  invalidate_if-index :
      (req : LeaseIdentity) (id : String) (m : LeaseManager F D)
      → (invalidate_if req id m).by_cache_fingerprint ≡ m.by_cache_fingerprint
  unfolding invalidate_if invalidate
  invalidate_if-index req id m = ground arith

  switch_again :
      (req : LeaseIdentity) (o : Option (CacheLease F D))
      → switch_found req (switch_found req o) ≡ switch_found req o
  switch_again req none = refl
  switch_again req (some l) = ground arith

  -- The loop over the leases of the manager: those that it meets are switched, whatever their order.
  pub invalidate_switched-find :
      (req : LeaseIdentity) (ids : List String) (j : String) (m : LeaseManager F D)
      → find_lease j (invalidate_switched req ids m)
        ≡ (if contains j ids then switch_found req (find_lease j m) else find_lease j m)
  unfolding invalidate_switched
  invalidate_switched-find req [] j m = refl
  invalidate_switched-find req (id ∷ ids) j m = ground (
    arith,
    invalidate_switched-find req ids j (invalidate_if req id m),
    invalidate_if-find req id j m,
    switch_again req (find_lease j m),
  )

  pub invalidate_switched-index :
      (req : LeaseIdentity) (ids : List String) (m : LeaseManager F D)
      → (invalidate_switched req ids m).by_cache_fingerprint ≡ m.by_cache_fingerprint
  unfolding invalidate_switched
  invalidate_switched-index req [] m = refl
  invalidate_switched-index req (id ∷ ids) m =
      invalidate_switched-index req ids (invalidate_if req id m) ∙ invalidate_if-index req id m

  -- The lease stands for another cache identity of the session and the provider that ask.
  pub record IsReplaced (req : LeaseIdentity) (l : CacheLease F D) : Type 0 where
    pub same_session : l.session_id ≡ req.session_id
    pub same_provider : l.provider ≡ req.provider
    pub other_identity : l.cache_fingerprint ≢ req.cache_fingerprint

  invalidated_again :
      (l : CacheLease F D) → is_invalidated l.state ≡ true → record l { state = invalidated } ≡ l
  invalidated_again l h = ground arith

  pub switch-IsReplaced :
      (req : LeaseIdentity) (l : CacheLease F D)
      → (IsReplaced req l → switch req l ≡ record l { state = invalidated })
        × (¬ IsReplaced req l → switch req l ≡ l)
  switch-IsReplaced req l = ground (
    arith,
    invalidated_again l,
    eq_iff l.session_id req.session_id,
    eq_iff l.provider req.provider,
    eq_iff l.cache_fingerprint req.cache_fingerprint,
  )
