-- ===== src/Leases/Registry.antt =====
-- `LeaseManager.find_or_create_lease`: the lease of a physical cache identity.
use cachepilot.Prelude.{
  String, Bool, ◌&&◌, not, Option, none, some, List, [], ◌∷◌, str_eq, get_or, if◌then◌else◌,
}
use cachepilot.Numbers.{Arith, nought}
use cachepilot.Dict.{lookup, insert, keys}
use cachepilot.Leases.{is_invalidated, inactive, LeaseIdentity, CacheLease, LeaseManager, Hashing}
use cachepilot.Leases.Runtime.{find_lease, put_lease}
use cachepilot.Leases.Lifecycle.{invalidate}
use cachepilot.Ttl.Resolver.{resolve}

module _ {F D : Type 0} where
  -- The lease of the index under a cache fingerprint, or `some none` where the index has none; a
  -- dangling index entry raises.
  unfoldable pub indexed : String → LeaseManager F D → Option (Option (String × CacheLease F D))
  unfolding find_lease
  indexed fp m = elim (lookup fp m.by_cache_fingerprint) [
    | none ↦ some none
    | some id ↦ elim (find_lease id m) [ none ↦ none | some l ↦ some (some (id, l)) ]
  ]

  -- A lease of this session and provider that stands for another cache identity.
  abbrev pub is_switched : LeaseIdentity → CacheLease F D → Bool
  is_switched req l =
      str_eq l.session_id req.session_id
      && (str_eq l.provider req.provider
          && (not (str_eq l.cache_fingerprint req.cache_fingerprint)
              && not (is_invalidated l.state)))

  -- One round of the loop over `list(self._leases.items())`.
  unfoldable pub invalidate_if : LeaseIdentity → String → LeaseManager F D → LeaseManager F D
  unfolding find_lease
  invalidate_if req id m = elim (find_lease id m) [
    | none ↦ m
    | some l ↦ if is_switched req l then get_or (invalidate id m) m else m
  ]

  unfoldable pub invalidate_switched :
      LeaseIdentity → List String → LeaseManager F D → LeaseManager F D
  unfolding invalidate_if
  invalidate_switched req [] m = m
  invalidate_switched req (id ∷ ids) m = invalidate_switched req ids (invalidate_if req id m)

module _ {F D : Type 0} ⦃f : Arith F⦄ (hash : Hashing) where
  -- The TTL of a new lease, and the confidence in it.
  unfoldable pub initial_ttl : LeaseIdentity → Option F → F → LeaseManager F D → F × F
  initial_ttl req (some ttl) confidence m = (ttl, confidence)
  initial_ttl req none confidence m = elim m.ttl_resolver [
    | none ↦ (m.settings.default_ttl_s, confidence)
    | some r ↦
        let out =
          resolve hash.sha256 r req.provider req.model req.api_mode req.base_url
            req.route_fingerprint none in
        (out.ttl_s, out.confidence)
  ]

  unfoldable pub new_lease : String → LeaseIdentity → F × F → CacheLease F D
  new_lease id req (ttl, confidence) = record {
    lease_id = id;
    identity = req;
    last_real_request_at = nought;
    last_cache_touch_at = none;
    last_confirmed_hit_at = none;
    estimated_ttl_s = ttl;
    ttl_confidence = confidence;
    active_targets = [];
    generation = 0;
    warm_count = 0;
    warm_cost_usd = nought;
    estimated_cold_resume_cost_usd = none;
    estimated_cached_resume_cost_usd = none;
    prefix_tokens = none;
    next_warm_cost_usd = none;
    last_warm_decision = none;
    state = inactive;
  }

  -- Both dicts get the new lease.
  unfoldable pub register :
      String → LeaseIdentity → Option F → F → LeaseManager F D → LeaseManager F D
  unfolding put_lease
  register id req ttl confidence m =
      let m' = put_lease id (new_lease id req (initial_ttl req ttl confidence m)) m in
      record m' { by_cache_fingerprint = insert req.cache_fingerprint id m'.by_cache_fingerprint }

  unfoldable pub create_lease :
      String → LeaseIdentity → Option F → F → LeaseManager F D → String × LeaseManager F D
  unfolding register
  create_lease id req ttl confidence m =
      (id, register id req ttl confidence (invalidate_switched req (keys m.leases) m))

  -- `id` is the fresh `uuid4`; the result is the id of the lease.
  unfoldable pub find_or_create_lease :
      String → LeaseIdentity → Option F → F → LeaseManager F D → Option (String × LeaseManager F D)
  unfolding create_lease indexed
  find_or_create_lease id req ttl confidence m = elim (indexed req.cache_fingerprint m) [
    | none ↦ none
    | some none ↦ some (create_lease id req ttl confidence m)
    | some (some (old, l)) ↦
        if str_eq l.session_id req.session_id
        then some (old, m)
        else some (create_lease id req ttl confidence m)
  ]
