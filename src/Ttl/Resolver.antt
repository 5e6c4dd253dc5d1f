-- ===== src/Ttl/Resolver.antt =====
-- `TTLResolver` of packages/core/src/cachepilot_core/ttl.py: the order of the TTL sources.
use cachepilot.Prelude.{
  ℕ, String, ◌≡◌, ◌↔◌, ◌≢◌, ◌≤◌, ◌∙◌, true, ◌&&◌, Option, none, some, leb, arith, if◌then◌else◌,
}
use mathlib.Core.Path.{ap₂}
use cachepilot.Numbers.{Arith, lit, le, lt, nought, one}
use cachepilot.Ttl.{TtlProfile, estimate, build_profile_key, high_confidence_threshold}

pub record TtlHint (F : Type 0) : Type 0 where
  pub ttl_s : F
  pub confidence : F

pub data TtlSource : Type 0 where
  force learned adapter_hint default : TtlSource

pub record TtlResolution (F : Type 0) : Type 0 where
  pub ttl_s : F
  pub confidence : F
  pub source : TtlSource

pub record TtlResolver (F : Type 0) : Type 0 where
  pub profile_lookup : Option (String → Option (TtlProfile F))
  pub force_seconds : Option F
  pub default_ttl_s : F
  pub minimum_samples : ℕ

module _ {F : Type 0} ⦃f : Arith F⦄ where
  -- `adapter_hint.ttl_s if adapter_hint is not None else None`
  abbrev hinted : Option (TtlHint F) → Option F
  hinted none = none
  hinted (some h) = some h.ttl_s

  abbrev looked_up : Option (String → Option (TtlProfile F)) → String → Option (TtlProfile F)
  looked_up none key = none
  looked_up (some look) key = look key

  -- The tiers below the learned one.
  fallback : TtlResolver F → Option (TtlHint F) → TtlResolution F
  fallback r none = record { ttl_s = r.default_ttl_s; confidence = lit 5 10; source = default }
  fallback r (some h) =
      if lt nought h.ttl_s
      then record { ttl_s = h.ttl_s; confidence = h.confidence; source = adapter_hint }
      else record { ttl_s = r.default_ttl_s; confidence = lit 5 10; source = default }

  from_profile : TtlResolver F → Option (TtlHint F) → Option (TtlProfile F) → TtlResolution F
  unfolding fallback
  from_profile r hint none = fallback r hint
  from_profile r hint (some p) = elim (estimate p (hinted hint)) [
    | none ↦ fallback r hint
    | some e ↦
        if le high_confidence_threshold p.confidence && leb r.minimum_samples p.sample_count
        then record { ttl_s = e; confidence = p.confidence; source = learned }
        else fallback r hint
  ]

  tiers : TtlResolver F → Option (TtlHint F) → Option F → Option (TtlProfile F) → TtlResolution F
  unfolding from_profile
  tiers r hint (some s) found = record { ttl_s = s; confidence = one; source = force }
  tiers r hint none found = from_profile r hint found

  -- `TTLResolver.resolve`
  unfoldable pub resolve :
      (sha256 : String → String)
      → TtlResolver F
      → (provider model api_mode endpoint : String) → (route_hash : Option String)
      → Option (TtlHint F)
      → TtlResolution F
  unfolding tiers
  resolve sha256 r provider model api_mode endpoint route_hash hint = tiers r hint r.force_seconds (
      looked_up r.profile_lookup
        (build_profile_key sha256 provider model api_mode endpoint route_hash))

  -- A profile that may decide: its estimate is there, and it has the confidence and the samples.
  abbrev pub IsTrusted :
      TtlResolver F → Option (TtlHint F) → Option (TtlProfile F) → TtlResolution F → Type 0
  IsTrusted r hint none out = ⊥
  IsTrusted r hint (some p) out =
      (estimate p (hinted hint) ≡ some out.ttl_s)
      × (out.confidence ≡ p.confidence)
      × (le high_confidence_threshold p.confidence ≡ true)
      × (r.minimum_samples ≤ p.sample_count)

  abbrev pub IsHinted : Option (TtlHint F) → TtlResolution F → Type 0
  IsHinted none out = ⊥
  IsHinted (some h) out = (out.ttl_s ≡ h.ttl_s) × (lt nought h.ttl_s ≡ true)

  -- What the source of a resolution says, with `found` the profile of the route.
  abbrev pub IsTiered :
      TtlResolver F
      → Option (TtlHint F)
      → Option F
      → Option (TtlProfile F)
      → TtlResolution F
      → Type 0
  IsTiered r hint forced found out =
      ((out.source ≡ force) ↔ (forced ≢ none))
      × (out.source ≡ force → forced ≡ some out.ttl_s)
      × (out.source ≡ learned → IsTrusted r hint found out)
      × (out.source ≡ adapter_hint → IsHinted hint out)
      × (out.source ≡ default → out.ttl_s ≡ r.default_ttl_s)

  tiers-IsTiered :
      (r : TtlResolver F) (hint : Option (TtlHint F)) (forced : Option F)
      (found : Option (TtlProfile F))
      → IsTiered r hint forced found (tiers r hint forced found)
  unfolding tiers
  tiers-IsTiered r none (some s) found = ground arith
  tiers-IsTiered r (some h) (some s) found = ground arith
  tiers-IsTiered r none none none = ground arith
  tiers-IsTiered r (some h) none none = ground arith
  tiers-IsTiered r none none (some p) = ground arith
  tiers-IsTiered r (some h) none (some p) = ground arith

  -- A resolution names its tier: the operator's override exactly when it is set, a learned value
  -- only from the route's profile with at least the threshold's confidence and the minimum of
  -- samples, an adapter hint only if it is positive, and else the configured default.
  pub resolve-IsTiered :
      (sha256 : String → String) (r : TtlResolver F) (provider model api_mode endpoint : String)
      (route_hash : Option String) (hint : Option (TtlHint F))
      → IsTiered r hint r.force_seconds
          (looked_up r.profile_lookup
            (build_profile_key sha256 provider model api_mode endpoint route_hash))
          (resolve sha256 r provider model api_mode endpoint route_hash hint)
  unfolding resolve
  resolve-IsTiered sha256 r provider model api_mode endpoint route_hash hint =
      tiers-IsTiered r hint r.force_seconds (
        looked_up r.profile_lookup
          (build_profile_key sha256 provider model api_mode endpoint route_hash))

  learned_first_case :
      (r : TtlResolver F) (hint : Option (TtlHint F)) (p : TtlProfile F) (e : F)
      → estimate p (hinted hint) ≡ some e
      → le high_confidence_threshold p.confidence ≡ true
      → r.minimum_samples ≤ p.sample_count
      → tiers r hint none (some p)
        ≡ record { ttl_s = e; confidence = p.confidence; source = learned }
  unfolding tiers
  learned_first_case r hint p e he hc hs = ground arith

  -- The other direction for the learned tier: without an override, a profile that has an estimate,
  -- the confidence and the samples decides, whatever the adapter hints.
  learned_first :
      (sha256 : String → String) (r : TtlResolver F) (provider model api_mode endpoint : String)
      (route_hash : Option String) (hint : Option (TtlHint F)) (p : TtlProfile F) (e : F)
      → r.force_seconds ≡ none
      → looked_up r.profile_lookup
          (build_profile_key sha256 provider model api_mode endpoint route_hash)
        ≡ some p
      → estimate p (hinted hint) ≡ some e
      → le high_confidence_threshold p.confidence ≡ true
      → r.minimum_samples ≤ p.sample_count
      → resolve sha256 r provider model api_mode endpoint route_hash hint
        ≡ record { ttl_s = e; confidence = p.confidence; source = learned }
  unfolding resolve
  learned_first sha256 r provider model api_mode endpoint route_hash hint p e unset found he hc hs =
      ap₂ (tiers r hint) unset found ∙ learned_first_case r hint p e he hc hs
