-- ===== src/Ttl.antt =====
-- packages/core/src/cachepilot_core/ttl.py: the learned TTL bounds of one route.
pub mod Store
pub mod Learner
pub mod Resolver
pub mod Bounds
mod Examples
use cachepilot.Prelude.{
  ℕ, suc, String, ◌≡◌, Bool, true, false, ◌&&◌, Option, none, some, is_none, get_or, if◌then◌else◌,
}
use Prim.Native.String.{◌++◌}
use cachepilot.Numbers.{Arith, lit, add, sub, mul, le, max, min, nought}
use cachepilot.Telemetry.{Outcome, confirmed_hit, miss_rebuilt, success_unverified, failed}

-- `None or ""`, as in `route_hash or ""`.
abbrev text_or_empty : Option String → String
text_or_empty o = get_or o ""

-- The latency columns are always `None` and are left out; `updated_at` is in microseconds.
pub record TtlProfile (F : Type 0) : Type 0 where
  pub provider : String
  pub model : String
  pub api_mode : String
  pub endpoint_hash : String
  pub route_hash : Option String
  pub lower_bound_s : Option F
  pub upper_bound_s : Option F
  pub estimated_ttl_s : Option F
  pub confidence : F
  pub sample_count : ℕ
  pub updated_at : Option ℕ

module _ {F : Type 0} ⦃f : Arith F⦄ where
  abbrev pub high_confidence_threshold : F
  high_confidence_threshold = lit 7 10

  abbrev pub confidence_floor : F
  confidence_floor = lit 5 100

  abbrev pub confidence_ceil : F
  confidence_ceil = lit 95 100

  abbrev hit_delta : F
  hit_delta = lit 5 100

  abbrev miss_delta : F
  miss_delta = lit 2 100

  abbrev unverified_delta : F
  unverified_delta = sub nought (lit 5 100)

  abbrev inconsistent_delta : F
  inconsistent_delta = sub nought (lit 5 100)

  abbrev pub estimate_interval_fraction : F
  estimate_interval_fraction = lit 35 100

  -- `TTLProfile.estimate`
  pub estimate : TtlProfile F → Option F → Option F
  estimate p adapter_hint = elim p.upper_bound_s [
    | some upper ↦
        let lower = get_or p.lower_bound_s nought in
        some (add lower (mul (sub upper lower) estimate_interval_fraction))
    | none ↦
        if is_none adapter_hint && is_none p.lower_bound_s
        then none
        else some (max (get_or adapter_hint nought) (get_or p.lower_bound_s nought))
  ]

  clamp_confidence : F → F
  clamp_confidence c = min confidence_ceil (max confidence_floor c)

  -- `TTLProfile._adjust_confidence`
  adjust_confidence : TtlProfile F → F → TtlProfile F
  unfolding clamp_confidence
  adjust_confidence p delta = record p { confidence = clamp_confidence (add p.confidence delta) }

  observe_hit : TtlProfile F → F → TtlProfile F
  unfolding adjust_confidence
  observe_hit p idle_age_s =
      let new_lower = max (get_or p.lower_bound_s nought) idle_age_s in
      let consistent : Bool = elim p.upper_bound_s [
        | none ↦ true
        | some upper ↦ le new_lower upper
      ] in
      adjust_confidence (record p { lower_bound_s = some new_lower })
        (if consistent then hit_delta else inconsistent_delta)

  -- `idle_age_s if self.upper_bound_s is None else min(self.upper_bound_s, idle_age_s)`
  abbrev lowered : Option F → F → F
  lowered none idle_age_s = idle_age_s
  lowered (some upper) idle_age_s = min upper idle_age_s

  observe_miss : TtlProfile F → F → TtlProfile F
  unfolding adjust_confidence
  observe_miss p idle_age_s =
      let new_upper = lowered p.upper_bound_s idle_age_s in
      let consistent : Bool = elim p.lower_bound_s [
        | none ↦ true
        | some lower ↦ le lower new_upper
      ] in
      adjust_confidence (record p { upper_bound_s = some new_upper })
        (if consistent then miss_delta else inconsistent_delta)

  -- A hit or a miss at an idle age that is there and not negative.
  observe_aged : Outcome → TtlProfile F → F → TtlProfile F
  unfolding observe_hit observe_miss
  observe_aged confirmed_hit p age =
      observe_hit (record p { sample_count = suc p.sample_count }) age
  observe_aged miss_rebuilt p age =
      observe_miss (record p { sample_count = suc p.sample_count }) age
  observe_aged _ p age = record p { sample_count = suc p.sample_count }

  observe_decisive : Outcome → TtlProfile F → Option F → TtlProfile F
  unfolding observe_aged
  observe_decisive o p none = p
  observe_decisive o p (some age) = if le nought age then observe_aged o p age else p

  -- `self.estimated_ttl_s = self.estimate()`
  re_estimate : TtlProfile F → TtlProfile F
  re_estimate p = record p { estimated_ttl_s = estimate p none }

  -- `TTLProfile.observe`
  unfoldable pub observe : Outcome → TtlProfile F → Option F → TtlProfile F
  unfolding adjust_confidence observe_decisive re_estimate
  observe failed p age = p
  observe success_unverified p age = re_estimate (adjust_confidence p unverified_delta)
  observe confirmed_hit p age = re_estimate (observe_decisive confirmed_hit p age)
  observe miss_rebuilt p age = re_estimate (observe_decisive miss_rebuilt p age)

-- `_join_key`
unfoldable pub join_key : String → String → String → String → Option String → String
join_key provider model api_mode endpoint_hash route_hash =
    provider
    ++ "|"
    ++ model
    ++ "|"
    ++ api_mode
    ++ "|"
    ++ endpoint_hash
    ++ "|"
    ++ text_or_empty route_hash

-- `TTLProfile.profile_key`
unfoldable pub profile_key : {F : Type 0} → TtlProfile F → String
unfolding join_key
profile_key p = join_key p.provider p.model p.api_mode p.endpoint_hash p.route_hash

-- `build_profile_key`; `sha256` is the hex digest of the language's library.
unfoldable pub build_profile_key :
    (sha256 : String → String) → String → String → String → String → Option String → String
unfolding join_key
build_profile_key sha256 provider model api_mode endpoint route_hash =
    join_key provider model api_mode (sha256 endpoint) route_hash
