-- ===== src/Ttl/Learner.antt =====
-- `TTLLearner` of packages/core/src/cachepilot_core/ttl.py. A method returns its result and the
-- store; `sha256` is the digest of the language's library.
pub mod Evidence
use cachepilot.Prelude.{
  ℕ, ◌-◌, String, ◌≡◌, Bool, true, false, ◌&&◌, not, Option, none, some, ltb, str_eq, get_or,
  if◌then◌else◌,
}
use cachepilot.Numbers.{Arith, lit}
use cachepilot.Telemetry.{Outcome}
use cachepilot.Ttl.{TtlProfile, observe, build_profile_key}
use cachepilot.Ttl.Store.{
  TtlRow, TtlStore, profile_for, upsert_profile, record_ttl_observation, last_ttl_observation,
  churn_between,
}

pub record TtlObservation : Type 0 where
  pub outcome : Outcome
  pub cache_fingerprint : String
  pub route_hash : Option String
  pub provider : String
  pub model : String
  pub api_mode : String
  pub endpoint : String
  pub timestamp : ℕ

abbrev pub same_route : Option String → Option String → Bool
same_route none none = true
same_route (some a) (some b) = str_eq a b
same_route _ _ = false

unfoldable pub key_of : (sha256 : String → String) → TtlObservation → String
key_of sha256 obs =
    build_profile_key sha256 obs.provider obs.model obs.api_mode obs.endpoint obs.route_hash

module _ {F : Type 0} ⦃f : Arith F⦄ (sha256 : String → String) where
  -- The idle age of a pair, `total_seconds()` of the difference, if that is positive.
  unfoldable pub idle_age : TtlObservation → Option (TtlRow F) → Option F
  idle_age obs none = none
  idle_age obs (some previous) =
      if ltb previous.timestamp obs.timestamp
      then some (lit (obs.timestamp - previous.timestamp) 1_000_000)
      else none

  -- Whether the pair is evidence: a positive age, one route, and no churn in between.
  unfoldable pub is_clean : TtlObservation → Option (TtlRow F) → TtlStore F → Bool
  is_clean obs none s = false
  is_clean obs (some previous) s =
      ltb previous.timestamp obs.timestamp
      && (same_route previous.route_hash obs.route_hash
          && not (churn_between obs.cache_fingerprint previous.timestamp obs.timestamp s))

  row_of : TtlObservation → Option F → Bool → TtlRow F
  row_of obs age clean = record {
    timestamp = obs.timestamp;
    cache_fingerprint = obs.cache_fingerprint;
    route_hash = obs.route_hash;
    idle_age_s = age;
    outcome = obs.outcome;
    clean = clean;
    provider = obs.provider;
    model = obs.model;
    api_mode = obs.api_mode;
    endpoint_hash = sha256 obs.endpoint;
  }

  -- `TTLProfile(...)` with its defaults.
  unfoldable pub fresh_profile : TtlObservation → TtlProfile F
  fresh_profile obs = record {
    provider = obs.provider;
    model = obs.model;
    api_mode = obs.api_mode;
    endpoint_hash = sha256 obs.endpoint;
    route_hash = obs.route_hash;
    lower_bound_s = none;
    upper_bound_s = none;
    estimated_ttl_s = none;
    confidence = lit 5 10;
    sample_count = 0;
    updated_at = none;
  }

  -- `previous is not None and previous.route_hash != obs.route_hash`
  route_changed : TtlObservation → Option (TtlRow F) → Bool
  route_changed obs none = false
  route_changed obs (some previous) = not (same_route previous.route_hash obs.route_hash)

  unfoldable pub refine : TtlObservation → F → TtlProfile F → TtlProfile F
  refine obs age p =
      let refined = observe obs.outcome p (some age) in
      record refined { updated_at = some obs.timestamp }

  -- `profile.confidence = 0.5`
  restart : TtlObservation → TtlProfile F → TtlProfile F
  restart obs p = record p { confidence = lit 5 10; updated_at = some obs.timestamp }

  -- A changed route: the profile of the new one starts afresh, if there is one.
  restart_found :
      TtlObservation → Option (TtlProfile F) → TtlStore F → Option (TtlProfile F) × TtlStore F
  restart_found obs none s = (none, s)
  restart_found obs (some p) s = (some (restart obs p), upsert_profile (restart obs p) s)

  -- What `learn` does once the pair has been judged and its row is recorded.
  apply_pair :
      TtlObservation → Bool → Option F → Bool → TtlStore F → Option (TtlProfile F) × TtlStore F
  unfolding restart_found
  apply_pair obs true (some age) changed s =
      let profile =
        refine obs age (get_or (profile_for (key_of sha256 obs) s) (fresh_profile obs)) in
      (some profile, upsert_profile profile s)
  apply_pair obs clean age true s = restart_found obs (profile_for (key_of sha256 obs) s) s
  apply_pair obs clean age false s = (profile_for (key_of sha256 obs) s, s)

  -- `TTLLearner.learn`; a learner without a store does nothing.
  pub learn : TtlObservation → TtlStore F → Option (TtlProfile F) × TtlStore F
  unfolding idle_age is_clean row_of route_changed apply_pair
  learn obs s =
      let previous = last_ttl_observation obs.cache_fingerprint s in
      let age = idle_age obs previous in
      let clean = is_clean obs previous s in
      apply_pair obs clean age (route_changed obs previous)
        (record_ttl_observation (row_of obs age clean) s)
