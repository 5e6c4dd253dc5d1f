-- ===== src/Ttl/Examples.antt =====
-- What is learned of a concrete route, in fixed-point numbers.
use cachepilot.Prelude.{String, ◌≡◌, ◌≢◌, refl, arith, false, none, some, List, [], ◌∷◌, All}
use cachepilot.Dict.{lookup}
use cachepilot.Prelude.Int.{ℤ, pos}
use cachepilot.Numbers.{lit}
use cachepilot.Numbers.Fixed.{fixed_point, fixed_laws}
use cachepilot.Telemetry.{confirmed_hit, miss_rebuilt, success_unverified, failed}
use cachepilot.Ttl.{TtlProfile}
use cachepilot.Ttl.Store.{TtlRow, TtlStore, profile_for, last_ttl_observation, churn_between}
use cachepilot.Ttl.Learner.{TtlObservation, key_of, fresh_profile, learn}
use cachepilot.Ttl.Learner.Evidence.{IsKeyed, IsLearned, learn-others, learn-clean}
use cachepilot.Ttl.Resolver.{TtlResolver, IsTiered, resolve, resolve-IsTiered}
use cachepilot.Ttl.Bounds.{Observation, observe_all, IsCovered, observe_all-IsCovered}

abbrev plain : String → String
plain s = s

abbrev hit_later : TtlObservation
hit_later = record {
  outcome = confirmed_hit;
  cache_fingerprint = "fa";
  route_hash = none;
  provider = "provider";
  model = "model";
  api_mode = "chat";
  endpoint = "endpoint";
  timestamp = 60_000_000;
}

-- The first request was a minute before.
abbrev first_row : TtlRow ℤ
first_row = record {
  timestamp = 0;
  cache_fingerprint = "fa";
  route_hash = none;
  idle_age_s = none;
  outcome = miss_rebuilt;
  clean = false;
  provider = "provider";
  model = "model";
  api_mode = "chat";
  endpoint_hash = "endpoint";
}

abbrev seen_once : TtlStore ℤ
seen_once = record { profiles = []; observations = first_row ∷ []; churn = [] }

abbrev unseen : TtlStore ℤ
unseen = record { profiles = []; observations = []; churn = [] }

seen_once-IsKeyed : IsKeyed seen_once
unfolding profile_for lookup
seen_once-IsKeyed k p e = cc

unseen-IsKeyed : IsKeyed unseen
unfolding profile_for lookup
unseen-IsKeyed k p e = cc

abbrev profile : TtlProfile ℤ
profile = record {
  provider = "provider";
  model = "model";
  api_mode = "chat";
  endpoint_hash = "endpoint";
  route_hash = none;
  lower_bound_s = some (pos 60_000);
  upper_bound_s = some (pos 300_000);
  estimated_ttl_s = none;
  confidence = pos 800;
  sample_count = 5;
  updated_at = none;
}

abbrev resolver : TtlResolver ℤ
resolver = record {
  profile_lookup = some (λ key. some profile);
  force_seconds = none;
  default_ttl_s = pos 240_000;
  minimum_samples = 3;
}

abbrev history : List (Observation ℤ)
history =
    (confirmed_hit, some (pos 90_000))
    ∷ (miss_rebuilt, some (pos 280_000))
    ∷ (success_unverified, some (pos 100_000))
    ∷ (failed, none)
    ∷ []

learn-others_example :
    IsKeyed (learn plain hit_later seen_once).1
    × ((k : String)
        → key_of plain hit_later ≢ k
        → profile_for k (learn plain hit_later seen_once).1 ≡ profile_for k seen_once)
learn-others_example = learn-others plain hit_later seen_once seen_once-IsKeyed

learn-clean_example :
    (new : TtlProfile ℤ) × (profile_for (key_of plain hit_later) (learn plain hit_later seen_once).1
      ≡ some new)
    × IsLearned plain confirmed_hit (lit 60_000_000 1_000_000) (fresh_profile plain hit_later) new
unfolding last_ttl_observation churn_between profile_for lookup
learn-clean_example =
    learn-clean plain hit_later first_row seen_once seen_once-IsKeyed refl (omega arith) refl refl
      refl

resolve-IsTiered_example :
    IsTiered resolver none none
      (some profile)
      (resolve plain resolver "provider" "model" "chat" "endpoint" none none)
resolve-IsTiered_example =
    resolve-IsTiered plain resolver "provider" "model" "chat" "endpoint" none none

observe_all-IsCovered_example : All (IsCovered (observe_all profile history)) history
observe_all-IsCovered_example = observe_all-IsCovered history profile
