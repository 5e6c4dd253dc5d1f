-- ===== src/Storage/Queries.antt =====
-- The queries of the event tables.
use cachepilot.Prelude.{
  ℕ, String, Bool, true, false, ◌&&◌, Option, none, some, List, [], ◌∷◌, length, select, take, leb,
  str_eq, get_or, if◌then◌else◌,
}
use cachepilot.Numbers.{Arith, add, nought}
use cachepilot.Dict.{Dict, lookup, insert}
use cachepilot.Telemetry.{
  Outcome, confirmed_hit, miss_rebuilt, success_unverified, failed, CacheHealthStats,
}
use cachepilot.Routes.Intel.{RouteMissVerdict, route_instability, short_ttl, clean}
use cachepilot.Ttl.Store.{TtlRow}
use cachepilot.Storage.{
  StoredRequestEvent, ChurnEvent, RouteChangeEvent, TelemetryStore, in_session,
}

-- `outcome = o` in the column's text
abbrev pub same_outcome : Outcome → Outcome → Bool
same_outcome confirmed_hit confirmed_hit = true
same_outcome miss_rebuilt miss_rebuilt = true
same_outcome success_unverified success_unverified = true
same_outcome failed failed = true
same_outcome _ _ = false

abbrev same_verdict : RouteMissVerdict → RouteMissVerdict → Bool
same_verdict route_instability route_instability = true
same_verdict short_ttl short_ttl = true
same_verdict clean clean = true
same_verdict _ _ = false

-- `RouteIntelStats`
pub record RouteIntelStats : Type 0 where
  pub route_switches : ℕ
  pub instability_verdicts : ℕ
  pub short_ttl_verdicts : ℕ
  pub last_switch_at : Option ℕ

-- The key of a route profile, as the query names its columns.
pub record ProfileColumns : Type 0 where
  pub provider : String
  pub model : String
  pub api_mode : String
  pub endpoint_hash : String
  pub route_hash : Option String

-- `route_hash IS ?`
abbrev is_same : Option String → Option String → Bool
is_same none none = true
is_same (some a) (some b) = str_eq a b
is_same _ _ = false

-- The table is newest first; a query in ascending order reads it from its end.
unfoldable pub oldest_first {ℓ} : {A : Type ℓ} → List A → List A → List A
oldest_first [] read = read
oldest_first (x ∷ xs) read = oldest_first xs (x ∷ read)

abbrev is_since : Option ℕ → ℕ → Bool
is_since none t = true
is_since (some since) t = leb since t

abbrev newest_route_event : String → Option ℕ → List RouteChangeEvent → Option RouteChangeEvent
newest_route_event session since [] = none
newest_route_event session since (e ∷ es) =
    if in_session session e.session_hash && is_since since e.timestamp
    then some e
    else newest_route_event session since es

abbrev newest_time : List RouteChangeEvent → Option ℕ
newest_time [] = none
newest_time (e ∷ es) = some e.timestamp

abbrev is_of_profile : {F : Type 0} → ProfileColumns → TtlRow F → Bool
is_of_profile key r =
    r.clean
    && (str_eq r.provider key.provider
        && (str_eq r.model key.model
            && (str_eq r.api_mode key.api_mode
                && (str_eq r.endpoint_hash key.endpoint_hash
                    && is_same r.route_hash key.route_hash))))

module _ {F D : Type 0} where
  unfoldable pub recent_events : ℕ → TelemetryStore F D → List (StoredRequestEvent D)
  unfolding take
  recent_events limit s = take limit s.request_events

  unfoldable pub churn_list : ℕ → Option String → TelemetryStore F D → List (ChurnEvent F)
  unfolding take select
  churn_list limit none s = take limit s.churn_events
  churn_list limit (some session) s =
      take limit (select (λ c. in_session session c.session_hash) s.churn_events)

  unfoldable pub route_changes : ℕ → TelemetryStore F D → List (ChurnEvent F)
  unfolding take select
  route_changes limit s = take limit (select (λ c. c.route_changed) s.churn_events)

  -- `SELECT COUNT(*) ... GROUP BY outcome`, at one outcome.
  unfoldable pub outcome_count : Outcome → TelemetryStore F D → ℕ
  unfolding select
  outcome_count o s = length (select (λ r. same_outcome r.event.outcome o) s.request_events)

  unfoldable pub aggregates : TelemetryStore F D → CacheHealthStats
  unfolding outcome_count select
  aggregates s = record {
    total = length s.request_events;
    confirmed_hits = outcome_count confirmed_hit s;
    misses = outcome_count miss_rebuilt s;
    unverified = outcome_count success_unverified s;
    failures = outcome_count failed s;
    churn_events = length s.churn_events;
    route_changes = length (select (λ c. c.route_changed) s.churn_events);
  }

  unfoldable pub recent_route_events : ℕ → TelemetryStore F D → List RouteChangeEvent
  unfolding take
  recent_route_events limit s = take limit s.route_events

  unfoldable pub last_route_event_for_session :
      String → Option ℕ → TelemetryStore F D → Option RouteChangeEvent
  last_route_event_for_session session since s = newest_route_event session since s.route_events

  unfoldable pub verdict_count : RouteMissVerdict → TelemetryStore F D → ℕ
  unfolding select
  verdict_count v s = length (select (λ e. same_verdict e.verdict v) s.route_events)

  unfoldable pub route_intel_stats : TelemetryStore F D → RouteIntelStats
  unfolding verdict_count
  route_intel_stats s = record {
    route_switches = length s.route_events;
    instability_verdicts = verdict_count route_instability s;
    short_ttl_verdicts = verdict_count short_ttl s;
    last_switch_at = newest_time s.route_events;
  }

  unfoldable pub recent_ttl_observations : String → ℕ → TelemetryStore F D → List (TtlRow F)
  unfolding take select
  recent_ttl_observations fp limit s =
      take limit (select (λ r. str_eq r.cache_fingerprint fp) s.ttl.observations)

  unfoldable pub clean_observations_for_profile :
      ProfileColumns → TelemetryStore F D → List (TtlRow F)
  unfolding select oldest_first
  clean_observations_for_profile key s =
      oldest_first (select (is_of_profile key) s.ttl.observations) []

module _ {D : Type 0} ⦃d : Arith D⦄ where
  abbrev with_cost : String → Option D → Dict D → Dict D
  with_cost provider none totals = totals
  with_cost provider (some cost) totals =
      insert provider (add (get_or (lookup provider totals) nought) cost) totals

  -- The rows in the order of the table's scan, the oldest first.
  unfoldable pub summed : List (StoredRequestEvent D) → Dict D → Dict D
  summed [] totals = totals
  summed (r ∷ rs) totals = summed rs (with_cost r.event.provider r.event.usage.cost totals)

  unfoldable pub cost_totals : {F : Type 0} → TelemetryStore F D → Dict D
  unfolding summed oldest_first
  cost_totals s = summed (oldest_first s.request_events []) []
