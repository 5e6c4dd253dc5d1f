-- ===== src/Relay/Recorder/Record.antt =====
-- observation.py: `_record`, with `_record_churn`, `_run_route_intel` and `_feed_ttl_learner`.
use cachepilot.Prelude.{ℕ, String, Bool, ◌&&◌, not, Option, none, some, str_eq, if◌then◌else◌}
use cachepilot.Numbers.{Arith}
use cachepilot.Python.{Python}
use cachepilot.Churn.Cause.{differ}
use cachepilot.Identity.{CanonicalRequest}
use cachepilot.Identity.Fingerprint.{mode_text, request_fingerprint, cache_fingerprint}
use cachepilot.Routes.Intel.{RouteIdentity, classify}
use cachepilot.Relay.Observation.{hash_correlation_value}
use cachepilot.Telemetry.{Outcome}
use cachepilot.Usage.{TokenUsage}
use cachepilot.Ttl.Learner.{TtlObservation, learn}
use cachepilot.Storage.{
  TelemetryEvent, RouteChangeEvent, TelemetryStore, record_request, record_churn,
  record_route_event, last_event_for_session,
}
use cachepilot.Relay.Recorder.{RequestObserver, Instruments, remember_body}
use cachepilot.Relay.Recorder.Churn.{churn_event}

-- What is recorded of a request.
pub record Observation (F D : Type 0) : Type 0 where
  pub canonical : CanonicalRequest F
  pub usage : TokenUsage D
  pub outcome : Outcome
  pub route : RouteIdentity
  pub route_hash : Option String
  pub session_header : Option String
  pub history_hash : Option String
  pub body : String

module _ {F D : Type 0} where
  -- The event before, as the store gives it.
  abbrev pub previous_in : Option String → TelemetryStore F D → Option (TelemetryEvent D)
  previous_in none s = none
  previous_in (some session) s = elim (last_event_for_session session s) [
    | none ↦ none
    | some row ↦ some row.event
  ]

module _ {D : Type 0} where
  abbrev identity_stable : TelemetryEvent D → TelemetryEvent D → Bool
  identity_stable previous event =
      not (differ previous.system_hash event.system_hash)
      && (not (differ previous.tools_hash event.tools_hash)
          && (not (differ previous.history_hash event.history_hash)
              && (str_eq previous.model event.model && str_eq previous.provider event.provider)))

  abbrev pub route_event : TelemetryEvent D → TelemetryEvent D → RouteIdentity → RouteChangeEvent
  route_event previous event route = record {
    timestamp = event.timestamp;
    session_hash = event.session_hash;
    cache_fingerprint = event.cache_fingerprint;
    request_fingerprint = some event.request_fingerprint;
    previous_route_hash = previous.route_hash;
    new_route_hash = event.route_hash;
    gateway = route.gateway;
    upstream_provider = route.upstream_provider;
    endpoint = route.endpoint;
    region = route.region;
    deployment = route.deployment;
    verdict =
        classify (some previous.outcome) previous.route_hash event.outcome event.route_hash
          (identity_stable previous event);
  }

module _ {F D : Type 0} where
  -- `_run_route_intel`
  unfoldable pub run_route_intel :
      Bool
      → Option (TelemetryEvent D)
      → TelemetryEvent D
      → RouteIdentity
      → TelemetryStore F D
      → TelemetryStore F D
  unfolding differ record_route_event
  run_route_intel intel none event route s = s
  run_route_intel intel (some previous) event route s =
      if intel && differ previous.route_hash event.route_hash
      then record_route_event (route_event previous event route) s
      else s

module _ {F D : Type 0} ⦃f : Arith F⦄ (py : Python F D) (tools : Instruments F) where
  -- The event of `_record`.
  unfoldable pub event_of : ℕ → Observation F D → TelemetryEvent D
  unfolding request_fingerprint cache_fingerprint hash_correlation_value
  event_of now o = record {
    request_fingerprint = request_fingerprint py o.canonical;
    cache_fingerprint = cache_fingerprint py o.canonical;
    provider = o.canonical.identity.provider;
    model = o.canonical.identity.model;
    route_hash = o.route_hash;
    usage = o.usage;
    outcome = o.outcome;
    session_hash = hash_correlation_value py o.session_header;
    timestamp = now;
    system_hash = some o.canonical.identity.system_hash;
    tools_hash = some o.canonical.identity.tools_hash;
    history_hash = o.history_hash;
    tools_set_hash = o.canonical.tools_set_hash;
  }

  -- The call of `_record_churn`, under its guards.
  unfoldable pub churn_recorded :
      Bool
      → Option (TelemetryEvent D)
      → TelemetryEvent D
      → Option String
      → String
      → TelemetryStore F D
      → TelemetryStore F D
  churn_recorded detecting none event previous_body body s = s
  churn_recorded detecting (some previous) event previous_body body s =
      if not (str_eq previous.cache_fingerprint event.cache_fingerprint) && detecting
      then record_churn (churn_event py tools previous event previous_body body) s
      else s

  -- What `_feed_ttl_learner` hands on.
  abbrev pub learned_from : Observation F D → TelemetryEvent D → TtlObservation
  learned_from o event = record {
    outcome = o.outcome;
    cache_fingerprint = event.cache_fingerprint;
    route_hash = o.route_hash;
    provider = o.canonical.identity.provider;
    model = o.canonical.identity.model;
    api_mode = mode_text o.canonical.identity.api_mode;
    endpoint = o.canonical.identity.endpoint;
    timestamp = event.timestamp;
  }

  unfoldable pub feed_ttl_learner :
      Observation F D → TelemetryEvent D → TelemetryStore F D → TelemetryStore F D
  feed_ttl_learner o event s = record s { ttl = (learn py.sha256 (learned_from o event) s.ttl).1 }

  -- The store before the learner is fed.
  unfoldable pub logged :
      RequestObserver F D
      → Observation F D
      → TelemetryEvent D
      → TelemetryStore F D
      → TelemetryStore F D
  logged r o event s =
      let previous = previous_in event.session_hash s in
      let before =
        (remember_body tools.byte_length r.churn_detection_enabled event.session_hash o.body
          r.last_body).0 in
      run_route_intel r.route_intel_enabled previous event o.route (
        churn_recorded r.churn_detection_enabled previous event before o.body
          (record_request event s))

  -- `_record`
  unfoldable pub record_observation :
      ℕ → Observation F D → RequestObserver F D → RequestObserver F D
  record_observation now o r = elim r.store [
    | none ↦ r
    | some s ↦
        let event = event_of now o in
        record r {
          store = some (feed_ttl_learner o event (logged r o event s));
          last_body =
              (remember_body tools.byte_length r.churn_detection_enabled event.session_hash o.body
                r.last_body).1;
        }
  ]
