-- ===== src/Relay/Recorder/Examples.antt =====
-- The recorder on a concrete session.
use cachepilot.Prelude.{
  String, ◌≡◌, ◌≢◌, refl, true, false, some, none, [], ◌∷◌, is_none, arith, eq_iff,
}
use cachepilot.Prelude.Int.{ℤ}
use cachepilot.Numbers.Fixed.{fixed_point}
use cachepilot.Dict.{lookup}
use cachepilot.Identity.Examples.{plain_python, request_to, first_text}
use cachepilot.Usage.{no_usage}
use cachepilot.Telemetry.{confirmed_hit}
use cachepilot.Ttl.Store.{profile_for}
use cachepilot.Ttl.Learner.Evidence.{IsKeyed, facts}
use cachepilot.Storage.{TelemetryEvent, ChurnEvent, TelemetryStore, last_event_for_session}
use cachepilot.Relay.Recorder.{RequestObserver, Instruments}
use cachepilot.Relay.Recorder.Record.{Observation, event_of, record_observation}
use cachepilot.Relay.Recorder.Transition.{transition-IsCaused, transition-unlearned}

abbrev tools : Instruments ℤ
tools = record {
  byte_length = λ s. 1;
  head16 = λ s. s;
  round2 = λ x. x;
  patterns = [];
  volatile = [];
}

abbrev before : TelemetryEvent ℤ
before = record {
  request_fingerprint = "request";
  cache_fingerprint = "old";
  provider = "openai";
  model = "model";
  route_hash = none;
  usage = no_usage;
  outcome = confirmed_hit;
  session_hash = some "#s";
  timestamp = 10;
  system_hash = some "system";
  tools_hash = some "tools";
  history_hash = none;
  tools_set_hash = none;
}

abbrev stored : TelemetryStore ℤ ℤ
stored = record {
  request_events = record { id = 1; event = before } ∷ [];
  churn_events = [];
  route_events = [];
  ttl = record { profiles = []; observations = []; churn = [] };
}

abbrev observer : RequestObserver ℤ ℤ
observer = record {
  store = some stored;
  enabled = true;
  route_intel_enabled = true;
  churn_detection_enabled = true;
  streaming_unverified = 0;
  last_body = ("#s", "{}") ∷ [];
}

abbrev hit : Observation ℤ ℤ
hit = record {
  canonical = request_to "openai" none;
  usage = no_usage;
  outcome = confirmed_hit;
  route = record {
    gateway = none;
    upstream_provider = none;
    endpoint = none;
    region = none;
    deployment = none;
  };
  route_hash = none;
  session_header = some "s";
  history_hash = none;
  body = "{}";
}

moved : "old" ≢ (event_of plain_python tools 20 hit).cache_fingerprint
unfolding event_of first_text
moved same = ground (arith, eq_iff "old" (event_of plain_python tools 20 hit).cache_fingerprint)

stored-IsKeyed : IsKeyed stored.ttl
unfolding profile_for lookup
stored-IsKeyed k p e = cc

transition-IsCaused_example :
    (t : TelemetryStore ℤ ℤ) × (c : ChurnEvent ℤ) × ((record_observation plain_python tools 20 hit
        observer).store
      ≡ some t)
    × (t.churn_events ≡ c ∷ [])
    × (c.previous_cache_fingerprint ≡ "old")
    × (c.new_cache_fingerprint ≡ (event_of plain_python tools 20 hit).cache_fingerprint)
    × (is_none c.likely_cause ≡ false)
unfolding event_of last_event_for_session
transition-IsCaused_example =
    transition-IsCaused plain_python tools 20 observer hit before stored refl refl refl moved

transition-unlearned_example :
    (t : TelemetryStore ℤ ℤ) × ((record_observation plain_python tools 20 hit observer).store
      ≡ some t)
    × ((k : String) → facts (profile_for k t.ttl) ≡ facts (profile_for k stored.ttl))
unfolding event_of last_event_for_session
transition-unlearned_example =
    transition-unlearned plain_python tools 20 observer hit before stored refl refl stored-IsKeyed
      refl moved
