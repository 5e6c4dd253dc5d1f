-- ===== src/Storage/Examples.antt =====
-- The tables on concrete rows.
use cachepilot.Prelude.{◌≡◌, some, none, []}
use cachepilot.Prelude.Int.{ℤ}
use cachepilot.Usage.{no_usage}
use cachepilot.Telemetry.{miss_rebuilt, record_outcome}
use cachepilot.Storage.{TelemetryEvent, TelemetryStore, record_request}
use cachepilot.Storage.Queries.{aggregates}
use cachepilot.Storage.Counts.{aggregates-record_request}

abbrev miss : TelemetryEvent ℤ
miss = record {
  request_fingerprint = "request";
  cache_fingerprint = "cache";
  provider = "openai";
  model = "model";
  route_hash = none;
  usage = no_usage;
  outcome = miss_rebuilt;
  session_hash = some "session";
  timestamp = 10;
  system_hash = none;
  tools_hash = none;
  history_hash = none;
  tools_set_hash = none;
}

abbrev empty_store : TelemetryStore ℤ ℤ
empty_store = record {
  request_events = [];
  churn_events = [];
  route_events = [];
  ttl = record { profiles = []; observations = []; churn = [] };
}

aggregates-record_request_example :
    aggregates (record_request miss empty_store)
    ≡ record_outcome miss_rebuilt (aggregates empty_store)
aggregates-record_request_example = aggregates-record_request miss empty_store

-- Two events of a session, with a miss.
abbrev pub two_events : TelemetryStore ℤ ℤ
two_events = record_request miss (record_request miss empty_store)
