-- ===== src/Storage/Counts.antt =====
-- The aggregates of the tables against the counters in memory, and what a new row does to the queries.
use cachepilot.Prelude.{◌≡◌, arith}
use cachepilot.Telemetry.{record_outcome}
use cachepilot.Storage.{TelemetryEvent, TelemetryStore, record_request}
use cachepilot.Storage.Queries.{aggregates}

module _ {F D : Type 0} where
  -- Recording a request changes the aggregates that SQL computes exactly as recording its outcome
  -- changes the counters in memory.
  pub aggregates-record_request :
      (e : TelemetryEvent D) (s : TelemetryStore F D)
      → aggregates (record_request e s) ≡ record_outcome e.outcome (aggregates s)
  unfolding aggregates record_request record_outcome
  aggregates-record_request e s = ground arith
