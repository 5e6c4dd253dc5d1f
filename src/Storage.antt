-- ===== src/Storage.antt =====
-- packages/core/src/cachepilot_core/storage.py: the tables of request, churn and route events, with the
-- events of telemetry.py and route_intel.py that are their rows. A table is the list of its rows, newest
-- first (`ORDER BY id DESC`); ids count the rows. The tables of the TTL learner are in Ttl.Store.
pub mod Queries
pub mod Counts
pub mod Examples
use cachepilot.Prelude.{
  ℕ, ◌+◌, String, Bool, false, Option, none, some, List, [], ◌∷◌, length, str_eq, if◌then◌else◌,
}
use cachepilot.Telemetry.{Outcome}
use cachepilot.Usage.{TokenUsage}
use cachepilot.Churn.Layers.{Layer}
use cachepilot.Churn.Cause.{Cause}
use cachepilot.Routes.Intel.{RouteMissVerdict}
use cachepilot.Ttl.Store.{TtlStore}

-- `TelemetryEvent` of an observed request, which is never a warm.
pub record TelemetryEvent (D : Type 0) : Type 0 where
  pub request_fingerprint : String
  pub cache_fingerprint : String
  pub provider : String
  pub model : String
  pub route_hash : Option String
  pub usage : TokenUsage D
  pub outcome : Outcome
  pub session_hash : Option String
  pub timestamp : ℕ
  pub system_hash : Option String
  pub tools_hash : Option String
  pub history_hash : Option String
  pub tools_set_hash : Option String

-- `StoredRequestEvent`
pub record StoredRequestEvent (D : Type 0) : Type 0 where
  pub id : ℕ
  pub event : TelemetryEvent D

-- The cause and the layer stand for the texts that are stored.
pub record ChurnEvent (F : Type 0) : Type 0 where
  pub timestamp : ℕ
  pub session_hash : Option String
  pub previous_cache_fingerprint : String
  pub new_cache_fingerprint : String
  pub provider : Option String
  pub model : Option String
  pub route_hash : Option String
  pub system_changed : Bool
  pub tools_changed : Bool
  pub history_changed : Bool
  pub route_changed : Bool
  pub cache_key_changed : Bool
  pub model_changed : Bool
  pub likely_cause : Option Cause
  pub confidence : Option F
  pub estimated_prefix_loss_tokens : Option ℕ
  pub first_divergent_offset : Option ℕ
  pub first_divergent_layer : Option Layer

pub record RouteChangeEvent : Type 0 where
  pub timestamp : ℕ
  pub session_hash : Option String
  pub cache_fingerprint : String
  pub request_fingerprint : Option String
  pub previous_route_hash : Option String
  pub new_route_hash : Option String
  pub gateway : Option String
  pub upstream_provider : Option String
  pub endpoint : Option String
  pub region : Option String
  pub deployment : Option String
  pub verdict : RouteMissVerdict

-- `ttl` holds the learner's tables, and of `churn_events` the columns that its query reads.
pub record TelemetryStore (F D : Type 0) : Type 0 where
  pub request_events : List (StoredRequestEvent D)
  pub churn_events : List (ChurnEvent F)
  pub route_events : List RouteChangeEvent
  pub ttl : TtlStore F

abbrev pub in_session : String → Option String → Bool
in_session s none = false
in_session s (some t) = str_eq t s

module _ {D : Type 0} where
  -- The newest row of a session.
  abbrev pub newest_in : String → List (StoredRequestEvent D) → Option (StoredRequestEvent D)
  newest_in s [] = none
  newest_in s (r ∷ rs) = if in_session s r.event.session_hash then some r else newest_in s rs

module _ {F D : Type 0} where
  unfoldable pub record_request : TelemetryEvent D → TelemetryStore F D → TelemetryStore F D
  record_request e s = record s {
    request_events = record { id = length s.request_events + 1; event = e } ∷ s.request_events;
  }

  unfoldable pub record_churn : ChurnEvent F → TelemetryStore F D → TelemetryStore F D
  record_churn c s = record s {
    churn_events = c ∷ s.churn_events;
    ttl = record s.ttl {
      churn =
          record {
            timestamp = c.timestamp;
            previous_cache_fingerprint = c.previous_cache_fingerprint;
            new_cache_fingerprint = c.new_cache_fingerprint;
          }
          ∷ s.ttl.churn;
    };
  }

  unfoldable pub record_route_event : RouteChangeEvent → TelemetryStore F D → TelemetryStore F D
  record_route_event e s = record s { route_events = e ∷ s.route_events }

  unfoldable pub last_event_for_session :
      String → TelemetryStore F D → Option (StoredRequestEvent D)
  last_event_for_session session s = newest_in session s.request_events
