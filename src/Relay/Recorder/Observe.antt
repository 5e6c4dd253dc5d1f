-- ===== src/Relay/Recorder/Observe.antt =====
-- observation.py: `observe_bounded`, `observe_streaming` and `observe_failure`. A call gives its result,
-- none where it raises, and the observer.
use cachepilot.Prelude.{
  ℕ, ◌+◌, String, Bool, false, ◌&&◌, not, Option, none, some, [], is_some, ltb, leb, if◌then◌else◌,
}
use cachepilot.Numbers.{Arith}
use cachepilot.Dict.{Dict}
use cachepilot.Json.{Json, null, obj, Fields}
use cachepilot.Python.{Python}
use cachepilot.Telemetry.{Outcome, success_unverified, failed, classify_outcome}
use cachepilot.Usage.{TokenUsage, no_usage}
use cachepilot.Usage.Normalizer.{normalize}
use cachepilot.Adapters.{usage_of, usage_has_cache_telemetry}
use cachepilot.Identity.{CanonicalRequest}
use cachepilot.Routes.Intel.{RouteIdentity, route_hash}
use cachepilot.Relay.Routes.{extract_route_identity}
use cachepilot.Relay.Observation.{
  Transport, json_or_none, derive_auth_scope, build_canonical_request, extract_history_hash,
}
use cachepilot.Relay.Recorder.{RequestObserver, Instruments}
use cachepilot.Relay.Recorder.Record.{record_observation}

-- The arguments that all three share.
pub record Exchange : Type 0 where
  pub body : String
  pub path : String
  pub upstream_url : String
  pub response_headers : Dict String
  pub session_header : Option String
  pub auth_headers : Dict String

abbrev json_of : Option Fields → Json
json_of none = null
json_of (some d) = obj d

abbrev pub is_success : ℕ → Bool
is_success status = leb 200 status && ltb status 300

module _ {F D : Type 0} where
  abbrev pub is_on : RequestObserver F D → Bool
  is_on r = r.enabled && is_some r.store

module _ {F D : Type 0} ⦃f : Arith F⦄ (py : Python F D) (tools : Instruments F) where
  abbrev pub route_of : Exchange → RouteIdentity
  route_of x = extract_route_identity py x.upstream_url x.response_headers

  abbrev pub transport_of : Exchange → Transport
  transport_of x = record {
    path = x.path;
    upstream_url = x.upstream_url;
    route_hash = route_hash py (route_of x);
    auth_scope = derive_auth_scope py tools.head16 x.auth_headers;
  }

  unfoldable pub canonical_of : Exchange → Option (CanonicalRequest F)
  canonical_of x = build_canonical_request py (transport_of x) x.body

  -- The usage of a response, and whether it carries cache telemetry.
  unfoldable pub response_usage :
      ℕ → CanonicalRequest F → Option Fields → Option (TokenUsage D × Bool)
  unfolding normalize usage_has_cache_telemetry
  response_usage status canonical payload =
      if is_success status
      then elim (normalize py (json_of payload) (some canonical.identity.provider)) [
        | none ↦ none
        | some usage ↦ some (usage, usage_has_cache_telemetry (usage_of payload))
      ]
      else some (no_usage, false)

  -- The call of `_record` with the digest of the history, which may raise.
  unfoldable pub recorded :
      ℕ
      → Exchange
      → CanonicalRequest F
      → TokenUsage D
      → Outcome
      → RequestObserver F D
      → Option (Unit {0}) × RequestObserver F D
  unfolding record_observation extract_history_hash
  recorded now x canonical usage outcome r = elim (extract_history_hash py x.body) [
    | none ↦ (none, r)
    | some history_hash ↦ (
      some tt,
      record_observation py tools now
          (record {
            canonical = canonical;
            usage = usage;
            outcome = outcome;
            route = route_of x;
            route_hash = route_hash py (route_of x);
            session_header = x.session_header;
            history_hash = history_hash;
            body = x.body;
          })
          r,
    )
  ]

  abbrev answered {ℓ} : {A : Type ℓ} → A → Option (Unit {0}) → Option A
  answered a none = none
  answered a (some _) = some a

  abbrev bounded :
      ℕ
      → Exchange
      → ℕ
      → CanonicalRequest F
      → Option (TokenUsage D × Bool)
      → RequestObserver F D
      → Option (Option Outcome × TokenUsage D) × RequestObserver F D
  bounded now x status canonical none r = (none, r)
  bounded now x status canonical (some (usage, telemetry)) r =
      let outcome = classify_outcome status telemetry usage.cache_read_tokens in
      let (done, r') = recorded now x canonical usage outcome r in
      (answered (some outcome, usage) done, r')

  -- `observe_bounded`
  unfoldable pub observe_bounded :
      ℕ
      → Exchange
      → ℕ
      → String
      → RequestObserver F D
      → Option (Option Outcome × TokenUsage D) × RequestObserver F D
  unfolding canonical_of response_usage recorded classify_outcome json_or_none
  observe_bounded now x status response_body r =
      if is_on r
      then elim (canonical_of x) [
        | none ↦ (none, r)
        | some canonical ↦
            bounded now x status canonical
              (response_usage status canonical (json_or_none py response_body)) r
      ]
      else (some (none, no_usage), r)

  abbrev first_of_pair :
      Option (Option Outcome × TokenUsage D) × RequestObserver F D
      → Option (Option Outcome) × RequestObserver F D
  first_of_pair (none, r) = (none, r)
  first_of_pair (some (outcome, usage), r) = (some outcome, r)

  -- What is recorded where there is no usage to read.
  unfoldable pub observe_outcome :
      ℕ → Exchange → Outcome → RequestObserver F D → Option (Option Outcome) × RequestObserver F D
  unfolding canonical_of recorded
  observe_outcome now x outcome r = elim (canonical_of x) [
    | none ↦ (none, r)
    | some canonical ↦
        let (done, r') = recorded now x canonical no_usage outcome r in
        (answered (some outcome) done, r')
  ]

  -- `observe_streaming`; an unsuccessful one is observed with an empty body.
  unfoldable pub observe_streaming :
      ℕ → Exchange → ℕ → RequestObserver F D → Option (Option Outcome) × RequestObserver F D
  unfolding observe_bounded observe_outcome
  observe_streaming now x status r =
      let noted = record r { streaming_unverified = r.streaming_unverified + 1 } in
      if not (is_on r)
      then (some none, r)
      else if not (is_success status)
      then first_of_pair (observe_bounded now x status "" noted)
      else observe_outcome now x success_unverified noted

  -- `observe_failure`, of a request that got no response: its route shows no response headers.
  unfoldable pub observe_failure :
      ℕ → Exchange → RequestObserver F D → Option (Option Outcome) × RequestObserver F D
  unfolding observe_outcome
  observe_failure now x r =
      if is_on r
      then observe_outcome now (record x { response_headers = [] }) failed r
      else (some none, r)
