-- ===== src/Relay/Proxy/Forward.antt =====
-- `RelayProxy.forward`, in two parts: up to the call of the upstream, and from its answer on. Other
-- requests may come in between. A call returns the proxy as it leaves it.
use cachepilot.Prelude.{
  ℕ, String, Bool, ◌||◌, not, Option, none, some, [], ◌∷◌, get_or, if◌then◌else◌,
}
use mathlib.Core.Option.{map}
use cachepilot.Numbers.{Arith, Conversion}
use cachepilot.Dict.{Dict, lookup, erase}
use cachepilot.Json.{Json, text, obj, Fields, end, field}
use cachepilot.Python.{Python}
use cachepilot.Telemetry.{Outcome, success_unverified, failed}
use cachepilot.Usage.{TokenUsage, no_usage}
use cachepilot.Ttl.Store.{profile_for}
use cachepilot.Ttl.Resolver.{TtlResolver}
use cachepilot.Leases.{Hashing}
use cachepilot.Routes.Intel.{route_hash}
use cachepilot.Storage.{TelemetryStore, RouteChangeEvent}
use cachepilot.Storage.Queries.{last_route_event_for_session}
use cachepilot.Relay.Routes.{extract_route_identity}
use cachepilot.Relay.Observation.{json_or_none}
use cachepilot.Relay.Recorder.{RequestObserver, Instruments}
use cachepilot.Relay.Recorder.Observe.{
  Exchange, observe_bounded, observe_streaming, observe_failure,
}
use cachepilot.Relay.Controller.{LeaseController, LeaseRequestContext}
use cachepilot.Relay.Controller.Affinity.{RouteEvent, EventLookup, active_affinity_route}
use cachepilot.Relay.Controller.Requests.{RelayRequest, Texts, on_request_start, on_request_end}
use cachepilot.Relay.Proxy.{build_upstream_url, should_stream, strip_hop_by_hop, upstream_headers}

pub record ClientRequest : Type 0 where
  pub method : String
  pub path : String
  pub query : String
  pub headers : Dict String
  pub body : String

-- The arguments of `client.build_request`. The library adds `Host`, the length and its own defaults for
-- header names that are not among them.
pub record BuildArguments : Type 0 where
  pub method : String
  pub url : String
  pub headers : Dict String
  pub body : String

-- What `client.send` gives: an answer with its whole body, or an error.
pub data Reply : Type 0 where
  answered : ℕ → Dict String → String → Reply
  timed_out : Reply
  unreachable : Reply

pub record ClientResponse : Type 0 where
  pub status_code : ℕ
  pub headers : Dict String
  pub body : String

-- What `apply_route_affinity` gives: the same object, another one, or an exception.
pub data Pinned : Type 0 where
  unchanged : Pinned
  modified : Fields → Pinned
  refused : Pinned

-- The adapter's part in a pin.
pub record Pinning : Type 0 where
  pub can_pin_route : Bool
  pub apply_route_affinity : Fields → String → Pinned

pub record RelayProxy (F D : Type 0) : Type 0 where
  pub upstream : String
  pub route_affinity_enabled : Bool
  pub observer : Option (RequestObserver F D)
  pub lease_controller : Option (LeaseController F D)

-- What forwarding takes from elsewhere; `stamp` is a time as the store keeps it, and `dumps` keeps the
-- order of the fields.
pub record Wiring (F : Type 0) : Type 0 where
  pub strip : String → String
  pub dumps : Json → String
  pub stamp : F → ℕ
  pub hash : Hashing
  pub texts : Texts
  pub tools : Instruments F
  pub pinning : Pinning

abbrev pub event_of_row : RouteChangeEvent → RouteEvent
event_of_row e = record {
  verdict = e.verdict;
  previous_route_hash = e.previous_route_hash;
  new_route_hash = e.new_route_hash;
}

module _ {F D : Type 0} where
  -- The store that the controller shares with the observer.
  abbrev pub store_of : RelayProxy F D → Option (TelemetryStore F D)
  store_of p = elim p.observer [ none ↦ none | some r ↦ r.store ]

  abbrev reading : Option (TelemetryStore F D) → TtlResolver F → TtlResolver F
  reading store r = record r { profile_lookup = map (λ t key. profile_for key t.ttl) store }

  -- The controller, whose resolver reads the profiles of the shared store.
  unfoldable pub sharing : Option (TelemetryStore F D) → LeaseController F D → LeaseController F D
  unfolding profile_for
  sharing store s = record s {
    manager = record s.manager { ttl_resolver = map (reading store) s.manager.ttl_resolver };
  }

  unfoldable pub route_events_of : (stamp : F → ℕ) → Option (TelemetryStore F D) → EventLookup F
  unfolding last_route_event_for_session
  route_events_of stamp none session since = none
  route_events_of stamp (some t) session since =
      map event_of_row (last_route_event_for_session session (some (stamp since)) t)

module _ {F D : Type 0} ⦃f : Arith F⦄ ⦃d : Arith D⦄ ⦃c : Conversion F D⦄ (py : Python F D)
    (w : Wiring F) where
  abbrev url_of : RelayProxy F D → ClientRequest → String
  unfolding build_upstream_url
  url_of p q = build_upstream_url p.upstream q.path q.query

  -- `_lease_start`; `fresh` is the fresh id of a new lease.
  unfoldable pub lease_start :
      F → String → ClientRequest → RelayProxy F D → Option LeaseRequestContext × RelayProxy F D
  unfolding on_request_start sharing build_upstream_url
  lease_start now fresh q p = elim p.lease_controller [
    | none ↦ (none, p)
    | some s ↦
        let request : RelayRequest = record {
          body = q.body;
          path = q.path;
          upstream_url = url_of p q;
          headers = q.headers;
          session_header = lookup "x-cachepilot-session" q.headers;
          targets_header = lookup "x-cachepilot-targets" q.headers;
        } in
        let (ctx, s') =
          on_request_start py w.hash w.texts now fresh request (sharing (store_of p) s) in
        (ctx, record p { lease_controller = some s' })
  ]

  -- The pinned body, or the client's.
  unfoldable pub pinned_body : String → String → String
  unfolding json_or_none
  pinned_body route body = elim (json_or_none py body) [
    | none ↦ body
    | some parsed ↦ elim (w.pinning.apply_route_affinity parsed route) [
      | unchanged ↦ body
      | modified fields ↦ w.dumps (obj fields)
      | refused ↦ body
    ]
  ]

  -- `_apply_affinity`
  unfoldable pub apply_affinity :
      F → String → Option LeaseRequestContext → RelayProxy F D → String × RelayProxy F D
  unfolding active_affinity_route pinned_body
  apply_affinity now body none p = (body, p)
  apply_affinity now body (some ctx) p = elim p.lease_controller [
    | none ↦ (body, p)
    | some s ↦
        if not p.route_affinity_enabled || not w.pinning.can_pin_route
        then (body, p)
        else (let (route, s') = active_affinity_route now ctx.lease_id s in
            let p' = record p { lease_controller = some s' } in
            elim route [ none ↦ (body, p') | some pin ↦ (pinned_body pin body, p') ])
  ]

  -- `forward` up to the call of the upstream: what is sent, the context of the lease, and the proxy.
  unfoldable pub forward_request :
      F
      → String
      → ClientRequest
      → RelayProxy F D
      → BuildArguments × Option LeaseRequestContext × RelayProxy F D
  unfolding lease_start apply_affinity upstream_headers build_upstream_url
  forward_request now fresh q p =
      let (ctx, p1) = lease_start now fresh q p in
      let (body, p2) = apply_affinity now q.body ctx p1 in
      (
        record {
          method = q.method;
          url = url_of p q;
          headers = upstream_headers py w.strip q.headers;
          body = body;
        },
        ctx,
        p2,
      )

  -- `_lease_end`
  unfoldable pub lease_end :
      F
      → Option LeaseRequestContext
      → Outcome
      → Option (TokenUsage D)
      → Option String
      → RelayProxy F D
      → RelayProxy F D
  unfolding on_request_end sharing route_events_of
  lease_end now none outcome usage route p = p
  lease_end now (some ctx) outcome usage route p = elim p.lease_controller [
    | none ↦ p
    | some s ↦ record p {
      lease_controller = some (
          on_request_end w.hash (route_events_of w.stamp (store_of p)) now ctx outcome usage route
            (sharing (store_of p) s));
    }
  ]

  abbrev pub exchange : ClientRequest → BuildArguments → Dict String → Exchange
  exchange q sent headers = record {
    body = sent.body;
    path = q.path;
    upstream_url = sent.url;
    response_headers = headers;
    session_header = lookup "x-cachepilot-session" q.headers;
    auth_headers = q.headers;
  }

  -- `_observe_failure`: an exception gives none.
  unfoldable pub failure_observed :
      F → ClientRequest → BuildArguments → RelayProxy F D → Option Outcome × RelayProxy F D
  unfolding observe_failure
  failure_observed now q sent p = elim p.observer [
    | none ↦ (none, p)
    | some r ↦
        let (outcome, r') = observe_failure py w.tools (w.stamp now) (exchange q sent []) r in
        (get_or outcome none, record p { observer = some r' })
  ]

  -- `_observe_streaming`
  unfoldable pub streaming_observed :
      F
      → ClientRequest
      → BuildArguments
      → ℕ
      → Dict String
      → RelayProxy F D
      → Option Outcome × RelayProxy F D
  unfolding observe_streaming
  streaming_observed now q sent status headers p = elim p.observer [
    | none ↦ (none, p)
    | some r ↦
        let (outcome, r') =
          observe_streaming py w.tools (w.stamp now) (exchange q sent headers) status r in
        (get_or outcome none, record p { observer = some r' })
  ]

  -- `_observe_bounded`
  unfoldable pub bounded_observed :
      F
      → ClientRequest
      → BuildArguments
      → ℕ
      → Dict String
      → String
      → RelayProxy F D
      → (Option Outcome × TokenUsage D) × RelayProxy F D
  unfolding observe_bounded
  bounded_observed now q sent status headers body p = elim p.observer [
    | none ↦ ((none, no_usage), p)
    | some r ↦
        let (seen, r') =
          observe_bounded py w.tools (w.stamp now) (exchange q sent headers) status body r in
        (get_or seen (none, no_usage), record p { observer = some r' })
  ]

  -- The answer to a request that got none.
  abbrev pub gateway_error : ℕ → String → String → ClientResponse
  gateway_error status kind message = record {
    status_code = status;
    headers = ("content-type", "application/json") ∷ [];
    body = w.dumps (
        obj (
          field "error" (obj (field "type" (text kind) (field "message" (text message) end))) end));
  }

  unfoldable pub unanswered :
      F
      → ClientRequest
      → BuildArguments
      → Option LeaseRequestContext
      → RelayProxy F D
      → RelayProxy F D
  unfolding failure_observed lease_end
  unanswered now q sent ctx p =
      let (outcome, p') = failure_observed now q sent p in
      lease_end now ctx (get_or outcome failed) none none p'

  abbrev route_seen : BuildArguments → Dict String → Option String
  unfolding extract_route_identity route_hash
  route_seen sent headers = route_hash py (extract_route_identity py sent.url headers)

  -- `forward` from the answer on: the response to the client, and the proxy.
  unfoldable pub forward_response :
      F
      → ClientRequest
      → BuildArguments
      → Option LeaseRequestContext
      → Reply
      → RelayProxy F D
      → ClientResponse × RelayProxy F D
  unfolding unanswered failure_observed streaming_observed bounded_observed lease_end should_stream
      strip_hop_by_hop erase extract_route_identity route_hash
  forward_response now q sent ctx timed_out p = (
    gateway_error 504 "upstream_timeout" "the upstream provider did not respond in time",
    unanswered now q sent ctx p,
  )
  forward_response now q sent ctx unreachable p = (
    gateway_error 502 "upstream_unreachable" "the upstream provider could not be reached",
    unanswered now q sent ctx p,
  )
  forward_response now q sent ctx (answered status headers body) p =
      let kept = strip_hop_by_hop py w.strip headers in
      if should_stream headers
      then (let (outcome, p') = streaming_observed now q sent status headers p in
          (
            record { status_code = status; headers = erase "content-length" kept; body = body },
            lease_end now ctx (get_or outcome success_unverified) none (route_seen sent headers) p',
          ))
      else (let ((outcome, usage), p') = bounded_observed now q sent status headers body p in
          (
            record { status_code = status; headers = kept; body = body },
            lease_end now ctx (get_or outcome success_unverified) (some usage)
                (route_seen sent headers) p',
          ))
