-- ===== src/Relay/Controller/Requests.antt =====
-- `on_request_start` and `on_request_end`: a raised error ends the tracking and leaves the controller
-- as it was before the call that raised; traffic is not affected.
use cachepilot.Prelude.{ℕ, String, not, Option, none, some, str_eq, ltb, if◌then◌else◌}
use cachepilot.Prelude.Int.{ℤ}
use cachepilot.Numbers.{Arith, Conversion, lit}
use cachepilot.Dict.{Dict}
use cachepilot.Python.{Python}
use cachepilot.Snapshots
use cachepilot.Telemetry.{Outcome, is_failed}
use cachepilot.Usage.{TokenUsage}
use cachepilot.Identity.{CanonicalRequest}
use cachepilot.Identity.Fingerprint.{mode_text, request_fingerprint, cache_fingerprint}
use cachepilot.Leases.{LeaseManager, LeaseIdentity, Hashing}
use cachepilot.Leases.Runtime.{find_lease, put_lease}
use cachepilot.Leases.Registry.{find_or_create_lease}
use cachepilot.Leases.Requests.{
  before_normal_request, after_normal_request, refresh_ttl, update_cost_estimates,
}
use cachepilot.Routes.Intel.{route_hash}
use cachepilot.Relay.Observation.{build_canonical_request, derive_auth_scope, parse_targets_count}
use cachepilot.Relay.Routes.{request_route_identity}
use cachepilot.Relay.Controller.{
  LeaseController, LeaseRequestContext, sync_targets, prune_target_ids, prune_snapshots,
  store_snapshot,
}
use cachepilot.Relay.Controller.Affinity.{EventLookup, reconcile_affinity}

-- What the relay hands to the controller before it forwards a request.
pub record RelayRequest : Type 0 where
  pub body : String
  pub path : String
  pub upstream_url : String
  pub headers : Dict String
  pub session_header : Option String
  pub targets_header : Option String

-- The language's functions that only the controller uses.
pub record Texts : Type 0 where
  pub numeral : ℕ → String
  pub head16 : String → String
  pub read_count : String → Option ℤ

unfoldable pub lease_identity :
    {F D : Type 0} (py : Python F D) → String → CanonicalRequest F → LeaseIdentity
unfolding request_fingerprint cache_fingerprint
lease_identity py session r = record {
  session_id = session;
  provider = r.provider;
  model = r.model;
  api_mode = mode_text r.api_mode;
  base_url = r.endpoint;
  auth_scope_hash = r.auth_scope;
  route_fingerprint = r.route;
  request_fingerprint = request_fingerprint py r;
  cache_fingerprint = cache_fingerprint py r;
  system_fingerprint = r.system_hash;
  tools_fingerprint = r.tools_hash;
  history_prefix_fingerprint = r.prompt_key;
}

abbrev session_of : Option String → Option String
session_of none = none
session_of (some s) = if str_eq s "" then none else some s

module _ {F D : Type 0} ⦃f : Arith F⦄ ⦃d : Arith D⦄ ⦃c : Conversion F D⦄ (py : Python F D)
    (hash : Hashing) (texts : Texts) where
  -- The canonical request, with the route that is known before the response.
  unfoldable pub canonical_of_request : RelayRequest → Option (CanonicalRequest F)
  unfolding build_canonical_request derive_auth_scope request_route_identity route_hash
  canonical_of_request q =
      build_canonical_request py
        (record {
          path = q.path;
          upstream_url = q.upstream_url;
          route_hash = route_hash py (request_route_identity py q.upstream_url);
          auth_scope = derive_auth_scope py texts.head16 q.headers;
        })
        q.body

  abbrev with_manager : LeaseController F D → LeaseManager F D → LeaseController F D
  with_manager s m = record s { manager = m }

  abbrev pruned : LeaseController F D → LeaseController F D
  pruned s = let s' = prune_target_ids s in with_manager s' (prune_snapshots s'.manager)

  -- From the lease on: the targets, the start of the request and its snapshot.
  unfoldable pub begin_request :
      F
      → RelayRequest
      → String
      → LeaseController F D
      → Option LeaseRequestContext × LeaseController F D
  unfolding sync_targets prune_target_ids prune_snapshots store_snapshot parse_targets_count
      before_normal_request find_lease
  begin_request now q id s =
      let count = parse_targets_count texts.read_count q.targets_header in
      elim (sync_targets texts.numeral id count (pruned s)) [
        | none ↦ (none, pruned s)
        | some synced ↦ elim (before_normal_request now id synced.manager) [
          | none ↦ (none, synced)
          | some m ↦ elim (find_lease id m) [
            | none ↦ (none, with_manager synced m)
            | some l ↦ (
              some (record { lease_id = id; targets_count = count }),
              store_snapshot py now l.cache_fingerprint q.body q.upstream_url q.headers
                  (with_manager synced m),
            )
          ]
        ]
      ]

  -- `on_request_start`; `fresh` is the fresh id of a new lease.
  unfoldable pub on_request_start :
      F
      → String
      → RelayRequest
      → LeaseController F D
      → Option LeaseRequestContext × LeaseController F D
  unfolding canonical_of_request lease_identity find_or_create_lease begin_request find_lease
  on_request_start now fresh q s = elim (if s.enabled then session_of q.session_header else none) [
    | none ↦ (none, s)
    | some session ↦ elim (canonical_of_request q) [
      | none ↦ (none, s)
      | some r ↦
          let identity = lease_identity py session r in
          elim (find_or_create_lease hash fresh identity none (lit 1 2) s.manager) [
            | none ↦ (none, s)
            | some (id, m) ↦ begin_request now q id (with_manager s m)
          ]
    ]
  ]

module _ {F D : Type 0} where
  -- The observed route is the lease's.
  unfoldable pub reconcile_route : String → Option String → LeaseManager F D → LeaseManager F D
  unfolding find_lease put_lease
  reconcile_route id none m = m
  reconcile_route id (some route) m = elim (find_lease id m) [
    | none ↦ m
    | some l ↦
        put_lease id (record l { identity = record l.identity { route_fingerprint = some route } })
          m
  ]

  -- The snapshot of a failed request goes away.
  abbrev pub dropped : String → Outcome → LeaseManager F D → LeaseManager F D
  dropped fp outcome m = elim m.snapshot_store [
    | none ↦ m
    | some snapshots ↦
        if is_failed outcome
        then record m { snapshot_store = some (Snapshots.drop fp snapshots) }
        else m
  ]

module _ {F D : Type 0} ⦃f : Arith F⦄ ⦃d : Arith D⦄ ⦃c : Conversion F D⦄ where
  abbrev pub costs_refreshed :
      String → Option (TokenUsage D) → LeaseManager F D → Option (LeaseManager F D)
  costs_refreshed id none m = some m
  costs_refreshed id (some usage) m =
      if ltb 0 usage.prompt_tokens then update_cost_estimates id usage m else some m

module _ {F D : Type 0} ⦃f : Arith F⦄ ⦃d : Arith D⦄ ⦃c : Conversion F D⦄ (hash : Hashing)
    (events : EventLookup F) where
  -- With the lease at hand: its route, its TTL, its snapshot and its pin.
  unfoldable pub end_tracking :
      F → String → Outcome → Option String → LeaseController F D → LeaseController F D
  unfolding reconcile_route refresh_ttl reconcile_affinity find_lease Snapshots.drop
  end_tracking now id outcome route s =
      let m = reconcile_route id route s.manager in
      elim (refresh_ttl hash id m) [
        | none ↦ record s { manager = m }
        | some refreshed ↦ elim (find_lease id refreshed) [
          | none ↦ record s { manager = refreshed }
          | some l ↦
              reconcile_affinity hash.sha256 now events id l outcome
                (record s { manager = dropped l.cache_fingerprint outcome refreshed })
        ]
      ]

  -- `on_request_end`
  unfoldable pub on_request_end :
      F
      → LeaseRequestContext
      → Outcome
      → Option (TokenUsage D)
      → Option String
      → LeaseController F D
      → LeaseController F D
  unfolding end_tracking after_normal_request update_cost_estimates find_lease
  on_request_end now ctx outcome usage route s =
      if not s.enabled then s else elim (after_normal_request now ctx.lease_id outcome s.manager) [
        | none ↦ s
        | some ended ↦ elim (costs_refreshed ctx.lease_id usage ended) [
          | none ↦ record s { manager = ended }
          | some m ↦ elim (find_lease ctx.lease_id m) [
            | none ↦ record s { manager = m }
            | some l ↦ end_tracking now ctx.lease_id outcome route (record s { manager = m })
          ]
        ]
      ]
