-- ===== src/Relay/Controller.antt =====
-- packages/relay/src/cachepilot_relay/lease_controller.py: the calls that the relay makes on the lease
-- manager around a request. The controller makes its own manager, so the two share one snapshot store,
-- which is the manager's here. `now` is the clock, and `numeral` writes a number. Writes to the
-- telemetry store are left out: they change nothing that is read here.
pub mod Affinity
pub mod Requests
pub mod Failure
use cachepilot.Prelude.{
  ℕ, zero, suc, String, Bool, true, false, not, Option, none, some, List, [], ◌∷◌, map, get_or,
  str_eq, contains, if◌then◌else◌,
}
use Prim.Native.String.{◌++◌}
use cachepilot.Dict.{Dict, lookup, insert, keys, values, keep}
use cachepilot.Json.{Json, obj, Fields}
use cachepilot.Python.{Python}
use cachepilot.Snapshots
use cachepilot.Snapshots.{RequestSnapshot}
use cachepilot.Numbers.{Arith}
use cachepilot.Leases.{LeaseManager, CacheLease}
use cachepilot.Leases.Lifecycle.{target_started, target_finished}
use cachepilot.Routes.Affinity.{AffinityConfig, RouteAffinityRegistry, prune}
use cachepilot.Relay.Observation.{json_or_none}

pub record LeaseController (F D : Type 0) : Type 0 where
  pub manager : LeaseManager F D
  pub enabled : Bool
  pub has_store : Bool
  pub replay_headers : List String
  pub affinity_config : AffinityConfig D
  pub affinity_extra_cost_usd : D
  pub affinity_registry : RouteAffinityRegistry F
  pub target_ids : Dict (List String)

pub record LeaseRequestContext : Type 0 where
  pub lease_id : String
  pub targets_count : ℕ

-- `{f"bg-{i}" for i in range(1, count + 1)}`
unfoldable pub background_ids : (numeral : ℕ → String) → ℕ → List String
background_ids numeral zero = []
background_ids numeral (suc n) = ("bg-" ++ numeral (suc n)) ∷ background_ids numeral n

-- The ids of the first set that are not in the second.
unfoldable pub minus : List String → List String → List String
minus [] ys = []
minus (x ∷ xs) ys = let rest = minus xs ys in if contains x ys then rest else x ∷ rest

module _ {F D : Type 0} where
  unfoldable pub each_target :
      (String → LeaseManager F D → Option (LeaseManager F D))
      → List String
      → LeaseManager F D
      → Option (LeaseManager F D)
  each_target call [] m = some m
  each_target call (t ∷ ts) m = elim (call t m) [ none ↦ none | some m' ↦ each_target call ts m' ]

  -- `_sync_targets`
  unfoldable pub sync_targets :
      (numeral : ℕ → String) → String → ℕ → LeaseController F D → Option (LeaseController F D)
  unfolding background_ids minus each_target target_started target_finished
  sync_targets numeral id count s =
      let desired = background_ids numeral count in
      let current = get_or (lookup id s.target_ids) [] in
      elim (each_target (target_finished id) (minus current desired) s.manager) [
        | none ↦ none
        | some m ↦ elim (each_target (target_started id) (minus desired current) m) [
          | none ↦ none
          | some m' ↦ some (record s { manager = m'; target_ids = insert id desired s.target_ids })
        ]
      ]

  -- `_prune_snapshots`
  unfoldable pub prune_snapshots : LeaseManager F D → LeaseManager F D
  prune_snapshots m = elim m.snapshot_store [
    | none ↦ m
    | some store ↦
        let tracked = map (λ l. l.cache_fingerprint) (values m.leases) in
        record m { snapshot_store = some (keep (λ fp. contains fp tracked) store) }
  ]

module _ {F D : Type 0} ⦃f : Arith F⦄ where
  -- `_prune_target_ids`
  unfoldable pub prune_target_ids : LeaseController F D → LeaseController F D
  unfolding prune
  prune_target_ids s =
      let known = keys s.manager.leases in
      record s {
        target_ids = keep (λ id. contains id known) s.target_ids;
        affinity_registry = prune known s.affinity_registry;
      }

module _ {F D : Type 0} (py : Python F D) where
  -- `_replay_headers`: the allowlisted headers, by their names in lower case.
  unfoldable pub allowed_headers : List String → Dict String → Dict String → Dict String
  allowed_headers allowed [] seen = seen
  allowed_headers allowed ((name, value) ∷ headers) seen =
      allowed_headers allowed headers
        (if contains (py.lower name) allowed then insert (py.lower name) value seen else seen)

  -- `_store_snapshot`
  unfoldable pub store_snapshot :
      F → String → String → String → Dict String → LeaseController F D → LeaseController F D
  unfolding json_or_none allowed_headers Snapshots.store
  store_snapshot now fp body upstream_url headers s = elim s.manager.snapshot_store [
    | none ↦ s
    | some snapshots ↦ elim (json_or_none py body) [
      | none ↦ s
      | some parsed ↦
          let snapshot : RequestSnapshot F = record {
            cache_fingerprint = fp;
            body = parsed;
            upstream_url = upstream_url;
            replay_headers = allowed_headers s.replay_headers headers [];
            stored_at = now;
          } in
          record s {
            manager = record s.manager {
              snapshot_store = some (Snapshots.store snapshot snapshots);
            };
          }
    ]
  ]
