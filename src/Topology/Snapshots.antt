-- ===== src/Topology/Snapshots.antt =====
-- topology.py: the report over consecutive snapshots of digests.
use cachepilot.Prelude.{
  ◌+◌, ◌-◌, Bool, false, ◌||◌, Option, some, List, [], ◌∷◌, length, ltb, if◌then◌else◌,
}
use cachepilot.Numbers.{Arith}
use cachepilot.Churn.Layers.{
  Layer, system_prefix, system_suffix, tool_schemas, history, history_tail, route, model_layer,
  cache_key_layer, LayeredHashes,
}
use cachepilot.Churn.Cause.{differ, holds}
use cachepilot.Topology.{
  topology_layer_order, diff, TopologyReport, Progress, nothing_measured, count_layer, at_layer,
  count_order, at_route, route_of_pair, finalize_report,
}

-- `_pair_flags_from_hashes`
unfoldable pub pair_flags : LayeredHashes → LayeredHashes → Layer → Option Bool
unfolding differ
pair_flags p c system_prefix = diff p.system_prefix_hash c.system_prefix_hash
pair_flags p c system_suffix = diff p.system_suffix_hash c.system_suffix_hash
pair_flags p c tool_schemas = diff p.tools_hash c.tools_hash
pair_flags p c history = diff p.history_prefix_hash c.history_prefix_hash
pair_flags p c history_tail = diff p.history_tail_hash c.history_tail_hash
pair_flags p c route = diff p.route_hash c.route_hash
pair_flags p c model_layer = diff p.model c.model
pair_flags p c cache_key_layer = some (differ p.cache_key c.cache_key)

abbrev any_moved : List Layer → (Layer → Option Bool) → Bool
any_moved [] flags = false
any_moved (l ∷ ls) flags = holds (flags l) || any_moved ls flags

module _ {F : Type 0} where
  abbrev pub count_layers : List Layer → (Layer → Option Bool) → Progress F → Progress F
  count_layers [] flags p = p
  count_layers (l ∷ ls) flags p =
      count_layers ls flags (record p { layers = count_layer l (flags l) p.layers })

  -- One round of the loop.
  unfoldable pub snapshot_pair : LayeredHashes → LayeredHashes → Progress F → Progress F
  unfolding pair_flags at_layer at_route
  snapshot_pair a b p =
      let flags = pair_flags a b in
      let moved = differ a.cache_key b.cache_key || any_moved topology_layer_order flags in
      let counted = count_layers topology_layer_order flags p in
      record counted {
        report = record p.report {
          churn_pairs = if moved then p.report.churn_pairs + 1 else p.report.churn_pairs;
        };
        tool_routes =
            count_order a.tools_hash b.tools_hash a.tools_set_hash b.tools_set_hash
              (route_of_pair a.route_hash b.route_hash) counted.tool_routes;
      }

  -- The loop over `itertools.pairwise(snapshots)`.
  unfoldable pub snapshot_pairs : List LayeredHashes → Progress F → Progress F
  unfolding snapshot_pair
  snapshot_pairs [] p = p
  snapshot_pairs (a ∷ []) p = p
  snapshot_pairs (a ∷ b ∷ rest) p = snapshot_pairs (b ∷ rest) (snapshot_pair a b p)

  abbrev pub start_of : List LayeredHashes → Progress F
  start_of snapshots =
      let begun : Progress F = nothing_measured in
      record begun {
        report = record begun.report { sessions = 1; total_pairs = length snapshots - 1 };
      }

module _ {F : Type 0} ⦃f : Arith F⦄ (round1 : F → F) where
  -- `topology_from_snapshots`
  unfoldable pub topology_from_snapshots : List LayeredHashes → TopologyReport F
  unfolding snapshot_pairs finalize_report
  topology_from_snapshots snapshots =
      if ltb (length snapshots) 2
      then finalize_report round1 nothing_measured
      else finalize_report round1 (snapshot_pairs snapshots (start_of snapshots))
