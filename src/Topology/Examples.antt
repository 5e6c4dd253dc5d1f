-- ===== src/Topology/Examples.antt =====
-- The report on concrete stores and requests.
use cachepilot.Prelude.{◌≤◌, refl, some, none, List, [], ◌∷◌, All, map, arith}
use cachepilot.Prelude.Int.{ℤ}
use cachepilot.Numbers.Fixed.{fixed_point}
use cachepilot.Json.{Json}
use cachepilot.Identity.Examples.{plain_python, tool, first_text}
use cachepilot.Churn.Layers.{RequestContent, to_hashes}
use cachepilot.Storage.Examples.{two_events}
use cachepilot.Topology.Snapshots.{topology_from_snapshots}
use cachepilot.Topology.Stored.{topology_from_store}
use cachepilot.Topology.Bounds.{IsLayerBounded, topology_from_store-IsBounded}
use cachepilot.Topology.Ordering.{IsOneSet, topology_from_snapshots-IsOneSet}

abbrev as_is : ℤ → ℤ
as_is x = x

topology_from_store-IsBounded_example :
    let r = topology_from_store as_is 500 two_events in
    All (IsLayerBounded r.total_pairs) r.layers
    × (r.churn_pairs ≤ r.total_pairs)
    × (r.attribution_gaps ≤ r.total_pairs)
topology_from_store-IsBounded_example = topology_from_store-IsBounded as_is 500 two_events

abbrev request_with : List Json → RequestContent
request_with tools = record {
  system = none;
  messages = [];
  tools = some tools;
  route_hash = none;
  model = some "model";
  cache_key = none;
}

abbrev both : List Json
both = tool "read" ∷ tool "write" ∷ []

abbrev reordered : List Json
reordered = tool "write" ∷ tool "read" ∷ []

topology_from_snapshots-IsOneSet_example :
    All IsOneSet
      (topology_from_snapshots as_is (
        map
          (to_hashes plain_python [])
          (request_with both ∷ request_with reordered ∷ []))).tool_ordering
unfolding first_text
topology_from_snapshots-IsOneSet_example =
    topology_from_snapshots-IsOneSet plain_python [] as_is both
      (request_with both ∷ request_with reordered ∷ [])
      ((both, refl, λ t. refl), ((reordered, refl, λ t. ground arith), tt))
