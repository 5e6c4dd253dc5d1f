-- ===== src/Topology.antt =====
-- packages/core/src/cachepilot_core/topology.py: how stable the layers of the requests are, and the order of
-- their tools. The dict of the layers has one entry for each, so it is a function.
pub mod Snapshots
pub mod SubLayers
pub mod Stored
pub mod Measured
pub mod Bounds
pub mod Attribution
pub mod Ordering
mod Examples
use cachepilot.Prelude.{
  ℕ, ◌+◌, String, Bool, true, false, ◌&&◌, ◌||◌, not, Option, none, some, List, [], ◌∷◌, map, ltb,
  is_some, str_eq, if◌then◌else◌,
}
use cachepilot.Prelude.TextSet.{text_le}
use cachepilot.Numbers.{Arith, lit, sub, mul, div, one}
use cachepilot.Churn.Layers.{
  Layer, system_prefix, system_suffix, tool_schemas, history, history_tail, route, model_layer,
  cache_key_layer,
}

-- `TopologyLayerStats`, without the phrase for the frequency of changes.
pub record TopologyLayerStats (F : Type 0) : Type 0 where
  pub layer : Layer
  pub pairs : ℕ
  pub changes : ℕ
  pub stability_pct : Option F
  pub estimated_prefix_loss_tokens : Option ℕ
  pub attribution_based : Bool

pub record ToolOrderingStats (F : Type 0) : Type 0 where
  pub route : Option String
  pub pairs : ℕ
  pub tool_set_changes : ℕ
  pub order_permutations : ℕ
  pub ordering_stability_pct : Option F

pub record TopologyReport (F : Type 0) : Type 0 where
  pub layers : List (TopologyLayerStats F)
  pub tool_ordering : List (ToolOrderingStats F)
  pub sessions : ℕ
  pub total_pairs : ℕ
  pub churn_pairs : ℕ
  pub prefix_stability_pct : Option F
  pub attribution_gaps : ℕ
  pub unattributed_loss_tokens : ℕ

-- `TOPOLOGY_LAYER_ORDER`
abbrev pub topology_layer_order : List Layer
topology_layer_order =
    system_prefix ∷ system_suffix ∷ tool_schemas ∷ history ∷ history_tail ∷ route ∷ model_layer
    ∷ cache_key_layer ∷ []

abbrev pub same_layer : Layer → Layer → Bool
same_layer system_prefix system_prefix = true
same_layer system_suffix system_suffix = true
same_layer tool_schemas tool_schemas = true
same_layer history history = true
same_layer history_tail history_tail = true
same_layer route route = true
same_layer model_layer model_layer = true
same_layer cache_key_layer cache_key_layer = true
same_layer _ _ = false

-- `_diff`
abbrev pub diff : Option String → Option String → Option Bool
diff (some previous) (some current) = some (not (str_eq previous current))
diff _ _ = none

abbrev pub same_route : Option String → Option String → Bool
same_route none none = true
same_route (some a) (some b) = str_eq a b
same_route _ _ = false

-- The order of `(key is not None, key or "")`.
abbrev pub route_le : Option String → Option String → Bool
route_le none b = true
route_le (some a) none = false
route_le (some a) (some b) = text_le a b

abbrev pub LayerTable : Type 0 → Type 0
LayerTable F = Layer → TopologyLayerStats F

module _ {F : Type 0} where
  -- `_empty_layers`
  abbrev pub empty_layers : LayerTable F
  empty_layers l = record {
    layer = l;
    pairs = 0;
    changes = 0;
    stability_pct = none;
    estimated_prefix_loss_tokens = none;
    attribution_based = false;
  }

  abbrev pub bump : Bool → TopologyLayerStats F → TopologyLayerStats F
  bump true s = record s { pairs = s.pairs + 1; changes = s.changes + 1 }
  bump false s = record s { pairs = s.pairs + 1 }

  -- A change to the statistics of one layer.
  unfoldable pub at_layer :
      Layer → (TopologyLayerStats F → TopologyLayerStats F) → LayerTable F → LayerTable F
  at_layer l change t = λ k. if same_layer k l then change (t k) else t k

  -- A pair is counted for a layer where it can be decided.
  abbrev pub count_layer : Layer → Option Bool → LayerTable F → LayerTable F
  count_layer l none t = t
  count_layer l (some changed) t = at_layer l (bump changed) t

  abbrev pub fresh_route : Option String → ToolOrderingStats F
  fresh_route r = record {
    route = r;
    pairs = 0;
    tool_set_changes = 0;
    order_permutations = 0;
    ordering_stability_pct = none;
  }

  -- `tool_routes.setdefault(route, ...)`, and the change to it.
  unfoldable pub at_route :
      Option String
      → (ToolOrderingStats F → ToolOrderingStats F)
      → List (ToolOrderingStats F)
      → List (ToolOrderingStats F)
  at_route r change [] = change (fresh_route r) ∷ []
  at_route r change (s ∷ ss) =
      if same_route s.route r then change s ∷ ss else s ∷ at_route r change ss

  -- Whether the tools and their set are the same.
  abbrev pub order_step : Bool → Bool → ToolOrderingStats F → ToolOrderingStats F
  order_step true same_set s = record s { pairs = s.pairs + 1 }
  order_step false true s = record s {
    pairs = s.pairs + 1;
    order_permutations = s.order_permutations + 1;
  }
  order_step false false s = record s {
    pairs = s.pairs + 1;
    tool_set_changes = s.tool_set_changes + 1;
  }

  -- The order of the tools of a pair, where all four digests are known.
  abbrev pub count_order :
      (tools_a tools_b set_a set_b route : Option String)
      → List (ToolOrderingStats F)
      → List (ToolOrderingStats F)
  count_order (some t) (some u) (some p) (some q) r routes =
      at_route r (order_step (str_eq t u) (str_eq p q)) routes
  count_order _ _ _ _ r routes = routes

  abbrev pub insert_route :
      ToolOrderingStats F → List (ToolOrderingStats F) → List (ToolOrderingStats F)
  insert_route x [] = x ∷ []
  insert_route x (y ∷ ys) =
      let rest = insert_route x ys in if route_le x.route y.route then x ∷ y ∷ ys else y ∷ rest

  unfoldable pub sorted_routes : List (ToolOrderingStats F) → List (ToolOrderingStats F)
  sorted_routes [] = []
  sorted_routes (x ∷ xs) = insert_route x (sorted_routes xs)

  -- `TopologyReport()`
  abbrev pub empty_report : TopologyReport F
  empty_report = record {
    layers = [];
    tool_ordering = [];
    sessions = 0;
    total_pairs = 0;
    churn_pairs = 0;
    prefix_stability_pct = none;
    attribution_gaps = 0;
    unattributed_loss_tokens = 0;
  }

-- `current.route_hash if current.route_hash is not None else previous.route_hash`
abbrev pub route_of_pair : Option String → Option String → Option String
route_of_pair previous none = previous
route_of_pair previous (some r) = some r

-- What the loops over the pairs change.
pub record Progress (F : Type 0) : Type 0 where
  pub report : TopologyReport F
  pub layers : Layer → TopologyLayerStats F
  pub tool_routes : List (ToolOrderingStats F)

abbrev pub nothing_measured : {F : Type 0} → Progress F
nothing_measured = record { report = empty_report; layers = empty_layers; tool_routes = [] }

module _ {F : Type 0} ⦃f : Arith F⦄ (round1 : F → F) where
  -- `round(100.0 * (1 - part / whole), 1)`
  abbrev share_kept : ℕ → ℕ → F
  share_kept part whole = round1 (mul (lit 100 1) (sub one (div (lit part 1) (lit whole 1))))

  abbrev pub finished_layer : TopologyLayerStats F → TopologyLayerStats F
  finished_layer s =
      if ltb 0 s.pairs then record s { stability_pct = some (share_kept s.changes s.pairs) } else s

  abbrev pub finished_route : ToolOrderingStats F → ToolOrderingStats F
  finished_route s =
      if ltb 0 s.pairs
      then record s { ordering_stability_pct = some (share_kept s.order_permutations s.pairs) }
      else s

  -- `_finalize_report`
  unfoldable pub finalize_report : Progress F → TopologyReport F
  unfolding sorted_routes
  finalize_report p =
      if ltb 0 p.report.total_pairs
      then record p.report {
        layers = map (λ l. finished_layer (p.layers l)) topology_layer_order;
        prefix_stability_pct = some (share_kept p.report.churn_pairs p.report.total_pairs);
        tool_ordering = map finished_route (sorted_routes p.tool_routes);
      }
      else p.report
