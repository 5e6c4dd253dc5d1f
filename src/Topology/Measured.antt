-- ===== src/Topology/Measured.antt =====
-- The loops over stored events count each pair at most once for each layer.
use cachepilot.Prelude.{
  ℕ, ◌+◌, ◌≤◌, String, ◌≡◌, refl, Bool, true, false, not, Option, none, some, List, [], ◌∷◌, All,
  arith, Bool-cases, inl, inr, str_eq, if◌then◌else◌,
}
use cachepilot.Churn.Layers.{
  Layer, system_prefix, system_suffix, tool_schemas, history, history_tail, route, model_layer,
  cache_key_layer,
}
use cachepilot.Storage.{TelemetryEvent, StoredRequestEvent, ChurnEvent}
use cachepilot.Topology.{
  same_layer, same_route, diff, fresh_route, TopologyLayerStats, ToolOrderingStats, LayerTable,
  Progress, count_layer, at_layer, bump, order_step, at_route, count_order,
}
use cachepilot.Topology.SubLayers.{SubLayers, sub_layer_status, loss_layer}
use cachepilot.Topology.Stored.{
  indexed, first_of, loss_of, attribute, attribute_all, add_loss, attribute_loss, cache_key_changed,
  count_flat, stored_pair, stored_pairs, sort_by_id, stored_sessions,
}

module _ {F : Type 0} where
  -- At most one pair more, and a change only with a pair.
  abbrev Grew : TopologyLayerStats F → TopologyLayerStats F → Type 0
  Grew a b = (b.pairs ≤ a.pairs + 1) × (b.changes + a.pairs ≤ b.pairs + a.changes)

  abbrev counted : Option Bool → TopologyLayerStats F → TopologyLayerStats F
  counted none s = s
  counted (some changed) s = bump changed s

  abbrev attributed : Option Bool → TopologyLayerStats F → TopologyLayerStats F
  attributed none s = s
  attributed (some changed) s = record (bump changed s) { attribution_based = true }

  counted-Grew : (o : Option Bool) (s : TopologyLayerStats F) → Grew s (counted o s)
  counted-Grew none s = omega arith
  counted-Grew (some true) s = omega arith
  counted-Grew (some false) s = omega arith

  attributed-Grew : (o : Option Bool) (s : TopologyLayerStats F) → Grew s (attributed o s)
  attributed-Grew none s = omega arith
  attributed-Grew (some true) s = omega arith
  attributed-Grew (some false) s = omega arith

  count_layer-get :
      (l k : Layer) (o : Option Bool) (t : LayerTable F)
      → count_layer l o t k ≡ (if same_layer k l then counted o (t k) else t k)
  unfolding at_layer
  count_layer-get l k none t = ground arith
  count_layer-get l k (some changed) t = refl

  attribute-get :
      (l k : Layer) (o : Option Bool) (t : LayerTable F)
      → attribute l o t k ≡ (if same_layer k l then attributed o (t k) else t k)
  unfolding at_layer
  attribute-get l k none t = ground arith
  attribute-get l k (some changed) t = refl

module _ {F D : Type 0} where
  tables-Grew :
      (status : SubLayers) (a b : TelemetryEvent D) (t : LayerTable F) (k : Layer)
      → Grew (t k) (attribute_all status (count_flat a b t) k)
  unfolding at_layer
  tables-Grew status a b t system_prefix =
      simp (attribute-get, count_layer-get) (attributed-Grew status.prefix (t system_prefix))
  tables-Grew status a b t system_suffix =
      simp (attribute-get, count_layer-get) (attributed-Grew status.suffix (t system_suffix))
  tables-Grew status a b t history =
      simp (attribute-get, count_layer-get) (attributed-Grew status.past (t history))
  tables-Grew status a b t history_tail =
      simp (attribute-get, count_layer-get) (attributed-Grew status.tail (t history_tail))
  tables-Grew status a b t tool_schemas =
      simp (attribute-get, count_layer-get)
        (counted-Grew (diff a.tools_hash b.tools_hash) (t tool_schemas))
  tables-Grew status a b t route =
      simp (attribute-get, count_layer-get)
        (counted-Grew (diff a.route_hash b.route_hash) (t route))
  tables-Grew status a b t model_layer =
      simp (attribute-get, count_layer-get)
        (counted-Grew (some (not (str_eq a.model b.model))) (t model_layer))
  tables-Grew status a b t cache_key_layer =
      simp (attribute-get, count_layer-get)
        (counted-Grew (cache_key_changed a b) (t cache_key_layer))

module _ {F : Type 0} where
  abbrev IsOrderBounded : ToolOrderingStats F → Type 0
  IsOrderBounded s = s.tool_set_changes + s.order_permutations ≤ s.pairs

  -- No layer is counted more often than there are pairs, and none changed more often than it was counted;
  -- nor do the other counters pass those that they are part of.
  pub record IsMeasured (p : Progress F) : Type 0 where
    pub layered :
        (k : Layer)
        → ((p.layers k).changes ≤ (p.layers k).pairs) × ((p.layers k).pairs ≤ p.report.total_pairs)
    pub churned : p.report.churn_pairs ≤ p.report.total_pairs
    pub gaps : p.report.attribution_gaps ≤ p.report.total_pairs
    pub ordered : All IsOrderBounded p.tool_routes

  order_step-IsOrderBounded :
      (x y : Bool) (s : ToolOrderingStats F) → IsOrderBounded s → IsOrderBounded (order_step x y s)
  order_step-IsOrderBounded true y s h = omega arith
  order_step-IsOrderBounded false true s h = omega arith
  order_step-IsOrderBounded false false s h = omega arith

  at_route-ordered :
      (r : Option String) (x y : Bool) (ss : List (ToolOrderingStats F))
      → All IsOrderBounded ss
      → All IsOrderBounded (at_route r (order_step x y) ss)
  unfolding at_route
  at_route-ordered r x y [] h = (order_step-IsOrderBounded x y (fresh_route r) (omega arith), tt)
  at_route-ordered r x y (s ∷ ss) h = elim (Bool-cases (same_route s.route r)) [
    | inl here ↦ rw here (order_step-IsOrderBounded x y s h.0, h.1)
    | inr there ↦ rw there (h.0, at_route-ordered r x y ss h.1)
  ]

  count_order-ordered :
      (t u p q r : Option String) (ss : List (ToolOrderingStats F))
      → All IsOrderBounded ss
      → All IsOrderBounded (count_order t u p q r ss)
  count_order-ordered (some t) (some u) (some p) (some q) r ss h =
      at_route-ordered r (str_eq t u) (str_eq p q) ss h
  count_order-ordered none u p q r ss h = h
  count_order-ordered (some t) none p q r ss h = h
  count_order-ordered (some t) (some u) none q r ss h = h
  count_order-ordered (some t) (some u) (some p) none r ss h = h

  add_loss-get :
      (l k : Layer) (n : ℕ) (t : LayerTable F)
      → ((at_layer l (add_loss n) t k).pairs ≡ (t k).pairs)
        × ((at_layer l (add_loss n) t k).changes ≡ (t k).changes)
  unfolding at_layer
  add_loss-get l k n t = elim (Bool-cases (same_layer k l)) [
    | inl same ↦ rw same (refl, refl)
    | inr other ↦ rw other (refl, refl)
  ]

  attribute_loss-IsMeasured :
      (target : Option Layer) (loss : Option ℕ) (p : Progress F)
      → IsMeasured p
      → IsMeasured (attribute_loss target loss p)
  attribute_loss-IsMeasured none none p h = h
  attribute_loss-IsMeasured (some l) none p h = h
  attribute_loss-IsMeasured none (some n) p h = record {
    layered = h.layered;
    churned = h.churned;
    gaps = h.gaps;
    ordered = h.ordered;
  }
  attribute_loss-IsMeasured (some l) (some n) p h = record {
    layered = λ k. omega (arith, h.layered k, add_loss-get l k n p.layers);
    churned = h.churned;
    gaps = h.gaps;
    ordered = h.ordered;
  }

module _ {F D : Type 0} where
  stored_pair-IsMeasured :
      (index : List (ChurnEvent F)) (a b : TelemetryEvent D) (p : Progress F)
      → IsMeasured p
      → IsMeasured (stored_pair index a b p)
  unfolding stored_pair
  stored_pair-IsMeasured index a b p h =
      let churn = indexed a.session_hash a.cache_fingerprint b.cache_fingerprint index in
      let status =
        sub_layer_status a.system_hash b.system_hash a.history_hash b.history_hash
          (first_of churn) in
      attribute_loss-IsMeasured (loss_layer (first_of churn)) (loss_of churn) _ (record {
        layered = λ k. omega (arith, h.layered k, tables-Grew status a b p.layers k);
        churned = ground (arith, h.churned);
        gaps = ground (arith, h.gaps);
        ordered =
            count_order-ordered a.tools_hash b.tools_hash a.tools_set_hash b.tools_set_hash _
              p.tool_routes h.ordered;
      })

  stored_pairs-IsMeasured :
      (index : List (ChurnEvent F)) (es : List (StoredRequestEvent D)) (p : Progress F)
      → IsMeasured p
      → IsMeasured (stored_pairs index es p)
  unfolding stored_pairs
  stored_pairs-IsMeasured index [] p h = h
  stored_pairs-IsMeasured index (a ∷ []) p h = h
  stored_pairs-IsMeasured index (a ∷ b ∷ rest) p h =
      stored_pairs-IsMeasured index (b ∷ rest) _ (stored_pair-IsMeasured index a.event b.event p h)

  -- The loops over sessions and pairs keep the counters in order.
  pub stored_sessions-IsMeasured :
      (index : List (ChurnEvent F)) (groups : List (Option String × List (StoredRequestEvent D)))
      (p : Progress F)
      → IsMeasured p
      → IsMeasured (stored_sessions index groups p)
  unfolding stored_sessions
  stored_sessions-IsMeasured index [] p h = h
  stored_sessions-IsMeasured index ((k, es) ∷ groups) p h =
      stored_sessions-IsMeasured index groups _ (
        stored_pairs-IsMeasured index (sort_by_id es) _
          (record { layered = h.layered; churned = h.churned; gaps = h.gaps; ordered = h.ordered }))
