-- ===== src/Topology/Stored.antt =====
-- topology.py: the report over stored events, with the churn events that say where a pair diverged.
use cachepilot.Prelude.{
  ℕ, ◌+◌, String, Bool, true, ◌&&◌, ◌||◌, not, Option, none, some, List, [], ◌∷◌, leb, get_or,
  str_eq, if◌then◌else◌,
}
use cachepilot.Numbers.{Arith}
use cachepilot.Churn.Layers.{
  Layer, system_prefix, system_suffix, tool_schemas, history, history_tail, route, model_layer,
  cache_key_layer,
}
use cachepilot.Churn.Cause.{holds}
use cachepilot.Storage.{TelemetryEvent, StoredRequestEvent, ChurnEvent, TelemetryStore}
use cachepilot.Storage.Queries.{recent_events, churn_list}
use cachepilot.Topology.{
  diff, same_route, TopologyReport, TopologyLayerStats, LayerTable, Progress, nothing_measured,
  count_layer, at_layer, bump, count_order, at_route, route_of_pair, finalize_report,
}
use cachepilot.Topology.SubLayers.{SubLayers, sub_layer_status, is_layered, loss_layer}

module _ {F : Type 0} where
  -- `_churn_index`, looked up: of several events of one transition the last stands.
  unfoldable pub indexed :
      Option String → String → String → List (ChurnEvent F) → Option (ChurnEvent F)
  indexed session old new [] = none
  indexed session old new (c ∷ cs) =
      let later = indexed session old new cs in
      elim later [
        | some d ↦ some d
        | none ↦
            if same_route c.session_hash session
              && (str_eq c.previous_cache_fingerprint old && str_eq c.new_cache_fingerprint new)
            then some c
            else none
      ]

  abbrev pub first_of : Option (ChurnEvent F) → Option Layer
  first_of none = none
  first_of (some c) = c.first_divergent_layer

  abbrev pub loss_of : Option (ChurnEvent F) → Option ℕ
  loss_of none = none
  loss_of (some c) = c.estimated_prefix_loss_tokens

  -- A sub-layer is counted as attributed.
  abbrev pub attribute : Layer → Option Bool → LayerTable F → LayerTable F
  attribute l none t = t
  attribute l (some changed) t =
      at_layer l (λ s. record (bump changed s) { attribution_based = true }) t

  abbrev pub attribute_all : SubLayers → LayerTable F → LayerTable F
  attribute_all s t = attribute history_tail s.tail (
      attribute history s.past
        (attribute system_suffix s.suffix (attribute system_prefix s.prefix t)))

  abbrev pub add_loss : ℕ → TopologyLayerStats F → TopologyLayerStats F
  add_loss n s = record s {
    estimated_prefix_loss_tokens = some (get_or s.estimated_prefix_loss_tokens 0 + n);
  }

  -- The loss of a pair, at the layer that diverged first or without one.
  abbrev pub attribute_loss : Option Layer → Option ℕ → Progress F → Progress F
  attribute_loss target none p = p
  attribute_loss (some l) (some n) p = record p { layers = at_layer l (add_loss n) p.layers }
  attribute_loss none (some n) p = record p {
    report = record p.report { unattributed_loss_tokens = p.report.unattributed_loss_tokens + n };
  }

abbrev append_event :
    {D : Type 0} → List (StoredRequestEvent D) → StoredRequestEvent D → List (StoredRequestEvent D)
append_event [] e = e ∷ []
append_event (x ∷ xs) e = x ∷ append_event xs e

module _ {D : Type 0} where
  -- Which of the flat digests moved.
  abbrev flat_moved : TelemetryEvent D → TelemetryEvent D → Bool
  flat_moved a b =
      holds (diff a.system_hash b.system_hash)
      || (holds (diff a.tools_hash b.tools_hash)
          || (holds (diff a.history_hash b.history_hash)
              || (holds (diff a.route_hash b.route_hash) || not (str_eq a.model b.model))))

  abbrev pub moved : TelemetryEvent D → TelemetryEvent D → Bool
  moved a b = not (str_eq a.cache_fingerprint b.cache_fingerprint)

  abbrev pub cache_key_changed : TelemetryEvent D → TelemetryEvent D → Option Bool
  cache_key_changed a b = if moved a b then some (not (flat_moved a b)) else none

  abbrev is_gap : TelemetryEvent D → TelemetryEvent D → Option Layer → Bool
  is_gap a b first =
      (holds (diff a.system_hash b.system_hash) || holds (diff a.history_hash b.history_hash))
      && not (is_layered first)

module _ {D : Type 0} where
  -- `session_events.sort(key=lambda event: event.id)`
  unfoldable pub insert_by_id :
      StoredRequestEvent D → List (StoredRequestEvent D) → List (StoredRequestEvent D)
  insert_by_id e [] = e ∷ []
  insert_by_id e (x ∷ xs) =
      let rest = insert_by_id e xs in if leb e.id x.id then e ∷ x ∷ xs else x ∷ rest

  unfoldable pub sort_by_id : List (StoredRequestEvent D) → List (StoredRequestEvent D)
  unfolding insert_by_id
  sort_by_id [] = []
  sort_by_id (e ∷ es) = insert_by_id e (sort_by_id es)

  -- `sessions.setdefault(event.session_hash, []).append(event)`
  unfoldable pub to_session :
      StoredRequestEvent D
      → List (Option String × List (StoredRequestEvent D))
      → List (Option String × List (StoredRequestEvent D))
  to_session e [] = (e.event.session_hash, e ∷ []) ∷ []
  to_session e ((k, es) ∷ groups) =
      if same_route k e.event.session_hash
      then (k, append_event es e) ∷ groups
      else (k, es) ∷ to_session e groups

  unfoldable pub by_session :
      List (StoredRequestEvent D)
      → List (Option String × List (StoredRequestEvent D))
      → List (Option String × List (StoredRequestEvent D))
  unfolding to_session
  by_session [] groups = groups
  by_session (e ∷ es) groups = by_session es (to_session e groups)

module _ {F D : Type 0} where
  abbrev pub count_flat : TelemetryEvent D → TelemetryEvent D → LayerTable F → LayerTable F
  count_flat a b t = count_layer cache_key_layer (cache_key_changed a b) (
      count_layer model_layer (some (not (str_eq a.model b.model))) (
        count_layer route (diff a.route_hash b.route_hash)
          (count_layer tool_schemas (diff a.tools_hash b.tools_hash) t)))

  abbrev pub counters :
      TelemetryEvent D → TelemetryEvent D → Option Layer → TopologyReport F → TopologyReport F
  counters a b first r = record r {
    total_pairs = r.total_pairs + 1;
    churn_pairs = if moved a b then r.churn_pairs + 1 else r.churn_pairs;
    attribution_gaps = if is_gap a b first then r.attribution_gaps + 1 else r.attribution_gaps;
  }

  -- One round of the loop over the pairs.
  unfoldable pub stored_pair :
      List (ChurnEvent F) → TelemetryEvent D → TelemetryEvent D → Progress F → Progress F
  unfolding indexed sub_layer_status at_layer at_route
  stored_pair index a b p =
      let churn = indexed a.session_hash a.cache_fingerprint b.cache_fingerprint index in
      let first = first_of churn in
      let status =
        sub_layer_status a.system_hash b.system_hash a.history_hash b.history_hash first in
      attribute_loss (loss_layer first) (loss_of churn) (record {
        report = counters a b first p.report;
        layers = attribute_all status (count_flat a b p.layers);
        tool_routes =
            count_order a.tools_hash b.tools_hash a.tools_set_hash b.tools_set_hash
              (route_of_pair a.route_hash b.route_hash) p.tool_routes;
      })

  unfoldable pub stored_pairs :
      List (ChurnEvent F) → List (StoredRequestEvent D) → Progress F → Progress F
  stored_pairs index [] p = p
  stored_pairs index (a ∷ []) p = p
  stored_pairs index (a ∷ b ∷ rest) p =
      stored_pairs index (b ∷ rest) (stored_pair index a.event b.event p)

  unfoldable pub stored_sessions :
      List (ChurnEvent F)
      → List (Option String × List (StoredRequestEvent D))
      → Progress F
      → Progress F
  unfolding stored_pairs sort_by_id
  stored_sessions index [] p = p
  stored_sessions index ((k, es) ∷ groups) p = stored_sessions index groups (
      stored_pairs index (sort_by_id es)
        (record p { report = record p.report { sessions = p.report.sessions + 1 } }))

module _ {F D : Type 0} ⦃f : Arith F⦄ (round1 : F → F) where
  -- `topology_from_store`
  unfoldable pub topology_from_store : ℕ → TelemetryStore F D → TopologyReport F
  unfolding stored_sessions by_session recent_events churn_list finalize_report
  topology_from_store limit s = finalize_report round1 (
      stored_sessions (churn_list limit none s) (by_session (recent_events limit s) [])
        nothing_measured)
