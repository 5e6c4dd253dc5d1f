-- ===== src/Topology/Bounds.antt =====
-- The report over stored events counts each pair at most once for each layer.
use cachepilot.Prelude.{
  ℕ, ◌≤◌, String, ◌≡◌, refl, Option, none, some, List, [], ◌∷◌, All, map, ltb, arith, ◌∙◌,
  Bool-cases, inl, inr,
}
use cachepilot.Churn.Layers.{Layer}
use cachepilot.Numbers.{Arith}
use cachepilot.Storage.{StoredRequestEvent, ChurnEvent, TelemetryStore}
use cachepilot.Storage.Queries.{recent_events, churn_list}
use cachepilot.Topology.{
  TopologyLayerStats, LayerTable, Progress, nothing_measured, topology_layer_order, finished_layer,
  finalize_report,
}
use cachepilot.Topology.Stored.{
  attribute_loss, stored_pair, stored_pairs, sort_by_id, by_session, stored_sessions,
  topology_from_store,
}
use cachepilot.Topology.Measured.{IsMeasured, stored_sessions-IsMeasured}

module _ {F : Type 0} where
  -- The rows of the report are written at the end.
  attribute_loss-layers :
      (target : Option Layer) (loss : Option ℕ) (p : Progress F)
      → (attribute_loss target loss p).report.layers ≡ p.report.layers
  attribute_loss-layers none none p = refl
  attribute_loss-layers (some l) none p = refl
  attribute_loss-layers none (some n) p = refl
  attribute_loss-layers (some l) (some n) p = refl

module _ {F D : Type 0} where
  stored_pairs-layers :
      (index : List (ChurnEvent F)) (es : List (StoredRequestEvent D)) (p : Progress F)
      → (stored_pairs index es p).report.layers ≡ p.report.layers
  unfolding stored_pairs stored_pair
  stored_pairs-layers index [] p = refl
  stored_pairs-layers index (a ∷ []) p = refl
  stored_pairs-layers index (a ∷ b ∷ rest) p =
      stored_pairs-layers index (b ∷ rest) _ ∙ attribute_loss-layers _ _ _

  stored_sessions-layers :
      (index : List (ChurnEvent F)) (groups : List (Option String × List (StoredRequestEvent D)))
      (p : Progress F)
      → (stored_sessions index groups p).report.layers ≡ p.report.layers
  unfolding stored_sessions
  stored_sessions-layers index [] p = refl
  stored_sessions-layers index ((k, es) ∷ groups) p =
      stored_sessions-layers index groups _ ∙ stored_pairs-layers index (sort_by_id es) _

-- What a row of the report may say, with a number of pairs in all.
abbrev pub IsLayerBounded : {F : Type 0} → ℕ → TopologyLayerStats F → Type 0
IsLayerBounded total s = (s.changes ≤ s.pairs) × (s.pairs ≤ total)

module _ {F : Type 0} ⦃f : Arith F⦄ (round1 : F → F) where
  finished-IsLayerBounded :
      (total : ℕ) (s : TopologyLayerStats F)
      → IsLayerBounded total s
      → IsLayerBounded total (finished_layer round1 s)
  finished-IsLayerBounded total s h = elim (Bool-cases (ltb 0 s.pairs)) [
    | inl some_pairs ↦ rw some_pairs h
    | inr no_pairs ↦ rw no_pairs h
  ]

  finished-All :
      (total : ℕ) (t : LayerTable F) (ls : List Layer)
      → ((k : Layer) → IsLayerBounded total (t k))
      → All (IsLayerBounded total) (map (λ l. finished_layer round1 (t l)) ls)
  finished-All total t [] h = tt
  finished-All total t (l ∷ ls) h =
      (finished-IsLayerBounded total (t l) (h l), finished-All total t ls h)

  finalize_report-bounded :
      (p : Progress F)
      → IsMeasured p
      → p.report.layers ≡ []
      → All
          (IsLayerBounded (finalize_report round1 p).total_pairs)
          (finalize_report round1 p).layers
        × ((finalize_report round1 p).churn_pairs ≤ (finalize_report round1 p).total_pairs)
        × ((finalize_report round1 p).attribution_gaps ≤ (finalize_report round1 p).total_pairs)
  unfolding finalize_report
  finalize_report-bounded p h none_yet = elim (Bool-cases (ltb 0 p.report.total_pairs)) [
    | inl measured ↦ rw measured (
      finished-All p.report.total_pairs p.layers topology_layer_order h.layered,
      h.churned,
      h.gaps,
    )
    | inr nothing ↦ rw nothing (rw none_yet tt, h.churned, h.gaps)
  ]

module _ {F D : Type 0} ⦃f : Arith F⦄ (round1 : F → F) where
  -- Whatever is stored, the report never counts a layer for more pairs than there are, nor more changes of a
  -- layer than pairs of it, nor more churned pairs or gaps of attribution than pairs.
  pub topology_from_store-IsBounded :
      (limit : ℕ) (s : TelemetryStore F D)
      → let r = topology_from_store round1 limit s in
        All (IsLayerBounded r.total_pairs) r.layers
        × (r.churn_pairs ≤ r.total_pairs)
        × (r.attribution_gaps ≤ r.total_pairs)
  unfolding topology_from_store
  topology_from_store-IsBounded limit s =
      let index = churn_list limit none s in
      let groups = by_session (recent_events limit s) [] in
      let begun : Progress F = nothing_measured in
      finalize_report-bounded round1 (stored_sessions index groups begun)
        (stored_sessions-IsMeasured index groups begun (record {
          layered = λ k. omega arith;
          churned = omega arith;
          gaps = omega arith;
          ordered = tt;
        }))
        (stored_sessions-layers index groups begun)
