-- ===== src/Topology/Ordering.antt =====
-- The order of the tools, which the report tells from a change of their set.
use cachepilot.Prelude.{
  String, ◌≡◌, refl, ap, ◌∙◌, Bool, true, false, Option, none, some, List, [], ◌∷◌, All, map,
  contains, ltb, length, eq_refl, str_eq, Bool-cases, inl, inr,
}
use cachepilot.Numbers.{Arith}
use cachepilot.Json.{Json}
use cachepilot.Python.{Python}
use cachepilot.Identity.{tools_set_hash}
use cachepilot.Identity.ToolSet.{tools_set_hash_ext}
use cachepilot.Churn.Layers.{Layer, LayeredHashes, RequestContent, Search, to_hashes}
use cachepilot.Topology.{
  same_route, ToolOrderingStats, Progress, nothing_measured, fresh_route, order_step, at_route,
  count_order, insert_route, route_of_pair, route_le, sorted_routes, finished_route,
  finalize_report,
}
use cachepilot.Topology.Snapshots.{
  snapshot_pair, snapshot_pairs, count_layers, start_of, topology_from_snapshots,
}

module _ {F : Type 0} where
  -- No change of the set was counted.
  abbrev pub IsOneSet : ToolOrderingStats F → Type 0
  IsOneSet s = s.tool_set_changes ≡ 0

  order_step-IsOneSet :
      (same : Bool) (s : ToolOrderingStats F) → IsOneSet s → IsOneSet (order_step same true s)
  order_step-IsOneSet true s h = h
  order_step-IsOneSet false s h = h

  at_route-IsOneSet :
      (r : Option String) (same : Bool) (ss : List (ToolOrderingStats F))
      → All IsOneSet ss
      → All IsOneSet (at_route r (order_step same true) ss)
  unfolding at_route
  at_route-IsOneSet r same [] h = (order_step-IsOneSet same (fresh_route r) refl, tt)
  at_route-IsOneSet r same (s ∷ ss) h = elim (Bool-cases (same_route s.route r)) [
    | inl here ↦ rw here (order_step-IsOneSet same s h.0, h.1)
    | inr there ↦ rw there (h.0, at_route-IsOneSet r same ss h.1)
  ]

  count_order-IsOneSet :
      (t u r : Option String) (digest : String) (ss : List (ToolOrderingStats F))
      → All IsOneSet ss
      → All IsOneSet (count_order t u (some digest) (some digest) r ss)
  count_order-IsOneSet none u r digest ss h = h
  count_order-IsOneSet (some t) none r digest ss h = h
  count_order-IsOneSet (some t) (some u) r digest ss h =
      rw (eq_refl digest) (at_route-IsOneSet r (str_eq t u) ss h)

  insert_route-All :
      (x : ToolOrderingStats F) (ys : List (ToolOrderingStats F))
      → IsOneSet x
      → All IsOneSet ys
      → All IsOneSet (insert_route x ys)
  insert_route-All x [] h k = (h, tt)
  insert_route-All x (y ∷ ys) h k = elim (Bool-cases (route_le x.route y.route)) [
    | inl before ↦ rw before (h, k)
    | inr after ↦ rw after (k.0, insert_route-All x ys h k.1)
  ]

  sorted_routes-All :
      (xs : List (ToolOrderingStats F)) → All IsOneSet xs → All IsOneSet (sorted_routes xs)
  unfolding sorted_routes
  sorted_routes-All [] h = tt
  sorted_routes-All (x ∷ xs) h =
      insert_route-All x (sorted_routes xs) h.0 (sorted_routes-All xs h.1)

abbrev HasSet : String → LayeredHashes → Type 0
HasSet digest h = h.tools_set_hash ≡ some digest

module _ {F : Type 0} where
  count_layers-routes :
      (ls : List Layer) (flags : Layer → Option Bool) (p : Progress F)
      → (count_layers ls flags p).tool_routes ≡ p.tool_routes
  count_layers-routes [] flags p = refl
  count_layers-routes (l ∷ ls) flags p = count_layers-routes ls flags _

  snapshot_pair-IsOneSet :
      (digest : String) (a b : LayeredHashes) (p : Progress F)
      → HasSet digest a
      → HasSet digest b
      → All IsOneSet p.tool_routes
      → All IsOneSet (snapshot_pair a b p).tool_routes
  unfolding snapshot_pair
  snapshot_pair-IsOneSet digest a b p h k q =
      let routes =
        count_order-IsOneSet a.tools_hash b.tools_hash (route_of_pair a.route_hash b.route_hash)
          digest p.tool_routes q in
      rw h (rw k routes)

  snapshot_pairs-IsOneSet :
      (digest : String) (hs : List LayeredHashes) (p : Progress F)
      → All (HasSet digest) hs
      → All IsOneSet p.tool_routes
      → All IsOneSet (snapshot_pairs hs p).tool_routes
  unfolding snapshot_pairs
  snapshot_pairs-IsOneSet digest [] p h q = q
  snapshot_pairs-IsOneSet digest (a ∷ []) p h q = q
  snapshot_pairs-IsOneSet digest (a ∷ b ∷ rest) p h q =
      snapshot_pairs-IsOneSet digest (b ∷ rest) _ h.1
        (snapshot_pair-IsOneSet digest a b p h.0 h.1.0 q)

  -- The rows of the report are written at the end.
  snapshot_pairs-ordering :
      (hs : List LayeredHashes) (p : Progress F)
      → (snapshot_pairs hs p).report.tool_ordering ≡ p.report.tool_ordering
  unfolding snapshot_pairs snapshot_pair
  snapshot_pairs-ordering [] p = refl
  snapshot_pairs-ordering (a ∷ []) p = refl
  snapshot_pairs-ordering (a ∷ b ∷ rest) p =
      snapshot_pairs-ordering (b ∷ rest) (snapshot_pair a b p)

module _ {F D : Type 0} ⦃f : Arith F⦄ (py : Python F D) (patterns : List Search)
    (round1 : F → F) where
  finished-All :
      (xs : List (ToolOrderingStats F))
      → All IsOneSet xs
      → All IsOneSet (map (finished_route round1) xs)
  finished-All [] h = tt
  finished-All (x ∷ xs) h = elim (Bool-cases (ltb 0 x.pairs)) [
    | inl counted ↦ rw counted (h.0, finished-All xs h.1)
    | inr empty ↦ rw empty (h.0, finished-All xs h.1)
  ]

  finalize_report-IsOneSet :
      (p : Progress F)
      → All IsOneSet p.tool_routes
      → All IsOneSet p.report.tool_ordering
      → All IsOneSet (finalize_report round1 p).tool_ordering
  unfolding finalize_report
  finalize_report-IsOneSet p h k = elim (Bool-cases (ltb 0 p.report.total_pairs)) [
    | inl measured ↦
        rw measured (finished-All (sorted_routes p.tool_routes) (sorted_routes-All p.tool_routes h))
    | inr nothing ↦ rw nothing k
  ]

  -- A request with the same tools as others, in whatever order and however often each is listed.
  abbrev pub HasTools : List Json → RequestContent → Type 0
  HasTools tools r =
      (own : List Json) × (r.tools ≡ some own)
      × ((t : String) → contains t (map py.dumps own) ≡ contains t (map py.dumps tools))

  digests-HasSet :
      (tools : List Json) (rs : List RequestContent)
      → All (HasTools tools) rs
      → All (HasSet (tools_set_hash py (some tools))) (map (to_hashes py patterns) rs)
  unfolding to_hashes
  digests-HasSet tools [] h = tt
  digests-HasSet tools (r ∷ rs) h =
      let (own, listed, same) = h.0 in
      (
        ap (λ x. some (tools_set_hash py x)) listed
            ∙ ap some (tools_set_hash_ext py own tools same),
        digests-HasSet tools rs h.1,
      )

  -- Tools that come in another order, or more than once, are never counted as another set: over requests
  -- with one set of tools, no route of the report has a change of the set.
  pub topology_from_snapshots-IsOneSet :
      (tools : List Json) (rs : List RequestContent)
      → All (HasTools tools) rs
      → All IsOneSet (topology_from_snapshots round1 (map (to_hashes py patterns) rs)).tool_ordering
  unfolding topology_from_snapshots
  topology_from_snapshots-IsOneSet tools rs h =
      let hs = map (to_hashes py patterns) rs in
      let begun : Progress F = start_of hs in
      elim (Bool-cases (ltb (length hs) 2)) [
        | inl few ↦ rw few (finalize_report-IsOneSet nothing_measured tt tt)
        | inr more ↦ rw more (
            finalize_report-IsOneSet (snapshot_pairs hs begun)
              (snapshot_pairs-IsOneSet (tools_set_hash py (some tools)) hs begun
                (digests-HasSet tools rs h) tt)
              (rw (snapshot_pairs-ordering hs begun) tt))
      ]
