-- ===== src/Relay/Controller/Failure.antt =====
-- A failed request leaves nothing to replay.
use mathlib.Core.Option.{some-injective}
use cachepilot.Prelude.{
  String, ◌≡◌, ◌≢◌, refl, sym, ap, ◌∙◌, true, false, Option, none, some, List, arith, Bool-cases,
  Option-cases, inl, inr, ltb, leb, eq_refl,
}
use cachepilot.Numbers.{Arith, Conversion}
use cachepilot.Dict.{lookup}
use cachepilot.Dict.Laws.{lookup-insert_self}
use cachepilot.Snapshots.{RequestSnapshot, get-drop}
use cachepilot.Telemetry.{Outcome, failed}
use cachepilot.Usage.{TokenUsage}
use cachepilot.Leases.{is_invalidated, LeaseManager, CacheLease, Hashing}
use cachepilot.Leases.Runtime.{find_lease, put_lease, put_runtime, runtime_for}
use cachepilot.Leases.Requests.{after_normal_request, refresh_ttl, update_cost_estimates, priced}
use cachepilot.Leases.Scheduler.{sent, evaluate_lease, replayable}
use cachepilot.Leases.Safety.{evaluate_lease-sent_iff}
use cachepilot.Leases.Rounds.{Round, after_rounds, rounds-replayable}
use cachepilot.Ttl.Resolver.{resolve}
use cachepilot.Relay.Controller.{LeaseController, LeaseRequestContext}
use cachepilot.Relay.Controller.Affinity.{EventLookup, reconcile_affinity}
use cachepilot.Relay.Controller.Requests.{
  reconcile_route, costs_refreshed, dropped, end_tracking, on_request_end,
}

module _ {F D : Type 0} where
  abbrev IsThere : String → LeaseManager F D → Type 0
  IsThere id m = (l : CacheLease F D) × (find_lease id m ≡ some l)

  put_lease-IsThere :
      (id : String) (l : CacheLease F D) (m : LeaseManager F D) → IsThere id (put_lease id l m)
  unfolding find_lease put_lease
  put_lease-IsThere id l m = (l, lookup-insert_self id l m.leases)

  reconcile_route-IsThere :
      (id : String) (route : Option String) (m : LeaseManager F D)
      → IsThere id m
      → IsThere id (reconcile_route id route m)
  unfolding reconcile_route
  reconcile_route-IsThere id none m h = h
  reconcile_route-IsThere id (some route) m (l, found) =
      rw (reconcile_route, found) (put_lease-IsThere id _ m)

  -- A lease whose snapshot was dropped has none to replay.
  not_replayable :
      (l : CacheLease F D) (m : LeaseManager F D)
      → replayable l (dropped l.cache_fingerprint failed m) ≡ none
  unfolding replayable
  not_replayable l m = elim (Option-cases m.snapshot_store) [
    | inl without ↦ rw without refl
    | inr (snapshots, kept) ↦ rw kept (
        ground (
          arith,
          get-drop l.cache_fingerprint l.cache_fingerprint snapshots,
          eq_refl l.cache_fingerprint,
        ))
  ]

  dropped-find_lease :
      (fp id : String) (o : Outcome) (m : LeaseManager F D)
      → find_lease id (dropped fp o m) ≡ find_lease id m
  unfolding find_lease
  dropped-find_lease fp id o m = ground arith

module _ {F D : Type 0} ⦃f : Arith F⦄ ⦃d : Arith D⦄ ⦃c : Conversion F D⦄ where
  -- The end of a failed request changes the runtime only.
  failed-IsThere :
      (now : F) (id : String) (m : LeaseManager F D)
      → IsThere id m
      → (m' : LeaseManager F D) × (after_normal_request now id failed m ≡ some m') × IsThere id m'
  unfolding after_normal_request find_lease put_runtime
  failed-IsThere now id m (l, found) =
      let seen : lookup id m.leases ≡ some l = found in
      let r = record (runtime_for id m) { real_request_active = false } in
      elim (Bool-cases (is_invalidated l.state)) [
        | inl over ↦ (put_runtime id r m, ground arith, (l, found))
        | inr live ↦ (put_runtime id r m, ground arith, (l, found))
      ]

  updated-IsThere :
      (id : String) (usage : TokenUsage D) (m : LeaseManager F D)
      → IsThere id m
      → (m' : LeaseManager F D) × (update_cost_estimates id usage m ≡ some m') × IsThere id m'
  unfolding update_cost_estimates find_lease
  updated-IsThere id usage m (l, found) =
      let seen : lookup id m.leases ≡ some l = found in
      elim (Bool-cases (leb usage.prompt_tokens 0)) [
        | inl nothing ↦ (m, ground arith, (l, found))
        | inr some_read ↦ (
          put_lease id (priced usage m l) m,
          ground arith,
          put_lease-IsThere id (priced usage m l) m,
        )
      ]

  costs_refreshed-IsThere :
      (id : String) (usage : Option (TokenUsage D)) (m : LeaseManager F D)
      → IsThere id m
      → (m' : LeaseManager F D) × (costs_refreshed id usage m ≡ some m') × IsThere id m'
  unfolding update_cost_estimates
  costs_refreshed-IsThere id none m h = (m, refl, h)
  costs_refreshed-IsThere id (some usage) m (l, found) =
      elim (Bool-cases (ltb 0 usage.prompt_tokens)) [
        | inr empty ↦ rw empty (m, refl, (l, found))
        | inl read ↦ rw read (updated-IsThere id usage m (l, found))
      ]

  refresh_ttl-IsThere :
      (hash : Hashing) (id : String) (m : LeaseManager F D)
      → IsThere id m
      → (m' : LeaseManager F D) × (refresh_ttl hash id m ≡ some m') × IsThere id m'
  unfolding refresh_ttl find_lease
  refresh_ttl-IsThere hash id m (l, found) =
      let seen : lookup id m.leases ≡ some l = found in
      elim (Option-cases m.ttl_resolver) [
        | inl without ↦ (m, ground arith, (l, found))
        | inr (r, has) ↦
            let out =
              resolve hash.sha256 r l.provider l.model l.api_mode l.base_url l.route_fingerprint
                none in
            let renewed = record l {
              estimated_ttl_s = out.ttl_s;
              ttl_confidence = out.confidence;
            } in
            (put_lease id renewed m, ground arith, put_lease-IsThere id renewed m)
      ]

  reconcile_affinity-manager :
      (sha256 : String → String) (now : F) (events : EventLookup F) (id : String)
      (l : CacheLease F D) (s : LeaseController F D)
      → (reconcile_affinity sha256 now events id l failed s).manager ≡ s.manager
  unfolding reconcile_affinity
  reconcile_affinity-manager sha256 now events id l s = ground arith

  -- The end of a failed request, with the lease at hand.
  end_tracking-dropped :
      (hash : Hashing) (events : EventLookup F) (now : F) (id : String) (route : Option String)
      (s : LeaseController F D)
      → IsThere id s.manager
      → (l : CacheLease F D) × (m : LeaseManager F D) × (find_lease id m ≡ some l)
        × ((end_tracking hash events now id failed route s).manager
            ≡ dropped l.cache_fingerprint failed m)
  unfolding end_tracking
  end_tracking-dropped hash events now id route s there =
      let m = reconcile_route id route s.manager in
      let (refreshed, ran, (l, found)) =
        refresh_ttl-IsThere hash id m (reconcile_route-IsThere id route s.manager there) in
      (
        l,
        refreshed,
        found,
        rw (end_tracking, ran, found)
            (reconcile_affinity-manager hash.sha256 now events id l
              (record s { manager = dropped l.cache_fingerprint failed refreshed })),
      )

  tracked :
      (hash : Hashing) (events : EventLookup F) (now : F) (ctx : LeaseRequestContext)
      (usage : Option (TokenUsage D)) (route : Option String) (l : CacheLease F D)
      (s : LeaseController F D) (ended m : LeaseManager F D)
      → s.enabled ≡ true
      → after_normal_request now ctx.lease_id failed s.manager ≡ some ended
      → costs_refreshed ctx.lease_id usage ended ≡ some m
      → find_lease ctx.lease_id m ≡ some l
      → on_request_end hash events now ctx failed usage route s
        ≡ end_tracking hash events now ctx.lease_id failed route (record s { manager = m })
  unfolding on_request_end
  tracked hash events now ctx usage route l s ended m on ran refreshed found = ground arith

  -- A failed request leaves the lease with nothing to replay.
  failed_request-unreplayable :
      (hash : Hashing) (events : EventLookup F) (now : F) (ctx : LeaseRequestContext)
      (usage : Option (TokenUsage D)) (route : Option String) (l : CacheLease F D)
      (s : LeaseController F D)
      → s.enabled ≡ true
      → find_lease ctx.lease_id s.manager ≡ some l
      → (l' : CacheLease F D) × (find_lease ctx.lease_id
            (on_request_end hash events now ctx failed usage route s).manager
          ≡ some l')
        × (replayable l' (on_request_end hash events now ctx failed usage route s).manager ≡ none)
  failed_request-unreplayable hash events now ctx usage route l s on found =
      let id = ctx.lease_id in
      let (ended, ran, there) = failed-IsThere now id s.manager (l, found) in
      let (m, refreshed, (l1, found1)) = costs_refreshed-IsThere id usage ended there in
      let (l2, m2, found2, last) =
        end_tracking-dropped hash events now id route (record s { manager = m }) (l1, found1) in
      let whole : (on_request_end hash events now ctx failed usage route s).manager
          ≡ dropped l2.cache_fingerprint failed m2 =
        ap (λ x. x.manager)
          (tracked hash events now ctx usage route l1 s ended m on ran refreshed found1)
        ∙ last in
      (
        l2,
        ap (find_lease id) whole ∙ dropped-find_lease l2.cache_fingerprint id failed m2 ∙ found2,
        ap (replayable l2) whole ∙ not_replayable l2 m2,
      )

  -- A failed request leaves nothing to replay: after the controller has seen it end, however many rounds
  -- of the scheduler follow, no evaluation of its lease sends a warm.
  pub failed_request-sends_nothing :
      (hash : Hashing) (events : EventLookup F) (now later : F) (ctx : LeaseRequestContext)
      (usage : Option (TokenUsage D)) (route : Option String) (l : CacheLease F D)
      (s : LeaseController F D) (xs : List (Round F)) (snapshot : RequestSnapshot F)
      → s.enabled ≡ true
      → find_lease ctx.lease_id s.manager ≡ some l
      → (evaluate_lease hash later ctx.lease_id (
          after_rounds hash xs (on_request_end hash events now ctx failed usage route s).manager)).0
        ≢ sent snapshot
  failed_request-sends_nothing hash events now later ctx usage route l s xs snapshot on found
        sends =
      let (l1, found1, lost) =
        failed_request-unreplayable hash events now ctx usage route l s on found in
      let left = (on_request_end hash events now ctx failed usage route s).manager in
      let (l2, found2, kept) = rounds-replayable hash xs ctx.lease_id l1 left found1 in
      let (l3, found3, may) =
        (evaluate_lease-sent_iff hash later ctx.lease_id (after_rounds hash xs left) snapshot).0
          sends in
      let same = some-injective l3 l2 (sym found3 ∙ found2) in
      let none_left : none ≡ some snapshot =
        sym (kept ∙ lost)
        ∙ ap (λ x. replayable x (after_rounds hash xs left)) (sym same)
        ∙ may.replays in
      ground arith
