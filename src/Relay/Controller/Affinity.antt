-- ===== src/Relay/Controller/Affinity.antt =====
-- The controller's route affinity: when a pin is taken back, and when a fresh one is set.
use cachepilot.Prelude.{
  String, Bool, true, false, ◌&&◌, ◌||◌, not, Option, none, some, str_eq, ltb, if◌then◌else◌,
}
use cachepilot.Numbers.{Arith, Conversion, add, sub, max, nought, to_decimal}
use cachepilot.Telemetry.{Outcome, is_failed}
use cachepilot.Pricing.{PricingTable, estimate_resume_costs}
use cachepilot.Leases.{CacheLease}
use cachepilot.Routes.Intel.{RouteMissVerdict, route_instability}
use cachepilot.Routes.Affinity.{evaluate, pin, clear, generation_for, active_route_for}
use cachepilot.Leases.Runtime.{find_lease}
use cachepilot.Relay.Controller.{LeaseController}

-- What the controller reads of a stored route event.
pub record RouteEvent : Type 0 where
  pub verdict : RouteMissVerdict
  pub previous_route_hash : Option String
  pub new_route_hash : Option String

-- `last_route_event_for_session(hash, since=...)` of the telemetry store.
abbrev pub EventLookup : Type 0 → Type 0
EventLookup F = String → F → Option RouteEvent

abbrev is_instability : RouteMissVerdict → Bool
is_instability route_instability = true
is_instability _ = false

abbrev is_given : Option String → Bool
is_given none = false
is_given (some s) = not (str_eq s "")

-- The route to go back to, if the event is an instability between two known routes.
unfoldable pub unstable_route : Option RouteEvent → Option String
unstable_route none = none
unstable_route (some e) =
    if is_instability e.verdict && (is_given e.previous_route_hash && is_given e.new_route_hash)
    then e.previous_route_hash
    else none

module _ {F D : Type 0} ⦃f : Arith F⦄ ⦃d : Arith D⦄ ⦃c : Conversion F D⦄ where
  abbrev priced_savings : CacheLease F D → Option (PricingTable D) → Option D
  priced_savings l none = none
  priced_savings l (some pricing) = elim l.prefix_tokens [
    | none ↦ none
    | some n ↦
        if ltb 0 n
        then (let (cold, cached) = estimate_resume_costs n pricing 0 in some (sub cold cached))
        else none
  ]

  -- `_affinity_savings`
  unfoldable pub affinity_savings : CacheLease F D → Option (PricingTable D) → Option D
  affinity_savings l pricing = elim l.estimated_cold_resume_cost_usd [
    | none ↦ priced_savings l pricing
    | some cold ↦ elim l.estimated_cached_resume_cost_usd [
      | none ↦ priced_savings l pricing
      | some cached ↦ some (sub (to_decimal cold) (to_decimal cached))
    ]
  ]

  -- `_maybe_set_affinity`
  unfoldable pub maybe_set_affinity :
      (sha256 : String → String)
      → F
      → EventLookup F
      → String
      → CacheLease F D
      → LeaseController F D
      → LeaseController F D
  unfolding unstable_route affinity_savings evaluate pin
  maybe_set_affinity sha256 now events id l s =
      elim (unstable_route (events (sha256 l.session_id) l.last_real_request_at)) [
        | none ↦ s
        | some route ↦ elim (affinity_savings l s.manager.settings.pricing) [
          | none ↦ s
          | some savings ↦
              let decision =
                evaluate s.affinity_config savings s.affinity_extra_cost_usd
                  s.manager.settings.resume_probability none in
              if decision.apply
              then record s {
                affinity_registry =
                    pin id route (add now (max l.estimated_ttl_s nought)) l.generation
                      s.affinity_registry;
              }
              else s
        ]
      ]

  -- A pin of an earlier generation has been consumed.
  abbrev consume : String → CacheLease F D → LeaseController F D → LeaseController F D
  consume id l s = elim (generation_for id s.affinity_registry) [
    | none ↦ s
    | some n ↦
        if ltb n l.generation
        then record s { affinity_registry = clear id s.affinity_registry }
        else s
  ]

  -- `_reconcile_affinity`
  unfoldable pub reconcile_affinity :
      (sha256 : String → String)
      → F
      → EventLookup F
      → String
      → CacheLease F D
      → Outcome
      → LeaseController F D
      → LeaseController F D
  unfolding generation_for clear maybe_set_affinity
  reconcile_affinity sha256 now events id l outcome s =
      if not s.affinity_config.enabled || not s.has_store
      then s
      else if is_failed outcome
      then record s { affinity_registry = clear id s.affinity_registry }
      else maybe_set_affinity sha256 now events id l (consume id l s)

  -- `active_affinity_route`: the route, and the controller after the lookup.
  unfoldable pub active_affinity_route :
      F → String → LeaseController F D → Option String × LeaseController F D
  unfolding active_route_for find_lease
  active_affinity_route now id s =
      if not s.affinity_config.enabled then (none, s) else elim (find_lease id s.manager) [
        | none ↦ (none, s)
        | some l ↦
            let (route, entries) = active_route_for now id l.generation s.affinity_registry in
            (route, record s { affinity_registry = entries })
      ]
