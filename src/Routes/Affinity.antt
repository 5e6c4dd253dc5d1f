-- ===== src/Routes/Affinity.antt =====
-- route_affinity.py: the gate that pins a route, and the registry of pins. `now` is the clock.
use cachepilot.Prelude.{
  ℕ, String, ◌≡◌, refl, Bool, ◌||◌, Option, none, some, List, contains, ltb, Bool-cases, inl, inr,
  if◌then◌else◌,
}
use cachepilot.Numbers.{Arith, Conversion, add, sub, mul, le, lt, max, min, nought, one, to_decimal}
use cachepilot.Dict.{Dict, lookup, insert, erase, keep}
use cachepilot.Dict.Laws.{lookup-insert_self, lookup-keep}
use cachepilot.Pricing.{PricingTable, estimate_resume_costs}

pub record AffinityConfig (D : Type 0) : Type 0 where
  pub enabled : Bool
  pub safety_margin : D

pub record AffinityDecision (D : Type 0) : Type 0 where
  pub apply : Bool
  pub reason : String
  pub expected_savings : D
  pub extra_route_cost : D
  pub net_benefit : D
  pub safety_margin : D

-- `max(0.0, min(1.0, p))`
abbrev clamped : {F : Type 0} ⦃f : Arith F⦄ → F → F
clamped p = max nought (min one p)

module _ {F D : Type 0} ⦃f : Arith F⦄ ⦃d : Arith D⦄ ⦃c : Conversion F D⦄ where
  -- `RouteAffinityPolicy.evaluate`, on decimals.
  unfoldable pub evaluate :
      AffinityConfig D → (savings extra : D) → F → Option D → AffinityDecision D
  evaluate config savings extra probability margin =
      let expected = mul savings (to_decimal (clamped probability)) in
      let room : D = elim margin [ none ↦ config.safety_margin | some m ↦ m ] in
      let apply = lt (add extra room) expected in
      record {
        apply = apply;
        reason =
            if apply
            then "expected_savings_exceed_extra_route_cost"
            else "expected_savings_do_not_cover_extra_route_cost";
        expected_savings = expected;
        extra_route_cost = extra;
        net_benefit = sub expected extra;
        safety_margin = room;
      }

  unfoldable pub evaluate_resume :
      AffinityConfig D → ℕ → PricingTable D → D → F → ℕ → Option D → AffinityDecision D
  unfolding evaluate
  evaluate_resume config prefix_tokens pricing extra probability completion_tokens margin =
      let (cold, cached) = estimate_resume_costs prefix_tokens pricing completion_tokens in
      evaluate config (sub cold cached) extra probability margin

pub record AffinityEntry (F : Type 0) : Type 0 where
  pub lease_id : String
  pub route : String
  pub expires_at : F
  pub generation : ℕ

abbrev pub RouteAffinityRegistry : Type 0 → Type 0
RouteAffinityRegistry F = Dict (AffinityEntry F)

module _ {F : Type 0} ⦃f : Arith F⦄ where
  -- `set`
  unfoldable pub pin : String → String → F → ℕ → RouteAffinityRegistry F → RouteAffinityRegistry F
  pin lease_id route expires_at generation entries =
      insert lease_id
        (record {
          lease_id = lease_id;
          route = route;
          expires_at = expires_at;
          generation = generation;
        })
        entries

  abbrev is_over : F → ℕ → AffinityEntry F → Bool
  is_over now generation e = le e.expires_at now || ltb generation e.generation

  -- The route to pin; an entry that is over goes away.
  unfoldable pub active_route_for :
      F → String → ℕ → RouteAffinityRegistry F → Option String × RouteAffinityRegistry F
  active_route_for now lease_id generation entries = elim (lookup lease_id entries) [
    | none ↦ (none, entries)
    | some e ↦
        if is_over now generation e then (none, erase lease_id entries) else (some e.route, entries)
  ]

  unfoldable pub generation_for : String → RouteAffinityRegistry F → Option ℕ
  generation_for lease_id entries = elim (lookup lease_id entries) [
    | none ↦ none
    | some e ↦ some e.generation
  ]

  unfoldable pub clear : String → RouteAffinityRegistry F → RouteAffinityRegistry F
  clear lease_id entries = erase lease_id entries

  -- `prune`: the entries of the leases that are there.
  unfoldable pub prune : List String → RouteAffinityRegistry F → RouteAffinityRegistry F
  prune known entries = keep (λ id. contains id known) entries

  -- A pin is given until its time or until the generation falls below its own, and only then.
  pub active_route_for-pin :
      (now : F) (id route : String) (expires : F) (n g : ℕ) (entries : RouteAffinityRegistry F)
      → (active_route_for now id g (pin id route expires n entries)).0
        ≡ (if le expires now || ltb g n then none else some route)
  unfolding active_route_for pin
  active_route_for-pin now id route expires n g entries =
      rw (active_route_for, lookup-insert_self id _ entries)
        (elim (Bool-cases (le expires now || ltb g n)) [
          | inl over ↦ rw over refl
          | inr holds ↦ rw holds refl
        ])

  -- Pruning takes away exactly the pins of the leases that are gone.
  pub lookup-prune :
      (known : List String) (id : String) (entries : RouteAffinityRegistry F)
      → lookup id (prune known entries) ≡ (if contains id known then lookup id entries else none)
  unfolding prune
  lookup-prune known id entries = lookup-keep (λ j. contains j known) id entries
