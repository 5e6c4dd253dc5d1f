-- ===== src/Routes/Intel.antt =====
-- route_intel.py: `RouteIdentity` and `RouterMissClassifier`.
use cachepilot.Prelude.{
  String, ◌≡◌, ◌≢◌, ◌↔◌, Bool, true, false, ◌&&◌, ◌||◌, not, Option, none, some, arith, eq_iff,
  str_eq, is_some, if◌then◌else◌,
}
use cachepilot.Json.{Json, null, text, obj, Fields, end, field}
use cachepilot.Json.Access.{get_field}
use cachepilot.Python.{Python}
use cachepilot.Telemetry.{Outcome, confirmed_hit, miss_rebuilt, is_hit}

pub record RouteIdentity : Type 0 where
  pub gateway : Option String
  pub upstream_provider : Option String
  pub endpoint : Option String
  pub region : Option String
  pub deployment : Option String

abbrev is_filled : Option String → Bool
is_filled none = false
is_filled (some s) = not (str_eq s "")

-- `any((...))`
unfoldable pub is_observable : RouteIdentity → Bool
is_observable r =
    is_filled r.gateway
    || (is_filled r.upstream_provider
        || (is_filled r.endpoint || (is_filled r.region || is_filled r.deployment)))

abbrev pub text_or_null : Option String → Json
text_or_null none = null
text_or_null (some s) = text s

-- `model_dump()`
unfoldable pub route_dump : RouteIdentity → Fields
route_dump r = field "gateway" (text_or_null r.gateway) (
    field "upstream_provider" (text_or_null r.upstream_provider) (
      field "endpoint" (text_or_null r.endpoint) (
        field "region" (text_or_null r.region)
          (field "deployment" (text_or_null r.deployment) end))))

-- A field of the model: absent or null, or a text; anything else is refused.
abbrev pub optional_text : Option Json → Option (Option String)
optional_text none = some none
optional_text (some null) = some none
optional_text (some (text s)) = some (some s)
optional_text (some _) = none

-- `extra="forbid"`
unfoldable pub all_known : Fields → Bool
all_known end = true
all_known (field k v d) =
    (str_eq k "gateway"
      || (str_eq k "upstream_provider"
          || (str_eq k "endpoint" || (str_eq k "region" || str_eq k "deployment"))))
    && all_known d

-- `cls(**parsed)`
unfoldable pub of_fields : Fields → Option RouteIdentity
unfolding all_known
of_fields d =
    if all_known d
    then elim (optional_text (get_field "gateway" d)) [
      | none ↦ none
      | some gateway ↦ elim (optional_text (get_field "upstream_provider" d)) [
        | none ↦ none
        | some upstream_provider ↦ elim (optional_text (get_field "endpoint" d)) [
          | none ↦ none
          | some endpoint ↦ elim (optional_text (get_field "region" d)) [
            | none ↦ none
            | some region ↦ elim (optional_text (get_field "deployment" d)) [
              | none ↦ none
              | some deployment ↦ some (record {
                gateway = gateway;
                upstream_provider = upstream_provider;
                endpoint = endpoint;
                region = region;
                deployment = deployment;
              })
            ]
          ]
        ]
      ]
    ]
    else none

module _ {F D : Type 0} (py : Python F D) where
  unfoldable pub to_str : RouteIdentity → String
  unfolding route_dump
  to_str r = py.dumps (obj (route_dump r))

  -- `from_str`; a value that is no JSON object raises.
  unfoldable pub from_str : String → Option RouteIdentity
  unfolding of_fields
  from_str value = elim (py.loads value) [ some (obj d) ↦ of_fields d | _ ↦ none ]

  unfoldable pub route_hash : RouteIdentity → Option String
  unfolding is_observable to_str
  route_hash r = if is_observable r then some (py.sha256 (to_str r)) else none

pub data RouteMissVerdict : Type 0 where
  route_instability short_ttl clean : RouteMissVerdict

-- `a == b` on optional texts
abbrev same_route : Option String → Option String → Bool
same_route none none = true
same_route (some a) (some b) = str_eq a b
same_route _ _ = false

abbrev is_miss : Outcome → Bool
is_miss miss_rebuilt = true
is_miss _ = false

abbrev was_hit : Option Outcome → Bool
was_hit none = false
was_hit (some o) = is_hit o

-- `RouterMissClassifier.classify`
unfoldable pub classify :
    Option Outcome → Option String → Outcome → Option String → Bool → RouteMissVerdict
classify previous_outcome previous_route current_outcome current_route identity_stable =
    if not (same_route previous_route current_route)
    then if is_some previous_route
        && (is_some current_route
            && (identity_stable && (was_hit previous_outcome && is_miss current_outcome)))
      then route_instability
      else clean
    else if identity_stable && (was_hit previous_outcome && is_miss current_outcome)
    then short_ttl
    else clean

-- A miss is blamed on the route exactly when it changed between two known ones, and on the lifetime
-- of the entry exactly when the route is the same, each on an unchanged request after a hit.
pub classify_iff :
    (o : Option Outcome) (a : Option String) (p : Outcome) (b : Option String) (stable : Bool)
    → ((classify o a p b stable ≡ route_instability) ↔ (
        (a ≢ b)
        × (is_some a ≡ true)
        × (is_some b ≡ true)
        × (stable ≡ true)
        × (o ≡ some confirmed_hit)
        × (p ≡ miss_rebuilt)))
      × ((classify o a p b stable ≡ short_ttl)
          ↔ ((a ≡ b) × (stable ≡ true) × (o ≡ some confirmed_hit) × (p ≡ miss_rebuilt)))
unfolding classify
classify_iff o none p none stable = ground arith
classify_iff o none p (some b) stable = ground arith
classify_iff o (some a) p none stable = ground arith
classify_iff o (some a) p (some b) stable = ground (arith, eq_iff a b)
