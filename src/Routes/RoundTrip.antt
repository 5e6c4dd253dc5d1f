-- ===== src/Routes/RoundTrip.antt =====
-- The text of a route identity reads back as the identity.
use cachepilot.Prelude.{String, ◌≡◌, refl, Option, none, some}
use cachepilot.Json.{obj}
use cachepilot.Json.Access.{get_field, sort_fields}
use cachepilot.Python.{Python}
use cachepilot.Routes.Intel.{
  RouteIdentity, text_or_null, optional_text, route_dump, all_known, of_fields, to_str, from_str,
}

optional_text_or_null : (o : Option String) → optional_text (some (text_or_null o)) ≡ some o
optional_text_or_null none = refl
optional_text_or_null (some s) = refl

of_fields-sorted_dump : (r : RouteIdentity) → of_fields (sort_fields (route_dump r)) ≡ some r
unfolding of_fields route_dump sort_fields all_known get_field
of_fields-sorted_dump r =
    rw
      (
        optional_text_or_null r.gateway,
        optional_text_or_null r.upstream_provider,
        optional_text_or_null r.endpoint,
        optional_text_or_null r.region,
        optional_text_or_null r.deployment,
      )
      refl

module _ {F D : Type 0} (py : Python F D) where
  -- A route identity survives its text: what is written is read back as the same identity, with its
  -- unobserved fields absent, as long as JSON gives back the object that was dumped with its keys sorted,
  -- whatever that object is.
  pub from_str-to_str :
      (r : RouteIdentity)
      → py.loads (py.dumps (obj (route_dump r))) ≡ some (obj (sort_fields (route_dump r)))
      → from_str py (to_str py r) ≡ some r
  unfolding from_str to_str
  from_str-to_str r h = rw (from_str, to_str, h) (of_fields-sorted_dump r)
