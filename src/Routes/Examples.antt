-- ===== src/Routes/Examples.antt =====
-- A concrete route and its text.
use Prim.Native.String.{◌++◌, ◌∷◌ as letter}
use cachepilot.Prelude.{String, ◌≡◌, refl, none, some, List, [], ◌∷◌, str_eq, if◌then◌else◌}
use cachepilot.Prelude.Int.{ℤ}
use cachepilot.Prelude.Cut.{is_char, before, from, split_on}
use cachepilot.Json.{Json, null, text, obj, Fields, end, field}
use cachepilot.Json.Access.{sort_fields}
use cachepilot.Python.{Python}
use cachepilot.Identity.Examples.{plain_python}
use cachepilot.Routes.Intel.{RouteIdentity, route_dump, to_str, from_str}
use cachepilot.Routes.RoundTrip.{from_str-to_str}

abbrev gateway_only : RouteIdentity
gateway_only = record {
  gateway = some "openrouter";
  upstream_provider = none;
  endpoint = some "https://openrouter.ai/api";
  region = none;
  deployment = none;
}

-- A printer and a reader of flat objects whose texts hold neither a comma nor an equals sign.
abbrev value_text : Json → String
value_text (text s) = "'" ++ s
value_text _ = "~"

abbrev flat : Fields → String
flat end = ""
flat (field k v d) = k ++ ("=" ++ (value_text v ++ ("," ++ flat d)))

abbrev printed : Json → String
printed (obj d) = flat (sort_fields d)
printed _ = ""

abbrev value_of : String → Json
value_of (letter e (letter q s)) = if is_char "'" q then text s else null
value_of _ = null

abbrev entries : List String → Fields
entries [] = end
entries (s ∷ ss) =
    let rest = entries ss in
    if str_eq s "" then rest else field (before "=" s) (value_of (from "=" s)) rest

abbrev reader : Python ℤ ℤ
reader = record plain_python { dumps = printed; loads = λ s. some (obj (entries (split_on "," s))) }

from_str-to_str_example : from_str reader (to_str reader gateway_only) ≡ some gateway_only
unfolding route_dump sort_fields split_on before from
from_str-to_str_example = from_str-to_str reader gateway_only refl
