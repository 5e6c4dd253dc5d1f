-- ===== src/Relay/Proxy/Examples.antt =====
-- The proxy on a concrete request.
use cachepilot.Prelude.{Bool, List, String, ◌≡◌, refl, true, false, none, some, [], ◌∷◌}
use cachepilot.Prelude.Int.{ℤ, pos}
use cachepilot.Numbers.Fixed.{fixed_point, fixed_conversion}
use cachepilot.Dict.{Dict, lookup}
use cachepilot.Identity.Examples.{plain_python}
use cachepilot.Leases.Examples.{no_hash, one_lease, seconds}
use cachepilot.Leases.Settings.Environment.{
  settings_read, is_settings, is_economics, from_env as leases_from_env,
}
use cachepilot.Leases.Settings.{
  env_float, env_int, env_bounded, pricing_from_env, env_flag as leases_env_flag, env_float_or_none,
}
use cachepilot.Prelude.Cut.{cut_last}
use cachepilot.Leases.Rounds.{Round, evaluated, resumed}
use cachepilot.Relay.Config.{
  Reading, RelayConfig, Flags, settings_from, listen_parts, parse_listen, is_upstream,
  is_bind_allowed, validated, env_flag, env_decimal, from_env, IsSafeConfig, IsChosen,
  from_env-IsSafe,
}
use cachepilot.Relay.Controller.{LeaseController, LeaseRequestContext}
use cachepilot.Relay.Proxy.Forward.{
  ClientRequest, BuildArguments, answered, unchanged, RelayProxy, Wiring, forward_request,
  forward_response,
}
use cachepilot.Relay.Proxy.Transparent.{
  IsVerbatim, IsMirrored, forward_request-IsVerbatim, forward_response-IsMirrored,
}

abbrev same : String → String
same s = s

abbrev reading : Reading ℤ ℤ
reading = record {
  parsing = record {
    strip = same;
    lower = same;
    float_of = λ s. none;
    decimal_of = λ s. none;
    int_of = λ s. some (pos 8787);
  };
  is_digits = λ s. true;
  urlsplit = λ s. some ("https", "api.example");
}

abbrev flags : Flags
flags = record {
  listen = some "127.0.0.1:8787";
  upstream = some "https://api.example";
  allow_external_bind = none;
}

abbrev environment : Dict String
environment = ("CACHEPILOT_RELAY_LISTEN", "0.0.0.0:80") ∷ ("CACHEPILOT_ROUTE_AFFINITY", "1") ∷ []

abbrev config : RelayConfig ℤ ℤ
config =
    settings_from reading environment flags "cachepilot.db" "https://api.example"
      (settings_read reading.parsing environment)

from_env-IsSafe_example :
    IsSafeConfig reading config
    × IsChosen flags.listen
        (lookup "CACHEPILOT_RELAY_LISTEN" environment)
        (some "127.0.0.1:8787")
        config.listen
    × IsChosen flags.upstream (lookup "CACHEPILOT_UPSTREAM" environment) none config.upstream
    × ((b : Bool) → flags.allow_external_bind ≡ some b → config.allow_external_bind ≡ b)
    × (flags.allow_external_bind ≡ none
        → lookup "CACHEPILOT_RELAY_ALLOW_EXTERNAL_BIND" environment ≡ none
        → config.allow_external_bind ≡ false)
unfolding from_env validated is_upstream is_bind_allowed parse_listen listen_parts cut_last lookup
    env_flag settings_from settings_read leases_from_env is_settings is_economics env_float env_int
    env_bounded pricing_from_env leases_env_flag env_float_or_none env_decimal
from_env-IsSafe_example = from_env-IsSafe reading environment flags "cachepilot.db" config refl

abbrev wiring : Wiring ℤ
wiring = record {
  strip = same;
  dumps = λ v. "{}";
  stamp = λ t. 20;
  hash = no_hash;
  texts = record { numeral = λ n. "1"; head16 = same; read_count = λ s. none };
  tools = record {
    byte_length = λ s. 1;
    head16 = same;
    round2 = λ x. x;
    patterns = [];
    volatile = [];
  };
  pinning = record { can_pin_route = false; apply_route_affinity = λ fields route. unchanged };
}

abbrev controller : LeaseController ℤ ℤ
controller = record {
  manager = one_lease;
  enabled = true;
  has_store = false;
  replay_headers = "authorization" ∷ [];
  affinity_config = record { enabled = true; safety_margin = pos 0 };
  affinity_extra_cost_usd = pos 0;
  affinity_registry = [];
  target_ids = [];
}

abbrev proxy : RelayProxy ℤ ℤ
proxy = record {
  upstream = "https://api.example";
  route_affinity_enabled = true;
  observer = some (record {
    store = none;
    enabled = true;
    route_intel_enabled = true;
    churn_detection_enabled = true;
    streaming_unverified = 0;
    last_body = [];
  });
  lease_controller = some controller;
}

abbrev request : ClientRequest
request = record {
  method = "POST";
  path = "/v1/chat";
  query = "";
  headers = ("host", "127.0.0.1") ∷ ("x-cachepilot-session", "s") ∷ ("accept", "any") ∷ [];
  body = "{}";
}

abbrev out : BuildArguments
out = record {
  method = "POST";
  url = "https://api.example/v1/chat";
  headers = ("accept", "any") ∷ [];
  body = "{}";
}

abbrev ctx : LeaseRequestContext
ctx = record { lease_id = "a"; targets_count = 1 }

abbrev answer_headers : Dict String
answer_headers = ("connection", "close") ∷ ("content-length", "2") ∷ []

forward_request-IsVerbatim_example :
    IsVerbatim plain_python wiring "https://api.example" request
      (forward_request plain_python wiring (seconds 300) "new" request proxy).0
forward_request-IsVerbatim_example =
    forward_request-IsVerbatim plain_python wiring (seconds 300) "new" request proxy refl

forward_response-IsMirrored_example :
    IsMirrored plain_python wiring 200 answer_headers "{}"
      (forward_response plain_python wiring
        (seconds 310)
        request
        out
        (some ctx)
        (answered 200 answer_headers "{}")
        proxy).0
forward_response-IsMirrored_example =
    forward_response-IsMirrored plain_python wiring (seconds 310) request out (some ctx) 200
      answer_headers "{}" proxy

abbrev rounds : List (Round ℤ)
rounds = evaluated (seconds 220) "a" ∷ resumed 1 "a" ∷ []
