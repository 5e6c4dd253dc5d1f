-- ===== src/Relay/Examples.antt =====
-- The relay on concrete requests.
use Prim.Native.String.{◌++◌, ◌∷◌ as letter}
use cachepilot.Prelude.{◌≡◌, ◌↔◌, refl, false, Option, none, some, [], select}
use cachepilot.Prelude.Int.{ℤ, pos}
use cachepilot.Numbers.Fixed.{fixed_point, fixed_conversion}
use cachepilot.Json.{Fields, Json, int, bool, obj, end, field}
use cachepilot.Json.Access.{get_field, put_field, items}
use cachepilot.Identity.{CanonicalRequest, hashed}
use cachepilot.Identity.Fingerprint.{cache_fingerprint}
use cachepilot.Identity.Examples.{plain_python, first_text}
use cachepilot.Prelude.Cut.{before, from, cut_last, cut_scheme, ends_with}
use cachepilot.Snapshots.{RequestSnapshot}
use cachepilot.Telemetry.{confirmed_hit, classify_outcome}
use cachepilot.Leases.{WarmResult}
use cachepilot.Adapters.{PhysicalResponse, build_warm_request}
use cachepilot.Adapters.Examples.{streamed_body}
use cachepilot.Relay.Endpoint.{endpoint_identity, endpoint_identity-query}
use cachepilot.Relay.Observation.{Transport, content_of, canonical_of_payload}
use cachepilot.Relay.Equivalence.{warm-cache_fingerprint}
use cachepilot.Relay.WarmExecutor.{WarmCall, warm_call, execute, IsEvidenced, execute-evidence}

endpoint_identity-query_example :
    endpoint_identity ("https://api.example/v1/chat" ++ letter "?" "key=secret")
    ≡ endpoint_identity "https://api.example/v1/chat"
endpoint_identity-query_example = endpoint_identity-query "https://api.example/v1/chat" "key=secret"

abbrev transport : Transport
transport = record {
  path = "/v1/chat/completions";
  upstream_url = "https://api.openai.com/v1";
  route_hash = none;
  auth_scope = "scope";
}

abbrev original : CanonicalRequest ℤ
original =
    hashed plain_python
      (content_of plain_python transport streamed_body [] "model" (some (pos 512)))

abbrev warm_body : Fields
warm_body = put_field "max_tokens" (int (pos 1)) (put_field "stream" (bool false) streamed_body)

warm-cache_fingerprint_example :
    (s : CanonicalRequest ℤ) × (canonical_of_payload plain_python transport warm_body ≡ some s)
    × (cache_fingerprint plain_python s ≡ cache_fingerprint plain_python original)
    × (s.stream ≡ false)
unfolding canonical_of_payload get_field items before from cut_last cut_scheme ends_with first_text
    select build_warm_request put_field
warm-cache_fingerprint_example =
    warm-cache_fingerprint plain_python transport streamed_body warm_body original refl refl refl

abbrev snapshot : RequestSnapshot ℤ
snapshot = record {
  cache_fingerprint = "fa";
  body = streamed_body;
  upstream_url = "https://api.openai.com/v1";
  replay_headers = [];
  stored_at = pos 0;
}

abbrev usage_body : Json
usage_body = obj (
    field "usage"
      (obj (
        field "prompt_tokens" (int (pos 100))
          (field "prompt_tokens_details" (obj (field "cached_tokens" (int (pos 80)) end)) end)))
      end)

abbrev answer : WarmCall → Option PhysicalResponse
answer call = some (record { status_code = 200; payload = some usage_body })

abbrev result : WarmResult ℤ
result = record {
  outcome = some confirmed_hit;
  usage = record {
    prompt_tokens = 100;
    completion_tokens = 0;
    cache_read_tokens = 80;
    cache_write_tokens = 0;
    cost = none;
  };
  cost_usd = pos 0;
}

execute-evidence_example :
    ((result.outcome ≡ some confirmed_hit)
      ↔ IsEvidenced plain_python none answer snapshot result.usage)
    × ((result.outcome ≡ none) ↔ (warm_call snapshot ≡ none))
unfolding execute get_field put_field classify_outcome
execute-evidence_example = execute-evidence plain_python none answer snapshot result refl
