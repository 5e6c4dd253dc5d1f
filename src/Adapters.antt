-- ===== src/Adapters.antt =====
-- packages/core/src/cachepilot_core/adapters.py: the adapter of the OpenAI-compatible dialect, with
-- what telemetry.py takes for cache telemetry.
pub mod Warm
pub mod Examples
use cachepilot.Prelude.{
  ℕ, String, Bool, true, false, ◌||◌, Option, none, some, is_some, get_or, if◌then◌else◌,
}
use cachepilot.Prelude.Int.{ℤ, pos}
use cachepilot.Json.{Json, null, bool, int, obj, Fields, end, field}
use cachepilot.Json.Access.{get_field, put_field, has_field}
use cachepilot.Python.{Python}
use cachepilot.Telemetry.{Outcome, classify_outcome}
use cachepilot.Usage.{TokenUsage}
use cachepilot.Usage.Normalizer.{normalize}

-- `stream` is forced off, where the request has it.
unfoldable pub stream_off : Fields → Fields
stream_off body = if has_field "stream" body then put_field "stream" (bool false) body else body

-- `build_warm_request`: the first output bound that the request has becomes one token; a request
-- without one is not replayed.
unfoldable pub build_warm_request : Fields → Option Fields
unfolding stream_off
build_warm_request original =
    let warm = stream_off original in
    if has_field "max_tokens" warm
    then some (put_field "max_tokens" (int (pos 1)) warm)
    else if has_field "max_completion_tokens" warm
    then some (put_field "max_completion_tokens" (int (pos 1)) warm)
    else if has_field "max_output_tokens" warm
    then some (put_field "max_output_tokens" (int (pos 1)) warm)
    else none

-- A response; `payload` is its parsed body, if that is JSON.
pub record PhysicalResponse : Type 0 where
  pub status_code : ℕ
  pub payload : Option Json

-- `_payload`
abbrev payload_object : Option Json → Option Fields
payload_object (some (obj d)) = some d
payload_object _ = none

-- `(payload or {}).get("usage", payload)`
abbrev pub usage_of : Option Fields → Json
usage_of none = null
usage_of (some d) = get_or (get_field "usage" d) (obj d)

abbrev pub reported_usage : PhysicalResponse → Json
reported_usage response = usage_of (payload_object response.payload)

abbrev has_cached_tokens : Option Json → Bool
has_cached_tokens (some (obj details)) = has_field "cached_tokens" details
has_cached_tokens _ = false

unfoldable pub usage_has_cache_telemetry : Json → Bool
usage_has_cache_telemetry (obj usage) =
    has_field "cache_read_tokens" usage
    || (has_field "cache_read_input_tokens" usage
        || (has_field "cache_creation_input_tokens" usage
            || has_cached_tokens (get_field "prompt_tokens_details" usage)))
usage_has_cache_telemetry _ = false

module _ {F D : Type 0} (py : Python F D) where
  unfoldable pub parse_usage : PhysicalResponse → Option (TokenUsage D)
  unfolding normalize
  parse_usage response = normalize py (reported_usage response) (some "openai")

module _ {D : Type 0} where
  unfoldable pub classify_cache_result : TokenUsage D → PhysicalResponse → Outcome
  unfolding usage_has_cache_telemetry
  classify_cache_result usage response =
      classify_outcome response.status_code (usage_has_cache_telemetry (reported_usage response))
        usage.cache_read_tokens
