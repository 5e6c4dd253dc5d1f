-- ===== src/Relay/Observation.antt =====
-- observation.py: from the physical request to the canonical one. `none` is a raised error.
use Prim.Native.String.{[] as empty, ◌∷◌ as letter, ◌++◌}
use cachepilot.Prelude.{
  ℕ, String, Bool, false, ◌||◌, not, Option, none, some, List, [], ◌∷◌, map, str_eq, is_some,
  select, if◌then◌else◌,
}
use package.text.Mathlib.Text.{find?}
use cachepilot.Prelude.Cut.{ends_with}
use cachepilot.Prelude.Int.{ℤ, pos}
use cachepilot.Numbers.{Arith}
use cachepilot.Dict.{Dict, lookup, keep}
use cachepilot.Json.{Json, null, text, arr, obj, Fields, end, field}
use cachepilot.Json.Access.{get_field, has_field, items, truthy, or_else}
use cachepilot.Python.{Python}
use cachepilot.Identity.{
  ApiMode, chat, completion, responses, CanonicalRequest, Content, hash_content, list_json,
  from_content, join,
}
use cachepilot.Relay.Endpoint.{endpoint_identity, provider_from_upstream}

-- `t in s`
abbrev has_text : String → String → Bool
has_text t s = is_some (find? s t)

-- Iterating over a text or over an object.
unfoldable pub letters : String → List Json
letters empty = []
letters (letter c s) = text (letter c empty) ∷ letters s

unfoldable pub field_names : Fields → List Json
field_names end = []
field_names (field k v d) = text k ∷ field_names d

-- `message.get("role") == "system"`, on an object.
abbrev pub is_system : Json → Bool
is_system (obj d) = elim (get_field "role" d) [ some (text s) ↦ str_eq s "system" | _ ↦ false ]
is_system _ = false

-- `parse_targets_count`; `read` is `int(value.strip())`, which may refuse.
unfoldable pub parse_targets_count : (read : String → Option ℤ) → Option String → ℕ
parse_targets_count read none = 0
parse_targets_count read (some value) =
    if str_eq value "" then 0 else elim (read value) [ some (pos count) ↦ count | _ ↦ 0 ]

module _ {F D : Type 0} (py : Python F D) where
  -- `_json_or_none`
  unfoldable pub json_or_none : String → Option Fields
  json_or_none body =
      if str_eq body "" then none else elim (py.loads body) [ some (obj d) ↦ some d | _ ↦ none ]

  -- `derive_auth_scope`; `head16` takes the first 16 characters.
  unfoldable pub derive_auth_scope : (head16 : String → String) → Dict String → String
  derive_auth_scope head16 headers = elim (lookup "authorization" headers) [
    | none ↦ "relay-default"
    | some auth ↦ if str_eq auth "" then "relay-default" else "auth-" ++ head16 (py.sha256 auth)
  ]

  -- `hash_correlation_value`
  unfoldable pub hash_correlation_value : Option String → Option String
  hash_correlation_value none = none
  hash_correlation_value (some value) = if str_eq value "" then none else some (py.sha256 value)

  -- `strip_correlation_headers`
  abbrev pub is_correlation : String → Bool
  is_correlation name =
      let lowered = py.lower name in
      str_eq lowered "x-cachepilot-session"
      || (str_eq lowered "x-cachepilot-request"
          || (str_eq lowered "x-cachepilot-turn" || str_eq lowered "x-cachepilot-targets"))

  unfoldable pub strip_correlation_headers : Dict String → Dict String
  strip_correlation_headers headers = keep (λ name. not (is_correlation name)) headers

  -- `infer_api_mode`
  unfoldable pub infer_api_mode : String → Fields → ApiMode
  infer_api_mode path payload =
      let lowered = py.lower path in
      if has_text "responses" lowered
      then responses
      else if has_text "chat" lowered
      then chat
      else if ends_with lowered "/completions"
      then completion
      else if has_field "messages" payload
      then chat
      else if has_field "prompt" payload
      then completion
      else chat

  -- What `for message in payload.get("messages") or []` runs over; a number raises.
  abbrev iterated : Json → Option (List Json)
  iterated (arr vs) = some (items vs)
  iterated (text s) = some (letters s)
  iterated (obj d) = some (field_names d)
  iterated _ = none

  unfoldable pub messages_of : Fields → Option (List Json)
  unfolding letters field_names items
  messages_of payload = elim (get_field "messages" payload) [
    | none ↦ some []
    | some v ↦ if truthy py.is_zero v then iterated v else some []
  ]

  -- The content of a system message, as text.
  abbrev pub content_text : Json → String
  content_text (obj d) = elim (get_field "content" d) [
    | some (text s) ↦ s
    | some v ↦ py.dumps v
    | none ↦ py.dumps null
  ]
  content_text _ = ""

  unfoldable pub joined : List String → Option String
  joined [] = none
  joined (t ∷ ts) = some (join "\n" (t ∷ ts))

  -- `_system_content`, on the messages of the payload.
  unfoldable pub system_content : Fields → List Json → Option String
  unfolding joined
  system_content payload messages = elim (get_field "system" payload) [
    | none ↦ joined (map content_text (select is_system messages))
    | some null ↦ joined (map content_text (select is_system messages))
    | some (text s) ↦ some s
    | some v ↦ some (py.dumps v)
  ]

  -- `_non_system_messages`
  unfoldable pub non_system_messages : List Json → List Json
  non_system_messages messages = select (λ m. not (is_system m)) messages

  -- `_canonical_json(messages) if messages else None`
  unfoldable pub prompt_prefix : List Json → Option String
  prompt_prefix [] = none
  prompt_prefix (m ∷ ms) = some (list_json py (m ∷ ms))

  -- The model's name must be a text, and the bound an integer.
  unfoldable pub model_of : Fields → Option String
  model_of payload = elim (or_else py.is_zero (get_field "model" payload) (some (text "unknown"))) [
    | some (text s) ↦ some s
    | _ ↦ none
  ]

  unfoldable pub max_tokens_of : Fields → Option (Option ℤ)
  max_tokens_of payload = elim (get_field "max_tokens" payload) [
    | none ↦ some none
    | some null ↦ some none
    | some v ↦ elim (py.int_field v) [ none ↦ none | some n ↦ some (some n) ]
  ]

  unfoldable pub tools_of : Fields → Option (List Json)
  unfolding items
  tools_of payload =
      elim (or_else py.is_zero (get_field "tools" payload) (get_field "functions" payload)) [
        | some (arr vs) ↦ some (items vs)
        | _ ↦ none
      ]

  unfoldable pub is_streamed : Fields → Bool
  is_streamed payload = elim (get_field "stream" payload) [
    | none ↦ false
    | some v ↦ truthy py.is_zero v
  ]

-- The request line and what the relay derives from its headers.
pub record Transport : Type 0 where
  pub path : String
  pub upstream_url : String
  pub route_hash : Option String
  pub auth_scope : String

module _ {F D : Type 0} ⦃f : Arith F⦄ (py : Python F D) where
  unfoldable pub content_of : Transport → Fields → List Json → String → Option ℤ → Content F
  unfolding endpoint_identity provider_from_upstream infer_api_mode non_system_messages
      prompt_prefix system_content tools_of is_streamed
  content_of t payload messages model max_tokens = record {
    provider = provider_from_upstream py.lower (endpoint_identity t.upstream_url);
    model = model;
    api_mode = infer_api_mode py t.path payload;
    endpoint = endpoint_identity t.upstream_url;
    auth_scope = t.auth_scope;
    prompt_prefix = prompt_prefix py (non_system_messages py messages);
    system = system_content py payload messages;
    tools = tools_of py payload;
    route = t.route_hash;
    max_tokens = max_tokens;
    stream = is_streamed py payload;
    timeout_s = none;
  }

  unfoldable pub canonical_of_payload : Transport → Fields → Option (CanonicalRequest F)
  unfolding messages_of model_of max_tokens_of content_of from_content
  canonical_of_payload t payload = elim (messages_of py payload) [
    | none ↦ none
    | some messages ↦ elim (model_of py payload) [
      | none ↦ none
      | some model ↦ elim (max_tokens_of py payload) [
        | none ↦ none
        | some max_tokens ↦ from_content py (content_of t payload messages model max_tokens)
      ]
    ]
  ]

  -- `build_canonical_request`; a body that is no JSON object counts as an empty one.
  unfoldable pub build_canonical_request : Transport → String → Option (CanonicalRequest F)
  unfolding json_or_none canonical_of_payload
  build_canonical_request t body =
      canonical_of_payload t (elim (json_or_none py body) [ none ↦ end | some d ↦ d ])

  -- `extract_history_hash`
  unfoldable pub extract_history_hash : String → Option (Option String)
  unfolding json_or_none messages_of non_system_messages
  extract_history_hash body = elim (json_or_none py body) [
    | none ↦ some none
    | some payload ↦ elim (messages_of py payload) [
      | none ↦ none
      | some messages ↦ elim (prompt_prefix py (non_system_messages py messages)) [
        | none ↦ some none
        | some prefix ↦ some (some (hash_content py (some prefix)))
      ]
    ]
  ]
