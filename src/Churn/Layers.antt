-- ===== src/Churn/Layers.antt =====
-- The layers of a request and their digests. The volatile patterns are regular expressions: `search`
-- gives the text before the start of a match, and the text from there on.
use cachepilot.Prelude.{
  String, Bool, true, false, every, str_eq, Option, none, some, List, [], ◌∷◌, get_or, map, select,
  if◌then◌else◌,
}
use cachepilot.Json.{Json, null, text, arr, obj, Fields, end, field}
use cachepilot.Json.Access.{get_field, items, of_list, or_else}
use cachepilot.Python.{Python}
use cachepilot.Identity.{hash_content, list_json, tools_hash, tools_set_hash}
use cachepilot.Relay.Observation.{is_system, content_text, joined, messages_of, non_system_messages}

pub data Layer : Type 0 where
  system_prefix system_suffix tool_schemas history history_tail route model_layer cache_key_layer :
      Layer

-- The names that diagnostics print.
abbrev pub layer_name : Layer → String
layer_name system_prefix = "static system prefix"
layer_name system_suffix = "dynamic system suffix"
layer_name tool_schemas = "tool schemas"
layer_name history = "historical conversation"
layer_name history_tail = "recent conversation tail"
layer_name route = "route"
layer_name model_layer = "model"
layer_name cache_key_layer = "cache key"

-- `_CONTENT_LAYER_ORDER`
abbrev pub content_layers : List Layer
content_layers = system_prefix ∷ system_suffix ∷ tool_schemas ∷ history ∷ history_tail ∷ []

pub record LayeredHashes : Type 0 where
  pub system_prefix_hash : Option String
  pub system_suffix_hash : Option String
  pub system_hash : Option String
  pub tools_hash : Option String
  pub tools_set_hash : Option String
  pub history_hash : Option String
  pub history_prefix_hash : Option String
  pub history_tail_hash : Option String
  pub route_hash : Option String
  pub model : Option String
  pub cache_key : Option String

pub record RequestContent : Type 0 where
  pub system : Option String
  pub messages : List Json
  pub tools : Option (List Json)
  pub route_hash : Option String
  pub model : Option String
  pub cache_key : Option String

-- `messages[:-1]` and `messages[-1:]`
unfoldable pub all_but_last : List Json → List Json
all_but_last [] = []
all_but_last (m ∷ []) = []
all_but_last (m ∷ n ∷ ms) = m ∷ all_but_last (n ∷ ms)

unfoldable pub only_last : List Json → List Json
only_last [] = []
only_last (m ∷ []) = m ∷ []
only_last (m ∷ n ∷ ms) = only_last (n ∷ ms)

abbrev pub Search : Type 0
Search = String → Option (String × String)

abbrev first_match : List Search → String → String × String
first_match [] system = (system, "")
first_match (search ∷ ps) system = elim (search system) [
  | none ↦ first_match ps system
  | some parts ↦ parts
]

-- `split_system_layers`
unfoldable pub split_system_layers : List Search → String → String × String
split_system_layers patterns system =
    if str_eq system "" then ("", "") else first_match patterns system

abbrev text_or_null : Option String → Json
text_or_null none = null
text_or_null (some s) = text s

abbrev pub list_or_null : Option (List Json) → Json
list_or_null none = null
list_or_null (some vs) = arr (of_list vs)

abbrev is_object : Json → Bool
is_object (obj _) = true
is_object _ = false

module _ {F D : Type 0} (py : Python F D) where
  abbrev hash_list : List Json → String
  hash_list ms = hash_content py (some (list_json py ms))

  abbrev history_hash_of : List Json → Option String
  history_hash_of [] = none
  history_hash_of (m ∷ ms) = some (hash_list (m ∷ ms))

  -- `RequestContent.to_hashes`
  unfoldable pub to_hashes : (patterns : List Search) → RequestContent → LayeredHashes
  unfolding hash_content tools_hash tools_set_hash split_system_layers all_but_last only_last
  to_hashes patterns r =
      let (prefix, suffix) = split_system_layers patterns (get_or r.system "") in
      record {
        system_prefix_hash = some (hash_content py (some prefix));
        system_suffix_hash = some (hash_content py (some suffix));
        system_hash = some (hash_content py r.system);
        tools_hash = some (tools_hash py r.tools);
        tools_set_hash = some (tools_set_hash py r.tools);
        history_hash = history_hash_of r.messages;
        history_prefix_hash = some (hash_list (all_but_last r.messages));
        history_tail_hash = some (hash_list (only_last r.messages));
        route_hash = r.route_hash;
        model = r.model;
        cache_key = r.cache_key;
      }

  -- `RequestContent.serialize`
  unfoldable pub serialize : RequestContent → String
  unfolding of_list
  serialize r = py.dumps (
      obj (
        field "system" (text_or_null r.system) (
          field "messages" (arr (of_list r.messages)) (
            field "tools" (list_or_null r.tools) (
              field "route_hash" (text_or_null r.route_hash) (
                field "model" (text_or_null r.model)
                  (field "cache_key" (text_or_null r.cache_key) end)))))))

  -- The system text of a payload; only a text is taken from the top level.
  abbrev system_of : Fields → List Json → Option String
  system_of payload messages = elim (get_field "system" payload) [
    | some (text s) ↦ some s
    | _ ↦ joined py (map (content_text py) (select is_system messages))
  ]

  -- The model of a payload, which must be a text if it is there and not overruled.
  abbrev model_of : Option String → Option Json → Option (Option String)
  model_of (some m) v = some (some m)
  model_of none none = some none
  model_of none (some null) = some none
  model_of none (some (text s)) = some (some s)
  model_of none (some _) = none

  unfoldable pub tools_in : Fields → Option (List Json)
  unfolding items
  tools_in payload =
      elim (or_else py.is_zero (get_field "tools" payload) (get_field "functions" payload)) [
        | some (arr vs) ↦ some (items vs)
        | _ ↦ none
      ]

  -- The validator of `tools`: each one an object.
  abbrev are_objects : Option (List Json) → Bool
  are_objects none = true
  are_objects (some tools) = every is_object tools

  -- `request_content_from_payload`; `none` is a raised error.
  unfoldable pub request_content_from_payload :
      Fields → (route_hash model cache_key : Option String) → Option RequestContent
  unfolding messages_of non_system_messages joined tools_in select
  request_content_from_payload payload route_hash model cache_key = elim (messages_of py payload) [
    | none ↦ none
    | some messages ↦ elim (model_of model (get_field "model" payload)) [
      | none ↦ none
      | some named ↦
          if are_objects (tools_in payload)
          then some (record {
            system = system_of payload messages;
            messages = non_system_messages py messages;
            tools = tools_in payload;
            route_hash = route_hash;
            model = named;
            cache_key = cache_key;
          })
          else none
    ]
  ]
