-- ===== src/Identity.antt =====
-- packages/core/src/cachepilot_core/identity.py: the physical identity of a request's cache entry,
-- and the canonical request that carries it. Content is a text or absent; only digests are kept.
pub mod Fingerprint
pub mod ToolSet
pub mod Examples
use cachepilot.Prelude.{
  String, Bool, true, false, ◌&&◌, not, Option, none, some, List, [], ◌∷◌, map, get_or, str_eq,
  if◌then◌else◌,
}
use cachepilot.Prelude.Int.{ℤ, pos, leb_ℤ}
use cachepilot.Prelude.TextSet.{sorted_set}
use cachepilot.Numbers.{Arith, lt, nought}
use cachepilot.Json.{Json, arr}
use cachepilot.Json.Access.{of_list}
use cachepilot.Python.{Python}
use Prim.Native.String.{◌++◌}

pub data ApiMode : Type 0 where
  chat completion responses : ApiMode

pub record CacheIdentity : Type 0 where
  pub provider : String
  pub model : String
  pub api_mode : ApiMode
  pub endpoint : String
  pub auth_scope : String
  pub route : Option String
  pub prompt_key : String
  pub system_hash : String
  pub tools_hash : String

-- The identity, and what bounds the output.
pub record CanonicalRequest (F : Type 0) : Type 0 where
  pub identity : CacheIdentity
  pub open identity use *
  pub max_tokens : Option ℤ
  pub stream : Bool
  pub timeout_s : Option F
  pub tools_set_hash : Option String

-- `"\x1f".join(...)`
abbrev pub join : String → List String → String
join sep [] = ""
join sep (x ∷ []) = x
join sep (x ∷ y ∷ ys) = x ++ (sep ++ join sep (y ∷ ys))

abbrev filled : String → Bool
filled s = not (str_eq s "")

-- The fields with `min_length=1`.
unfoldable pub is_filled : CacheIdentity → Bool
is_filled i =
    filled i.provider
    && (filled i.model
        && (filled i.endpoint
            && (filled i.auth_scope
                && (filled i.prompt_key && (filled i.system_hash && filled i.tools_hash)))))

module _ {F D : Type 0} (py : Python F D) where
  unfoldable pub hash_content : Option String → String
  hash_content content = py.sha256 (get_or content "")

  -- `_canonical_json` of a list
  abbrev pub list_json : List Json → String
  list_json vs = py.dumps (arr (of_list vs))

  -- `tools_set_hash`, of the tools' serializations.
  unfoldable pub set_hash : List String → String
  unfolding hash_content
  set_hash members = hash_content (some (join "\u{1f}" (sorted_set members)))

  unfoldable pub tools_set_hash : Option (List Json) → String
  unfolding hash_content
  tools_set_hash none = hash_content none
  tools_set_hash (some tools) = set_hash (map py.dumps tools)

  unfoldable pub tools_hash : Option (List Json) → String
  unfolding hash_content
  tools_hash none = hash_content none
  tools_hash (some tools) = hash_content (some (list_json tools))

-- What `from_content` takes.
pub record Content (F : Type 0) : Type 0 where
  pub provider : String
  pub model : String
  pub api_mode : ApiMode
  pub endpoint : String
  pub auth_scope : String
  pub prompt_prefix : Option String
  pub system : Option String
  pub tools : Option (List Json)
  pub route : Option String
  pub max_tokens : Option ℤ
  pub stream : Bool
  pub timeout_s : Option F

-- `ge=1` and `gt=0`
abbrev pub at_least_one : Option ℤ → Bool
at_least_one none = true
at_least_one (some n) = leb_ℤ (pos 1) n

module _ {F D : Type 0} ⦃f : Arith F⦄ (py : Python F D) where
  abbrev is_positive : Option F → Bool
  is_positive none = true
  is_positive (some t) = lt nought t

  abbrev pub is_bounded : CanonicalRequest F → Bool
  is_bounded r = at_least_one r.max_tokens && is_positive r.timeout_s

  unfoldable pub hashed : Content F → CanonicalRequest F
  unfolding hash_content tools_hash tools_set_hash
  hashed c = record {
    identity = record {
      provider = c.provider;
      model = c.model;
      api_mode = c.api_mode;
      endpoint = c.endpoint;
      auth_scope = c.auth_scope;
      route = c.route;
      prompt_key = hash_content py c.prompt_prefix;
      system_hash = hash_content py c.system;
      tools_hash = tools_hash py c.tools;
    };
    max_tokens = c.max_tokens;
    stream = c.stream;
    timeout_s = c.timeout_s;
    tools_set_hash = some (tools_set_hash py c.tools);
  }

  -- `CanonicalRequest.from_content`; the validators of the fields may refuse.
  unfoldable pub from_content : Content F → Option (CanonicalRequest F)
  unfolding is_filled hashed
  from_content c =
      let request = hashed c in
      if is_filled request.identity && is_bounded request then some request else none
