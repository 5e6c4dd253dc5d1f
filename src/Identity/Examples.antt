-- ===== src/Identity/Examples.antt =====
-- Fingerprints on concrete requests, with plain functions in the place of the library's.
use Prim.Native.String.{◌++◌}
use package.text.Mathlib.TextLemmas.{append_cancel_left}
use cachepilot.Prelude.{String, ◌≡◌, ◌↔◌, true, Option, none, some, [], ◌∷◌, arith, eq_iff, str_eq}
use cachepilot.Prelude.Int.{ℤ, pos}
use cachepilot.Json.{Json, null, int, text, arr, obj, cons, end, field}
use cachepilot.Python.{Python}
use cachepilot.Identity.{CanonicalRequest, chat, tools_set_hash}
use cachepilot.Identity.Fingerprint.{cache_fingerprint, cache_document, cache_fingerprint_iff}
use cachepilot.Identity.ToolSet.{tools_set_hash_ext}

-- A text says itself, and a structure its first value.
unfoldable pub first_text : Json → String
first_text (text s) = s
first_text (arr (cons v vs)) = first_text v
first_text (obj (field k v d)) = first_text v
first_text _ = "-"

abbrev pub read_int : Json → Option ℤ
read_int (int n) = some n
read_int _ = none

abbrev pub plain_python : Python ℤ ℤ
plain_python = record {
  sha256 = λ s. "#" ++ s;
  lower = λ s. s;
  dumps = first_text;
  loads = λ s. none;
  is_zero = λ s. str_eq s "0.0";
  int_of_text = λ s. none;
  int_of_float = λ s. some none;
  decimal_of = λ v. none;
  int_field = read_int;
  float_json = λ t. null;
}

abbrev pub request_to : String → Option ℤ → CanonicalRequest ℤ
request_to provider bound = record {
  identity = record {
    provider = provider;
    model = "model";
    api_mode = chat;
    endpoint = "https://api.example";
    auth_scope = "scope";
    route = none;
    prompt_key = "prompt";
    system_hash = "system";
    tools_hash = "tools";
  };
  max_tokens = bound;
  stream = true;
  timeout_s = none;
  tools_set_hash = none;
}

abbrev here : CanonicalRequest ℤ
here = request_to "openai" none

abbrev there : CanonicalRequest ℤ
there = request_to "deepseek" (some (pos 1))

cache_fingerprint_iff_example :
    (cache_fingerprint plain_python here ≡ cache_fingerprint plain_python there)
    ↔ (here.identity ≡ there.identity)
unfolding cache_document first_text
cache_fingerprint_iff_example =
    cache_fingerprint_iff plain_python here there (append_cancel_left "#" _ _)
      λ same. ground (arith, eq_iff "openai" "deepseek")

abbrev pub tool : String → Json
tool name = obj (field "name" (text name) end)

tools_set_hash_ext_example :
    tools_set_hash plain_python (some (tool "read" ∷ tool "write" ∷ tool "read" ∷ []))
    ≡ tools_set_hash plain_python (some (tool "write" ∷ tool "read" ∷ []))
unfolding first_text
tools_set_hash_ext_example =
    tools_set_hash_ext plain_python (tool "read" ∷ tool "write" ∷ tool "read" ∷ [])
      (tool "write" ∷ tool "read" ∷ []) λ t. ground arith
