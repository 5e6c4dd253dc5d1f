-- ===== src/Relay/Endpoint.antt =====
-- `endpoint_identity` and `provider_from_upstream` of observation.py: what of an upstream URL is
-- part of the cache identity and is stored.
use Prim.Native.String.{String, [], ◌∷◌, ◌++◌}
use text.Mathlib.TextLemmas.{nil-append, cons-append}
use cachepilot.Prelude.{◌≡◌, refl, ap, none, some, str_eq, arith, if◌then◌else◌}
use cachepilot.Prelude.Cut.{before, from, before_last, after_last, cut_scheme}

-- Without `user:pass@`.
unfoldable pub without_userinfo : String → String
without_userinfo rest = after_last "@" (before "/" rest) ++ from "/" rest

unfoldable pub normal_url : String → String
unfolding without_userinfo
normal_url url = elim (cut_scheme url) [
  | none ↦ without_userinfo url
  | some (scheme, rest) ↦ scheme ++ ("://" ++ without_userinfo rest)
]

unfoldable pub endpoint_identity : String → String
unfolding normal_url
endpoint_identity url = normal_url (before "?" (before "#" url))

-- `_KNOWN_GATEWAYS.get(host, host)`
unfoldable pub gateway : String → String
gateway host =
    if str_eq host "api.openai.com"
    then "openai"
    else if str_eq host "api.anthropic.com"
    then "anthropic"
    else if str_eq host "openrouter.ai"
    then "openrouter"
    else if str_eq host "api.deepseek.com"
    then "deepseek"
    else host

-- `lower` is `str.lower`.
unfoldable pub provider_from_upstream : (lower : String → String) → String → String
unfolding gateway
provider_from_upstream lower url =
    let rest : String = elim (cut_scheme url) [ none ↦ url | some (scheme, rest) ↦ rest ] in
    gateway (lower (before_last ":" (before "/" rest)))

cut_query :
    (base query : String)
    → before "?" (before "#" (base ++ ("?" ∷ query))) ≡ before "?" (before "#" base)
unfolding before
cut_query [] query = rw (nil-append ("?" ∷ query)) refl
cut_query (c ∷ s) query = rw (cons-append c s ("?" ∷ query)) (ground (arith, cut_query s query))

-- The query never enters the identity: whatever follows the question mark, a key or a stream flag
-- or a fragment, the endpoint is that of the URL without it.
pub endpoint_identity-query :
    (base query : String) → endpoint_identity (base ++ ("?" ∷ query)) ≡ endpoint_identity base
unfolding endpoint_identity
endpoint_identity-query base query = ap normal_url (cut_query base query)
