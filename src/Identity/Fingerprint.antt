-- ===== src/Identity/Fingerprint.antt =====
-- packages/core/src/cachepilot_core/fingerprint.py: the fingerprint of a whole request, and that of
-- its cache identity.
use cachepilot.Prelude.{String, ◌≡◌, ◌↔◌, refl, ap, Option, none, some, arith, eq_iff}
use cachepilot.Prelude.Int.{ℤ}
use cachepilot.Json.{Json, null, bool, int, text, obj, Fields, end, field}
use cachepilot.Python.{Python}
use cachepilot.Identity.{ApiMode, chat, completion, responses, CacheIdentity, CanonicalRequest}

abbrev pub mode_text : ApiMode → String
mode_text chat = "chat"
mode_text completion = "completion"
mode_text responses = "responses"

abbrev text_or_null : Option String → Json
text_or_null none = null
text_or_null (some s) = text s

-- The fields of `CACHE_IDENTITY_FIELDS`, before those given.
unfoldable pub identity_fields : CacheIdentity → Fields → Fields
identity_fields i rest = field "provider" (text i.provider) (
    field "model" (text i.model) (
      field "api_mode" (text (mode_text i.api_mode)) (
        field "endpoint" (text i.endpoint) (
          field "auth_scope" (text i.auth_scope) (
            field "route" (text_or_null i.route) (
              field "prompt_key" (text i.prompt_key) (
                field "system_hash" (text i.system_hash)
                  (field "tools_hash" (text i.tools_hash) rest))))))))

module _ {F D : Type 0} (py : Python F D) where
  abbrev int_or_null : Option ℤ → Json
  int_or_null none = null
  int_or_null (some n) = int n

  abbrev float_or_null : Option F → Json
  float_or_null none = null
  float_or_null (some t) = py.float_json t

  -- `model_dump(mode="json")` without `tools_set_hash`.
  unfoldable pub request_dump : CanonicalRequest F → Fields
  unfolding identity_fields
  request_dump r = identity_fields r.identity (
      field "max_tokens" (int_or_null r.max_tokens)
        (field "stream" (bool r.stream) (field "timeout_s" (float_or_null r.timeout_s) end)))

  unfoldable pub request_fingerprint : CanonicalRequest F → String
  unfolding request_dump
  request_fingerprint r = py.sha256 (py.dumps (obj (request_dump r)))

  -- The subset of the dump that is hashed for the cache.
  unfoldable pub cache_document : CanonicalRequest F → Json
  unfolding identity_fields
  cache_document r = obj (identity_fields r.identity end)

  unfoldable pub cache_fingerprint : CanonicalRequest F → String
  unfolding cache_document
  cache_fingerprint r = py.sha256 (py.dumps (cache_document r))

same_mode : (a b : ApiMode) → mode_text a ≡ mode_text b → a ≡ b
same_mode chat chat h = refl
same_mode chat completion h = ground (arith, eq_iff "chat" "completion")
same_mode chat responses h = ground (arith, eq_iff "chat" "responses")
same_mode completion chat h = ground (arith, eq_iff "completion" "chat")
same_mode completion completion h = refl
same_mode completion responses h = ground (arith, eq_iff "completion" "responses")
same_mode responses chat h = ground (arith, eq_iff "responses" "chat")
same_mode responses completion h = ground (arith, eq_iff "responses" "completion")
same_mode responses responses h = refl

same_route : (a b : Option String) → text_or_null a ≡ text_or_null b → a ≡ b
same_route a b h = ground arith

same_identity : (a b : CacheIdentity) → identity_fields a end ≡ identity_fields b end → a ≡ b
unfolding identity_fields
same_identity a b h = ground (arith, same_mode a.api_mode b.api_mode, same_route a.route b.route)

module _ {F D : Type 0} (py : Python F D) where
  -- Two requests have one cache fingerprint exactly when they have one cache identity, whatever
  -- their output bounds, timeouts and streaming are, as long as the digests of the two serialized
  -- identities do not collide.
  pub cache_fingerprint_iff :
      (r s : CanonicalRequest F)
      → (py.sha256 (py.dumps (cache_document py r)) ≡ py.sha256 (py.dumps (cache_document py s))
          → py.dumps (cache_document py r) ≡ py.dumps (cache_document py s))
      → (py.dumps (cache_document py r) ≡ py.dumps (cache_document py s)
          → cache_document py r ≡ cache_document py s)
      → (cache_fingerprint py r ≡ cache_fingerprint py s) ↔ (r.identity ≡ s.identity)
  unfolding cache_fingerprint cache_document
  cache_fingerprint_iff r s digest serial = (
    λ same.
        let one : cache_document py r ≡ cache_document py s = serial (digest same) in
        same_identity r.identity s.identity (ground arith),
    λ same. ap (λ i. py.sha256 (py.dumps (obj (identity_fields i end)))) same,
  )
