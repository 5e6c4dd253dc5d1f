-- ===== src/Relay/Equivalence.antt =====
-- A warm is of the cache identity of the request it replays.
use cachepilot.Prelude.{
  String, ◌≡◌, refl, sym, ap, ◌∙◌, true, false, Option, none, some, List, arith, Option-cases,
  Bool-cases, inl, inr,
}
use cachepilot.Prelude.Int.{ℤ, pos}
use cachepilot.Numbers.{Arith}
use cachepilot.Json.{Json, int, obj, Fields, end}
use cachepilot.Json.Access.{get_field, has_field}
use cachepilot.Python.{Python}
use cachepilot.Identity.{CanonicalRequest, Content, from_content, hashed, at_least_one}
use cachepilot.Identity.Fingerprint.{identity_fields, cache_fingerprint, cache_document}
use cachepilot.Adapters.{build_warm_request}
use cachepilot.Adapters.Warm.{IsWarmOf, name-IsSafe, warm-IsWarmOf}
use cachepilot.Relay.Observation.{
  Transport, infer_api_mode, messages_of, system_content, model_of, max_tokens_of, tools_of,
  is_streamed, content_of, canonical_of_payload,
}

module _ {F D : Type 0} ⦃f : Arith F⦄ (py : Python F D) where
  same_messages : (d w : Fields) → IsWarmOf d w → messages_of py w ≡ messages_of py d
  unfolding messages_of
  same_messages d w h = rw (messages_of, h.kept "messages" (name-IsSafe _ refl refl refl refl)) refl

  same_model : (d w : Fields) → IsWarmOf d w → model_of py w ≡ model_of py d
  unfolding model_of
  same_model d w h = rw (model_of, h.kept "model" (name-IsSafe _ refl refl refl refl)) refl

  same_tools : (d w : Fields) → IsWarmOf d w → tools_of py w ≡ tools_of py d
  unfolding tools_of
  same_tools d w h =
      rw
        (
          tools_of,
          h.kept "tools" (name-IsSafe _ refl refl refl refl),
          h.kept "functions" (name-IsSafe _ refl refl refl refl),
        )
        refl

  same_mode :
      (path : String) (d w : Fields)
      → IsWarmOf d w
      → infer_api_mode py path w ≡ infer_api_mode py path d
  unfolding infer_api_mode
  same_mode path d w h =
      rw
        (
          infer_api_mode,
          h.kept "messages" (name-IsSafe _ refl refl refl refl),
          h.kept "prompt" (name-IsSafe _ refl refl refl refl),
        )
        refl

  same_system :
      (ms : List Json) (d w : Fields)
      → IsWarmOf d w
      → system_content py w ms ≡ system_content py d ms
  unfolding system_content
  same_system ms d w h =
      rw (system_content, h.kept "system" (name-IsSafe _ refl refl refl refl)) refl

  not_streamed : (d w : Fields) → IsWarmOf d w → is_streamed py w ≡ false
  unfolding is_streamed
  not_streamed d w h = elim (Bool-cases (has_field "stream" d)) [
    | inl there ↦ rw (is_streamed, h.stream, there) refl
    | inr missing ↦ rw (is_streamed, h.stream, missing) refl
  ]

  -- The contents of a request and of a warm made from it.
  same_content :
      (t : Transport) (d w : Fields) (messages : List Json) (model : String)
      (bound other : Option ℤ)
      → IsWarmOf d w
      → content_of py t w messages model bound
        ≡ record (content_of py t d messages model other) { max_tokens = bound; stream = false }
  unfolding content_of
  same_content t d w messages model bound other h =
      rw
        (
          content_of,
          same_tools d w h,
          same_mode t.path d w h,
          same_system messages d w h,
          not_streamed d w h,
        )
        refl

  -- The bound of a warm, where the reading of an integer accepts one.
  bound_of_warm :
      (d w : Fields) (n : Option ℤ)
      → py.int_field (int (pos 1)) ≡ some (pos 1)
      → IsWarmOf d w
      → max_tokens_of py d ≡ some n
      → (m : Option ℤ) × (max_tokens_of py w ≡ some m) × (at_least_one m ≡ true)
  unfolding max_tokens_of
  bound_of_warm d w n one h e = elim (Option-cases (get_field "max_tokens" d)) [
    | inl missing ↦ rw (max_tokens_of, h.max_tokens, missing) (none, refl, refl)
    | inr (v, here) ↦ rw (max_tokens_of, h.max_tokens, here, one) (some (pos 1), refl, refl)
  ]

  same_request :
      (c : Content F) (r : CanonicalRequest F) (m : Option ℤ)
      → from_content py c ≡ some r
      → at_least_one m ≡ true
      → (s : CanonicalRequest F) × (from_content py (record c { max_tokens = m; stream = false })
          ≡ some s)
        × (s.identity ≡ r.identity)
        × (s.stream ≡ false)
  unfolding from_content hashed
  same_request c r m e h =
      (hashed py (record c { max_tokens = m; stream = false }), ground arith, ground arith, refl)

  identified :
      (t : Transport) (d : Fields) (messages : List Json) (model : String) (bound : Option ℤ)
      → messages_of py d ≡ some messages
      → model_of py d ≡ some model
      → max_tokens_of py d ≡ some bound
      → canonical_of_payload py t d ≡ from_content py (content_of py t d messages model bound)
  unfolding canonical_of_payload
  identified t d messages model bound a b c = rw (canonical_of_payload, a, b, c) refl

  -- A warm is of its request's cache entry: where a request is identified, a warm made from it is
  -- identified too, by the same cache fingerprint, and it is not streamed; the validator must read
  -- the integer one as one.
  pub warm-cache_fingerprint :
      (t : Transport) (d w : Fields) (r : CanonicalRequest F)
      → py.int_field (int (pos 1)) ≡ some (pos 1)
      → canonical_of_payload py t d ≡ some r
      → build_warm_request d ≡ some w
      → (s : CanonicalRequest F) × (canonical_of_payload py t w ≡ some s)
        × (cache_fingerprint py s ≡ cache_fingerprint py r)
        × (s.stream ≡ false)
  unfolding canonical_of_payload cache_fingerprint cache_document
  warm-cache_fingerprint t d w r one e built =
      let h : IsWarmOf d w = warm-IsWarmOf d w built in
      elim (Option-cases (messages_of py d)) [
        | inl bad ↦ ground arith
        | inr (ms, got) ↦ elim (Option-cases (model_of py d)) [
          | inl bad ↦ ground arith
          | inr (model, named) ↦ elim (Option-cases (max_tokens_of py d)) [
            | inl bad ↦ ground arith
            | inr (n, bound) ↦
                let (m, read, ok) = bound_of_warm d w n one h bound in
                let (s, made, same, off) =
                  same_request (content_of py t d ms model n) r m
                    (sym (identified t d ms model n got named bound) ∙ e) ok in
                (
                  s,
                  identified t w ms model m (same_messages d w h ∙ got) (same_model d w h ∙ named)
                        read
                      ∙ ap (from_content py) (same_content t d w ms model m n h)
                      ∙ made,
                  ap (λ i. py.sha256 (py.dumps (obj (identity_fields i end)))) same,
                  off,
                )
          ]
        ]
      ]
