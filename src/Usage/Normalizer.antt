-- ===== src/Usage/Normalizer.antt =====
-- `UsageNormalizer` of usage.py. A payload is a JSON value; `none` is a raised error, such as the
-- validator's for a negative count.
use cachepilot.Prelude.{
  ℕ, zero, String, Bool, true, false, Option, none, some, str_eq, if◌then◌else◌,
}
use cachepilot.Prelude.Int.{ℤ, pos, negsuc, ◌+ℤ◌}
use cachepilot.Json.{Json, null, bool, int, float, text, arr, obj, Fields}
use cachepilot.Json.Access.{get_field}
use cachepilot.Python.{Python}
use cachepilot.Usage.{TokenUsage, no_usage}

-- `_non_negative`
abbrev non_negative : ℤ → Option ℕ
non_negative (pos n) = some n
non_negative (negsuc n) = none

-- `TokenUsage(...)`
unfoldable pub token_usage :
    {D : Type 0} → (prompt completion read write : ℤ) → Option D → Option (TokenUsage D)
token_usage prompt completion read write cost = elim (non_negative prompt) [
  | none ↦ none
  | some p ↦ elim (non_negative completion) [
    | none ↦ none
    | some o ↦ elim (non_negative read) [
      | none ↦ none
      | some r ↦ elim (non_negative write) [
        | none ↦ none
        | some w ↦ some (record {
          prompt_tokens = p;
          completion_tokens = o;
          cache_read_tokens = r;
          cache_write_tokens = w;
          cost = cost;
        })
      ]
    ]
  ]
]

abbrev pub is_zero_ℤ : ℤ → Bool
is_zero_ℤ (pos zero) = true
is_zero_ℤ _ = false

module _ {F D : Type 0} (py : Python F D) where
  abbrev refused_is_zero : Option ℤ → ℤ
  refused_is_zero none = pos 0
  refused_is_zero (some n) = n

  -- `_to_int`
  unfoldable pub to_int : Option Json → Option ℤ
  to_int none = some (pos 0)
  to_int (some null) = some (pos 0)
  to_int (some (bool true)) = some (pos 1)
  to_int (some (bool false)) = some (pos 0)
  to_int (some (int n)) = some n
  to_int (some (float literal)) = elim (py.int_of_float literal) [
    | none ↦ none
    | some read ↦ some (refused_is_zero read)
  ]
  to_int (some (text s)) = some (refused_is_zero (py.int_of_text s))
  to_int (some (arr _)) = some (pos 0)
  to_int (some (obj _)) = some (pos 0)

  -- `_to_decimal`
  unfoldable pub to_decimal : Option Json → Option D
  to_decimal none = none
  to_decimal (some null) = none
  to_decimal (some v) = py.decimal_of v

  abbrev cached_details : Option Json → Option ℤ
  cached_details (some (obj details)) = to_int (get_field "cached_tokens" details)
  cached_details _ = some (pos 0)

  unfoldable pub normalize_anthropic : Fields → Option (TokenUsage D)
  unfolding to_int to_decimal token_usage
  normalize_anthropic usage = elim (to_int (get_field "cache_read_input_tokens" usage)) [
    | none ↦ none
    | some read ↦ elim (to_int (get_field "cache_creation_input_tokens" usage)) [
      | none ↦ none
      | some write ↦ elim (to_int (get_field "input_tokens" usage)) [
        | none ↦ none
        | some input ↦ elim (to_int (get_field "output_tokens" usage)) [
          | none ↦ none
          | some output ↦
              token_usage (input +ℤ read +ℤ write) output read write
                (to_decimal (get_field "cost" usage))
        ]
      ]
    ]
  ]

  -- The cached tokens: those of the details, or else of the other dialect's key.
  unfoldable pub cached_tokens : Fields → Option ℤ
  unfolding to_int
  cached_tokens usage = elim (cached_details (get_field "prompt_tokens_details" usage)) [
    | none ↦ none
    | some cached ↦
        if is_zero_ℤ cached then to_int (get_field "cache_read_input_tokens" usage) else some cached
  ]

  unfoldable pub normalize_openai : Fields → Option (TokenUsage D)
  unfolding to_int to_decimal token_usage cached_tokens
  normalize_openai usage = elim (cached_tokens usage) [
    | none ↦ none
    | some cached ↦ elim (to_int (get_field "cache_creation_input_tokens" usage)) [
      | none ↦ none
      | some write ↦ elim (to_int (get_field "prompt_tokens" usage)) [
        | none ↦ none
        | some prompt ↦ elim (to_int (get_field "completion_tokens" usage)) [
          | none ↦ none
          | some completion ↦
              token_usage prompt completion cached write (to_decimal (get_field "cost" usage))
        ]
      ]
    ]
  ]

  abbrev usage_or_payload : Fields → Json
  usage_or_payload payload = elim (get_field "usage" payload) [ none ↦ obj payload | some u ↦ u ]

  abbrev normalize_mapping : Option String → Json → Option (TokenUsage D)
  normalize_mapping provider (obj usage) =
      if str_eq (py.lower (elim provider [ none ↦ "" | some p ↦ p ])) "anthropic"
      then normalize_anthropic usage
      else normalize_openai usage
  normalize_mapping provider _ = some no_usage

  -- `UsageNormalizer.normalize`
  unfoldable pub normalize : Json → Option String → Option (TokenUsage D)
  unfolding normalize_anthropic normalize_openai
  normalize (obj payload) provider = normalize_mapping provider (usage_or_payload payload)
  normalize _ provider = some no_usage
