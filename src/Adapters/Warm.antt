-- ===== src/Adapters/Warm.antt =====
-- What a warm request is, against the request it replays.
use cachepilot.Prelude.{
  String, ◌≡◌, refl, ◌∙◌, ◌≢◌, true, false, ◌&&◌, ◌||◌, not, Option, none, some, arith, eq_iff,
  eq_refl, str_eq, if◌then◌else◌, Option-cases, inl, inr,
}
use mathlib.Core.Path.{subst}
use cachepilot.Prelude.Int.{pos}
use cachepilot.Json.{Json, bool, int, Fields}
use cachepilot.Json.Access.{get_field, put_field, has_field, get-put_field}
use cachepilot.Adapters.{stream_off, build_warm_request}

-- The names of the fields that a warm may change.
abbrev pub IsSafe : String → Type 0
IsSafe k =
    (k ≢ "stream") × (k ≢ "max_tokens") × (k ≢ "max_completion_tokens") × (k ≢ "max_output_tokens")

get-put_other :
    (j k : String) (v : Json) (d : Fields) → j ≢ k → get_field j (put_field k v d) ≡ get_field j d
get-put_other j k v d h = ground (arith, get-put_field j k v d, eq_iff k j)

stream_off-other :
    (k : String) (d : Fields) → k ≢ "stream" → get_field k (stream_off d) ≡ get_field k d
unfolding stream_off
stream_off-other k d h = ground (arith, get-put_other k "stream" (bool false) d h)

stream_off_self :
    (d : Fields)
    → get_field "stream" (stream_off d) ≡ (if has_field "stream" d then some (bool false) else none)
unfolding stream_off
stream_off_self d = elim (Option-cases (get_field "stream" d)) [
  | inl missing ↦ rw missing missing
  | inr (v, here) ↦ rw here (get-put_field "stream" "stream" (bool false) d)
]

abbrev one_token : Json
one_token = int (pos 1)

-- How `w` comes from `d`: all else is kept, a present `stream` is off, the first output bound that
-- `d` has is one token, and the other bounds are as they were, absent ones absent.
pub record IsWarmOf (d w : Fields) : Type 0 where
  pub kept : (k : String) → IsSafe k → get_field k w ≡ get_field k d
  pub stream : get_field "stream" w ≡ (if has_field "stream" d then some (bool false) else none)
  pub max_tokens :
      get_field "max_tokens" w ≡ (if has_field "max_tokens" d then some one_token else none)
  pub max_completion_tokens : get_field "max_completion_tokens" w ≡ (
      if has_field "max_completion_tokens" d && not (has_field "max_tokens" d)
      then some one_token
      else get_field "max_completion_tokens" d)
  pub max_output_tokens : get_field "max_output_tokens" w ≡ (
      if has_field "max_output_tokens" d
        && not (has_field "max_tokens" d || has_field "max_completion_tokens" d)
      then some one_token
      else get_field "max_output_tokens" d)
  pub bounded :
      has_field "max_tokens" d
        || (has_field "max_completion_tokens" d || has_field "max_output_tokens" d)
      ≡ true

differs : (a b : String) → str_eq a b ≡ false → a ≢ b
differs a b h same = ground (arith, eq_iff a b)

pub name-IsSafe :
    (k : String)
    → str_eq k "stream" ≡ false
    → str_eq k "max_tokens" ≡ false
    → str_eq k "max_completion_tokens" ≡ false
    → str_eq k "max_output_tokens" ≡ false
    → IsSafe k
name-IsSafe k a b c d = (differs k _ a, differs k _ b, differs k _ c, differs k _ d)

abbrev bounded_at : String → Fields → Fields
bounded_at b d = put_field b one_token (stream_off d)

bounded_at-stream :
    (b : String) (d : Fields)
    → "stream" ≢ b
    → get_field "stream" (bounded_at b d)
      ≡ (if has_field "stream" d then some (bool false) else none)
bounded_at-stream b d h = get-put_other "stream" b one_token (stream_off d) h ∙ stream_off_self d

bounded_at-kept :
    (b k : String) (d : Fields)
    → k ≢ b
    → k ≢ "stream"
    → get_field k (bounded_at b d) ≡ get_field k d
bounded_at-kept b k d h s = get-put_other k b one_token (stream_off d) h ∙ stream_off-other k d s

bounded_at_self : (b : String) (d : Fields) → get_field b (bounded_at b d) ≡ some one_token
bounded_at_self b d = ground (arith, get-put_field b b one_token (stream_off d), eq_refl b)

at_max_tokens :
    (d : Fields) → has_field "max_tokens" d ≡ true → IsWarmOf d (bounded_at "max_tokens" d)
at_max_tokens d here = record {
  kept = λ k safe. bounded_at-kept "max_tokens" k d safe.1 safe.0;
  stream = bounded_at-stream "max_tokens" d (differs _ _ refl);
  max_tokens = bounded_at_self "max_tokens" d ∙ ground arith;
  max_completion_tokens =
      bounded_at-kept "max_tokens" "max_completion_tokens" d (differs _ _ refl) (differs _ _ refl)
      ∙ ground arith;
  max_output_tokens =
      bounded_at-kept "max_tokens" "max_output_tokens" d (differs _ _ refl) (differs _ _ refl)
      ∙ ground arith;
  bounded = ground arith;
}

at_completion :
    (d : Fields)
    → has_field "max_tokens" d ≡ false
    → has_field "max_completion_tokens" d ≡ true
    → IsWarmOf d (bounded_at "max_completion_tokens" d)
at_completion d missing here = record {
  kept = λ k safe. bounded_at-kept "max_completion_tokens" k d safe.2 safe.0;
  stream = bounded_at-stream "max_completion_tokens" d (differs _ _ refl);
  max_tokens =
      bounded_at-kept "max_completion_tokens" "max_tokens" d (differs _ _ refl) (differs _ _ refl)
      ∙ ground arith;
  max_completion_tokens = bounded_at_self "max_completion_tokens" d ∙ ground arith;
  max_output_tokens =
      bounded_at-kept "max_completion_tokens" "max_output_tokens" d (differs _ _ refl)
        (differs _ _ refl)
      ∙ ground arith;
  bounded = ground arith;
}

at_output :
    (d : Fields)
    → has_field "max_tokens" d ≡ false
    → has_field "max_completion_tokens" d ≡ false
    → has_field "max_output_tokens" d ≡ true
    → IsWarmOf d (bounded_at "max_output_tokens" d)
at_output d missing absent here = record {
  kept = λ k safe. bounded_at-kept "max_output_tokens" k d safe.3 safe.0;
  stream = bounded_at-stream "max_output_tokens" d (differs _ _ refl);
  max_tokens =
      bounded_at-kept "max_output_tokens" "max_tokens" d (differs _ _ refl) (differs _ _ refl)
      ∙ ground arith;
  max_completion_tokens =
      bounded_at-kept "max_output_tokens" "max_completion_tokens" d (differs _ _ refl)
        (differs _ _ refl)
      ∙ ground arith;
  max_output_tokens = bounded_at_self "max_output_tokens" d ∙ ground arith;
  bounded = ground arith;
}

-- What answers a request: nothing only where no output bound is there, and a warm only where one is.
abbrev pub IsReplay : Fields → Option Fields → Type 0
IsReplay d none =
    (has_field "max_tokens" d ≡ false)
    × (has_field "max_completion_tokens" d ≡ false)
    × (has_field "max_output_tokens" d ≡ false)
IsReplay d (some w) = IsWarmOf d w

-- Exactly the requests with an output bound are replayed, and a replay differs from its request in two
-- fields at most: a present `stream` is off, and the first bound that the request has, of `max_tokens`,
-- `max_completion_tokens` and `max_output_tokens` in this order, is a single token.
pub build_warm_request-IsReplay : (d : Fields) → IsReplay d (build_warm_request d)
unfolding build_warm_request
build_warm_request-IsReplay d =
    rw
      (
        stream_off-other "max_tokens" d (differs _ _ refl),
        stream_off-other "max_completion_tokens" d (differs _ _ refl),
        stream_off-other "max_output_tokens" d (differs _ _ refl),
      )
      (ground (arith, at_max_tokens d, at_completion d, at_output d))

pub warm-IsWarmOf : (d w : Fields) → build_warm_request d ≡ some w → IsWarmOf d w
warm-IsWarmOf d w h = subst (IsReplay d) h (build_warm_request-IsReplay d)
