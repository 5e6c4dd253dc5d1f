-- ===== src/Plugin/Examples.antt =====
-- Signatures of concrete commands.
use Prim.Native.String.{count, ◌∷◌ as letter}
use cachepilot.Prelude.{
  ℕ, zero, suc, ◌+◌, ◌-◌, ◌<◌, String, ◌≡◌, ◌≢◌, ◌↔◌, refl, ap, ◌∙◌, true, false, ◌&&◌, Option,
  none, some, List, [], ◌∷◌, select, str_eq, arith,
}
use package.text.Mathlib.TextLemmas.{length-cons}
use cachepilot.Prelude.Int.{ℤ, pos}
use cachepilot.Numbers.Fixed.{fixed_point}
use cachepilot.Json.{Fields, text, obj, end, field}
use cachepilot.Json.Access.{get_field}
use cachepilot.Targets.{no_targets}
use cachepilot.Relay.Observation.{parse_targets_count}
use cachepilot.Plugin.Classifier.{
  LongTasksSettings, long_running, IsLong, says, is_fast, is_slow, matches_any_family,
  tokenize_families, classify_command, classify, classify-IsLong_iff,
}
use cachepilot.Plugin.Hooks.{Shell, PluginState, tokenize, command_of}
use cachepilot.Plugin.Middleware.{learned_row, promoted, tool_request, Naming, llm_request}
use cachepilot.Plugin.Promotion.{promotion-IsAnnounced}
use cachepilot.Prelude.Cut.{before}
use cachepilot.Prelude.TextSet.{sorted_set}
use cachepilot.Plugin.Signature.{normalize_signature}

abbrev as_is : String → String
as_is s = s

abbrev deploy : List String
deploy = "python" ∷ "deploy.py" ∷ "--api-key=sk-1" ∷ "-j8" ∷ "run" ∷ "--" ∷ "secret" ∷ []

deploy_signature : normalize_signature as_is deploy ≡ "python run --api-key -j"
unfolding normalize_signature sorted_set before
deploy_signature = refl

-- What is attached to a short flag is stored up to the sign of equality.
attached_value : normalize_signature as_is ("mysql" ∷ "-pse=cret" ∷ []) ≡ "mysql -pse"
unfolding normalize_signature sorted_set before
attached_value = refl

-- A way to print counts that can be read back: in strokes.
strokes : ℕ → String
strokes zero = "."
strokes (suc n) = letter "|" (strokes n)

abbrev names : Naming
names = record { show = strokes; uuid5 = λ s. s }

abbrev read_strokes : String → Option ℤ
read_strokes s = some (pos (count s - 1))

count-strokes : (n : ℕ) → count (strokes n) ≡ n + 1
unfolding strokes
count-strokes zero = refl
count-strokes (suc n) = omega (arith, count-strokes n, length-cons "|" (strokes n))

strokes-read : (n : ℕ) → (read_strokes (strokes n) ≡ some (pos n)) × (strokes n ≢ "")
strokes-read n = (
  ap (λ k. some (pos (k - 1))) (count-strokes n) ∙ ap (λ k. some (pos k)) (omega arith),
  λ e. omega (arith, count-strokes n, ap count e),
)

abbrev shell : Shell ℤ
shell = record {
  lex = λ s. some (s ∷ []);
  split = λ s. s ∷ [];
  lower = as_is;
  is_blank = λ s. str_eq s "";
  to_float = λ v. none;
  is_zero = λ s. false;
}

abbrev settings : LongTasksSettings ℤ
settings = record {
  enabled = true;
  auto_background = true;
  timeout_threshold_s = pos 20_000;
  learn_command_durations = false;
  notify_on_complete = true;
  known_long_commands = "pytest" ∷ [];
  known_foreground_commands = "ls" ∷ [];
  enforce_foreground_hard_policy = false;
}

abbrev idle : PluginState ℤ
idle = record {
  session_id = some "session";
  targets = some no_targets;
  history = none;
  long_tasks_enabled = true;
  learn_command_durations = false;
}

abbrev call : Fields
call = field "command" (text "pytest") end

abbrev model_request : Fields
model_request = field "headers" (obj end) end

classify-IsLong_iff_example :
    let tool : String = "terminal" in
    ((classify shell settings tool (some call) none).decision ≡ long_running) ↔ (
      (tool ≡ "terminal")
      × (command : String) × (command_of shell (some call) ≡ some command)
      × IsLong {F = ℤ}
          (says true call)
          (says false call && true)
          none
          none
          (is_fast shell settings command)
          (is_slow shell settings command))
unfolding get_field
classify-IsLong_iff_example = classify-IsLong_iff shell settings "terminal" call none

promotion-IsAnnounced_example :
    let s' = (tool_request shell settings (pos 0) "process" "terminal" (some call) idle).1 in
    (request' : Fields) × (headers' : Fields) × (value : String) × (llm_request names true "process"
        "r1" model_request s'
      ≡ some request')
    × (get_field "headers" request' ≡ some (obj headers'))
    × (get_field "X-CachePilot-Targets" headers' ≡ some (text value))
    × (0 < parse_targets_count read_strokes (some value))
unfolding tool_request classify get_field learned_row classify_command matches_any_family tokenize
    tokenize_families select
promotion-IsAnnounced_example =
    promotion-IsAnnounced shell settings names read_strokes (pos 0) "process" "terminal" "r1"
      (some call) (promoted settings call) model_request end idle no_targets strokes-read refl refl
      refl refl
