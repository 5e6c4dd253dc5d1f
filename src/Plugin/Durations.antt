-- ===== src/Plugin/Durations.antt =====
-- duration_history.py: the learner of how long commands take. The table is a dict of rows; where the
-- database fails, the learner turns itself off.
use cachepilot.Prelude.{
  ℕ, zero, suc, ◌+◌, ◌-◌, ◌≤◌, ◌≡◌, refl, String, Bool, true, ◌||◌, Option, none, some, List, [],
  ◌∷◌, length, ltb, leb, get_or, select, str_eq, arith, if◌then◌else◌,
}
use cachepilot.Numbers.{Arith, lit, add, sub, mul, div, le}
use cachepilot.Dict.{Dict, lookup, insert}
use cachepilot.Plugin.Signature.{normalize_signature}

-- A row of `command_history`, without its signature.
pub record CommandRow (F : Type 0) : Type 0 where
  pub sample_count : ℕ
  pub runtime_p50 : F
  pub runtime_p90 : F
  pub runtime_p95 : F
  pub background_success_rate : Option F
  pub updated_at : F

pub record CommandDurationHistory (F : Type 0) : Type 0 where
  pub windows : Dict (List F)
  pub success_windows : Dict (List Bool)
  pub disabled : Bool
  pub command_history : Dict (CommandRow F)

module _ {ℓ} {A : Type ℓ} where
  abbrev appended : List A → A → List A
  appended [] y = y ∷ []
  appended (x ∷ xs) y = x ∷ appended xs y

  abbrev without_first : List A → List A
  without_first [] = []
  without_first (x ∷ xs) = xs

  -- `window.append(y)` on a `deque(maxlen=512)`: a full window loses its oldest entry.
  unfoldable pub push : List A → A → List A
  push window y =
      if ltb (length window) 512 then appended window y else without_first (appended window y)

  -- `samples[i]`
  unfoldable pub at : ℕ → List A → Option A
  at i [] = none
  at zero (x ∷ xs) = some x
  at (suc i) (x ∷ xs) = at i xs

  appended-length : (xs : List A) (y : A) → length (appended xs y) ≡ length xs + 1
  appended-length [] y = refl
  appended-length (x ∷ xs) y = omega (arith, appended-length xs y)

  without_first-length : (xs : List A) → length (without_first xs) ≡ length xs - 1
  without_first-length [] = refl
  without_first-length (x ∷ xs) = omega arith

  -- A window stays within its bound.
  pub push-length : (window : List A) (y : A) → length window ≤ 512 → length (push window y) ≤ 512
  unfolding push
  push-length window y h =
      ground (arith, appended-length window y, without_first-length (appended window y))

module _ {F : Type 0} ⦃f : Arith F⦄ where
  unfoldable pub insert_sample : F → List F → List F
  insert_sample x [] = x ∷ []
  insert_sample x (y ∷ ys) =
      let rest = insert_sample x ys in if le x y then x ∷ y ∷ ys else y ∷ rest

  -- `sorted(window)`
  unfoldable pub sorted_samples : List F → List F
  unfolding insert_sample
  sorted_samples [] = []
  sorted_samples (x ∷ xs) = insert_sample x (sorted_samples xs)

  -- `_updated_success_rate`, of the window that `push` gives.
  unfoldable pub success_rate : List Bool → F
  success_rate window = div (lit (length (select (λ b. b) window)) 1) (lit (length window) 1)

-- `floor` is `math.floor` of a number that is not negative.
module _ {F : Type 0} ⦃f : Arith F⦄ (floor : F → ℕ) where
  abbrev smaller : ℕ → ℕ → ℕ
  smaller a b = if leb a b then a else b

  abbrev between : F → Option F → Option F → Option F
  between fraction (some a) (some b) = some (add a (mul fraction (sub b a)))
  between fraction _ _ = none

  -- `percentile`; no sample raises.
  unfoldable pub percentile : List F → F → Option F
  unfolding at
  percentile [] p = none
  percentile (x ∷ []) p = some x
  percentile (x ∷ y ∷ ys) p =
      let last = suc (length ys) in
      let rank = mul (lit last 1) p in
      let lower = floor rank in
      between (sub rank (lit lower 1)) (at lower (x ∷ y ∷ ys))
        (at (smaller (lower + 1) last) (x ∷ y ∷ ys))

  abbrev pushed : String → F → CommandDurationHistory F → List F
  pushed signature duration h = push (get_or (lookup signature h.windows) []) duration

  abbrev successes : String → Bool → CommandDurationHistory F → List Bool
  successes signature success h = push (get_or (lookup signature h.success_windows) []) success

  -- The windows after a run; only a background run counts as a success or a failure.
  unfoldable pub observe_run :
      String → F → Bool → Bool → CommandDurationHistory F → CommandDurationHistory F
  unfolding push
  observe_run signature duration background success h =
      let h' = record h { windows = insert signature (pushed signature duration h) h.windows } in
      if background
      then record h' {
        success_windows = insert signature (successes signature success h) h.success_windows;
      }
      else h'

  abbrev kept_rate : Option (CommandRow F) → Option F
  kept_rate none = none
  kept_rate (some row) = row.background_success_rate

  abbrev count_of : Option (CommandRow F) → ℕ
  count_of none = 0
  count_of (some row) = row.sample_count

  -- The row that is written: the percentiles of the window, and one sample more.
  unfoldable pub next_row : F → String → Bool → CommandDurationHistory F → Option (CommandRow F)
  unfolding percentile sorted_samples success_rate
  next_row now signature background h =
      let samples = sorted_samples (get_or (lookup signature h.windows) []) in
      let before = lookup signature h.command_history in
      elim (percentile samples (lit 50 100)) [
        | none ↦ none
        | some p50 ↦ elim (percentile samples (lit 90 100)) [
          | none ↦ none
          | some p90 ↦ elim (percentile samples (lit 95 100)) [
            | none ↦ none
            | some p95 ↦ some (record {
              sample_count = count_of before + 1;
              runtime_p50 = p50;
              runtime_p90 = p90;
              runtime_p95 = p95;
              background_success_rate =
                  if background
                  then some (success_rate (get_or (lookup signature h.success_windows) []))
                  else kept_rate before;
              updated_at = now;
            })
          ]
        ]
      ]

  abbrev written :
      Bool → String → Option (CommandRow F) → CommandDurationHistory F → CommandDurationHistory F
  written reachable signature none h = record h { disabled = true }
  written reachable signature (some row) h =
      if reachable
      then record h { command_history = insert signature row h.command_history }
      else record h { disabled = true }

  -- `record`, of the command's tokens; `reachable` says whether the database answers.
  unfoldable pub record_run :
      (lower : String → String)
      → Bool
      → F
      → List String
      → F
      → Bool
      → Bool
      → CommandDurationHistory F
      → CommandDurationHistory F
  unfolding observe_run next_row normalize_signature
  record_run lower reachable now tokens duration background success h =
      let signature = normalize_signature lower tokens in
      let h' = observe_run signature duration background success h in
      if h.disabled || str_eq signature ""
      then h
      else written reachable signature (next_row now signature background h') h'

module _ {F : Type 0} where
  -- `stats`: the row of a command.
  unfoldable pub stats :
      (lower : String → String) → List String → CommandDurationHistory F → Option (CommandRow F)
  unfolding normalize_signature
  stats lower tokens h =
      let signature = normalize_signature lower tokens in
      if h.disabled || str_eq signature "" then none else lookup signature h.command_history
