-- ===== src/Plugin/Classifier.antt =====
-- classifier.py: whether a terminal call runs in the foreground or in the background.
use cachepilot.Prelude.{
  String, ◌≡◌, ◌≢◌, ◌↔◌, ◌⊎◌, inl, inr, refl, Bool, true, false, ◌&&◌, ◌||◌, not, Option, none,
  some, List, [], ◌∷◌, arith, leb, str_eq, eq_iff, select, map, Bool-cases, Option-cases,
  if◌then◌else◌,
}
use mathlib.Core.Path.{subst}
use cachepilot.Numbers.{Arith, le}
use cachepilot.Json.{null, bool, Fields}
use cachepilot.Json.Access.{get_field}
use cachepilot.Plugin.Durations.{CommandRow}
use cachepilot.Plugin.Hooks.{Shell, tokenize, command_of}

-- `LongTasksSettings`
pub record LongTasksSettings (F : Type 0) : Type 0 where
  pub enabled : Bool
  pub auto_background : Bool
  pub timeout_threshold_s : F
  pub learn_command_durations : Bool
  pub notify_on_complete : Bool
  pub known_long_commands : List String
  pub known_foreground_commands : List String
  pub enforce_foreground_hard_policy : Bool

pub data Decision : Type 0 where
  foreground long_running : Decision

-- The reasons that the classifier gives, in the order of its tests.
pub data Reason (F : Type 0) : Type 0 where
  not_terminal malformed_args no_command explicit_true explicit_false : Reason F
  requested_timeout learned_p90 : F → Reason F
  known_fast known_long by_default : Reason F

pub record Classification (F : Type 0) : Type 0 where
  pub decision : Decision
  pub reason : Reason F

-- `_tokenize_families`
unfoldable pub tokenize_families :
    (split : String → List String) → (is_blank : String → Bool) → List String → List (List String)
unfolding select
tokenize_families split is_blank entries = map split (select (λ e. not (is_blank e)) entries)

-- Whether the tokens begin with the family, whatever the case of the letters.
abbrev pub begins_with : (lower : String → String) → List String → List String → Bool
begins_with lower [] tokens = true
begins_with lower (e ∷ family) [] = false
begins_with lower (e ∷ family) (t ∷ tokens) =
    str_eq (lower t) (lower e) && begins_with lower family tokens

unfoldable pub matches_any_family :
    (lower : String → String) → List String → List (List String) → Bool
matches_any_family lower tokens [] = false
matches_any_family lower tokens (family ∷ families) =
    begins_with lower family tokens || matches_any_family lower tokens families

-- `args.get("background") is True` and `is False`
abbrev pub says : Bool → Fields → Bool
says true args = elim (get_field "background" args) [ some (bool true) ↦ true | _ ↦ false ]
says false args = elim (get_field "background" args) [ some (bool false) ↦ true | _ ↦ false ]

module _ {F : Type 0} where
  -- `_as_float(args.get("timeout"))`
  abbrev pub timeout_of : Shell F → Fields → Option F
  timeout_of w args = elim (get_field "timeout" args) [
    | none ↦ none
    | some null ↦ none
    | some v ↦ w.to_float v
  ]

  -- The learned duration, with at least two samples.
  abbrev pub learned_of : Option (CommandRow F) → Option F
  learned_of none = none
  learned_of (some row) = if leb 2 row.sample_count then some row.runtime_p90 else none

  abbrev pub family_of :
      (LongTasksSettings F → List String) → Shell F → LongTasksSettings F → String → Bool
  family_of known w settings command =
      matches_any_family w.lower (tokenize w command)
        (tokenize_families w.split w.is_blank (known settings))

  abbrev pub is_fast : Shell F → LongTasksSettings F → String → Bool
  is_fast = family_of (λ c. c.known_foreground_commands)

  abbrev pub is_slow : Shell F → LongTasksSettings F → String → Bool
  is_slow = family_of (λ c. c.known_long_commands)

module _ {F : Type 0} ⦃f : Arith F⦄ where
  -- A duration at or above the threshold.
  abbrev pub crossing : LongTasksSettings F → Option F → Option F
  crossing settings none = none
  crossing settings (some t) = if le settings.timeout_threshold_s t then some t else none

  abbrev verdict : Decision → Reason F → Classification F
  verdict decision reason = record { decision = decision; reason = reason }

  -- The signals in order: the user's word for the background and against it, the requested timeout and
  -- the learned duration where they are at the threshold, the fast families and the long ones.
  abbrev pub by_signals : Bool → Bool → Option F → Option F → Bool → Bool → Classification F
  by_signals true kept timeout learned fast long = verdict long_running explicit_true
  by_signals false true timeout learned fast long = verdict foreground explicit_false
  by_signals false false (some t) learned fast long = verdict long_running (requested_timeout t)
  by_signals false false none (some t) fast long = verdict long_running (learned_p90 t)
  by_signals false false none none true long = verdict foreground known_fast
  by_signals false false none none false true = verdict long_running known_long
  by_signals false false none none false false = verdict foreground by_default

  unfoldable pub classify_command :
      Shell F → LongTasksSettings F → Fields → Option (CommandRow F) → String → Classification F
  classify_command w settings args history command =
      by_signals (says true args) (says false args && not settings.enforce_foreground_hard_policy)
        (crossing settings (timeout_of w args)) (crossing settings (learned_of history))
        (is_fast w settings command) (is_slow w settings command)

  -- `LongTaskClassifier.classify`; `args` is none where they are no mapping.
  unfoldable pub classify :
      Shell F
      → LongTasksSettings F
      → String
      → Option Fields
      → Option (CommandRow F)
      → Classification F
  unfolding classify_command
  classify w settings tool_name args history =
      if not (str_eq tool_name "terminal") then verdict foreground not_terminal else elim args [
        | none ↦ verdict foreground malformed_args
        | some d ↦ elim (command_of w (some d)) [
          | none ↦ verdict foreground no_command
          | some command ↦ classify_command w settings d history command
        ]
      ]

  -- What sends a command to the background, of the same signals: the user's word, or, where the user did
  -- not keep it in the foreground, a long timeout, a long history, or a long family that is not a fast one.
  abbrev pub IsLong : Bool → Bool → Option F → Option F → Bool → Bool → Type 0
  IsLong wanted kept timeout learned fast long =
      (wanted ≡ true)
      ⊎ ((kept ≡ false)
          × ((timeout ≢ none) ⊎ ((learned ≢ none) ⊎ ((fast ≡ false) × (long ≡ true)))))

  by_signals-IsLong_iff :
      (wanted kept : Bool) (timeout learned : Option F) (fast long : Bool)
      → ((by_signals wanted kept timeout learned fast long).decision ≡ long_running)
        ↔ IsLong wanted kept timeout learned fast long
  by_signals-IsLong_iff true kept timeout learned fast long = (λ h. inl refl, λ h. refl)
  by_signals-IsLong_iff false true timeout learned fast long =
      (λ h. cc, λ h. elim h [ inl e ↦ cc | inr e ↦ cc (e.0) ])
  by_signals-IsLong_iff false false (some t) learned fast long =
      (λ h. inr (refl, inl (λ e. cc)), λ h. refl)
  by_signals-IsLong_iff false false none (some t) fast long =
      (λ h. inr (refl, inr (inl (λ e. cc))), λ h. refl)
  by_signals-IsLong_iff false false none none true long = (λ h. cc, λ h. ground arith)
  by_signals-IsLong_iff false false none none false true =
      (λ h. inr (refl, inr (inr (refl, refl))), λ h. refl)
  by_signals-IsLong_iff false false none none false false = (λ h. cc, λ h. ground arith)

  -- A call runs in the background exactly when it is a terminal call with a command, and either the user
  -- says so, or the user did not keep it in the foreground (or may not) and its timeout is at the threshold,
  -- or its learned duration is, or it is of a long family and of no fast one.
  pub classify-IsLong_iff :
      (w : Shell F) (settings : LongTasksSettings F) (tool_name : String) (args : Fields)
      (history : Option (CommandRow F))
      → ((classify w settings tool_name (some args) history).decision ≡ long_running) ↔ (
          (tool_name ≡ "terminal")
          × (command : String) × (command_of w (some args) ≡ some command)
          × IsLong
              (says true args)
              (says false args && not settings.enforce_foreground_hard_policy)
              (crossing settings (timeout_of w args))
              (crossing settings (learned_of history))
              (is_fast w settings command)
              (is_slow w settings command))
  unfolding classify classify_command
  classify-IsLong_iff w settings tool_name args history =
      let signals = λ (c : String).
        by_signals-IsLong_iff (says true args)
          (says false args && not settings.enforce_foreground_hard_policy)
          (crossing settings (timeout_of w args)) (crossing settings (learned_of history))
          (is_fast w settings c) (is_slow w settings c) in
      elim (Bool-cases (str_eq tool_name "terminal")) [
        | inr other ↦ rw other (λ h. cc, λ h. ground (arith, eq_iff tool_name "terminal"))
        | inl terminal ↦ rw terminal (elim (Option-cases (command_of w (some args))) [
          | inl missing ↦ rw missing (λ h. cc, λ h. cc)
          | inr (command, found) ↦ rw found (
            λ h. ((eq_iff tool_name "terminal").0 terminal, command, refl, (signals command).0 h),
            λ h.
                let same : h.1 ≡ command = cc (h.2) in
                subst (λ c. (classify_command w settings args history c).decision ≡ long_running)
                  same ((signals h.1).1 h.3),
          )
        ])
      ]
