-- ===== src/Plugin/Hooks.antt =====
-- lifecycle.py, session.py and `process_target_id` of targets.py: what the host's hooks do to the session,
-- the registry of targets and the learner of durations.
use Prim.Native.String.{◌++◌}
use cachepilot.Prelude.{
  ℕ, String, ◌≡◌, ◌≢◌, refl, Bool, true, false, ◌||◌, not, Option, none, some, List, [], ◌∷◌, arith,
  Bool-cases, Option-cases, inl, inr, str_eq, eq_iff, if◌then◌else◌,
}
use cachepilot.Numbers.{Arith, lit, div}
use cachepilot.Json.{Json, text, Fields}
use cachepilot.Json.Access.{get_field, truthy}
use cachepilot.Targets.{
  BackgroundTarget, BackgroundTargetRegistry, subagent, refcount, register, release,
}
use cachepilot.Targets.Counts.{starts, stops, run, run-refcount}
use cachepilot.Plugin.Signature.{normalize_signature}
use cachepilot.Plugin.Durations.{CommandDurationHistory, record_run}

-- The plugin's state, with the two settings that the hooks read.
pub record PluginState (F : Type 0) : Type 0 where
  pub session_id : Option String
  pub targets : Option (BackgroundTargetRegistry F)
  pub history : Option (CommandDurationHistory F)
  pub long_tasks_enabled : Bool
  pub learn_command_durations : Bool

-- The libraries: the shell's lexer, which fails on an open quotation, and methods of `str` and `float`.
pub record Shell (F : Type 0) : Type 0 where
  pub lex : String → Option (List String)
  pub split : String → List String
  pub lower : String → String
  pub is_blank : String → Bool
  pub to_float : Json → Option F
  pub is_zero : String → Bool

-- `child_session_id or child_subagent_id`
abbrev target_of_child : String → String → String
target_of_child child_session child_subagent =
    if str_eq child_session "" then child_subagent else child_session

module _ {F : Type 0} where
  -- `publish_session_id`: an empty id is ignored.
  unfoldable pub publish : String → PluginState F → PluginState F
  publish session s = if str_eq session "" then s else record s { session_id = some session }

  abbrev pub on_targets :
      (BackgroundTargetRegistry F → ℕ × BackgroundTargetRegistry F) → PluginState F → PluginState F
  on_targets method s = elim s.targets [
    | none ↦ s
    | some g ↦ if s.long_tasks_enabled then record s { targets = some (method g).1 } else s
  ]

  abbrev child_target : String → F → String → BackgroundTarget F
  child_target parent now id = record {
    id = id;
    kind = subagent;
    session_id = parent;
    started_at = now;
    expected_completion = true;
  }

  -- `_on_subagent_start`; the registry ignores an empty id.
  unfoldable pub subagent_start : F → String → String → String → PluginState F → PluginState F
  unfolding publish
  subagent_start now parent child_session child_subagent s =
      on_targets (register (child_target parent now (target_of_child child_session child_subagent)))
        (publish parent s)

  -- `_on_subagent_stop`
  unfoldable pub subagent_stop : String → PluginState F → PluginState F
  subagent_stop child_session s = on_targets (release child_session) s

  -- `_tokenize`
  unfoldable pub tokenize : Shell F → String → List String
  tokenize w command = elim (w.lex command) [ none ↦ w.split command | some tokens ↦ tokens ]

  unfoldable pub process_target_id : Shell F → String → String
  unfolding tokenize normalize_signature
  process_target_id w command = "process:" ++ normalize_signature w.lower (tokenize w command)

  -- `args.get("command")`, where it is a text that is not blank.
  abbrev pub command_of : Shell F → Option Fields → Option String
  command_of w none = none
  command_of w (some args) = elim (get_field "command" args) [
    | none ↦ none
    | some (text command) ↦ if w.is_blank command then none else some command
    | some _ ↦ none
  ]

  abbrev in_background : Shell F → Option Fields → Bool
  in_background w none = false
  in_background w (some args) = elim (get_field "background" args) [
    | none ↦ false
    | some b ↦ truthy w.is_zero b
  ]

  unfoldable pub count_of_target : String → PluginState F → ℕ
  count_of_target id s = elim s.targets [ none ↦ 0 | some g ↦ refcount id g ]

module _ {F : Type 0} ⦃f : Arith F⦄ (floor : F → ℕ) where
  -- The call of `history.record`; a duration that `float` refuses ends the hook.
  unfoldable pub learn_duration :
      Shell F → Bool → F → String → Option F → Bool → Bool → PluginState F → PluginState F
  unfolding tokenize record_run
  learn_duration w reachable now command none background success s = s
  learn_duration w reachable now command (some ms) background success s = elim s.history [
    | none ↦ s
    | some h ↦ record s {
      history = some (
          record_run floor w.lower reachable now (tokenize w command) (div ms (lit 1000 1))
            background success h);
    }
  ]

  -- `_on_post_tool_call`; `args` is none where the arguments are no mapping, `duration_ms` where there
  -- is none, and `success` is what `_result_is_success` says of the result.
  unfoldable pub post_tool_call :
      Shell F
      → Bool
      → F
      → String
      → Option Fields
      → Bool
      → String
      → Option Json
      → PluginState F
      → PluginState F
  unfolding publish process_target_id learn_duration
  post_tool_call w reachable now tool_name args success session duration_ms s =
      let published = publish session s in
      if not (str_eq tool_name "terminal") then published else elim (command_of w args) [
        | none ↦ published
        | some command ↦
            let released = on_targets (release (process_target_id w command)) published in
            if not s.long_tasks_enabled || not s.learn_command_durations
            then released
            else elim duration_ms [
              | none ↦ released
              | some ms ↦
                  learn_duration w reachable now command (w.to_float ms) (in_background w args)
                    success released
            ]
      ]

module _ {F : Type 0} where
  release-register :
      (t : BackgroundTarget F) (g : BackgroundTargetRegistry F) (id : String)
      → refcount id (release t.id (register t g).1).1 ≡ refcount id g
  unfolding run
  release-register t g id = ground (arith, run-refcount id (starts t ∷ stops t.id ∷ []) g)

  stop-start_count :
      (t : BackgroundTarget F) (id : String) (s : PluginState F)
      → count_of_target id (on_targets (release t.id) (on_targets (register t) s))
        ≡ count_of_target id s
  unfolding count_of_target
  stop-start_count t id s = elim (Option-cases s.targets) [
    | inl absent ↦ rw absent refl
    | inr (g, present) ↦ rw present (elim (Bool-cases s.long_tasks_enabled) [
      | inl on ↦ rw on (release-register t g id)
      | inr off ↦ rw off refl
    ])
  ]

  -- A subagent that starts and stops under its session leaves the count of every target as it was.
  subagent_stop-subagent_start :
      (now : F) (parent child child_subagent id : String) (s : PluginState F)
      → child ≢ ""
      → count_of_target id (subagent_stop child (subagent_start now parent child child_subagent s))
        ≡ count_of_target id s
  unfolding count_of_target subagent_start subagent_stop publish
  subagent_stop-subagent_start now parent child child_subagent id s named =
      elim (Bool-cases (str_eq child "")) [
        | inl empty ↦ absurd (named ((eq_iff child "").0 empty))
        | inr known ↦ rw known (elim (Bool-cases (str_eq parent "")) [
          | inl nobody ↦ rw nobody (stop-start_count (child_target parent now child) id s)
          | inr somebody ↦ rw somebody (
              stop-start_count (child_target parent now child) id
                (record s { session_id = some parent }))
        ])
      ]
