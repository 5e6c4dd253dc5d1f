-- ===== src/Plugin/Middleware.antt =====
-- tool_middleware.py and llm_middleware.py: the promotion of a long terminal call, and the headers by which
-- the relay learns of the targets. None stands for the host's "no change".
use Prim.Native.String.{◌++◌}
use cachepilot.Prelude.{
  ℕ, String, Bool, true, false, ◌||◌, not, Option, none, some, str_eq, get_or, if◌then◌else◌,
}
use cachepilot.Numbers.{Arith}
use cachepilot.Json.{bool, text, obj, Fields, end, field}
use cachepilot.Json.Access.{get_field, put_field}
use cachepilot.Targets.{BackgroundTarget, process, register, active_count}
use cachepilot.Plugin.Durations.{CommandRow, stats}
use cachepilot.Plugin.Classifier.{LongTasksSettings, Decision, foreground, long_running, classify}
use cachepilot.Plugin.Hooks.{Shell, PluginState, tokenize, process_target_id, command_of}

-- `SessionIdentity.current`: without a known session, the id of the process.
abbrev pub current : {F : Type 0} → (process_session : String) → PluginState F → String
current process_session s = get_or s.session_id process_session

abbrev pub is_long : Decision → Bool
is_long long_running = true
is_long foreground = false

module _ {F : Type 0} where
  -- The learned row of the call's command; a blank command is looked up too.
  unfoldable pub learned_row : Shell F → Bool → Fields → PluginState F → Option (CommandRow F)
  unfolding tokenize stats
  learned_row w learning args s = elim s.history [
    | none ↦ none
    | some h ↦ elim (get_field "command" args) [
      | some (text command) ↦ if learning then stats w.lower (tokenize w command) h else none
      | _ ↦ none
    ]
  ]

  -- The arguments of a promoted call.
  abbrev pub promoted : LongTasksSettings F → Fields → Fields
  promoted settings args =
      let backgrounded = put_field "background" (bool true) args in
      if settings.notify_on_complete
      then put_field "notify_on_complete" (bool true) backgrounded
      else backgrounded

  abbrev pub process_target : Shell F → F → String → String → BackgroundTarget F
  process_target w now session command = record {
    id = process_target_id w command;
    kind = process;
    session_id = session;
    started_at = now;
    expected_completion = true;
  }

  -- `_register_process_target`
  unfoldable pub register_process_target :
      Shell F → F → String → Fields → PluginState F → PluginState F
  register_process_target w now process_session args s = elim s.targets [
    | none ↦ s
    | some g ↦ elim (command_of w (some args)) [
      | none ↦ s
      | some command ↦ record s {
        targets = some (register (process_target w now (current process_session s) command) g).1;
      }
    ]
  ]

module _ {F : Type 0} ⦃f : Arith F⦄ where
  -- The callback of `make_tool_request_middleware`: the new arguments, if the call is promoted.
  unfoldable pub tool_request :
      Shell F
      → LongTasksSettings F
      → F
      → String
      → String
      → Option Fields
      → PluginState F
      → Option Fields × PluginState F
  tool_request w settings now process_session tool_name args s =
      if not (str_eq tool_name "terminal") || (not settings.enabled || not settings.auto_background)
      then (none, s)
      else elim args [
        | none ↦ (none, s)
        | some d ↦
            let row = learned_row w settings.learn_command_durations d s in
            if is_long (classify w settings tool_name (some d) row).decision
            then (some (promoted settings d), register_process_target w now process_session d s)
            else (none, s)
      ]

-- The libraries: `str` of a count, and the id that `uuid5` gives a text.
pub record Naming : Type 0 where
  pub show : ℕ → String
  pub uuid5 : String → String

-- `{**base, **d}`
unfoldable pub merged : Fields → Fields → Fields
merged base end = base
merged base (field k v d) = merged (put_field k v base) d

abbrev extra_headers : Option String → Fields
extra_headers none = end
extra_headers (some n) = field "X-CachePilot-Targets" (text n) end

module _ (names : Naming) where
  unfoldable pub compute_turn_id : String → String → String
  compute_turn_id session request = names.uuid5 (session ++ (":" ++ request))

  -- `make_correlation_headers`, before those given.
  unfoldable pub correlation_headers : String → String → Fields → Fields
  unfolding compute_turn_id
  correlation_headers session request rest = field "X-CachePilot-Session" (text session) (
      field "X-CachePilot-Request" (text request)
        (field "X-CachePilot-Turn" (text (compute_turn_id session request)) rest))

  -- `attach_correlation_headers`; the extra header is the count of the targets.
  unfoldable pub attach_correlation_headers :
      Fields → String → String → Option String → Option Fields
  unfolding correlation_headers merged
  attach_correlation_headers request session request_id targets =
      elim (get_field "headers" request) [
        | some (obj headers) ↦ some (
            put_field "headers"
              (obj
                (merged (correlation_headers session request_id (extra_headers targets)) headers))
              request)
        | _ ↦ none
      ]

  abbrev pub targets_header : {F : Type 0} → String → PluginState F → Option String
  targets_header session s = elim s.targets [
    | none ↦ none
    | some g ↦ some (names.show (active_count (some session) g))
  ]

  -- The callback of `make_llm_request_middleware`, of a request that is a dict.
  unfoldable pub llm_request :
      {F : Type 0} → Bool → String → String → Fields → PluginState F → Option Fields
  unfolding attach_correlation_headers
  llm_request enabled process_session request_id request s =
      let session = current process_session s in
      if enabled
      then attach_correlation_headers request session request_id (targets_header session s)
      else none
