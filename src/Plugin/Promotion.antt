-- ===== src/Plugin/Promotion.antt =====
-- How a promotion reaches the relay: the target that it registers is counted in the next request's headers.
use cachepilot.Prelude.{
  ℕ, ◌<◌, String, ◌≡◌, ◌≢◌, refl, Bool, true, false, Option, none, some, [], ◌∷◌, length, select,
  arith, eq_iff, eq_refl, str_eq, Bool-cases, inl, inr, false_of_not_true,
}
use package.text.Mathlib.TextLemmas.{append-eq-nil_iff}
use cachepilot.Prelude.Int.{ℤ, pos}
use cachepilot.Numbers.{Arith}
use cachepilot.Dict.{Dict, insert, values}
use cachepilot.Json.{text, obj, Fields, end, field}
use cachepilot.Json.Access.{get_field, put_field, get-put_field}
use cachepilot.Targets.{BackgroundTarget, BackgroundTargetRegistry, register, active_count}
use cachepilot.Relay.Observation.{parse_targets_count}
use cachepilot.Plugin.Classifier.{
  LongTasksSettings, Decision, foreground, long_running, classify, classify-IsLong_iff,
}
use cachepilot.Plugin.Hooks.{Shell, PluginState, process_target_id, command_of}
use cachepilot.Plugin.Middleware.{
  current, is_long, learned_row, promoted, process_target, register_process_target, tool_request,
  Naming, merged, correlation_headers, attach_correlation_headers, llm_request,
}

module _ {V : Type 0} where
  -- A dict with an entry that passes a test counts it.
  select-insert :
      (test : V → Bool) (k : String) (v : V) (d : Dict V)
      → test v ≡ true
      → 0 < length (select test (values (insert k v d)))
  unfolding insert select
  select-insert test k v [] h = rw h (omega arith)
  select-insert test k v ((j, u) ∷ d) h = ground (arith, select-insert test k v d h)

module _ {F : Type 0} where
  process_id : (w : Shell F) (command : String) → str_eq (process_target_id w command) "" ≡ false
  unfolding process_target_id
  process_id w command = false_of_not_true _ (λ h. ground (
    arith,
    eq_iff "process:" "",
    append-eq-nil_iff.0 ((eq_iff (process_target_id w command) "").0 h),
  ))

  registered-count :
      (t : BackgroundTarget F) (g : BackgroundTargetRegistry F)
      → str_eq t.id "" ≡ false
      → 0 < active_count (some t.session_id) (register t g).1
  unfolding active_count register
  registered-count t g named = rw named (select-insert _ t.id t g.targets (eq_refl t.session_id))

-- The last of equal names stands, and of other names what was there before.
get-merged :
    (k : String) (base d : Fields)
    → get_field k d ≡ none
    → get_field k (merged base d) ≡ get_field k base
unfolding get_field merged
get-merged k base end h = refl
get-merged k base (field j v d) h =
    ground (arith, get-merged k (put_field j v base) d, get-put_field k j v base)

long_running-of : (x : Decision) → is_long x ≡ true → x ≡ long_running
long_running-of long_running h = refl
long_running-of foreground h = cc

module _ {F : Type 0} ⦃f : Arith F⦄ (w : Shell F) (settings : LongTasksSettings F) (now : F)
    (process_session tool_name : String) where
  -- A promoted call has a command, and its target is registered.
  tool_request-promoted :
      (args : Option Fields) (s : PluginState F) (a : Fields)
      → (tool_request w settings now process_session tool_name args s).0 ≡ some a
      → (d : Fields) × (command : String) × (args ≡ some d)
        × (command_of w (some d) ≡ some command)
        × (a ≡ promoted settings d)
        × ((tool_request w settings now process_session tool_name args s).1
            ≡ register_process_target w now process_session d s)
  unfolding tool_request
  tool_request-promoted none s a h = ground arith
  tool_request-promoted (some d) s a h =
      let row = learned_row w settings.learn_command_durations d s in
      elim (Bool-cases (is_long (classify w settings tool_name (some d) row).decision)) [
        | inl long ↦
            let why = (classify-IsLong_iff w settings tool_name d row).0 (long_running-of _ long) in
            (d, why.1, refl, why.2, ground arith, ground arith)
        | inr short ↦ ground arith
      ]

module _ {F : Type 0} (w : Shell F) (now : F) (process_session : String) where
  -- The state after the registration: the session is as before, and it has an active target.
  register_process-count :
      (d : Fields) (command : String) (s : PluginState F) (g : BackgroundTargetRegistry F)
      → s.targets ≡ some g
      → command_of w (some d) ≡ some command
      → (h : BackgroundTargetRegistry F) × (register_process_target w now process_session d s
          ≡ record s { targets = some h })
        × (0 < active_count (some (current process_session s)) h)
  unfolding register_process_target
  register_process-count d command s g there found =
      let t = process_target w now (current process_session s) command in
      (
        (register t g).1,
        rw there (rw (found, register_process_target) refl),
        registered-count t g (process_id w command),
      )

-- The header that a request carries to the relay.
attached-header :
    (names : Naming) (request headers : Fields) (session request_id n : String)
    → get_field "headers" request ≡ some (obj headers)
    → get_field "X-CachePilot-Targets" headers ≡ none
    → (request' : Fields) × (headers' : Fields) × (attach_correlation_headers names request session
          request_id
          (some n)
        ≡ some request')
      × (get_field "headers" request' ≡ some (obj headers'))
      × (get_field "X-CachePilot-Targets" headers' ≡ some (text n))
unfolding attach_correlation_headers get_field correlation_headers
attached-header names request headers session request_id n has free =
    let extra = field "X-CachePilot-Targets" (text n) end in
    let headers' = merged (correlation_headers names session request_id extra) headers in
    (
      put_field "headers" (obj headers') request,
      headers',
      rw (has, attach_correlation_headers) refl,
      ground (arith, get-put_field "headers" "headers" (obj headers') request, eq_refl "headers"),
      get-merged "X-CachePilot-Targets" (correlation_headers names session request_id extra) headers
          free,
    )

module _ {F : Type 0} ⦃f : Arith F⦄ where
  -- With a registry attached and correlation headers on, a request that comes directly after a terminal
  -- call was promoted, in the same session and with a mapping of headers that does not set the count
  -- itself, tells the relay of at least one target, as the relay reads the header. What comes in between,
  -- such as the return of the call, may release the target. Of the libraries it takes that a printed count
  -- is no empty text and reads back as itself.
  pub promotion-IsAnnounced :
      (w : Shell F) (settings : LongTasksSettings F) (names : Naming) (read : String → Option ℤ)
      (now : F) (process_session tool_name request_id : String) (args : Option Fields)
      (a request headers : Fields) (s : PluginState F) (g : BackgroundTargetRegistry F)
      → ((n : ℕ) → (read (names.show n) ≡ some (pos n)) × (names.show n ≢ ""))
      → s.targets ≡ some g
      → (tool_request w settings now process_session tool_name args s).0 ≡ some a
      → get_field "headers" request ≡ some (obj headers)
      → get_field "X-CachePilot-Targets" headers ≡ none
      → let s' = (tool_request w settings now process_session tool_name args s).1 in
        (request' : Fields) × (headers' : Fields) × (value : String) × (llm_request names true
            process_session request_id request s'
          ≡ some request')
        × (get_field "headers" request' ≡ some (obj headers'))
        × (get_field "X-CachePilot-Targets" headers' ≡ some (text value))
        × (0 < parse_targets_count read (some value))
  unfolding llm_request parse_targets_count
  promotion-IsAnnounced w settings names read now process_session tool_name request_id args a
        request headers s g reads there promotes has free =
      let (d, command, given, found, new, after) =
        tool_request-promoted w settings now process_session tool_name args s a promotes in
      let (h, registered, counted) =
        register_process-count w now process_session d command s g there found in
      let session = current process_session s in
      let n = active_count (some session) h in
      let (request', headers', attached, holds, value) =
        attached-header names request headers session request_id (names.show n) has free in
      let (printed, filled) = reads n in
      (
        request',
        headers',
        names.show n,
        rw after (rw registered attached),
        holds,
        value,
        rw (false_of_not_true _ (λ e. filled ((eq_iff (names.show n) "").0 e)))
            (rw printed counted),
      )
