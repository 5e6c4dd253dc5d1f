-- ===== src/Leases/Examples.antt =====
-- The lease manager on concrete managers: one lease of one session, in fixed-point numbers.
use cachepilot.Prelude.{
  List, ℕ, ◌*◌, String, ◌≡◌, ◌≢◌, ◌↔◌, refl, true, false, Option, none, some, [], ◌∷◌, get_or,
  arith, eq_iff, eq_refl, str_eq,
}
use cachepilot.Prelude.Int.{ℤ, pos}
use cachepilot.Numbers.Fixed.{fixed_point, fixed_conversion}
use cachepilot.Dict.{lookup, insert}
use cachepilot.Json.{end}
use cachepilot.Snapshots.{RequestSnapshot}
use cachepilot.Telemetry.{Outcome, confirmed_hit, miss_rebuilt, failed}
use cachepilot.Usage.{no_usage}
use cachepilot.Leases.{
  LeaseIdentity, CacheLease, LeaseManager, LeaseSettings, Hashing, WarmResult, new_runtime, armed,
  invalidated,
}
use cachepilot.Leases.Runtime.{runtime_for, find_lease}
use cachepilot.Leases.Registry.{find_or_create_lease}
use cachepilot.Leases.Requests.{before_normal_request, after_normal_request}
use cachepilot.Leases.Scheduler.{sent, schedule, evaluate_lease}
use cachepilot.Leases.Warm.{settle, caught}
use cachepilot.Leases.Safety.{MayWarm, evaluate_lease-sent_iff}
use cachepilot.Leases.Priority.{real_request_wins}
use cachepilot.Leases.Rounds.{Round, evaluated, resumed}
use cachepilot.Leases.Evidence.{IsSettled, settle-IsSettled}
use cachepilot.Leases.Breaker.{settle_all, two_misses_open, request_closes_circuit}
use cachepilot.Leases.Switch.{IsReplaced}
use cachepilot.Leases.Identity.{
  IsIndexed, find_or_create_lease-found, find_or_create_lease-IsIndexed,
  find_or_create_lease-switches,
}

abbrev pub seconds : ℕ → ℤ
seconds n = pos (n * 1000)

abbrev pub no_hash : Hashing
no_hash = record { sha256 = λ s. s; head64 = λ s. 0 }

abbrev pub identity_of : String → LeaseIdentity
identity_of fp = record {
  session_id = "session";
  provider = "provider";
  model = "model";
  api_mode = "chat";
  base_url = "https://api.example";
  auth_scope_hash = "scope";
  route_fingerprint = none;
  request_fingerprint = "request";
  cache_fingerprint = fp;
  system_fingerprint = "system";
  tools_fingerprint = "tools";
  history_prefix_fingerprint = "history";
}

abbrev pub lease_a : CacheLease ℤ ℤ
lease_a = record {
  lease_id = "a";
  identity = identity_of "fa";
  last_real_request_at = seconds 100;
  last_cache_touch_at = some (seconds 100);
  last_confirmed_hit_at = none;
  estimated_ttl_s = seconds 300;
  ttl_confidence = pos 500;
  active_targets = "main" ∷ [];
  generation = 3;
  warm_count = 0;
  warm_cost_usd = pos 0;
  estimated_cold_resume_cost_usd = none;
  estimated_cached_resume_cost_usd = none;
  prefix_tokens = none;
  next_warm_cost_usd = none;
  last_warm_decision = none;
  state = armed;
}

abbrev pub settings : LeaseSettings ℤ ℤ
settings = record {
  warm_fraction = pos 650;
  minimum_margin_s = seconds 15;
  latency_multiplier = pos 2000;
  jitter_fraction = pos 0;
  default_ttl_s = seconds 300;
  scheduler_interval_s = seconds 5;
  ttl_force_seconds = none;
  ttl_minimum_samples = 3;
  dry_run = false;
  economics = record {
    enabled = false;
    budget_ratio = pos 250;
    safety_margin = pos 0;
    minimum_expected_savings = pos 0;
  };
  pricing = none;
  resume_probability = pos 1000;
  detached_resume_probability = pos 800;
}

abbrev pub snapshot_a : RequestSnapshot ℤ
snapshot_a = record {
  cache_fingerprint = "fa";
  body = end;
  upstream_url = "https://api.example";
  replay_headers = [];
  stored_at = seconds 100;
}

abbrev pub one_lease : LeaseManager ℤ ℤ
one_lease = record {
  settings = settings;
  latency_p95_s = seconds 2;
  snapshot_store = some (("fa", snapshot_a) ∷ []);
  has_executor = true;
  pricing = none;
  price_override = none;
  ttl_resolver = none;
  leases = ("a", lease_a) ∷ [];
  by_cache_fingerprint = ("fa", "a") ∷ [];
  runtime = [];
  locked = [];
}

-- The same with the circuit open.
abbrev open_circuit : LeaseManager ℤ ℤ
open_circuit = record one_lease { runtime = ("a", record new_runtime { circuit_open = true }) ∷ [] }

abbrev pub rebuilt : Option (WarmResult ℤ)
rebuilt = some (record { outcome = some miss_rebuilt; usage = no_usage; cost_usd = pos 10 })

abbrev after_start : LeaseManager ℤ ℤ → LeaseManager ℤ ℤ
after_start m = get_or (before_normal_request (seconds 200) "a" m) m

abbrev after_end : Outcome → LeaseManager ℤ ℤ → LeaseManager ℤ ℤ
after_end o m = get_or (after_normal_request (seconds 210) "a" o m) m

evaluate_lease-sent_iff_example :
    ((evaluate_lease no_hash (seconds 295) "a" one_lease).0 ≡ sent snapshot_a) ↔ (
      (l : CacheLease ℤ ℤ) × (find_lease "a" one_lease ≡ some l)
      × MayWarm no_hash (seconds 295) "a" l one_lease snapshot_a)
evaluate_lease-sent_iff_example =
    evaluate_lease-sent_iff no_hash (seconds 295) "a" one_lease snapshot_a

real_request_wins_example :
    (evaluate_lease no_hash
      (seconds 500)
      "a"
      (after_end failed (after_start (schedule "a" lease_a one_lease)))).0
    ≢ sent snapshot_a
unfolding before_normal_request after_normal_request schedule lookup insert
real_request_wins_example =
    real_request_wins no_hash (seconds 200) (seconds 210) (seconds 500) "a" failed lease_a one_lease
      (after_start (schedule "a" lease_a one_lease))
      (after_end failed (after_start (schedule "a" lease_a one_lease))) snapshot_a refl refl

abbrev rounds : List (Round ℤ)
rounds = evaluated (seconds 250) "a" ∷ resumed 3 "a" ∷ evaluated (seconds 450) "b" ∷ []

settle-IsSettled_example :
    IsSettled
      (seconds 300)
      (caught rebuilt)
      lease_a
      (settle (seconds 300) rebuilt lease_a new_runtime).0
      new_runtime
      (settle (seconds 300) rebuilt lease_a new_runtime).1
settle-IsSettled_example = settle-IsSettled (seconds 300) rebuilt lease_a new_runtime

two_misses_open_example :
    (settle_all
      ((seconds 300, rebuilt) ∷ (seconds 600, none) ∷ [])
      (lease_a, new_runtime)).1.circuit_open
    ≡ true
two_misses_open_example =
    two_misses_open [] [] (seconds 300) (seconds 600) rebuilt none (lease_a, new_runtime) refl refl

request_closes_circuit_example :
    (runtime_for "a" (after_end confirmed_hit open_circuit)).circuit_open ≡ false
unfolding after_normal_request lookup
request_closes_circuit_example =
    request_closes_circuit (seconds 210) "a" confirmed_hit lease_a open_circuit
      (after_end confirmed_hit open_circuit) refl refl refl

one_lease-IsIndexed : IsIndexed one_lease
unfolding lookup find_lease
one_lease-IsIndexed fp id entry =
    let here : str_eq "fa" fp ≡ true = ground arith in
    let same : "a" ≡ id = ground arith in
    (lease_a, ground (arith, eq_iff "a" id, eq_refl "a"), (eq_iff "fa" fp).0 here)

find_or_create_lease-found_example :
    (j : String) × (m' : LeaseManager ℤ ℤ) × (l : CacheLease ℤ ℤ) × (find_or_create_lease no_hash
        "b"
        (identity_of "fb")
        none
        (pos 500)
        one_lease
      ≡ some (j, m'))
    × (find_lease j m' ≡ some l)
    × (l.session_id ≡ "session")
    × (l.cache_fingerprint ≡ "fb")
find_or_create_lease-found_example =
    find_or_create_lease-found no_hash "b" (identity_of "fb") none (pos 500) one_lease
      one_lease-IsIndexed

abbrev switched : LeaseManager ℤ ℤ
switched = elim (find_or_create_lease no_hash "b" (identity_of "fb") none (pos 500) one_lease) [
  | none ↦ one_lease
  | some (j, m) ↦ m
]

find_or_create_lease-IsIndexed_example : IsIndexed switched
unfolding find_or_create_lease lookup insert find_lease
find_or_create_lease-IsIndexed_example =
    find_or_create_lease-IsIndexed no_hash "b" "b" (identity_of "fb") none (pos 500) one_lease
      switched one_lease-IsIndexed refl refl

find_or_create_lease-switches_example :
    (IsReplaced (identity_of "fb") lease_a
      → find_lease "a" switched ≡ some (record lease_a { state = invalidated }))
    × (¬ IsReplaced (identity_of "fb") lease_a → find_lease "a" switched ≡ some lease_a)
unfolding find_or_create_lease lookup insert find_lease
find_or_create_lease-switches_example =
    find_or_create_lease-switches no_hash "b" "a" (identity_of "fb") none (pos 500) lease_a
      one_lease switched one_lease-IsIndexed refl refl refl
