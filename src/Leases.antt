-- ===== src/Leases.antt =====
-- packages/core/src/cachepilot_core/leases.py: the data of the lease manager.
pub mod Settings
pub mod Runtime
pub mod Lifecycle
pub mod Registry
pub mod Requests
pub mod Scheduler
pub mod Warm
pub mod Calls
pub mod Safety
pub mod History
pub mod Rounds
pub mod Switch
pub mod Examples
pub mod Identity
pub mod Breaker
pub mod Evidence
pub mod Priority
use cachepilot.Prelude.{ℕ, String, ◌≡◌, Bool, true, false, Option, none, some, List, [], ◌∷◌}
use cachepilot.Dict.{Dict}
use cachepilot.Economics.{EconomicConfig, WarmDecision}
use cachepilot.Pricing.{PricingTable}
use cachepilot.Snapshots.{SnapshotStore, RequestSnapshot}
use cachepilot.Telemetry.{Outcome}
use cachepilot.Ttl.Resolver.{TtlResolver}
use cachepilot.Usage.{TokenUsage}

pub data LeaseState : Type 0 where
  inactive armed warm_scheduled warming economic_stop invalidated : LeaseState

abbrev pub is_invalidated : LeaseState → Bool
is_invalidated invalidated = true
is_invalidated _ = false

abbrev pub is_economic_stop : LeaseState → Bool
is_economic_stop economic_stop = true
is_economic_stop _ = false

-- The keyword arguments of `find_or_create_lease` that a new lease copies.
pub record LeaseIdentity : Type 0 where
  pub session_id : String
  pub provider : String
  pub model : String
  pub api_mode : String
  pub base_url : String
  pub auth_scope_hash : String
  pub route_fingerprint : Option String
  pub request_fingerprint : String
  pub cache_fingerprint : String
  pub system_fingerprint : String
  pub tools_fingerprint : String
  pub history_prefix_fingerprint : String

-- `active_targets` is a set: the operations below never put a target in twice.
pub record CacheLease (F D : Type 0) : Type 0 where
  pub lease_id : String
  pub identity : LeaseIdentity
  pub open identity use *
  pub last_real_request_at : F
  pub last_cache_touch_at : Option F
  pub last_confirmed_hit_at : Option F
  pub estimated_ttl_s : F
  pub ttl_confidence : F
  pub active_targets : List String
  pub generation : ℕ
  pub warm_count : ℕ
  pub warm_cost_usd : F
  pub estimated_cold_resume_cost_usd : Option F
  pub estimated_cached_resume_cost_usd : Option F
  pub prefix_tokens : Option ℕ
  pub next_warm_cost_usd : Option F
  pub last_warm_decision : Option (WarmDecision F D)
  pub state : LeaseState

pub record LeaseSettings (F D : Type 0) : Type 0 where
  pub warm_fraction : F
  pub minimum_margin_s : F
  pub latency_multiplier : F
  pub jitter_fraction : F
  pub default_ttl_s : F
  pub scheduler_interval_s : F
  pub ttl_force_seconds : Option F
  pub ttl_minimum_samples : ℕ
  pub dry_run : Bool
  pub economics : EconomicConfig D
  pub pricing : Option (PricingTable D)
  pub resume_probability : F
  pub detached_resume_probability : F

pub data LeaseDecision : Type 0 where
  scheduled skipped_dry_run skipped_busy skipped_stale skipped_no_targets : LeaseDecision
  skipped_already_warming skipped_unknown_ttl skipped_unsupported : LeaseDecision
  skipped_circuit_open stopped_no_targets stopped_invalidated stopped_economic : LeaseDecision
  warmed_confirmed_hit warmed_miss_rebuilt warmed_unverified warmed_failed : LeaseDecision

-- `_LeaseRuntime`
pub record LeaseRuntime : Type 0 where
  pub real_request_active : Bool
  pub warm_request_active : Bool
  pub scheduled_generation : Option ℕ
  pub pending_warm : Bool
  pub consecutive_warm_misses : ℕ
  pub circuit_open : Bool

-- `_LeaseRuntime()`
abbrev pub new_runtime : LeaseRuntime
new_runtime = record {
  real_request_active = false;
  warm_request_active = false;
  scheduled_generation = none;
  pending_warm = false;
  consecutive_warm_misses = 0;
  circuit_open = false;
}

-- `WarmResult` of adapters.py; no outcome means that nothing was sent.
pub record WarmResult (D : Type 0) : Type 0 where
  pub outcome : Option Outcome
  pub usage : TokenUsage D
  pub cost_usd : D

-- The digests of the language's library: the hex digest, and its first eight bytes as a number.
pub record Hashing : Type 0 where
  pub sha256 : String → String
  pub head64 : String → ℕ

-- `LeaseManager`. `has_executor` says whether a warm executor is configured; `locked` lists the
-- cache fingerprints whose asyncio lock is held.
pub record LeaseManager (F D : Type 0) : Type 0 where
  pub settings : LeaseSettings F D
  pub latency_p95_s : F
  pub snapshot_store : Option (SnapshotStore F)
  pub has_executor : Bool
  pub pricing : Option (PricingTable D)
  pub price_override : Option D
  pub ttl_resolver : Option (TtlResolver F)
  pub leases : Dict (CacheLease F D)
  pub by_cache_fingerprint : Dict String
  pub runtime : Dict LeaseRuntime
  pub locked : List String
