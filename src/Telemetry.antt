-- ===== src/Telemetry.antt =====
-- packages/core/src/cachepilot_core/telemetry.py: the outcome of a request, and the health counts.
pub mod Health
use cachepilot.Prelude.{
  ℕ, suc, ◌+◌, ◌≡◌, Bool, true, false, ◌&&◌, not, Option, none, some, List, [], ◌∷◌, ltb, leb,
  if◌then◌else◌,
}
use cachepilot.Numbers.{Arith, lit, div}

pub data Outcome : Type 0 where
  confirmed_hit miss_rebuilt success_unverified failed : Outcome

abbrev pub is_failed : Outcome → Bool
is_failed failed = true
is_failed _ = false

-- `outcome in (Outcome.CONFIRMED_HIT, Outcome.MISS_REBUILT)`
abbrev pub is_verified : Outcome → Bool
is_verified confirmed_hit = true
is_verified miss_rebuilt = true
is_verified _ = false

abbrev pub is_hit : Outcome → Bool
is_hit confirmed_hit = true
is_hit _ = false

unfoldable pub classify_outcome : ℕ → Bool → ℕ → Outcome
classify_outcome status_code telemetry_present cache_read_tokens =
    if not (leb 200 status_code && ltb status_code 300)
    then failed
    else if telemetry_present
    then if ltb 0 cache_read_tokens then confirmed_hit else miss_rebuilt
    else success_unverified

pub record CacheHealthStats : Type 0 where
  pub total : ℕ
  pub confirmed_hits : ℕ
  pub misses : ℕ
  pub unverified : ℕ
  pub failures : ℕ
  pub churn_events : ℕ
  pub route_changes : ℕ

abbrev pub no_stats : CacheHealthStats
no_stats = record {
  total = 0;
  confirmed_hits = 0;
  misses = 0;
  unverified = 0;
  failures = 0;
  churn_events = 0;
  route_changes = 0;
}

pub telemetry_observed : CacheHealthStats → ℕ
telemetry_observed s = s.confirmed_hits + s.misses

pub hit_rate : {F : Type 0} ⦃f : Arith F⦄ → CacheHealthStats → Option F
unfolding telemetry_observed
hit_rate s =
    let observed = telemetry_observed s in
    if leb observed 0 then none else some (div (lit s.confirmed_hits 1) (lit observed 1))

tally : Outcome → CacheHealthStats → CacheHealthStats
tally confirmed_hit s = record s { confirmed_hits = s.confirmed_hits + 1 }
tally miss_rebuilt s = record s { misses = s.misses + 1 }
tally success_unverified s = record s { unverified = s.unverified + 1 }
tally failed s = record s { failures = s.failures + 1 }

-- `CacheHealthStats.record`
unfoldable pub record_outcome : Outcome → CacheHealthStats → CacheHealthStats
unfolding tally
record_outcome o s = tally o (record s { total = s.total + 1 })

record_all : CacheHealthStats → List Outcome → CacheHealthStats
record_all s [] = s
record_all s (o ∷ os) = record_all (record_outcome o s) os

pub from_outcomes : List Outcome → CacheHealthStats
unfolding record_all
from_outcomes = record_all no_stats
