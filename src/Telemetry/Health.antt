-- ===== src/Telemetry/Health.antt =====
-- What the classification proves, and that the health counts are those of the outcomes.
use cachepilot.Prelude.{
  ℕ, ◌+◌, ◌≤◌, ◌<◌, ◌≡◌, ◌↔◌, Bool, true, false, List, [], ◌∷◌, arith, length, if◌then◌else◌,
}
use cachepilot.Telemetry.{
  Outcome, confirmed_hit, miss_rebuilt, success_unverified, failed, classify_outcome,
  CacheHealthStats, no_stats, telemetry_observed, record_outcome, record_all, from_outcomes,
}

abbrev pub same_outcome : Outcome → Outcome → Bool
same_outcome confirmed_hit confirmed_hit = true
same_outcome miss_rebuilt miss_rebuilt = true
same_outcome success_unverified success_unverified = true
same_outcome failed failed = true
same_outcome _ _ = false

-- How often an outcome occurs.
abbrev pub count : Outcome → List Outcome → ℕ
count o [] = 0
count o (x ∷ xs) = (if same_outcome x o then 1 else 0) + count o xs

-- A request is a confirmed hit exactly when its status is 2xx, it carried cache telemetry and read
-- at least one token from the cache; it is a verified miss exactly when it was 2xx with telemetry
-- that shows no read; and it failed exactly when the status is not 2xx, whatever the telemetry says.
pub classify_outcome_evidence :
    (status : ℕ) (telemetry : Bool) (reads : ℕ)
    → ((classify_outcome status telemetry reads ≡ confirmed_hit)
        ↔ ((200 ≤ status) × (status < 300) × (telemetry ≡ true) × (0 < reads)))
      × ((classify_outcome status telemetry reads ≡ miss_rebuilt)
          ↔ ((200 ≤ status) × (status < 300) × (telemetry ≡ true) × (reads ≡ 0)))
      × ((classify_outcome status telemetry reads ≡ failed) ↔ (¬ ((200 ≤ status) × (status < 300))))
unfolding classify_outcome
classify_outcome_evidence status telemetry reads = ground arith

record_all-counts :
    (os : List Outcome) (s : CacheHealthStats)
    → let t = record_all s os in
      (t.total ≡ s.total + length os)
      × (t.confirmed_hits ≡ s.confirmed_hits + count confirmed_hit os)
      × (t.misses ≡ s.misses + count miss_rebuilt os)
      × (t.unverified ≡ s.unverified + count success_unverified os)
      × (t.failures ≡ s.failures + count failed os)
unfolding record_all record_outcome
record_all-counts [] s = omega arith
record_all-counts (confirmed_hit ∷ os) s =
    omega (arith, record_all-counts os (record_outcome confirmed_hit s))
record_all-counts (o ∷ os) s = omega (arith, record_all-counts os (record_outcome o s))

length-counts :
    (os : List Outcome)
    → length os
      ≡ count confirmed_hit os
        + count miss_rebuilt os
        + count success_unverified os
        + count failed os
length-counts [] = omega arith
length-counts (confirmed_hit ∷ os) = omega (arith, length-counts os)
length-counts (o ∷ os) = omega (arith, length-counts os)

-- The health statistics of a list of outcomes count each kind as often as it occurs; the total is
-- the length of the list and the sum of the four kinds.
pub from_outcomes-counts :
    (os : List Outcome)
    → let t = from_outcomes os in
      (t.total ≡ length os)
      × (t.total ≡ telemetry_observed t + t.unverified + t.failures)
      × (t.confirmed_hits ≡ count confirmed_hit os)
      × (t.misses ≡ count miss_rebuilt os)
      × (t.unverified ≡ count success_unverified os)
      × (t.failures ≡ count failed os)
unfolding from_outcomes telemetry_observed
from_outcomes-counts os = omega (arith, record_all-counts os no_stats, length-counts os)
