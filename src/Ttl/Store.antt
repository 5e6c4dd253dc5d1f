-- ===== src/Ttl/Store.antt =====
-- packages/core/src/cachepilot_core/storage.py: the tables that the TTL learner reads and writes.
-- A table is the list of its rows, newest first (`ORDER BY id DESC`); timestamps are in microseconds.
use cachepilot.Prelude.{
  ℕ, String, ◌≡◌, refl, Bool, false, ◌&&◌, ◌||◌, Option, none, some, List, [], ◌∷◌, leb, str_eq,
  if◌then◌else◌,
}
use cachepilot.Dict.{Dict, lookup, insert}
use cachepilot.Dict.Laws.{lookup-insert}
use cachepilot.Telemetry.{Outcome}
use cachepilot.Ttl.{TtlProfile, profile_key}

-- `StoredTTLObservation`, without the row id.
pub record TtlRow (F : Type 0) : Type 0 where
  pub timestamp : ℕ
  pub cache_fingerprint : String
  pub route_hash : Option String
  pub idle_age_s : Option F
  pub outcome : Outcome
  pub clean : Bool
  pub provider : String
  pub model : String
  pub api_mode : String
  pub endpoint_hash : String

-- The columns of `churn_events` that `churn_between` reads.
pub record ChurnRow : Type 0 where
  pub timestamp : ℕ
  pub previous_cache_fingerprint : String
  pub new_cache_fingerprint : String

pub record TtlStore (F : Type 0) : Type 0 where
  pub profiles : Dict (TtlProfile F)
  pub observations : List (TtlRow F)
  pub churn : List ChurnRow

module _ {F : Type 0} where
  unfoldable pub profile_for : String → TtlStore F → Option (TtlProfile F)
  profile_for key s = lookup key s.profiles

  -- `ON CONFLICT(profile_key) DO UPDATE`
  unfoldable pub upsert_profile : TtlProfile F → TtlStore F → TtlStore F
  upsert_profile p s = record s { profiles = insert (profile_key p) p s.profiles }

  unfoldable pub record_ttl_observation : TtlRow F → TtlStore F → TtlStore F
  record_ttl_observation row s = record s { observations = row ∷ s.observations }

  newest : String → List (TtlRow F) → Option (TtlRow F)
  newest fp [] = none
  newest fp (r ∷ rs) = if str_eq r.cache_fingerprint fp then some r else newest fp rs

  unfoldable pub last_ttl_observation : String → TtlStore F → Option (TtlRow F)
  unfolding newest
  last_ttl_observation fp s = newest fp s.observations

module _ {F : Type 0} where
  pub profile_for-upsert :
      (k : String) (p : TtlProfile F) (s : TtlStore F)
      → profile_for k (upsert_profile p s)
        ≡ (if str_eq (profile_key p) k then some p else profile_for k s)
  unfolding profile_for upsert_profile
  profile_for-upsert k p s = lookup-insert (profile_key p) k p s.profiles

  pub profile_for-record :
      (k : String) (row : TtlRow F) (s : TtlStore F)
      → profile_for k (record_ttl_observation row s) ≡ profile_for k s
  unfolding profile_for record_ttl_observation
  profile_for-record k row s = refl

touched : String → ℕ → ℕ → List ChurnRow → Bool
touched fp start end [] = false
touched fp start end (c ∷ cs) =
    ((str_eq c.previous_cache_fingerprint fp || str_eq c.new_cache_fingerprint fp)
      && (leb start c.timestamp && leb c.timestamp end))
    || touched fp start end cs

unfoldable pub churn_between : {F : Type 0} → String → ℕ → ℕ → TtlStore F → Bool
unfolding touched
churn_between fp start end s = touched fp start end s.churn
