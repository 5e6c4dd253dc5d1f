-- ===== src/Survival.antt =====
-- packages/core/src/cachepilot_core/survival.py: the Kaplan-Meier estimate of how long a cache entry
-- lives, from the idle ages of hits (alive then) and misses (dead then).
pub mod Bounds
pub mod Groups
mod Examples
use cachepilot.Prelude.{
  ℕ, zero, suc, ◌+◌, ◌-◌, String, Bool, true, false, ◌&&◌, ◌||◌, not, Option, none, some, List, [],
  ◌∷◌, map, length, ltb, is_some, get_or, select, if◌then◌else◌,
}
use cachepilot.Numbers.{Arith, lit, sub, mul, div, le, lt, eq, nought, one}
use cachepilot.Telemetry.{Outcome, confirmed_hit, miss_rebuilt, is_verified, is_hit}

pub record SurvivalObservation (F : Type 0) : Type 0 where
  pub idle_age_s : F
  pub outcome : Outcome

-- The survival after the events at an age, and the number at risk just before.
pub record SurvivalStep (F : Type 0) : Type 0 where
  pub age_s : F
  pub survival : F
  pub at_risk : ℕ
  pub events : ℕ

pub record SurvivalCurve (F : Type 0) : Type 0 where
  pub profile_key : Option String
  pub steps : List (SurvivalStep F)
  pub sample_count : ℕ
  pub horizon_s : Option F

abbrev pub no_curve : {F : Type 0} → Option String → SurvivalCurve F
no_curve key = record { profile_key = key; steps = []; sample_count = 0; horizon_s = none }

abbrev pub Pair : Type 0 → Type 0
Pair F = F × Outcome

module _ {F : Type 0} ⦃f : Arith F⦄ where
  -- `survival_at`: the last step at or below the age.
  unfoldable pub last_step : F → F → List (SurvivalStep F) → F
  last_step age estimate [] = estimate
  last_step age estimate (s ∷ ss) =
      let rest = last_step age s.survival ss in if lt age s.age_s then estimate else rest

  abbrev pub within : F → List (SurvivalStep F) → F
  within age [] = one
  within age (s ∷ ss) = if lt age s.age_s then one else last_step age s.survival (s ∷ ss)

  abbrev pub within_horizon : F → List (SurvivalStep F) → Option F → Option F
  within_horizon age steps none = none
  within_horizon age steps (some horizon) = if lt horizon age then none else some (within age steps)

  unfoldable pub survival_at : F → SurvivalCurve F → Option F
  unfolding last_step
  survival_at age curve =
      if not (ltb 0 curve.sample_count)
      then none
      else within_horizon age curve.steps curve.horizon_s

  unfoldable pub median_step : List (SurvivalStep F) → Option F
  median_step [] = none
  median_step (s ∷ ss) =
      let rest = median_step ss in if le s.survival (lit 1 2) then some s.age_s else rest

  -- `median_survival_s`
  abbrev median_survival_s : SurvivalCurve F → Option F
  median_survival_s curve = median_step curve.steps

  -- The order of Python's pairs: by age, then a hit ("confirmed_hit") before a miss.
  abbrev before_or_same : Pair F → Pair F → Bool
  before_or_same (a, o) (b, p) =
      if lt a b then true else if lt b a then false else is_hit o || not (is_hit p)

  unfoldable pub insert_pair : Pair F → List (Pair F) → List (Pair F)
  insert_pair x [] = x ∷ []
  insert_pair x (y ∷ ys) =
      let rest = insert_pair x ys in if before_or_same x y then x ∷ y ∷ ys else y ∷ rest

  -- `sorted(...)`
  unfoldable pub sort_pairs : List (Pair F) → List (Pair F)
  unfolding insert_pair
  sort_pairs [] = []
  sort_pairs (x ∷ xs) = insert_pair x (sort_pairs xs)

  abbrev is_evidence : SurvivalObservation F → Bool
  is_evidence obs = le nought obs.idle_age_s && is_verified obs.outcome

  unfoldable pub evidence_pairs : List (SurvivalObservation F) → List (Pair F)
  unfolding sort_pairs
  evidence_pairs observations =
      sort_pairs (map (λ obs. (obs.idle_age_s, obs.outcome)) (select is_evidence observations))

  -- The inner loop: the deaths and the censored hits at the age, and the pairs after them.
  unfoldable pub group : F → List (Pair F) → ℕ × ℕ × List (Pair F)
  group age [] = (0, 0, [])
  group age ((a, o) ∷ ps) =
      let (deaths, censored, rest) = group age ps in
      if eq a age
      then if is_hit o then (deaths, suc censored, rest) else (suc deaths, censored, rest)
      else (0, 0, (a, o) ∷ ps)

  -- `survival * (1 - deaths / at_risk)`
  abbrev pub survive : F → ℕ → ℕ → F
  survive survival deaths at_risk = mul survival (sub one (div (lit deaths 1) (lit at_risk 1)))

  -- `pairs[-1][0]`
  unfoldable pub last_age : List (Pair F) → Option F
  last_age [] = none
  last_age (p ∷ []) = some p.0
  last_age (p ∷ q ∷ ps) = last_age (q ∷ ps)

  -- Only deaths lower the survival.
  abbrev pub lowered : F → ℕ → ℕ → F
  lowered survival deaths at_risk =
      if ltb 0 deaths then survive survival deaths at_risk else survival

-- `round6` is `round(x, 6)`.
module _ {F : Type 0} ⦃f : Arith F⦄ (round6 : F → F) where
  abbrev pub add_step : F → F → ℕ → ℕ → List (SurvivalStep F) → List (SurvivalStep F)
  add_step age survival at_risk deaths steps =
      if ltb 0 deaths
      then record { age_s = age; survival = round6 survival; at_risk = at_risk; events = deaths }
        ∷ steps
      else steps

  abbrev pub with_step :
      F → F → ℕ → ℕ → Option (List (SurvivalStep F)) → Option (List (SurvivalStep F))
  with_step age survival at_risk deaths none = none
  with_step age survival at_risk deaths (some steps) =
      some (add_step age survival at_risk deaths steps)

  -- The outer loop: `none` where the fuel runs out.
  unfoldable pub steps_of : ℕ → F → ℕ → List (Pair F) → Option (List (SurvivalStep F))
  unfolding group
  steps_of fuel survival at_risk [] = some []
  steps_of zero survival at_risk (p ∷ ps) = none
  steps_of (suc fuel) survival at_risk ((age, o) ∷ ps) =
      let (deaths, censored, rest) = group age ((age, o) ∷ ps) in
      let next = lowered survival deaths at_risk in
      with_step age next at_risk deaths (steps_of fuel next (at_risk - (deaths + censored)) rest)

  abbrev pub curve_with :
      Option String → ℕ → F → Option (List (SurvivalStep F)) → Option (SurvivalCurve F)
  curve_with key count horizon none = none
  curve_with key count horizon (some steps) =
      some (record {
        profile_key = key;
        steps = steps;
        sample_count = count;
        horizon_s = some horizon;
      })

  -- `estimate_survival`; the fuel is the number of pairs.
  unfoldable pub estimate_survival :
      Option String → List (SurvivalObservation F) → Option (SurvivalCurve F)
  unfolding steps_of evidence_pairs
  estimate_survival key observations =
      let pairs = evidence_pairs observations in
      elim (last_age pairs) [
        | none ↦ some (no_curve key)
        | some horizon ↦
            curve_with key (length pairs) horizon (steps_of (length pairs) one (length pairs) pairs)
      ]
