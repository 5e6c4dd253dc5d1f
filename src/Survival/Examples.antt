-- ===== src/Survival/Examples.antt =====
-- The estimate on concrete observations: two hits and two misses.
use cachepilot.Prelude.{◌≡◌, refl, none, some, List, [], ◌∷◌, select}
use cachepilot.Prelude.Int.{ℤ, pos}
use cachepilot.Numbers.{lit, one}
use cachepilot.Numbers.Fixed.{fixed_point, fixed_laws, fixed_div, fixed_mul}
use cachepilot.Prelude.Int.{◌-ℤ◌}
use cachepilot.Telemetry.{Outcome, confirmed_hit, miss_rebuilt, failed}
use cachepilot.Survival.{
  SurvivalObservation, SurvivalCurve, estimate_survival, survival_at, last_age,
}
use cachepilot.Survival.Bounds.{IsRounding, IsFalling, IsProbable, estimate_survival-IsFalling}

abbrev seen : Outcome → ℤ → SurvivalObservation ℤ
seen outcome age = record { idle_age_s = age; outcome = outcome }

abbrev observations : List (SurvivalObservation ℤ)
observations =
    seen miss_rebuilt (lit 400 1)
    ∷ seen confirmed_hit (lit 100 1)
    ∷ seen miss_rebuilt (lit 200 1)
    ∷ seen failed (lit 50 1)
    ∷ seen confirmed_hit (lit 300 1)
    ∷ []

abbrev no_rounding : ℤ → ℤ
no_rounding x = x

exact : IsRounding no_rounding
exact = record {
  mono = λ a b h. h;
  at_nought = fixed_laws.le_refl (pos 0);
  at_one = fixed_laws.le_refl (pos 1000);
}

-- Of three at risk at 200 s one dies; the last one dies at 400 s.
falls :
    estimate_survival no_rounding none observations
    ≡ some (record {
      profile_key = none;
      steps =
          record { age_s = lit 200 1; survival = pos 667; at_risk = 3; events = 1 }
          ∷ record { age_s = lit 400 1; survival = pos 0; at_risk = 1; events = 1 }
          ∷ [];
      sample_count = 4;
      horizon_s = some (lit 400 1);
    })
unfolding estimate_survival select fixed_div fixed_mul ◌-ℤ◌ last_age
falls = refl

estimate_survival-IsFalling_example :
    (curve : SurvivalCurve ℤ) × (estimate_survival no_rounding none observations ≡ some curve)
    × IsFalling one curve.steps
    × IsProbable (survival_at (lit 250 1) curve)
estimate_survival-IsFalling_example =
    estimate_survival-IsFalling no_rounding none observations (lit 250 1) exact
