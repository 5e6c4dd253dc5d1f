-- ===== src/Survival/Bounds.antt =====
-- The survival curve starts at one, never rises, and is a probability everywhere.
use cachepilot.Prelude.{
  ℕ, zero, suc, ◌+◌, ◌-◌, ◌≤◌, ◌<◌, ◌≡◌, refl, ap, ◌∙◌, true, String, Option, none, some, List, [],
  ◌∷◌, length, arith, ltb, if◌then◌else◌, Bool-cases, Option-cases, inl, inr,
}
use mathlib.Core.Path.{subst}
use cachepilot.Numbers.{Arith, IsOrdered, lit, sub, div, le, lt, nought, one}
use cachepilot.Survival.{
  SurvivalObservation, SurvivalStep, SurvivalCurve, Pair, survive, lowered, add_step, with_step,
  group, steps_of, last_age, evidence_pairs, estimate_survival, last_step, survival_at, within,
  within_horizon, no_curve, curve_with,
}
use cachepilot.Survival.Groups.{group-length, group-some}

-- What the rounding to six digits promises.
pub record IsRounding {F : Type 0} ⦃f : Arith F⦄ (round6 : F → F) : Type 0 where
  pub mono : (a b : F) → le a b ≡ true → le (round6 a) (round6 b) ≡ true
  pub at_nought : le nought (round6 nought) ≡ true
  pub at_one : le (round6 one) one ≡ true

module _ {F : Type 0} ⦃f : Arith F⦄ where
  -- Every step has deaths, no more than are at risk, and a survival from zero to the one before.
  abbrev pub IsFalling : F → List (SurvivalStep F) → Type 0
  IsFalling top [] = Unit
  IsFalling top (s ∷ ss) =
      (le nought s.survival ≡ true)
      × (le s.survival top ≡ true)
      × (0 < s.events)
      × (s.events ≤ s.at_risk)
      × IsFalling s.survival ss

module _ {F : Type 0} ⦃f : Arith F⦄ ⦃laws : IsOrdered F⦄ where
  above-IsFalling :
      (a b : F) (ss : List (SurvivalStep F)) → le a b ≡ true → IsFalling a ss → IsFalling b ss
  above-IsFalling a b [] h k = k
  above-IsFalling a b (s ∷ ss) h k = (k.0, laws.le_trans s.survival a b k.1 h, k.2, k.3, k.4)

  share-range :
      (q : F) (d n : ℕ)
      → q ≡ div (lit d 1) (lit n 1)
      → d ≤ n
      → 0 < n
      → (le nought q ≡ true) × (le q one ≡ true)
  share-range q d n same small positive = rw same (
    laws.div_nonneg (lit d 1) n positive
        (laws.lit_mono 0 1 d 1 (omega arith) (omega arith) (omega arith)),
    laws.le_trans _ _ _
        (laws.div_mono (lit d 1) (lit n 1) n positive
          (laws.lit_mono d 1 n 1 (omega arith) (omega arith) (omega arith)))
        (laws.div_self n positive),
  )

  survive-range :
      (s : F) (d n : ℕ)
      → le nought s ≡ true
      → d ≤ n
      → 0 < n
      → (le nought (survive s d n) ≡ true) × (le (survive s d n) s ≡ true)
  survive-range s d n h small positive =
      let q : F = div (lit d 1) (lit n 1) in
      let (above, below) = share-range q d n refl small positive in
      let low : le nought (sub one q) ≡ true = laws.sub_nonneg one q below in
      let high : le (sub one q) one ≡ true =
        laws.le_trans _ _ _ (laws.sub_mono one one q nought (laws.le_refl one) above)
          (laws.sub-nought-le one) in
      (laws.mul_nonneg s (sub one q) h low, laws.mul_shrinks s (sub one q) h low high)

  lowered-range :
      (s : F) (d n : ℕ)
      → le nought s ≡ true
      → d ≤ n
      → 0 < n
      → (le nought (lowered s d n) ≡ true) × (le (lowered s d n) s ≡ true)
  lowered-range s d n h small positive = elim (Bool-cases (ltb 0 d)) [
    | inl deaths ↦ rw deaths (survive-range s d n h small positive)
    | inr none_died ↦ rw none_died (h, laws.le_refl s)
  ]

  module _ (round6 : F → F) (rounding : IsRounding round6) where
    rounded-nonneg : (s : F) → le nought s ≡ true → le nought (round6 s) ≡ true
    rounded-nonneg s h = laws.le_trans _ _ _ rounding.at_nought (rounding.mono nought s h)

    add_step-IsFalling :
        (age s : F) (d n : ℕ) (ss : List (SurvivalStep F))
        → le nought s ≡ true
        → d ≤ n
        → 0 < n
        → IsFalling (round6 (lowered s d n)) ss
        → IsFalling (round6 s) (add_step round6 age (lowered s d n) n d ss)
    add_step-IsFalling age s d n ss h small positive k =
        let (low, high) = lowered-range s d n h small positive in
        let down : le (round6 (lowered s d n)) (round6 s) ≡ true = rounding.mono _ _ high in
        elim (Bool-cases (ltb 0 d)) [
          | inl deaths ↦ rw deaths (
            subst (λ b. le nought (round6 (if b then survive s d n else s)) ≡ true) deaths
                (rounded-nonneg _ low),
            subst (λ b. le (round6 (if b then survive s d n else s)) (round6 s) ≡ true) deaths down,
            ground arith,
            small,
            subst (λ b. IsFalling (round6 (if b then survive s d n else s)) ss) deaths k,
          )
          | inr none_died ↦
              rw none_died
                (subst (λ b. IsFalling (round6 (if b then survive s d n else s)) ss) none_died k)
        ]

    -- One round, where the rounds after it have their steps.
    abbrev IsRun : ℕ → F → ℕ → List (Pair F) → Type 0
    IsRun fuel survival n ps =
        (steps : List (SurvivalStep F)) × (steps_of round6 fuel survival n ps ≡ some steps)
        × IsFalling (round6 survival) steps

    steps_of-IsRun :
        (fuel : ℕ) (survival : F) (ps : List (Pair F))
        → length ps ≤ fuel
        → le nought survival ≡ true
        → IsRun fuel survival (length ps) ps
    unfolding steps_of
    steps_of-IsRun fuel survival [] h k = ([], refl, tt)
    steps_of-IsRun zero survival (p ∷ ps) h k = ground arith
    steps_of-IsRun (suc fuel) survival ((age, o) ∷ ps) h k =
        let n = length ((age, o) ∷ ps) in
        let d = (group age ((age, o) ∷ ps)).0 in
        let c = (group age ((age, o) ∷ ps)).1 in
        let rest = (group age ((age, o) ∷ ps)).2 in
        let all : d + c + length rest ≡ n = group-length age ((age, o) ∷ ps) in
        let some_at : 0 < d + c = group-some age o ps in
        let left : n - (d + c) ≡ length rest = omega arith in
        let small : d ≤ n = omega arith in
        let less : length rest ≤ fuel = omega arith in
        let positive : 0 < n = omega arith in
        let (low, high) = lowered-range survival d n k small positive in
        let (steps, run, falling) = steps_of-IsRun fuel (lowered survival d n) rest less low in
        (
          add_step round6 age (lowered survival d n) n d steps,
          ap (with_step round6 age (lowered survival d n) n d)
              (ap (λ m. steps_of round6 fuel (lowered survival d n) m rest) left ∙ run),
          add_step-IsFalling age survival d n steps k small positive falling,
        )

  -- An estimate that is there is a probability.
  abbrev pub IsProbable : Option F → Type 0
  IsProbable none = Unit
  IsProbable (some p) = (le nought p ≡ true) × (le p one ≡ true)

  last_step-IsProbable :
      (age estimate : F) (ss : List (SurvivalStep F))
      → IsProbable (some estimate)
      → IsFalling estimate ss
      → IsProbable (some (last_step age estimate ss))
  unfolding last_step
  last_step-IsProbable age estimate [] h k = h
  last_step-IsProbable age estimate (s ∷ ss) h k =
      let there : IsProbable (some s.survival) =
        (k.0, laws.le_trans s.survival estimate one k.1 h.1) in
      let later : IsProbable (some (last_step age s.survival ss)) =
        last_step-IsProbable age s.survival ss there k.4 in
      elim (Bool-cases (lt age s.age_s)) [ inl early ↦ rw early h | inr reached ↦ rw reached later ]

  one_nonneg : (x : F) → x ≡ one → le nought x ≡ true
  one_nonneg x same = rw same (laws.lit_mono 0 1 1 1 (omega arith) (omega arith) (omega arith))

  within-IsProbable :
      (age : F) (ss : List (SurvivalStep F)) → IsFalling one ss → IsProbable (some (within age ss))
  unfolding last_step
  within-IsProbable age [] falling = ((one_nonneg one refl), laws.le_refl one)
  within-IsProbable age (s ∷ ss) falling =
      let first : IsProbable (some s.survival) = (falling.0, falling.1) in
      let same : IsFalling s.survival (s ∷ ss) =
        (falling.0, laws.le_refl s.survival, falling.2, falling.3, falling.4) in
      elim (Bool-cases (lt age s.age_s)) [
        | inl early ↦ rw early ((one_nonneg one refl), laws.le_refl one)
        | inr reached ↦ rw reached (last_step-IsProbable age s.survival ss first falling.4)
      ]

  at_horizon :
      (age : F) (horizon : Option F) (ss : List (SurvivalStep F))
      → IsFalling one ss
      → IsProbable (within_horizon age ss horizon)
  at_horizon age none ss falling = tt
  at_horizon age (some horizon) ss falling = elim (Bool-cases (lt horizon age)) [
    | inl beyond ↦ rw beyond tt
    | inr inside ↦ rw inside (within-IsProbable age ss falling)
  ]

  survival_at-IsProbable :
      (age : F) (curve : SurvivalCurve F)
      → IsFalling one curve.steps
      → IsProbable (survival_at age curve)
  unfolding survival_at last_step
  survival_at-IsProbable age curve falling = elim (Bool-cases (ltb 0 curve.sample_count)) [
    | inr empty ↦ rw empty tt
    | inl sampled ↦ rw sampled (at_horizon age curve.horizon_s curve.steps falling)
  ]

  -- Survival estimates are total and honest: from any observations the estimate gives a curve, whose
  -- steps fall from at most one to no less than zero, each with deaths that are no more than those at
  -- risk, and whose value at any age, where there is one, is a probability; the rounding must keep
  -- the order and the range from zero to one.
  pub estimate_survival-IsFalling :
      (round6 : F → F) (key : Option String) (observations : List (SurvivalObservation F)) (age : F)
      → IsRounding round6
      → (curve : SurvivalCurve F) × (estimate_survival round6 key observations ≡ some curve)
        × IsFalling one curve.steps
        × IsProbable (survival_at age curve)
  unfolding estimate_survival
  estimate_survival-IsFalling round6 key observations age rounding =
      let pairs = evidence_pairs observations in
      elim (Option-cases (last_age pairs)) [
        | inl empty ↦ (
          no_curve key,
          rw (estimate_survival, empty) refl,
          tt,
          survival_at-IsProbable age (no_curve key) tt,
        )
        | inr (horizon, seen) ↦
            let (steps, run, falling) =
              steps_of-IsRun round6 rounding (length pairs) one pairs (omega arith)
                (one_nonneg one refl) in
            let below = above-IsFalling (round6 one) one steps rounding.at_one falling in
            let curve : SurvivalCurve F = record {
              profile_key = key;
              steps = steps;
              sample_count = length pairs;
              horizon_s = some horizon;
            } in
            (
              curve,
              rw (estimate_survival, seen) (ap (curve_with round6 key (length pairs) horizon) run),
              below,
              survival_at-IsProbable age curve below,
            )
      ]
