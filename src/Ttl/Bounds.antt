-- ===== src/Ttl/Bounds.antt =====
-- What a profile learns: the confidence stays in its range, the bounds cover every observation, and
-- the estimate lies between them.
use cachepilot.Prelude.{
  ℕ, ◌+◌, ◌≡◌, Bool, true, false, Option, none, some, List, [], ◌∷◌, All, arith, get_or,
  if◌then◌else◌,
}
use cachepilot.Numbers.{Arith, IsOrdered, le, max, add, sub, mul, nought, one}
use cachepilot.Numbers.Laws.{
  le_max_left, le_max_right, min_le_left, min_le_right, le_min, le-add-nonneg, add_mono_right,
}
use cachepilot.Prelude.{Bool-cases, inl, inr}
use cachepilot.Telemetry.{Outcome, confirmed_hit, miss_rebuilt, success_unverified, failed}
use cachepilot.Ttl.{
  TtlProfile, observe, estimate, confidence_floor, confidence_ceil, estimate_interval_fraction,
  clamp_confidence, lowered,
}

-- One observation: its outcome and its idle age.
abbrev pub Observation : Type 0 → Type 0
Observation F = Outcome × Option F

module _ {F : Type 0} ⦃f : Arith F⦄ where
  -- A history, the first observation at the head.
  pub observe_all : TtlProfile F → List (Observation F) → TtlProfile F
  observe_all p [] = p
  observe_all p ((o, age) ∷ h) = observe_all (observe o p age) h

  abbrev pub IsConfident : TtlProfile F → Type 0
  IsConfident p =
      (le confidence_floor p.confidence ≡ true) × (le p.confidence confidence_ceil ≡ true)

  abbrev pub IsAtLeast : Option F → F → Type 0
  IsAtLeast none a = ⊥
  IsAtLeast (some l) a = le a l ≡ true

  abbrev pub IsAtMost : Option F → F → Type 0
  IsAtMost none a = ⊥
  IsAtMost (some u) a = le u a ≡ true

  -- A hit at an age puts the lower bound there or above, a miss the upper bound there or below.
  abbrev pub IsCovered : TtlProfile F → Observation F → Type 0
  IsCovered p (confirmed_hit, some age) = le nought age ≡ true → IsAtLeast p.lower_bound_s age
  IsCovered p (miss_rebuilt, some age) = le nought age ≡ true → IsAtMost p.upper_bound_s age
  IsCovered p _ = Unit

  -- Whether an observation counts as a sample: a hit or a miss at an age that is not negative.
  abbrev pub is_sample : Observation F → Bool
  is_sample (confirmed_hit, some age) = le nought age
  is_sample (miss_rebuilt, some age) = le nought age
  is_sample _ = false

  abbrev pub samples : List (Observation F) → ℕ
  samples [] = 0
  samples (x ∷ xs) = (if is_sample x then 1 else 0) + samples xs

  observe-sample_count :
      (o : Outcome) (p : TtlProfile F) (age : Option F)
      → (observe o p age).sample_count ≡ p.sample_count + (if is_sample (o, age) then 1 else 0)
  unfolding observe
  observe-sample_count failed p none = ground arith
  observe-sample_count failed p (some a) = ground arith
  observe-sample_count success_unverified p none = ground arith
  observe-sample_count success_unverified p (some a) = ground arith
  observe-sample_count confirmed_hit p none = ground arith
  observe-sample_count confirmed_hit p (some a) = ground arith
  observe-sample_count miss_rebuilt p none = ground arith
  observe-sample_count miss_rebuilt p (some a) = ground arith

  module _ ⦃laws : IsOrdered F⦄ where
    clamp_bounds :
        (c : F)
        → (le confidence_floor (clamp_confidence c) ≡ true)
          × (le (clamp_confidence c) confidence_ceil ≡ true)
    unfolding clamp_confidence
    clamp_bounds c =
        let floor : F = confidence_floor in
        let ceil : F = confidence_ceil in
        (
          le_min ceil (max floor c) floor
              (laws.lit_mono 5 100 95 100 (omega arith) (omega arith) (omega arith))
              (le_max_left floor c),
          min_le_left ceil (max floor c),
        )

    -- Every observation keeps the confidence between its floor and its ceiling.
    observe-IsConfident :
        (o : Outcome) (p : TtlProfile F) (age : Option F)
        → IsConfident p
        → IsConfident (observe o p age)
    unfolding observe
    observe-IsConfident failed p age h = h
    observe-IsConfident success_unverified p age h = clamp_bounds _
    observe-IsConfident confirmed_hit p none h = h
    observe-IsConfident confirmed_hit p (some a) h = elim (Bool-cases (le nought a)) [
      | inl aged ↦ rw (aged, observe) (clamp_bounds _)
      | inr below ↦ rw (below, observe) h
    ]
    observe-IsConfident miss_rebuilt p none h = h
    observe-IsConfident miss_rebuilt p (some a) h = elim (Bool-cases (le nought a)) [
      | inl aged ↦ rw (aged, observe) (clamp_bounds _)
      | inr below ↦ rw (below, observe) h
    ]

    IsAtLeast-max :
        (l : Option F) (age a : F) → IsAtLeast l a → le a (max (get_or l nought) age) ≡ true
    IsAtLeast-max none age a h = elim h [ ]
    IsAtLeast-max (some l) age a h = laws.le_trans a l _ h (le_max_left l age)

    IsAtMost-lowered : (u : Option F) (age a : F) → IsAtMost u a → le (lowered u age) a ≡ true
    IsAtMost-lowered none age a h = elim h [ ]
    IsAtMost-lowered (some u) age a h = laws.le_trans _ u a (min_le_left u age) h

    lowered-le : (u : Option F) (age : F) → le (lowered u age) age ≡ true
    lowered-le none age = laws.le_refl age
    lowered-le (some u) age = min_le_right u age

    -- No observation lowers the lower bound or raises the upper one.
    observe-keeps_lower :
        (o : Outcome) (p : TtlProfile F) (age : Option F) (a : F)
        → IsAtLeast p.lower_bound_s a
        → IsAtLeast (observe o p age).lower_bound_s a
    unfolding observe
    observe-keeps_lower failed p age a h = h
    observe-keeps_lower success_unverified p age a h = h
    observe-keeps_lower confirmed_hit p none a h = h
    observe-keeps_lower confirmed_hit p (some b) a h = elim (Bool-cases (le nought b)) [
      | inl aged ↦ rw (aged, observe) (IsAtLeast-max p.lower_bound_s b a h)
      | inr below ↦ rw (below, observe) h
    ]
    observe-keeps_lower miss_rebuilt p none a h = h
    observe-keeps_lower miss_rebuilt p (some b) a h = elim (Bool-cases (le nought b)) [
      | inl aged ↦ rw (aged, observe) h
      | inr below ↦ rw (below, observe) h
    ]

    observe-keeps_upper :
        (o : Outcome) (p : TtlProfile F) (age : Option F) (a : F)
        → IsAtMost p.upper_bound_s a
        → IsAtMost (observe o p age).upper_bound_s a
    unfolding observe
    observe-keeps_upper failed p age a h = h
    observe-keeps_upper success_unverified p age a h = h
    observe-keeps_upper confirmed_hit p none a h = h
    observe-keeps_upper confirmed_hit p (some b) a h = elim (Bool-cases (le nought b)) [
      | inl aged ↦ rw (aged, observe) h
      | inr below ↦ rw (below, observe) h
    ]
    observe-keeps_upper miss_rebuilt p none a h = h
    observe-keeps_upper miss_rebuilt p (some b) a h = elim (Bool-cases (le nought b)) [
      | inl aged ↦ rw (aged, observe) (IsAtMost-lowered p.upper_bound_s b a h)
      | inr below ↦ rw (below, observe) h
    ]

    -- A later observation keeps what an earlier one established.
    observe-keeps :
        (o : Outcome) (p : TtlProfile F) (age : Option F) (x : Observation F)
        → IsCovered p x
        → IsCovered (observe o p age) x
    observe-keeps o p age (confirmed_hit, some a) h = λ n. observe-keeps_lower o p age a (h n)
    observe-keeps o p age (miss_rebuilt, some a) h = λ n. observe-keeps_upper o p age a (h n)
    observe-keeps o p age (confirmed_hit, none) h = tt
    observe-keeps o p age (miss_rebuilt, none) h = tt
    observe-keeps o p age (success_unverified, a) h = tt
    observe-keeps o p age (failed, a) h = tt

    observe-IsCovered :
        (o : Outcome) (p : TtlProfile F) (age : Option F) → IsCovered (observe o p age) (o, age)
    unfolding observe
    observe-IsCovered failed p age = tt
    observe-IsCovered success_unverified p age = tt
    observe-IsCovered confirmed_hit p none = tt
    observe-IsCovered confirmed_hit p (some a) =
        λ n. rw (n, observe) (le_max_right (get_or p.lower_bound_s nought) a)
    observe-IsCovered miss_rebuilt p none = tt
    observe-IsCovered miss_rebuilt p (some a) = λ n. rw (n, observe) (lowered-le p.upper_bound_s a)

    observe_all-keeps :
        (h : List (Observation F)) (p : TtlProfile F) (x : Observation F)
        → IsCovered p x
        → IsCovered (observe_all p h) x
    unfolding observe_all
    observe_all-keeps [] p x c = c
    observe_all-keeps ((o, age) ∷ h) p x c =
        observe_all-keeps h (observe o p age) x (observe-keeps o p age x c)

    -- After any history, the lower bound is at or above the idle age of every hit in it, and the
    -- upper bound at or below that of every miss.
    pub observe_all-IsCovered :
        (h : List (Observation F)) (p : TtlProfile F) → All (IsCovered (observe_all p h)) h
    unfolding observe_all
    observe_all-IsCovered [] p = tt
    observe_all-IsCovered ((o, age) ∷ h) p = (
      observe_all-keeps h (observe o p age) (o, age) (observe-IsCovered o p age),
      observe_all-IsCovered h (observe o p age),
    )

    -- After any history the confidence lies between its floor and its ceiling if it did before, and
    -- the samples are exactly the hits and the misses at an age that is there and not negative:
    -- unverified and failed responses never count.
    observe_all-confidence :
        (h : List (Observation F)) (p : TtlProfile F)
        → IsConfident p
        → IsConfident (observe_all p h)
          × ((observe_all p h).sample_count ≡ p.sample_count + samples h)
    unfolding observe_all
    observe_all-confidence [] p c = (c, omega arith)
    observe_all-confidence ((o, age) ∷ h) p c =
        let (confident, counted) =
          observe_all-confidence h (observe o p age) (observe-IsConfident o p age c) in
        (confident, omega (arith, observe-sample_count o p age))

    -- With both bounds known and in order, the estimate lies at or above the lower one and at or
    -- below the lower one plus their distance.
    estimate-between :
        (p : TtlProfile F) (hint : Option F) (l u : F)
        → p.lower_bound_s ≡ some l
        → p.upper_bound_s ≡ some u
        → le l u ≡ true
        → (e : F) × (estimate p hint ≡ some e) × (le l e ≡ true) × (le e (add l (sub u l)) ≡ true)
    unfolding estimate
    estimate-between p hint l u hl hu h =
        let width = sub u l in
        let fraction : F = estimate_interval_fraction in
        let wide = laws.sub_nonneg u l h in
        let above : le nought fraction ≡ true =
          laws.lit_mono 0 1 35 100 (omega arith) (omega arith) (omega arith) in
        let below : le fraction one ≡ true =
          laws.lit_mono 35 100 1 1 (omega arith) (omega arith) (omega arith) in
        (
          add l (mul width fraction),
          rw (hu, hl, estimate),
          le-add-nonneg l _ (laws.mul_nonneg width fraction wide above),
          add_mono_right _ _ l (laws.mul_shrinks width fraction wide above below),
        )
