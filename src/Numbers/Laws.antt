-- ===== src/Numbers/Laws.antt =====
-- Consequences of `IsOrdered` that the components share: orders, `max` and `min`.
use cachepilot.Prelude.{◌≡◌, true, false, arith}
use cachepilot.Numbers.{Arith, IsOrdered, le, lt, max, min, nought, add, mul}

module _ {R : Type 0} ⦃n : Arith R⦄ ⦃laws : IsOrdered R⦄ where
  pub le_of_lt : (a b : R) → lt a b ≡ true → le a b ≡ true
  le_of_lt a b h = ground (arith, laws.le_total a b)

  pub le_of_not_le : (a b : R) → le a b ≡ false → le b a ≡ true
  le_of_not_le a b h = ground (arith, laws.le_total a b)

  pub lt_of_lt_of_le : (a b c : R) → lt a b ≡ true → le b c ≡ true → lt a c ≡ true
  lt_of_lt_of_le a b c h k = ground (arith, laws.le_trans b c a k)

  pub lt_of_le_of_lt : (a b c : R) → le a b ≡ true → lt b c ≡ true → lt a c ≡ true
  lt_of_le_of_lt a b c h k = ground (arith, laws.le_trans c a b)

  pub le_max_left : (a b : R) → le a (max a b) ≡ true
  le_max_left a b = ground (arith, laws.le_refl a, laws.le_total a b)

  pub le_max_right : (a b : R) → le b (max a b) ≡ true
  le_max_right a b = ground (arith, laws.le_refl b, laws.le_total a b)

  pub max_le : (a b c : R) → le a c ≡ true → le b c ≡ true → le (max a b) c ≡ true
  max_le a b c h k = ground arith

  pub min_le_left : (a b : R) → le (min a b) a ≡ true
  min_le_left a b = ground (arith, laws.le_refl a, laws.le_total a b)

  pub min_le_right : (a b : R) → le (min a b) b ≡ true
  min_le_right a b = ground (arith, laws.le_refl b, laws.le_total a b)

  pub le_min : (a b c : R) → le c a ≡ true → le c b ≡ true → le c (min a b) ≡ true
  le_min a b c h k = ground arith

  -- A sum in which a term is exchanged for a larger one and the other terms vanish.
  pub add_mono_left : (a b c : R) → le a b ≡ true → le (add a c) (add b c) ≡ true
  add_mono_left a b c h = laws.add_mono a b c c h (laws.le_refl c)

  pub add_mono_right : (a b c : R) → le a b ≡ true → le (add c a) (add c b) ≡ true
  add_mono_right a b c h = laws.add_mono c c a b (laws.le_refl c) h

  pub add-nonpos-le : (a b : R) → le b nought ≡ true → le (add a b) a ≡ true
  add-nonpos-le a b h = laws.le_trans _ _ _ (add_mono_right b nought a h) (laws.add-nought-le a)

  pub le-add-nonneg : (a b : R) → le nought b ≡ true → le a (add a b) ≡ true
  le-add-nonneg a b h = laws.le_trans _ _ _ (laws.le-add-nought a) (add_mono_right nought b a h)

  pub nonpos_add-le : (a b : R) → le a nought ≡ true → le (add a b) b ≡ true
  nonpos_add-le a b h = laws.le_trans _ _ _ (laws.add_comm a b) (add-nonpos-le b a h)

  pub mul_mono_right :
      (a b c : R) → le nought c ≡ true → le a b ≡ true → le (mul c a) (mul c b) ≡ true
  mul_mono_right a b c hc h =
      laws.le_trans _ _ _ (laws.mul_comm c a)
        (laws.le_trans _ _ _ (laws.mul_mono a b c hc h) (laws.mul_comm b c))
