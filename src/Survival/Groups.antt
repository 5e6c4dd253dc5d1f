-- ===== src/Survival/Groups.antt =====
-- One round of the estimate: it takes every pair of an age, so that the rounds come to an end.
use cachepilot.Prelude.{◌+◌, ◌<◌, ◌≡◌, refl, List, [], ◌∷◌, length, arith}
use cachepilot.Numbers.{Arith, IsOrdered}
use cachepilot.Telemetry.{Outcome}
use cachepilot.Survival.{Pair, group}

module _ {F : Type 0} ⦃f : Arith F⦄ where
  pub group-length :
      (age : F) (ps : List (Pair F))
      → let (deaths, censored, rest) = group age ps in deaths + censored + length rest ≡ length ps
  unfolding group
  group-length age [] = refl
  group-length age ((a, o) ∷ ps) = ground (arith, group-length age ps)

  pub group-some :
      ⦃laws : IsOrdered F⦄ (age : F) (o : Outcome) (ps : List (Pair F))
      → let (deaths, censored, rest) = group age ((age, o) ∷ ps) in 0 < deaths + censored
  unfolding group
  group-some ⦃laws⦄ age o ps = ground (arith, laws.le_refl age)
