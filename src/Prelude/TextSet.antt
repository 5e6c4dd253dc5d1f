-- ===== src/Prelude/TextSet.antt =====
-- `sorted(set(...))` on texts: a list in order, without repetition, whatever order it is made in.
use Prim.Native.Nat.{Ordering}
use Prim.Native.String.{String, compare}
use mathlib.Core.Path.{◌≡◌}
use mathlib.Core.Bool.{Bool, true, false}
use mathlib.Core.List.{List, [], ◌∷◌}
use native.Mathlib.Omega.{arith}
use text.Mathlib.TextEquality.{path_by_compare}
use cachepilot.Prelude.TextOrder.{flip-compare, lt_trans}

unfoldable pub insert_text : String → List String → List String
insert_text k [] = k ∷ []
insert_text k (x ∷ xs) =
    let rest = insert_text k xs in
    elim (compare k x) [ Ordering.lt ↦ k ∷ x ∷ xs | Ordering.eq ↦ x ∷ xs | Ordering.gt ↦ x ∷ rest ]

unfoldable pub sorted_set : List String → List String
unfolding insert_text
sorted_set [] = []
sorted_set (x ∷ xs) = insert_text x (sorted_set xs)

-- The order in which two texts are put in does not matter.
pub insert_swap :
    (a b : String) (xs : List String)
    → insert_text a (insert_text b xs) ≡ insert_text b (insert_text a xs)
unfolding insert_text
insert_swap a b [] = ground (arith, flip-compare a b, path_by_compare a b)
insert_swap a b (x ∷ xs) = ground (
  arith,
  insert_swap a b xs,
  flip-compare a b,
  flip-compare a x,
  flip-compare b x,
  path_by_compare a b,
  path_by_compare a x,
  path_by_compare b x,
  lt_trans a x b,
  lt_trans b x a,
)

pub insert_again :
    (a : String) (xs : List String) → insert_text a (insert_text a xs) ≡ insert_text a xs
unfolding insert_text
insert_again a [] = ground (arith, flip-compare a a)
insert_again a (x ∷ xs) = ground (arith, insert_again a xs, flip-compare a a)

-- `a <= b` on texts
abbrev pub text_le : String → String → Bool
text_le a b = elim (compare a b) [ Ordering.gt ↦ false | _ ↦ true ]
