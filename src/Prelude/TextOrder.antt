-- ===== src/Prelude/TextOrder.antt =====
-- The order of texts by their characters' numbers, which is Python's.
use Prim.Native.Nat.{ℕ, Ordering, compare as compare_ℕ}
use Prim.Native.Char.{Char, code}
use Prim.Native.String.{String, [], ◌∷◌, then, compare}
use Prim.Native.String.compare
use mathlib.Core.Path.{◌≡◌, refl, sym, ◌∙◌}
use native.Mathlib.Omega.{arith}

abbrev pub flip : Ordering → Ordering
flip Ordering.lt = Ordering.gt
flip Ordering.eq = Ordering.eq
flip Ordering.gt = Ordering.lt

flip-then : (o q : Ordering) → flip (then o q) ≡ then (flip o) (flip q)
flip-then Ordering.lt q = refl
flip-then Ordering.eq q = refl
flip-then Ordering.gt q = refl

flip-compare_ℕ : (m n : ℕ) → compare_ℕ n m ≡ flip (compare_ℕ m n)
flip-compare_ℕ m n = ground arith

step_cons :
    (c d : Char) (s t : String)
    → compare (c ∷ s) (d ∷ t) ≡ then (compare_ℕ (code c) (code d)) (compare s t)
step_cons c d s t = compare.cons-cons c d s t

nil_cons : (d : Char) (t : String) → compare [] (d ∷ t) ≡ Ordering.lt
nil_cons d t = compare.nil-cons d t

cons_nil : (c : Char) (s : String) → compare (c ∷ s) [] ≡ Ordering.gt
cons_nil c s = compare.cons-nil c s

pub flip-compare : (s t : String) → compare t s ≡ flip (compare s t)
flip-compare [] [] = refl
flip-compare [] (d ∷ t) = cc (nil_cons d t, cons_nil d t)
flip-compare (c ∷ s) [] = cc (nil_cons c s, cons_nil c s)
flip-compare (c ∷ s) (d ∷ t) = cc (
  step_cons d c t s,
  step_cons c d s t,
  flip-compare_ℕ (code c) (code d),
  flip-compare s t,
  flip-then (compare_ℕ (code c) (code d)) (compare s t),
)

then-lt_trans :
    (a b c : ℕ) (o q r : Ordering)
    → (o ≡ Ordering.lt → q ≡ Ordering.lt → r ≡ Ordering.lt)
    → then (compare_ℕ a b) o ≡ Ordering.lt
    → then (compare_ℕ b c) q ≡ Ordering.lt
    → then (compare_ℕ a c) r ≡ Ordering.lt
then-lt_trans a b c o q r h x y = ground arith

pub lt_trans :
    (s t u : String)
    → compare s t ≡ Ordering.lt
    → compare t u ≡ Ordering.lt
    → compare s u ≡ Ordering.lt
lt_trans [] [] u h k = k
lt_trans (c ∷ s) [] u h k = cc (cons_nil c s)
lt_trans s (d ∷ t) [] h k = cc (cons_nil d t)
lt_trans [] (d ∷ t) (e ∷ u) h k = nil_cons e u
lt_trans (c ∷ s) (d ∷ t) (e ∷ u) h k =
    step_cons c e s u
    ∙ then-lt_trans (code c) (code d) (code e) (compare s t) (compare t u) (compare s u)
        (lt_trans s t u) (sym (step_cons c d s t) ∙ h) (sym (step_cons d e t u) ∙ k)
