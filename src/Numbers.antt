-- ===== src/Numbers.antt =====
-- Python's `float` and `decimal.Decimal`: the arithmetic that the program takes from the language.
-- Both round, so only what survives rounding is assumed: the order is total (no NaN), sums,
-- differences and products are monotone, the sign of a difference is exact, and a count over itself
-- is at most one.
pub mod Laws
pub mod Fixed
use cachepilot.Prelude.{ℕ, ◌*◌, ◌≤◌, ◌<◌, ◌≡◌, ◌⊎◌, Bool, true, false, not, ◌&&◌, if◌then◌else◌}

-- The operations; `lit n d` is the literal n / d, such as `0.35` for `lit 35 100`.
pub record Arith (R : Type 0) : Type 0 where
  pub lit : ℕ → ℕ → R
  pub add : R → R → R
  pub sub : R → R → R
  pub mul : R → R → R
  pub div : R → R → R
  pub le : R → R → Bool

module _ {R : Type 0} ⦃n : Arith R⦄ where
  abbrev pub lit : ℕ → ℕ → R
  lit = n.lit

  abbrev pub add : R → R → R
  add = n.add

  abbrev pub sub : R → R → R
  sub = n.sub

  abbrev pub mul : R → R → R
  mul = n.mul

  abbrev pub div : R → R → R
  div = n.div

  abbrev pub le : R → R → Bool
  le = n.le

  abbrev pub nought : R
  nought = n.lit 0 1

  abbrev pub one : R
  one = n.lit 1 1

  -- `a < b`, where neither is NaN.
  abbrev pub lt : R → R → Bool
  lt a b = not (n.le b a)

  abbrev pub eq : R → R → Bool
  eq a b = n.le a b && n.le b a

  -- `max(a, b)` and `min(a, b)` keep the first of two equal values.
  abbrev pub max : R → R → R
  max a b = if lt a b then b else a

  abbrev pub min : R → R → R
  min a b = if lt b a then b else a

-- What the operations promise.
pub record IsOrdered (R : Type 0) ⦃n : Arith R⦄ : Type 0 where
  pub le_refl : (a : R) → le a a ≡ true
  pub le_trans : (a b c : R) → le a b ≡ true → le b c ≡ true → le a c ≡ true
  pub le_total : (a b : R) → (le a b ≡ true) ⊎ (le b a ≡ true)
  pub lit_mono :
      (n d m e : ℕ) → 0 < d → 0 < e → n * e ≤ m * d → le (lit {R = R} n d) (lit m e) ≡ true
  pub add_mono : (a b c d : R) → le a b ≡ true → le c d ≡ true → le (add a c) (add b d) ≡ true
  pub sub_mono : (a b c d : R) → le a b ≡ true → le d c ≡ true → le (sub a c) (sub b d) ≡ true
  pub mul_mono : (a b c : R) → le nought c ≡ true → le a b ≡ true → le (mul a c) (mul b c) ≡ true
  pub mul_nonneg : (a b : R) → le nought a ≡ true → le nought b ≡ true → le nought (mul a b) ≡ true
  pub mul_shrinks :
      (a c : R) → le nought a ≡ true → le nought c ≡ true → le c one ≡ true → le (mul a c) a ≡ true
  pub sub_nonpos : (a b : R) → le a b ≡ true → le (sub a b) nought ≡ true
  pub sub_nonneg : (a b : R) → le b a ≡ true → le nought (sub a b) ≡ true
  pub sub_pos : (a b : R) → le (sub a b) nought ≡ true → le a b ≡ true
  pub add_comm : (a b : R) → le (add a b) (add b a) ≡ true
  pub mul_comm : (a b : R) → le (mul a b) (mul b a) ≡ true
  pub add-nought-le : (a : R) → le (add a nought) a ≡ true
  pub le-add-nought : (a : R) → le a (add a nought) ≡ true
  pub sub-nought-le : (a : R) → le (sub a nought) a ≡ true
  pub nought_mul-le : (a : R) → le (mul nought a) nought ≡ true
  pub le-nought_mul : (a : R) → le nought (mul nought a) ≡ true
  pub div_mono :
      (a b : R) (k : ℕ) → 0 < k → le a b ≡ true → le (div a (lit k 1)) (div b (lit k 1)) ≡ true
  pub div_nonneg : (a : R) (k : ℕ) → 0 < k → le nought a ≡ true → le nought (div a (lit k 1)) ≡ true
  pub div_self : (k : ℕ) → 0 < k → le (div (lit {R = R} k 1) (lit k 1)) one ≡ true

-- `float(d)` and `Decimal(str(f))`, which keep the order.
pub record Conversion (F D : Type 0) : Type 0 where
  pub to_decimal : F → D
  pub to_float : D → F

module _ {F D : Type 0} ⦃c : Conversion F D⦄ where
  abbrev pub to_decimal : F → D
  to_decimal = c.to_decimal

  abbrev pub to_float : D → F
  to_float = c.to_float

pub record IsMonotone (F D : Type 0) ⦃f : Arith F⦄ ⦃d : Arith D⦄ ⦃c : Conversion F D⦄ : Type 0 where
  pub to_decimal_mono : (a b : F) → le a b ≡ true → le (to_decimal {D = D} a) (to_decimal b) ≡ true
  pub to_float_mono : (a b : D) → le a b ≡ true → le (to_float {F = F} a) (to_float b) ≡ true
  pub to_decimal_nought : le (nought {R = D}) (to_decimal (nought {R = F})) ≡ true
  pub to_decimal_one : le (to_decimal (one {R = F})) (one {R = D}) ≡ true
