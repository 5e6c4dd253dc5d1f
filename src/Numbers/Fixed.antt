-- ===== src/Numbers/Fixed.antt =====
-- Decimal fixed-point numbers in thousandths, which round: an arithmetic that meets the laws.
use cachepilot.Prelude.{ℕ, zero, suc, ◌+◌, ◌*◌, ◌/◌, ◌≤◌, ◌<◌, ◌≡◌, sym, ◌∙◌, true, arith}
use native.Mathlib.Nat.{
  mul-le-mul_left, mul-le-mul_right, div-mul-le_self, div-zero, mul_comm, le-div_iff_mul-le,
  le_of_mul-le-mul_right,
}
use cachepilot.Prelude.Int.{
  ℤ, pos, negsuc, pos_part, neg_part, sub_ℕ, ◌+ℤ◌, ◌-ℤ◌, leb_ℤ, +ℤ_parts, -ℤ_parts,
}
use cachepilot.Numbers.{Arith, IsOrdered, Conversion, IsMonotone}

abbrev magnitude : ℤ → ℕ
magnitude a = pos_part a + neg_part a

abbrev negate : ℕ → ℤ
negate n = sub_ℕ 0 n

-- The product, rounded towards zero.
unfoldable pub fixed_mul : ℤ → ℤ → ℤ
fixed_mul (pos a) (pos b) = pos (a * b / 1000)
fixed_mul (pos a) (negsuc b) = negate (a * suc b / 1000)
fixed_mul (negsuc a) (pos b) = negate (suc a * b / 1000)
fixed_mul (negsuc a) (negsuc b) = pos (suc a * suc b / 1000)

-- The quotient of the magnitudes, with the sign of the dividend; the divisors here are positive.
unfoldable pub fixed_div : ℤ → ℤ → ℤ
fixed_div (pos a) b = pos (a * 1000 / magnitude b)
fixed_div (negsuc a) b = negate (suc a * 1000 / magnitude b)

instance abbrev pub fixed_point : Arith ℤ
fixed_point = record {
  lit = λ n d. pos (n * 1000 / d);
  add = ◌+ℤ◌;
  sub = ◌-ℤ◌;
  mul = fixed_mul;
  div = fixed_div;
  le = leb_ℤ;
}

scaled_div_mono : (n d m e : ℕ) → 0 < d → 0 < e → n * e ≤ m * d → n * 1000 / d ≤ m * 1000 / e
scaled_div_mono n d m e hd he h =
    let x = n * 1000 / d in
    let below : x * d ≤ n * 1000 = div-mul-le_self (n * 1000) d in
    let cross : x * d * e ≤ n * 1000 * e = mul-le-mul_right e below in
    let scaled : n * e * 1000 ≤ m * d * 1000 = mul-le-mul_right 1000 h in
    let room : x * e * d ≤ m * 1000 * d = omega arith in
    (le-div_iff_mul-le he).1 (le_of_mul-le-mul_right room hd)

product_mono : (a b c : ℕ) → a ≤ b → a * c / 1000 ≤ b * c / 1000
product_mono a b c h = omega (arith, mul-le-mul_right c h)

mul_mono :
    (a b c : ℤ)
    → leb_ℤ (pos 0) c ≡ true
    → leb_ℤ a b ≡ true
    → leb_ℤ (fixed_mul a c) (fixed_mul b c) ≡ true
unfolding fixed_mul
mul_mono (pos a) (pos b) (pos c) hc h = ground (arith, product_mono a b c)
mul_mono (pos a) (negsuc b) (pos c) hc h = ground arith
mul_mono (negsuc a) (pos b) (pos c) hc h = ground arith
mul_mono (negsuc a) (negsuc b) (pos c) hc h = ground (arith, product_mono (suc b) (suc a) c)
mul_mono a b (negsuc c) hc h = ground arith

mul_nonneg :
    (a b : ℤ)
    → leb_ℤ (pos 0) a ≡ true
    → leb_ℤ (pos 0) b ≡ true
    → leb_ℤ (pos 0) (fixed_mul a b) ≡ true
unfolding fixed_mul
mul_nonneg (pos a) (pos b) ha hb = ground arith
mul_nonneg (pos a) (negsuc b) ha hb = ground arith
mul_nonneg (negsuc a) b ha hb = ground arith

mul_shrinks :
    (a c : ℤ)
    → leb_ℤ (pos 0) a ≡ true
    → leb_ℤ (pos 0) c ≡ true
    → leb_ℤ c (pos 1000) ≡ true
    → leb_ℤ (fixed_mul a c) a ≡ true
unfolding fixed_mul
mul_shrinks (pos a) (pos c) ha hc h =
    let small : c ≤ 1000 = ground arith in
    let bound : a * c ≤ a * 1000 = mul-le-mul_left a small in ground arith
mul_shrinks (pos a) (negsuc c) ha hc h = ground arith
mul_shrinks (negsuc a) c ha hc h = ground arith

lit_mono :
    (n d m e : ℕ)
    → 0 < d
    → 0 < e
    → n * e ≤ m * d
    → leb_ℤ (pos (n * 1000 / d)) (pos (m * 1000 / e)) ≡ true
lit_mono n d m e hd he h = ground (arith, scaled_div_mono n d m e hd he h)

add_mono : (a b c d : ℤ) → leb_ℤ a b ≡ true → leb_ℤ c d ≡ true → leb_ℤ (a +ℤ c) (b +ℤ d) ≡ true
add_mono a b c d h k = ground (arith, +ℤ_parts a c, +ℤ_parts b d)

sub_mono : (a b c d : ℤ) → leb_ℤ a b ≡ true → leb_ℤ d c ≡ true → leb_ℤ (a -ℤ c) (b -ℤ d) ≡ true
sub_mono a b c d h k = ground (arith, -ℤ_parts a c, -ℤ_parts b d)

sub_sign : (a b : ℤ) → leb_ℤ a b ≡ leb_ℤ (a -ℤ b) (pos 0)
sub_sign a b = ground (arith, -ℤ_parts a b)

nought_mul : (a : ℤ) → fixed_mul (pos 0) a ≡ pos 0
unfolding fixed_mul
nought_mul (pos a) = ground arith
nought_mul (negsuc a) = ground arith

add_nought : (a : ℤ) → a +ℤ pos 0 ≡ a
unfolding ◌+ℤ◌
add_nought a = ground arith

quotient_mono : (a b c : ℕ) → a ≤ b → a * 1000 / c ≤ b * 1000 / c
quotient_mono a b zero h = rw (div-zero (a * 1000)) (omega arith)
quotient_mono a b (suc c) h =
    scaled_div_mono a (suc c) b (suc c) (omega arith) (omega arith) (mul-le-mul_right (suc c) h)

div_mono : (a b c : ℤ) → leb_ℤ a b ≡ true → leb_ℤ (fixed_div a c) (fixed_div b c) ≡ true
unfolding fixed_div
div_mono (pos a) (pos b) c h = ground (arith, quotient_mono a b (magnitude c))
div_mono (pos a) (negsuc b) c h = ground arith
div_mono (negsuc a) (pos b) c h = ground arith
div_mono (negsuc a) (negsuc b) c h = ground (arith, quotient_mono (suc b) (suc a) (magnitude c))

fixed_mul_comm : (a b : ℤ) → leb_ℤ (fixed_mul a b) (fixed_mul b a) ≡ true
unfolding fixed_mul
fixed_mul_comm (pos a) (pos b) = ground (arith, mul_comm a b)
fixed_mul_comm (pos a) (negsuc b) = ground (arith, mul_comm a (suc b))
fixed_mul_comm (negsuc a) (pos b) = ground (arith, mul_comm (suc a) b)
fixed_mul_comm (negsuc a) (negsuc b) = ground (arith, mul_comm (suc a) (suc b))

div_nonneg :
    (a : ℤ) (k : ℕ)
    → leb_ℤ (pos 0) a ≡ true
    → leb_ℤ (pos 0) (fixed_div a (pos (k * 1000 / 1))) ≡ true
unfolding fixed_div
div_nonneg (pos a) k h = ground arith
div_nonneg (negsuc a) k h = ground arith

div_self :
    (k : ℕ) → 0 < k → leb_ℤ (fixed_div (pos (k * 1000 / 1)) (pos (k * 1000 / 1))) (pos 1000) ≡ true
unfolding fixed_div
div_self k h =
    let x = k * 1000 / 1 in
    let positive : 0 < x = omega arith in
    let below : x * 1000 / x * x ≤ 1000 * x = omega (arith, div-mul-le_self (x * 1000) x) in
    let bound : x * 1000 / x ≤ 1000 = le_of_mul-le-mul_right below positive in ground arith

instance pub fixed_laws : IsOrdered ℤ
fixed_laws = record {
  le_refl = λ a. ground arith;
  le_trans = λ a b c h k. ground arith;
  le_total = λ a b. ground arith;
  lit_mono = lit_mono;
  add_mono = add_mono;
  sub_mono = sub_mono;
  mul_mono = mul_mono;
  mul_nonneg = mul_nonneg;
  mul_shrinks = mul_shrinks;
  sub_nonpos = λ a b h. sym (sub_sign a b) ∙ h;
  sub_nonneg = λ a b h. ground (arith, -ℤ_parts a b);
  sub_pos = λ a b h. sub_sign a b ∙ h;
  add_comm = λ a b. ground (arith, +ℤ_parts a b, +ℤ_parts b a);
  mul_comm = fixed_mul_comm;
  add-nought-le = λ a. rw (add_nought a) (ground arith);
  le-add-nought = λ a. rw (add_nought a) (ground arith);
  sub-nought-le = λ a. ground (arith, -ℤ_parts a (pos 0));
  nought_mul-le = λ a. rw (nought_mul a) (ground arith);
  le-nought_mul = λ a. rw (nought_mul a) (ground arith);
  div_mono = λ a b k _ h. div_mono a b (pos (k * 1000 / 1)) h;
  div_nonneg = λ a k _ h. div_nonneg a k h;
  div_self = div_self;
}

instance abbrev pub fixed_conversion : Conversion ℤ ℤ
fixed_conversion = record { to_decimal = λ a. a; to_float = λ a. a }

instance pub fixed_monotone : IsMonotone ℤ ℤ
fixed_monotone = record {
  to_decimal_mono = λ a b h. h;
  to_float_mono = λ a b h. h;
  to_decimal_nought = ground arith;
  to_decimal_one = ground arith;
}
