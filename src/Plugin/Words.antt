-- ===== src/Plugin/Words.antt =====
-- duration_history.py: the parts of a token of a command line.
use Prim.Native.Char.{Char}
use Prim.Native.String.{String, [], ◌∷◌}
use mathlib.Core.Path.{subst}
use cachepilot.Prelude.{
  ℕ, suc, ◌≡◌, refl, Bool, true, false, ◌&&◌, ◌||◌, Option, none, some, arith, Bool-cases, inl, inr,
  if◌then◌else◌,
}
use cachepilot.Prelude.Cut.{is_char, before}

-- `c in token`
unfoldable pub has_char : Char → String → Bool
has_char c [] = false
has_char c (x ∷ s) = is_char c x || has_char c s

-- `token.startswith("-")` and `token.startswith("--")`
abbrev pub is_flag : String → Bool
is_flag [] = false
is_flag (c ∷ s) = is_char "-" c

abbrev pub is_long : String → Bool
is_long (c ∷ d ∷ s) = is_char "-" c && is_char "-" d
is_long _ = false

-- `token[:2]`
abbrev pub first_two : String → String
first_two (c ∷ d ∷ s) = c ∷ d ∷ []
first_two s = s

abbrev is_single : String → Bool
is_single (c ∷ []) = true
is_single _ = false

-- The name of a flag; the marker of the standard input has none.
unfoldable pub flag_name : String → Option String
unfolding has_char before
flag_name token =
    if has_char "=" token
    then some (before "=" token)
    else if is_long token
    then some token
    else if is_single token
    then none
    else some (first_two token)

before-has_char : (c : Char) (s : String) → has_char c (before c s) ≡ false
unfolding has_char before
before-has_char c [] = refl
before-has_char c (x ∷ s) = elim (Bool-cases (is_char c x)) [
  | inl same ↦ rw same refl
  | inr other ↦ rw (before, other) (rw (has_char, other) (before-has_char c s))
]

-- `len(s)`
unfoldable pub text_length : String → ℕ
text_length [] = 0
text_length (x ∷ s) = suc (text_length s)

-- What of a flag is stored: a flag without what is assigned to it, of a short flag without an equals
-- sign the dash and one letter, and of a long one without it the whole.
pub record IsNameOf (token name : String) : Type 0 where
  pub flag : is_flag name ≡ true
  pub unassigned : has_char "=" name ≡ false
  pub short : has_char "=" token ≡ false → is_long token ≡ false → text_length name ≡ 2
  pub long : has_char "=" token ≡ false → is_long token ≡ true → name ≡ token

before-is_flag : (s : String) → is_flag s ≡ true → is_flag (before "=" s) ≡ true
unfolding before
before-is_flag [] h = h
before-is_flag (c ∷ s) h = elim (Bool-cases (is_char "=" c)) [
  | inl same ↦ ground arith
  | inr other ↦ rw (before, other) h
]

first_two-IsNameOf :
    (t : String)
    → is_flag t ≡ true
    → has_char "=" t ≡ false
    → is_long t ≡ false
    → is_single t ≡ false
    → IsNameOf t (first_two t)
unfolding has_char text_length
first_two-IsNameOf [] h k m n = absurd (ground arith)
first_two-IsNameOf (c ∷ []) h k m n = absurd (ground arith)
first_two-IsNameOf (c ∷ d ∷ s) h k m n = record {
  flag = h;
  unassigned = ground arith;
  short = λ _ _. refl;
  long = λ _ e. absurd (ground arith);
}

pub flag_name-IsNameOf : (t n : String) → is_flag t ≡ true → flag_name t ≡ some n → IsNameOf t n
unfolding flag_name
flag_name-IsNameOf t n h e = elim (Bool-cases (has_char "=" t)) [
  | inl assigned ↦
      let is : before "=" t ≡ n = ground arith in
      subst (IsNameOf t) is (record {
        flag = before-is_flag t h;
        unassigned = before-has_char "=" t;
        short = λ k _. absurd (ground arith);
        long = λ k _. absurd (ground arith);
      })
  | inr bare ↦ elim (Bool-cases (is_long t)) [
    | inl whole ↦
        let is : t ≡ n = ground arith in
        subst (IsNameOf t) is (record {
          flag = h;
          unassigned = bare;
          short = λ _ k. absurd (ground arith);
          long = λ _ _. refl;
        })
    | inr dash ↦ elim (Bool-cases (is_single t)) [
      | inl single ↦ absurd (ground arith)
      | inr named ↦
          let is : first_two t ≡ n = ground arith in
          subst (IsNameOf t) is (first_two-IsNameOf t h bare dash named)
    ]
  ]
]
