-- ===== src/Churn/Text.antt =====
-- Where two texts part, and the window that a diagnostic shows.
use Prim.Native.String.{String, [], ◌∷◌, ◌++◌, count}
use package.text.Mathlib.TextLemmas.{length-nil, length-cons}
use cachepilot.Prelude.{ℕ, zero, suc, ◌+◌, ◌-◌, ◌≤◌, ◌≡◌, sym, ltb, arith, if◌then◌else◌}
use cachepilot.Prelude.Cut.{is_char}

-- `_first_differing_index`, which is `_common_prefix_length`.
unfoldable pub first_differing_index : String → String → ℕ
first_differing_index [] t = 0
first_differing_index (c ∷ s) [] = 0
first_differing_index (c ∷ s) (d ∷ t) =
    let rest = first_differing_index s t in if is_char c d then suc rest else 0

-- `text[:n]` and `text[n:]`
unfoldable pub take_chars : ℕ → String → String
take_chars zero s = []
take_chars (suc n) [] = []
take_chars (suc n) (c ∷ s) = c ∷ take_chars n s

unfoldable pub drop_chars : ℕ → String → String
drop_chars zero s = s
drop_chars (suc n) [] = []
drop_chars (suc n) (c ∷ s) = drop_chars n s

-- `text[max(0, at - radius) : min(len(text), at + radius)]`
abbrev pub window : ℕ → ℕ → String → String
window radius at s = drop_chars (at - radius) (take_chars (at + radius) s)

-- `_snippet`
unfoldable pub snippet : String → ℕ → String
unfolding take_chars drop_chars
snippet s offset =
    let head = if ltb 0 (offset - 40) then "…" else "" in
    let tail = if ltb (offset + 40) (count s) then "…" else "" in
    head ++ (window 40 offset s ++ tail)

-- Two texts part no later than they end, and a text does not part from itself.
pub first_differing_index-le : (s t : String) → first_differing_index s t ≤ count s
unfolding first_differing_index
first_differing_index-le [] t = omega arith
first_differing_index-le (c ∷ s) [] = omega arith
first_differing_index-le (c ∷ s) (d ∷ t) =
    ground (arith, length-cons c s, first_differing_index-le s t)

pub first_differing_index_refl : (s : String) → first_differing_index s s ≡ count s
unfolding first_differing_index
first_differing_index_refl [] = sym length-nil
first_differing_index_refl (c ∷ s) = ground (arith, length-cons c s, first_differing_index_refl s)
