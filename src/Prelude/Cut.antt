-- ===== src/Prelude/Cut.antt =====
-- Cutting a text at a character or a separator: `split`, `rsplit` and `partition` of Python.
use Prim.Native.Char.{Char, code}
use Prim.Native.String.{String, [], ◌∷◌}
use mathlib.Core.Bool.{Bool, ◌&&◌, ◌||◌}
use mathlib.Core.Option.{Option, none, some}
use mathlib.Core.List.{List, [], ◌∷◌}
use text.Mathlib.Text.{◌==◌ as str_eq}
use cachepilot.Prelude.Tests.{◌==◌, if◌then◌else◌}

abbrev pub is_char : Char → Char → Bool
is_char c d = code c == code d

-- `s.split(c, 1)[0]`
unfoldable pub before : Char → String → String
before c [] = []
before c (x ∷ s) = let rest = before c s in if is_char c x then [] else x ∷ rest

-- The text from the first `c` on.
unfoldable pub from : Char → String → String
from c [] = []
from c (x ∷ s) = let rest = from c s in if is_char c x then x ∷ s else rest

-- `s.rsplit(c, 1)`, where `c` occurs in `s`.
unfoldable pub cut_last : Char → String → Option (String × String)
cut_last c [] = none
cut_last c (x ∷ s) = elim (cut_last c s) [
  | some (front, back) ↦ some (x ∷ front, back)
  | none ↦ if is_char c x then some ([], s) else none
]

-- `s.rsplit(c, 1)[0]` and `s.rsplit(c, 1)[-1]`
abbrev pub before_last : Char → String → String
before_last c s = elim (cut_last c s) [ none ↦ s | some (front, back) ↦ front ]

abbrev pub after_last : Char → String → String
after_last c s = elim (cut_last c s) [ none ↦ s | some (front, back) ↦ back ]

abbrev strip_slashes : String → Option String
strip_slashes (c ∷ d ∷ e ∷ s) =
    if is_char ":" c && (is_char "/" d && is_char "/" e) then some s else none
strip_slashes _ = none

-- `s.partition("://")`, where the separator occurs in `s`.
unfoldable pub cut_scheme : String → Option (String × String)
cut_scheme [] = none
cut_scheme (x ∷ s) =
    let rest = cut_scheme s in
    elim (strip_slashes (x ∷ s)) [
      | some t ↦ some ([], t)
      | none ↦ elim rest [ none ↦ none | some (front, back) ↦ some (x ∷ front, back) ]
    ]

-- `s.endswith(t)`
unfoldable pub ends_with : String → String → Bool
ends_with [] t = str_eq [] t
ends_with (x ∷ s) t = str_eq (x ∷ s) t || ends_with s t

abbrev into_first : Char → List String → List String
into_first x (t ∷ ts) = (x ∷ t) ∷ ts
into_first x [] = (x ∷ []) ∷ []

-- `s.split(c)`
unfoldable pub split_on : Char → String → List String
split_on c [] = [] ∷ []
split_on c (x ∷ s) = let rest = split_on c s in if is_char c x then [] ∷ rest else into_first x rest

-- `s.lstrip(c)`
unfoldable pub strip_left : Char → String → String
strip_left c [] = []
strip_left c (x ∷ s) = let rest = strip_left c s in if is_char c x then rest else x ∷ s

-- `s.rstrip(c)`
unfoldable pub strip_right : Char → String → String
strip_right c [] = []
strip_right c (x ∷ s) =
    let rest = strip_right c s in if is_char c x && str_eq rest "" then [] else x ∷ rest
