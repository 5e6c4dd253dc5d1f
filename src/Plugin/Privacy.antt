-- ===== src/Plugin/Privacy.antt =====
-- What a stored signature can hold of a command line.
use cachepilot.Prelude.{◌≤◌, String, ◌≡◌, true, List, [], ◌∷◌, length, All, contains}
use cachepilot.Plugin.Words.{IsNameOf}
use cachepilot.Plugin.Signature.{Parts, is_safe}

-- Every entry of the first list is in the second.
abbrev IsWithin : List String → List String → Type 0
IsWithin ts all = All (λ t. contains t all ≡ true) ts

module _ (lower : String → String) where
  abbrev pub IsSafeTail : List String → Type 0
  IsSafeTail [] = Unit
  IsSafeTail (w ∷ ws) = All (λ v. is_safe lower v ≡ true) ws

  -- What is stored of a flag among the tokens.
  abbrev pub IsNamed : List String → String → Type 0
  IsNamed tokens n = (t : String) × (contains t tokens ≡ true) × IsNameOf t n

  -- At most three words, of which all but the first are known words, and flags by name only.
  pub record IsPersistable (tokens : List String) (p : Parts) : Type 0 where
    pub short : length p.family ≤ 3
    pub known : IsSafeTail p.family
    pub named : All (IsNamed tokens) p.flags
