-- ===== src/Dict.antt =====
-- A Python dict with text keys: an association list in insertion order.
pub mod Laws
use cachepilot.Prelude.{
  ℕ, String, ◌≡◌, Bool, true, false, ◌||◌, Option, none, some, List, [], ◌∷◌, map, str_eq, is_some,
  if◌then◌else◌,
}

abbrev pub Dict {ℓ} : Type ℓ → Type ℓ
Dict V = List (String × V)

module _ {ℓ} {V : Type ℓ} where
  -- `d.get(k)`
  unfoldable pub lookup : String → Dict V → Option V
  lookup k [] = none
  lookup k ((j, v) ∷ d) = if str_eq j k then some v else lookup k d

  -- `d[k] = v`: a present key keeps its place.
  unfoldable pub insert : String → V → Dict V → Dict V
  insert k v [] = (k, v) ∷ []
  insert k v ((j, w) ∷ d) = if str_eq j k then (k, v) ∷ d else (j, w) ∷ insert k v d

  -- `d.pop(k, None)`: the entry of a key that occurs once, and every one if it occurred more often.
  unfoldable pub erase : String → Dict V → Dict V
  erase k [] = []
  erase k ((j, v) ∷ d) = let rest = erase k d in if str_eq j k then rest else (j, v) ∷ rest

  -- `list(d)`
  abbrev pub keys : Dict V → List String
  keys = map λ e. e.0

  -- `d.values()`
  abbrev pub values : Dict V → List V
  values = map λ e. e.1

  -- `k in d`
  abbrev pub has : String → Dict V → Bool
  has k d = is_some (lookup k d)

  -- The entries whose key passes a test.
  unfoldable pub keep : (String → Bool) → Dict V → Dict V
  keep test [] = []
  keep test ((j, v) ∷ d) = let rest = keep test d in if test j then (j, v) ∷ rest else rest

  -- A dict comprehension over entries in which a name may come again: the first place stays, and the last
  -- value.
  unfoldable pub into_dict : List (String × V) → Dict V → Dict V
  unfolding insert
  into_dict [] seen = seen
  into_dict ((k, v) ∷ d) seen = into_dict d (insert k v seen)

  -- The value of the last entry of a name.
  unfoldable pub last_value : String → List (String × V) → Option V
  last_value k [] = none
  last_value k ((j, v) ∷ d) = elim (last_value k d) [
    | some w ↦ some w
    | none ↦ if str_eq j k then some v else none
  ]
