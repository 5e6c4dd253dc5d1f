-- ===== src/Dict/Laws.antt =====
-- How the operations of a dict act on its lookups.
use cachepilot.Prelude.{
  ◌+◌, length, String, ◌≡◌, refl, ◌≢◌, Bool, none, some, List, [], ◌∷◌, arith, str_eq, Bool-cases,
  inl, inr, eq_iff, eq_refl, is_none, not, contains, if◌then◌else◌,
}
use cachepilot.Dict.{Dict, lookup, insert, erase, keys, keep, has, into_dict, last_value}

module _ {ℓ} {V : Type ℓ} where
  pub lookup-insert :
      (k j : String) (v : V) (d : Dict V)
      → lookup j (insert k v d) ≡ (if str_eq k j then some v else lookup j d)
  unfolding lookup insert
  lookup-insert k j v [] = refl
  lookup-insert k j v ((i, w) ∷ d) =
      ground (arith, eq_iff k j, eq_iff i k, eq_iff i j, lookup-insert k j v d)

  pub lookup-insert_self : (k : String) (v : V) (d : Dict V) → lookup k (insert k v d) ≡ some v
  lookup-insert_self k v d = simp (lookup-insert, eq_refl)

  pub lookup-insert_ne :
      (k j : String) (v : V) (d : Dict V) → k ≢ j → lookup j (insert k v d) ≡ lookup j d
  lookup-insert_ne k j v d h = ground (arith, lookup-insert k j v d, eq_iff k j)

  pub lookup-erase :
      (k j : String) (d : Dict V) → lookup j (erase k d) ≡ (if str_eq k j then none else lookup j d)
  unfolding lookup erase
  lookup-erase k j [] = ground arith
  lookup-erase k j ((i, w) ∷ d) =
      ground (arith, eq_iff k j, eq_iff i k, eq_iff i j, lookup-erase k j d)

  pub lookup-keep :
      (test : String → Bool) (j : String) (d : Dict V)
      → lookup j (keep test d) ≡ (if test j then lookup j d else none)
  unfolding lookup keep
  lookup-keep test j [] = ground arith
  lookup-keep test j ((i, w) ∷ d) = elim (Bool-cases (str_eq i j)) [
    | inl same ↦ rw ((eq_iff i j).0 same) (ground (arith, lookup-keep test j d, eq_refl j))
    | inr other ↦ ground (arith, lookup-keep test j d)
  ]

  -- A key that is found is among the keys.
  pub contains-keys : (j : String) (d : Dict V) → is_none (lookup j d) ≡ not (contains j (keys d))
  unfolding lookup
  contains-keys j [] = refl
  contains-keys j ((i, w) ∷ d) = ground (arith, contains-keys j d)

  pub length-insert :
      (k : String) (v : V) (d : Dict V)
      → length (insert k v d) ≡ (if has k d then length d else length d + 1)
  unfolding insert lookup
  length-insert k v [] = omega arith
  length-insert k v ((j, w) ∷ d) = ground (arith, length-insert k v d)

  lookup-into_dict :
      (k : String) (d : List (String × V)) (seen : Dict V)
      → lookup k (into_dict d seen)
        ≡ (elim (last_value k d) [ some v ↦ some v | none ↦ lookup k seen ])
  unfolding into_dict last_value
  lookup-into_dict k [] seen = refl
  lookup-into_dict k ((j, v) ∷ d) seen =
      ground (arith, lookup-into_dict k d (insert j v seen), lookup-insert j k v seen)

  last_value-keep :
      (test : String → Bool) (j : String) (d : List (String × V))
      → last_value j (keep test d) ≡ (if test j then last_value j d else none)
  unfolding last_value keep
  last_value-keep test j [] = ground arith
  last_value-keep test j ((i, w) ∷ d) = elim (Bool-cases (str_eq i j)) [
    | inl same ↦ rw ((eq_iff i j).0 same) (ground (arith, last_value-keep test j d, eq_refl j))
    | inr other ↦ ground (arith, last_value-keep test j d)
  ]

  -- What the dict of the entries that pass holds: of each name that passes the last value.
  pub lookup-filtered :
      (test : String → Bool) (j : String) (d : List (String × V))
      → lookup j (into_dict (keep test d) []) ≡ (if test j then last_value j d else none)
  unfolding lookup
  lookup-filtered test j d =
      ground (arith, lookup-into_dict j (keep test d) [], last_value-keep test j d)
