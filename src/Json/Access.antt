-- ===== src/Json/Access.antt =====
-- A JSON object as a Python dict, and the truth of a value.
use cachepilot.Prelude.{
  String, ◌≡◌, refl, Bool, true, false, not, Option, none, some, List, [], ◌∷◌, arith, str_eq,
  eq_iff, is_some, zero, suc, if◌then◌else◌,
}
use cachepilot.Prelude.TextSet.{text_le}
use cachepilot.Prelude.Int.{pos, negsuc}
use cachepilot.Json.{
  Json, null, bool, int, float, text, arr, obj, Items, nil, cons, Fields, end, field,
}

-- `d.get(k)`
unfoldable pub get_field : String → Fields → Option Json
get_field k end = none
get_field k (field j v d) = if str_eq j k then some v else get_field k d

-- `d[k] = v`: a present key keeps its place.
unfoldable pub put_field : String → Json → Fields → Fields
put_field k v end = field k v end
put_field k v (field j w d) = if str_eq j k then field k v d else field j w (put_field k v d)

-- `k in d`
abbrev pub has_field : String → Fields → Bool
has_field k d = is_some (get_field k d)

unfoldable pub items : Items → List Json
items nil = []
items (cons v vs) = v ∷ items vs

unfoldable pub of_list : List Json → Items
of_list [] = nil
of_list (v ∷ vs) = cons v (of_list vs)

-- `bool(value)`; `is_zero` says which number literals are zero.
abbrev pub truthy : (is_zero : String → Bool) → Json → Bool
truthy is_zero null = false
truthy is_zero (bool b) = b
truthy is_zero (int (pos n)) = elim n [ zero ↦ false | suc _ ↦ true ]
truthy is_zero (int (negsuc n)) = true
truthy is_zero (float literal) = not (is_zero literal)
truthy is_zero (text s) = not (str_eq s "")
truthy is_zero (arr nil) = false
truthy is_zero (arr (cons _ _)) = true
truthy is_zero (obj end) = false
truthy is_zero (obj (field _ _ _)) = true

-- `value if value else default`, with no value for a missing key.
abbrev pub or_else : (is_zero : String → Bool) → Option Json → Option Json → Option Json
or_else is_zero none default = default
or_else is_zero (some v) default = if truthy is_zero v then some v else default

pub get-put_field :
    (j k : String) (v : Json) (d : Fields)
    → get_field j (put_field k v d) ≡ (if str_eq k j then some v else get_field j d)
unfolding get_field put_field
get-put_field j k v end = refl
get-put_field j k v (field i w d) =
    ground (arith, eq_iff k j, eq_iff i k, eq_iff i j, get-put_field j k v d)

-- The fields in the order of their names, as `sort_keys=True` writes them.
unfoldable insert_field : String → Json → Fields → Fields
insert_field k v end = field k v end
insert_field k v (field j w d) =
    let rest = insert_field k v d in if text_le k j then field k v (field j w d) else field j w rest

unfoldable pub sort_fields : Fields → Fields
unfolding insert_field
sort_fields end = end
sort_fields (field k v d) = insert_field k v (sort_fields d)
