-- ===== src/Identity/ToolSet.antt =====
-- The digest of a set of tools forgets their order and repetition.
use cachepilot.Prelude.{
  String, ◌≡◌, refl, sym, ap, ◌∙◌, true, some, List, [], ◌∷◌, map, arith, str_eq, eq_iff, eq_refl,
  contains, Bool-cases, inl, inr,
}
use cachepilot.Prelude.TextSet.{insert_text, sorted_set, insert_swap, insert_again}
use cachepilot.Json.{Json}
use cachepilot.Python.{Python}
use cachepilot.Identity.{hash_content, join, set_hash, tools_set_hash}

-- The texts of a list, put into a set one by one.
abbrev add_all : List String → List String → List String
add_all [] s = s
add_all (x ∷ xs) s = insert_text x (add_all xs s)

add_all_insert :
    (x : String) (xs s : List String) → add_all xs (insert_text x s) ≡ insert_text x (add_all xs s)
add_all_insert x [] s = refl
add_all_insert x (y ∷ ys) s =
    ap (insert_text y) (add_all_insert x ys s) ∙ insert_swap y x (add_all ys s)

-- Two lists go into one set in either order.
add_all_swap : (xs ys : List String) → add_all xs (sorted_set ys) ≡ add_all ys (sorted_set xs)
unfolding sorted_set
add_all_swap [] [] = refl
add_all_swap [] (y ∷ ys) = ap (insert_text y) (add_all_swap [] ys)
add_all_swap (x ∷ xs) ys =
    ap (insert_text x) (add_all_swap xs ys) ∙ sym (add_all_insert x ys (sorted_set xs))

-- A text of a list is already in its set.
insert_member :
    (x : String) (ys : List String)
    → contains x ys ≡ true
    → insert_text x (sorted_set ys) ≡ sorted_set ys
unfolding sorted_set
insert_member x [] h = ground arith
insert_member x (y ∷ ys) h = elim (Bool-cases (str_eq y x)) [
  | inl same ↦ rw ((eq_iff y x).0 same) (insert_again x (sorted_set ys))
  | inr other ↦
      let rest : contains x ys ≡ true = ground arith in
      insert_swap x y (sorted_set ys) ∙ ap (insert_text y) (insert_member x ys rest)
]

add_subset :
    (xs ys : List String)
    → ((t : String) → contains t xs ≡ true → contains t ys ≡ true)
    → add_all xs (sorted_set ys) ≡ sorted_set ys
add_subset [] ys h = refl
add_subset (x ∷ xs) ys h =
    let here : contains x (x ∷ xs) ≡ true = ground (arith, eq_refl x) in
    ap (insert_text x) (add_subset xs ys λ t k. h t (ground arith)) ∙ insert_member x ys (h x here)

sorted_set_ext :
    (xs ys : List String)
    → ((t : String) → contains t xs ≡ contains t ys)
    → sorted_set xs ≡ sorted_set ys
sorted_set_ext xs ys h =
    sym (add_subset ys xs λ t k. h t ∙ k)
    ∙ add_all_swap ys xs
    ∙ add_subset xs ys λ t k. sym (h t) ∙ k

module _ {F D : Type 0} (py : Python F D) where
  -- Two lists of tools with the same serializations among them have one set digest, in whatever
  -- order and however often each tool is listed.
  pub tools_set_hash_ext :
      (tools others : List Json)
      → ((t : String) → contains t (map py.dumps tools) ≡ contains t (map py.dumps others))
      → tools_set_hash py (some tools) ≡ tools_set_hash py (some others)
  unfolding tools_set_hash set_hash hash_content
  tools_set_hash_ext tools others h =
      ap (λ s. py.sha256 (join "\u{1f}" s))
        (sorted_set_ext (map py.dumps tools) (map py.dumps others) h)
