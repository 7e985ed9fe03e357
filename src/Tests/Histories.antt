-- ===== src/Tests/Histories.antt =====
-- A tree with a history made of two trees, with a function that puts the elements of a key together.
use nodejs_proto_cache.Prelude.{
  ℕ, ◌≡◌, refl, ◌∙◌, ap, inl, inr, Bool, true, false, Bool-cases, Option, none, some, List, [], ◌∷◌,
  All, if◌then◌else◌,
}
use nodejs_proto_cache.Keys.{Text, text_eq, top}
use nodejs_proto_cache.Tree.{Tree, leaf, branch, nil, entry, has_property, current_value}
use nodejs_proto_cache.Tree.Writes.{text_eq_iff}
use nodejs_proto_cache.Prune.Spec.{Distinct}
use nodejs_proto_cache.History.{KeyTrees, new_multi_tree, find_multi, merge_trees}
use nodejs_proto_cache.History.Merging.{with_key, first_with, put_into, merged, MergesInOrder}
use nodejs_proto_cache.History.Paths.{value_of_found, live_values, find_multi-values}

module _ {A : Type 0} (key : A → Text) where
  -- The elements of other keys.
  unfoldable without : Text → List A → List A
  without j [] = []
  without j (x ∷ xs) = let rest = without j xs in if text_eq (key x) j then rest else x ∷ rest

  -- The first element of a key takes the later ones.
  unfoldable distinct_by : (A → A → A) → List A → List A
  distinct_by merge [] = []
  distinct_by merge (x ∷ xs) =
      put_into merge x (with_key key (key x) xs) ∷ without (key x) (distinct_by merge xs)

  first_with-without :
      (j k : Text) (xs : List A)
      → text_eq j k ≡ false
      → first_with key k (without j xs) ≡ first_with key k xs
  unfolding first_with without
  first_with-without j k [] e = refl
  first_with-without j k (x ∷ xs) e = elim (Bool-cases (text_eq (key x) j)) [
    | inl same ↦
        let other : text_eq (key x) k ≡ false =
          ap (λ (t : Text). text_eq t k) ((text_eq_iff (key x) j).0 same) ∙ e in
        rw (same, other) (first_with-without j k xs e)
    | inr apart ↦ rw apart (
        ap (λ (o : Option A). if text_eq (key x) k then some x else o)
          (first_with-without j k xs e))
  ]

  module _ (merge : A → A → A) (keeps : (a b : A) → key (merge a b) ≡ key a) where
    key-put_into : (x : A) (xs : List A) → key (put_into merge x xs) ≡ key x
    unfolding put_into
    key-put_into x [] = refl
    key-put_into x (y ∷ ys) = key-put_into (merge x y) ys ∙ keeps x y

    distinct_by-merged :
        (xs : List A) (k : Text)
        → first_with key k (distinct_by merge xs) ≡ merged merge (with_key key k xs)
    unfolding first_with with_key distinct_by
    distinct_by-merged [] k = refl
    distinct_by-merged (x ∷ xs) k =
        let head = put_into merge x (with_key key (key x) xs) in
        let test : text_eq (key head) k ≡ text_eq (key x) k =
          ap (λ (t : Text). text_eq t k) (key-put_into x (with_key key (key x) xs)) in
        elim (Bool-cases (text_eq (key x) k)) [
          | inl same ↦
              rw (test, same)
                (ap (λ (t : Text). some (put_into merge x (with_key key t xs)))
                  ((text_eq_iff (key x) k).0 same))
          | inr other ↦
              rw (test, other)
                (first_with-without (key x) k (distinct_by merge xs) other
                  ∙ distinct_by-merged xs k)
        ]

distinct_by-MergesInOrder : MergesInOrder {A = KeyTrees ℕ} distinct_by
distinct_by-MergesInOrder key merge xs k keeps = distinct_by-merged key merge keeps xs k

abbrev a : Text
a = b'a' ∷ []

abbrev old_and_new : List (Tree ℕ)
old_and_new =
    branch none none (entry a (leaf (some 1) none) nil)
    ∷ branch (some 7) none nil
    ∷ branch none none (entry a (leaf (some 2) (some 3)) nil)
    ∷ branch none none (entry a (leaf (some 4) none) nil)
    ∷ []

old_and_new-Distinct : All Distinct old_and_new
unfolding has_property
old_and_new-Distinct = ((refl, tt, tt), (tt, ((refl, tt, tt), ((refl, tt, tt), tt))))

abbrev any : ℕ → Bool
any n = true

history_values :
    value_of_found
      (find_multi any 5 distinct_by (new_multi_tree any 5 (some (top a 1)) old_and_new) (a ∷ []))
    ≡ 1 ∷ 4 ∷ []
unfolding find_multi distinct_by text_eq current_value with_key put_into without merge_trees
history_values = refl

find_multi-values_example :
    value_of_found
      (find_multi any 5 distinct_by (new_multi_tree any 5 (some (top a 1)) old_and_new) (a ∷ []))
    ≡ live_values any 5 (a ∷ []) old_and_new
find_multi-values_example =
    find_multi-values any 5 distinct_by distinct_by-MergesInOrder (a ∷ []) (some (top a 1))
      old_and_new old_and_new-Distinct
