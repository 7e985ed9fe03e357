-- ===== src/History/Merging.antt =====
-- What `MultiTreeRef` (src/internal/multi-tree-ref.ts) relies on of `distinct` of the iteration
-- library, and what its merge function makes of the trees of a key.
use nodejs_proto_cache.Prelude.{
  ◌≡◌, refl, sym, ◌∙◌, ap, inl, inr, Bool, false, ◌||◌, Bool-cases, Option, none, some, List, [],
  ◌∷◌, ◌++◌, append_assoc, append-nil, if◌then◌else◌,
}
use nodejs_proto_cache.Keys.{Text, text_eq}
use nodejs_proto_cache.Tree.{Tree}
use nodejs_proto_cache.History.{KeyTrees, DistinctBy, own_key, merge_trees}

module _ {A : Type 0} (key : A → Text) where
  -- The elements of a key, and the first one.
  unfoldable pub with_key : Text → List A → List A
  with_key k [] = []
  with_key k (x ∷ xs) = let rest = with_key k xs in if text_eq (key x) k then x ∷ rest else rest

  unfoldable pub first_with : Text → List A → Option A
  first_with k [] = none
  first_with k (x ∷ xs) = let rest = first_with k xs in if text_eq (key x) k then some x else rest

-- An element with others put into it, one after the other.
unfoldable pub put_into : {A : Type 0} → (A → A → A) → A → List A → A
put_into merge a [] = a
put_into merge a (b ∷ bs) = put_into merge (merge a b) bs

abbrev pub merged : {A : Type 0} → (A → A → A) → List A → Option A
merged merge [] = none
merged merge (a ∷ rest) = some (put_into merge a rest)

-- With any function that keeps the key of its first argument, `distinct` gives for each key the first
-- element of that key, into which the later ones were put in their order.
abbrev pub MergesInOrder : {A : Type 0} → DistinctBy A → Type 0
MergesInOrder {A} distinct =
    (key : A → Text) (merge : A → A → A) (xs : List A) (k : Text)
    → ((a b : A) → key (merge a b) ≡ key a)
    → first_with key k (distinct key merge xs) ≡ merged merge (with_key key k xs)

module _ {R : Type 0} where
  -- The trees of a key, in order.
  unfoldable pub trees_under : Text → List (KeyTrees R) → List (Tree R)
  trees_under k [] = []
  trees_under k ((j, trees) ∷ rest) = (if text_eq j k then trees else []) ++ trees_under k rest

  unfoldable pub has_key : Text → List (KeyTrees R) → Bool
  has_key k [] = false
  has_key k ((j, trees) ∷ rest) = text_eq j k || has_key k rest

  unfoldable pub find_key : List (KeyTrees R) → Text → Option (List (Tree R))
  find_key [] k = none
  find_key ((j, trees) ∷ rest) k = if text_eq j k then some trees else find_key rest k

  -- A key that is there is there with all its trees, in order.
  abbrev pub Merges : (List (KeyTrees R) → List (KeyTrees R)) → Type 0
  Merges put_together =
      (xs : List (KeyTrees R)) (k : Text)
      → find_key (put_together xs) k ≡ (if has_key k xs then some (trees_under k xs) else none)

  abbrev trees_of : Option (KeyTrees R) → Option (List (Tree R))
  trees_of none = none
  trees_of (some (k, trees)) = some trees

  find_key-first_with :
      (k : Text) (xs : List (KeyTrees R)) → find_key xs k ≡ trees_of (first_with own_key k xs)
  unfolding find_key first_with
  find_key-first_with k [] = refl
  find_key-first_with k ((j, trees) ∷ xs) = elim (Bool-cases (text_eq j k)) [
    | inl same ↦ rw same refl
    | inr other ↦ rw other (find_key-first_with k xs)
  ]

  put_into-merge_trees :
      (k j : Text) (trees : List (Tree R)) (xs : List (KeyTrees R))
      → put_into merge_trees (j, trees) (with_key own_key k xs) ≡ (j, trees ++ trees_under k xs)
  unfolding put_into with_key trees_under merge_trees
  put_into-merge_trees k j trees [] = ap (λ (ts : List (Tree R)). (j, ts)) (sym (append-nil trees))
  put_into-merge_trees k j trees ((i, more) ∷ xs) = elim (Bool-cases (text_eq i k)) [
    | inl same ↦ rw same (
        put_into-merge_trees k j (trees ++ more) xs
        ∙ ap (λ (ts : List (Tree R)). (j, ts)) (append_assoc trees more (trees_under k xs)))
    | inr other ↦ rw other (put_into-merge_trees k j trees xs)
  ]

  merged-merge_trees :
      (k : Text) (xs : List (KeyTrees R))
      → trees_of (merged merge_trees (with_key own_key k xs))
        ≡ (if has_key k xs then some (trees_under k xs) else none)
  unfolding with_key has_key trees_under
  merged-merge_trees k [] = refl
  merged-merge_trees k ((j, trees) ∷ xs) = elim (Bool-cases (text_eq j k)) [
    | inl same ↦
        rw same (ap (λ (x : KeyTrees R). trees_of (some x)) (put_into-merge_trees k j trees xs))
    | inr other ↦ rw other (merged-merge_trees k xs)
  ]

  pub Merges-merge_trees :
      (distinct : DistinctBy (KeyTrees R))
      → MergesInOrder distinct
      → Merges (distinct own_key merge_trees)
  unfolding merge_trees
  Merges-merge_trees distinct merges xs k =
      find_key-first_with k (distinct own_key merge_trees xs)
      ∙ ap trees_of (merges own_key merge_trees xs k (λ a b. refl))
      ∙ merged-merge_trees k xs
