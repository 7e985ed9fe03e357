-- ===== src/History/Paths.antt =====
-- Walking down a tree with a history (src/internal/multi-tree-ref.ts) by a path of keys.
use nodejs_proto_cache.Prelude.{
  ℕ, ◌≡◌, refl, sym, ◌∙◌, ap, ◌⊎◌, inl, inr, Bool, Bool-cases, Option-cases, ◌++◌, Option, none,
  some, List, [], ◌∷◌, All, if◌then◌else◌,
}
use mathlib.Core.Path.{subst, ap₂}
use nodejs_proto_cache.Keys.{Text, text_eq, ChainedObject, chained}
use nodejs_proto_cache.Tree.{Tree, entries_of, get_entry, current_value}
use nodejs_proto_cache.Tree.Paths.{find_tree, value_at}
use nodejs_proto_cache.Prune.Spec.{Distinct}
use nodejs_proto_cache.History.{
  MultiTree, KeyTrees, DistinctBy, keep_truthy, own_key, merge_trees,
  get_multi_tree_value_from_trees, new_multi_tree, all_key_trees, child_refs, multi_children,
  get_child_ref, find_multi,
}
use nodejs_proto_cache.History.Merging.{
  trees_under, has_key, find_key, MergesInOrder, Merges-merge_trees,
}
use nodejs_proto_cache.History.Views.{
  found_or_not, find_all, trees_under-absent, trees_under-all_key_trees, All-Distinct-find_all,
  find_all-nil, find_all-find_all,
}

-- The value of the node that was found, and no value if there is none.
abbrev pub value_of_found : {R : Type 0} → Option (MultiTree R) → List R
value_of_found none = []
value_of_found (some m) = m.value

module _ {R : Type 0} (truthy : R → Bool) (now : ℕ) where
  -- What a path leads to in one tree, if that is truthy.
  unfoldable pub live_value : Option R → List R
  live_value none = []
  live_value (some r) = if truthy r then r ∷ [] else []

  -- The truthy values that are current at a path, tree by tree.
  unfoldable pub live_values : List Text → List (Tree R) → List R
  live_values path [] = []
  live_values path (t ∷ trees) = live_value (value_at now t path) ++ live_values path trees

  value_at-find_tree :
      (path : List Text) (t : Tree R)
      → value_at now t path ≡ elim (find_tree t path) [ none ↦ none | some u ↦ current_value u now ]
  unfolding value_at find_tree
  value_at-find_tree [] t = refl
  value_at-find_tree (k ∷ path) t = elim (Option-cases (get_entry (entries_of t) k)) [
    | inl e ↦ rw (e, find_tree, value_at) refl
    | inr (u, e) ↦ rw (e, find_tree, value_at) (value_at-find_tree path u)
  ]

  keep_truthy-live_value :
      (o : Option R) (rest : List R) → keep_truthy truthy now o rest ≡ live_value o ++ rest
  unfolding live_value
  keep_truthy-live_value none rest = refl
  keep_truthy-live_value (some r) rest = elim (Bool-cases (truthy r)) [
    | inl kept ↦ rw kept refl
    | inr dropped ↦ rw dropped refl
  ]

  values-found :
      (o : Option (Tree R)) (trees : List (Tree R))
      → get_multi_tree_value_from_trees truthy now (found_or_not o ++ trees)
        ≡ live_value (elim o [ none ↦ none | some u ↦ current_value u now ])
          ++ get_multi_tree_value_from_trees truthy now trees
  unfolding get_multi_tree_value_from_trees live_value
  values-found none trees = refl
  values-found (some u) trees = keep_truthy-live_value (current_value u now) _

  values-find_all :
      (path : List Text) (trees : List (Tree R))
      → get_multi_tree_value_from_trees truthy now (find_all path trees) ≡ live_values path trees
  unfolding live_values find_all
  values-find_all path [] = unfold get_multi_tree_value_from_trees in refl
  values-find_all path (t ∷ trees) =
      values-found (find_tree t path) (find_all path trees)
      ∙ ap₂ ◌++◌ (ap live_value (sym (value_at-find_tree path t))) (values-find_all path trees)

module _ {R : Type 0} (truthy : R → Bool) (now : ℕ) (distinct : DistinctBy (KeyTrees R)) where
  abbrev put_together : List (KeyTrees R) → List (KeyTrees R)
  put_together = distinct own_key merge_trees

  -- A reference to the trees, at some node, or nothing where there are none.
  abbrev Leads : Option (MultiTree R) → List (Tree R) → Type 0
  Leads found trees =
      ((found ≡ none) × (trees ≡ []))
      ⊎ ((node_ref : Option ChainedObject) × (found
            ≡ some (new_multi_tree truthy now node_ref trees)))

  get_child_ref-none :
      (node_ref : Option ChainedObject) (xs : List (KeyTrees R)) (k : Text)
      → find_key xs k ≡ none
      → get_child_ref truthy now distinct (child_refs truthy now distinct node_ref xs) k ≡ none
  unfolding get_child_ref child_refs find_key
  get_child_ref-none node_ref [] k e = refl
  get_child_ref-none node_ref ((j, trees) ∷ xs) k e = elim (Bool-cases (text_eq j k)) [
    | inl same ↦ absurd (cc (sym (ap (λ b. if b then some trees else find_key xs k) same) ∙ e))
    | inr other ↦
        ap
          (λ b.
            if b
            then some (new_multi_tree truthy now (some (chained j 0 node_ref)) trees)
            else get_child_ref truthy now distinct (child_refs truthy now distinct node_ref xs) k)
          other
        ∙ get_child_ref-none node_ref xs k
            (sym (ap (λ b. if b then some trees else find_key xs k) other) ∙ e)
  ]

  get_child_ref-some :
      (node_ref : Option ChainedObject) (xs : List (KeyTrees R)) (k : Text) (found : List (Tree R))
      → find_key xs k ≡ some found
      → (own : Option ChainedObject) × (get_child_ref truthy now distinct
            (child_refs truthy now distinct node_ref xs)
            k
          ≡ some (new_multi_tree truthy now own found))
  unfolding get_child_ref child_refs find_key
  get_child_ref-some node_ref [] k found e = absurd (cc e)
  get_child_ref-some node_ref ((j, trees) ∷ xs) k found e = elim (Bool-cases (text_eq j k)) [
    | inl same ↦
        let own : Option ChainedObject = some (chained j 0 node_ref) in
        (
          own,
          ap
                (λ b.
                  if b
                  then some (new_multi_tree truthy now own trees)
                  else get_child_ref truthy now distinct
                      (child_refs truthy now distinct node_ref xs) k)
                same
              ∙ ap
                  (λ (o : Option (List (Tree R))).
                    some (new_multi_tree truthy now own (elim o [ none ↦ trees | some ts ↦ ts ])))
                  (sym (ap (λ b. if b then some trees else find_key xs k) same) ∙ e),
        )
    | inr other ↦
        let (own, rest) =
          get_child_ref-some node_ref xs k found
            (sym (ap (λ b. if b then some trees else find_key xs k) other) ∙ e) in
        (
          own,
          ap
                (λ b.
                  if b
                  then some (new_multi_tree truthy now (some (chained j 0 node_ref)) trees)
                  else get_child_ref truthy now distinct
                      (child_refs truthy now distinct node_ref xs) k)
                other
              ∙ rest,
        )
  ]

  -- A step down is a look-up among the children.
  find_multi-cons :
      (node_ref : Option ChainedObject) (trees : List (Tree R)) (k : Text) (path : List Text)
      → find_multi truthy now distinct (new_multi_tree truthy now node_ref trees) (k ∷ path)
        ≡ elim (get_child_ref truthy now distinct
            (child_refs truthy now distinct node_ref (put_together (all_key_trees trees)))
            k) [ none ↦ none | some child ↦ find_multi truthy now distinct child path ]
  unfolding find_multi new_multi_tree multi_children
  find_multi-cons node_ref trees k path = refl

  module _ (merges : MergesInOrder distinct) where
    Leads-find_multi :
        (path : List Text) (node_ref : Option ChainedObject) (trees : List (Tree R))
        → All Distinct trees
        → Leads
            (find_multi truthy now distinct (new_multi_tree truthy now node_ref trees) path)
            (find_all path trees)
    Leads-find_multi [] node_ref trees h = inr (
      node_ref,
      unfold find_multi in
          ap (λ (ts : List (Tree R)). some (new_multi_tree truthy now node_ref ts))
            (sym (find_all-nil trees)),
    )
    Leads-find_multi (k ∷ path) node_ref trees h =
        let all = all_key_trees trees in
        let under = find_all (k ∷ []) trees in
        let step = find_multi-cons node_ref trees k path in
        let listed = Merges-merge_trees distinct merges all k in
        elim (Bool-cases (has_key k all)) [
          | inl there ↦
              let found : find_key (put_together all) k ≡ some under =
                listed
                ∙ ap (λ b. if b then some (trees_under k all) else none) there
                ∙ ap some (trees_under-all_key_trees k trees h) in
              let (own, child) = get_child_ref-some node_ref (put_together all) k under found in
              let walked : find_multi truthy now distinct (new_multi_tree truthy now node_ref trees)
                    (k ∷ path)
                  ≡ find_multi truthy now distinct (new_multi_tree truthy now own under) path =
                step
                ∙ ap
                    (λ (o : Option (MultiTree R)). elim o [
                      | none ↦ none
                      | some c ↦ find_multi truthy now distinct c path
                    ])
                    child in
              subst (λ (found : Option (MultiTree R)). Leads found (find_all (k ∷ path) trees))
                (sym walked)
                (subst
                  (Leads
                    (find_multi truthy now distinct (new_multi_tree truthy now own under) path))
                  (find_all-find_all k path trees)
                  (Leads-find_multi path own under (All-Distinct-find_all k trees h)))
          | inr absent ↦
              let nothing : under ≡ [] =
                sym (trees_under-all_key_trees k trees h) ∙ trees_under-absent k all absent in
              let missing =
                get_child_ref-none node_ref (put_together all) k
                  (listed ∙ ap (λ b. if b then some (trees_under k all) else none) absent) in
              inl (
                step
                    ∙ ap
                        (λ (o : Option (MultiTree R)). elim o [
                          | none ↦ none
                          | some c ↦ find_multi truthy now distinct c path
                        ])
                        missing,
                sym (find_all-find_all k path trees)
                    ∙ ap (find_all path) nothing
                    ∙ (unfold find_all in refl),
              )
        ]

    value_of_found-Leads :
        (found : Option (MultiTree R)) (trees : List (Tree R))
        → Leads found trees
        → value_of_found found ≡ get_multi_tree_value_from_trees truthy now trees
    unfolding get_multi_tree_value_from_trees new_multi_tree
    value_of_found-Leads found trees (inl (e, nothing)) =
        ap value_of_found e ∙ sym (ap (get_multi_tree_value_from_trees truthy now) nothing)
    value_of_found-Leads found trees (inr (node_ref, e)) = ap value_of_found e

    -- For trees whose children have distinct keys, and a `distinct` of the iteration library that
    -- puts the later elements of a key into the first one, in order, by the function that it is
    -- given: the path leads, down the children that the reference puts together from all its trees,
    -- to the truthy ones of the values that are current at that path in each of the trees, in the
    -- order of the trees, and to no value if there is no such node.
    pub find_multi-values :
        (path : List Text) (node_ref : Option ChainedObject) (trees : List (Tree R))
        → All Distinct trees
        → value_of_found
            (find_multi truthy now distinct (new_multi_tree truthy now node_ref trees) path)
          ≡ live_values truthy now path trees
    find_multi-values path node_ref trees h =
        value_of_found-Leads _ (find_all path trees) (Leads-find_multi path node_ref trees h)
        ∙ values-find_all truthy now path trees
