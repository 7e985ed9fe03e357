-- ===== src/History/Views.antt =====
-- What a path leads to in a tree with a history (src/internal/multi-tree-ref.ts).
use nodejs_proto_cache.Prelude.{
  ◌≡◌, refl, sym, ◌∙◌, ap, inl, inr, Bool, false, ◌||◌, Bool-cases, Option, none, some,
  Option-cases, List, [], ◌∷◌, ◌++◌, append_assoc, append-nil, All, if◌then◌else◌,
}
use mathlib.Core.Path.{subst, ap₂}
use nodejs_proto_cache.Keys.{Text, text_eq}
use nodejs_proto_cache.Tree.{
  Tree, Entries, leaf, branch, nil, entry, hole, children_of, entries_of, get_entry, has_property,
}
use nodejs_proto_cache.Tree.Paths.{find_tree}
use nodejs_proto_cache.Tree.Writes.{text_eq_iff}
use nodejs_proto_cache.Prune.Spec.{Distinct, DistinctEntries}
use nodejs_proto_cache.History.Merging.{trees_under, has_key}
use nodejs_proto_cache.History.{KeyTrees, key_trees, all_key_trees}

module _ {R : Type 0} where
  abbrev pub found_or_not : Option (Tree R) → List (Tree R)
  found_or_not none = []
  found_or_not (some t) = t ∷ []

  -- The subtrees at a path of those trees that have it.
  unfoldable pub find_all : List Text → List (Tree R) → List (Tree R)
  find_all path [] = []
  find_all path (t ∷ trees) = found_or_not (find_tree t path) ++ find_all path trees

  trees_under-append :
      (k : Text) (xs ys : List (KeyTrees R))
      → trees_under k (xs ++ ys) ≡ trees_under k xs ++ trees_under k ys
  unfolding trees_under
  trees_under-append k [] ys = refl
  trees_under-append k ((j, trees) ∷ xs) ys =
      ap (λ (zs : List (Tree R)). (if text_eq j k then trees else []) ++ zs)
        (trees_under-append k xs ys)
      ∙ sym (append_assoc (if text_eq j k then trees else []) (trees_under k xs) (trees_under k ys))

  trees_under-fresh :
      (k : Text) (es : Entries R) → has_property es k ≡ false → trees_under k (key_trees es) ≡ []
  unfolding trees_under key_trees has_property
  trees_under-fresh k nil e = refl
  trees_under-fresh k (entry j t es) e = elim (Bool-cases (text_eq j k)) [
    | inl same ↦ absurd (cc (sym (ap (λ (b : Bool). b || has_property es k) same) ∙ e))
    | inr other ↦
        ap (λ (b : Bool). (if b then t ∷ [] else []) ++ trees_under k (key_trees es)) other
        ∙ trees_under-fresh k es (sym (ap (λ (b : Bool). b || has_property es k) other) ∙ e)
  ]
  trees_under-fresh k (hole j es) e = elim (Bool-cases (text_eq j k)) [
    | inl same ↦ absurd (cc (sym (ap (λ (b : Bool). b || has_property es k) same) ∙ e))
    | inr other ↦ trees_under-fresh k es (sym (ap (λ (b : Bool). b || has_property es k) other) ∙ e)
  ]

  trees_under-key_trees :
      (k : Text) (es : Entries R)
      → DistinctEntries es
      → trees_under k (key_trees es) ≡ found_or_not (get_entry es k)
  unfolding trees_under key_trees get_entry
  trees_under-key_trees k nil d = refl
  trees_under-key_trees k (entry j t es) d = elim (Bool-cases (text_eq j k)) [
    | inl same ↦
        let fresh : has_property es k ≡ false =
          ap (has_property es) (sym ((text_eq_iff j k).0 same)) ∙ d.0 in
        ap (λ (b : Bool). (if b then t ∷ [] else []) ++ trees_under k (key_trees es)) same
        ∙ ap (◌∷◌ t) (trees_under-fresh k es fresh)
        ∙ sym (ap (λ (b : Bool). found_or_not (if b then some t else get_entry es k)) same)
    | inr other ↦
        ap (λ (b : Bool). (if b then t ∷ [] else []) ++ trees_under k (key_trees es)) other
        ∙ trees_under-key_trees k es d.2
        ∙ sym (ap (λ (b : Bool). found_or_not (if b then some t else get_entry es k)) other)
  ]
  trees_under-key_trees k (hole j es) d = elim (Bool-cases (text_eq j k)) [
    | inl same ↦
        let fresh : has_property es k ≡ false =
          ap (has_property es) (sym ((text_eq_iff j k).0 same)) ∙ d.0 in
        trees_under-fresh k es fresh
        ∙ sym (ap (λ (b : Bool). found_or_not (if b then none else get_entry es k)) same)
    | inr other ↦
        trees_under-key_trees k es d.1
        ∙ sym (ap (λ (b : Bool). found_or_not (if b then none else get_entry es k)) other)
  ]

  pub trees_under-absent :
      (k : Text) (xs : List (KeyTrees R)) → has_key k xs ≡ false → trees_under k xs ≡ []
  unfolding has_key trees_under
  trees_under-absent k [] e = refl
  trees_under-absent k ((j, trees) ∷ xs) e = elim (Bool-cases (text_eq j k)) [
    | inl same ↦ absurd (cc (sym (ap (λ (b : Bool). b || has_key k xs) same) ∙ e))
    | inr other ↦
        ap (λ (b : Bool). (if b then trees else []) ++ trees_under k xs) other
        ∙ trees_under-absent k xs (sym (ap (λ (b : Bool). b || has_key k xs) other) ∙ e)
  ]

  find_tree-one : (t : Tree R) (k : Text) → find_tree t (k ∷ []) ≡ get_entry (entries_of t) k
  unfolding find_tree
  find_tree-one t k = elim (Option-cases (get_entry (entries_of t) k)) [
    | inl e ↦ rw (e, find_tree) refl
    | inr (u, e) ↦ rw (e, find_tree) refl
  ]

  tree_key_trees :
      (k : Text) (t : Tree R)
      → Distinct t
      → trees_under k (elim (children_of t) [ none ↦ [] | some es ↦ key_trees es ])
        ≡ found_or_not (get_entry (entries_of t) k)
  unfolding trees_under get_entry
  tree_key_trees k (leaf v d) h = refl
  tree_key_trees k (branch v d es) h = trees_under-key_trees k es h

  -- The trees under a key are the subtrees under it of the trees.
  pub trees_under-all_key_trees :
      (k : Text) (trees : List (Tree R))
      → All Distinct trees
      → trees_under k (all_key_trees trees) ≡ find_all (k ∷ []) trees
  unfolding all_key_trees find_all
  trees_under-all_key_trees k [] h = unfold trees_under in refl
  trees_under-all_key_trees k (t ∷ trees) h =
      trees_under-append k (elim (children_of t) [ none ↦ [] | some es ↦ key_trees es ])
        (all_key_trees trees)
      ∙ ap₂ ◌++◌ (tree_key_trees k t h.0 ∙ ap found_or_not (sym (find_tree-one t k)))
          (trees_under-all_key_trees k trees h.1)

  Distinct-get_entry :
      (es : Entries R) (k : Text) (u : Tree R)
      → DistinctEntries es
      → get_entry es k ≡ some u
      → Distinct u
  unfolding get_entry
  Distinct-get_entry nil k u d e = absurd (cc e)
  Distinct-get_entry (entry j t es) k u d e = elim (Bool-cases (text_eq j k)) [
    | inl same ↦
        subst Distinct
          (ap (λ (o : Option (Tree R)). elim o [ none ↦ t | some x ↦ x ])
            (sym (ap (λ (b : Bool). if b then some t else get_entry es k) same) ∙ e))
          d.1
    | inr other ↦
        Distinct-get_entry es k u d.2
          (sym (ap (λ (b : Bool). if b then some t else get_entry es k) other) ∙ e)
  ]
  Distinct-get_entry (hole j es) k u d e = elim (Bool-cases (text_eq j k)) [
    | inl same ↦ absurd (cc (sym (ap (λ (b : Bool). if b then none else get_entry es k) same) ∙ e))
    | inr other ↦
        Distinct-get_entry es k u d.1
          (sym (ap (λ (b : Bool). if b then none else get_entry es k) other) ∙ e)
  ]

  Distinct-entries : (t : Tree R) → Distinct t → DistinctEntries (entries_of t)
  Distinct-entries (leaf v d) h = tt
  Distinct-entries (branch v d es) h = h

  All-Distinct-found :
      (o : Option (Tree R)) (rest : List (Tree R))
      → ((u : Tree R) → o ≡ some u → Distinct u)
      → All Distinct rest
      → All Distinct (found_or_not o ++ rest)
  All-Distinct-found none rest h g = g
  All-Distinct-found (some u) rest h g = (h u refl, g)

  pub All-Distinct-find_all :
      (k : Text) (trees : List (Tree R))
      → All Distinct trees
      → All Distinct (find_all (k ∷ []) trees)
  unfolding find_all
  All-Distinct-find_all k [] h = tt
  All-Distinct-find_all k (t ∷ trees) h =
      All-Distinct-found (find_tree t (k ∷ [])) (find_all (k ∷ []) trees)
        (λ u e.
          Distinct-get_entry (entries_of t) k u (Distinct-entries t h.0)
            (sym (find_tree-one t k) ∙ e))
        (All-Distinct-find_all k trees h.1)

  pub find_all-nil : (trees : List (Tree R)) → find_all [] trees ≡ trees
  unfolding find_all find_tree
  find_all-nil [] = refl
  find_all-nil (t ∷ trees) = ap (◌∷◌ t) (find_all-nil trees)

  find_all-append :
      (path : List Text) (xs ys : List (Tree R))
      → find_all path (xs ++ ys) ≡ find_all path xs ++ find_all path ys
  unfolding find_all
  find_all-append path [] ys = refl
  find_all-append path (x ∷ xs) ys =
      ap (λ (zs : List (Tree R)). found_or_not (find_tree x path) ++ zs)
        (find_all-append path xs ys)
      ∙ sym (append_assoc (found_or_not (find_tree x path)) (find_all path xs) (find_all path ys))

  -- A key, then the rest of the path.
  find_all-step :
      (k : Text) (path : List Text) (t : Tree R)
      → find_all path (found_or_not (find_tree t (k ∷ []))) ≡ found_or_not (find_tree t (k ∷ path))
  unfolding find_all find_tree
  find_all-step k path t = elim (Option-cases (get_entry (entries_of t) k)) [
    | inl e ↦ rw (e, find_tree) refl
    | inr (u, e) ↦ rw (e, find_tree) (append-nil (found_or_not (find_tree u path)))
  ]

  pub find_all-find_all :
      (k : Text) (path : List Text) (trees : List (Tree R))
      → find_all path (find_all (k ∷ []) trees) ≡ find_all (k ∷ path) trees
  unfolding find_all
  find_all-find_all k path [] = refl
  find_all-find_all k path (t ∷ trees) =
      find_all-append path (found_or_not (find_tree t (k ∷ []))) (find_all (k ∷ []) trees)
      ∙ ap₂ ◌++◌ (find_all-step k path t) (find_all-find_all k path trees)
