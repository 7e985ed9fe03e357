-- ===== src/Graphs/Complete/Depth.antt =====
-- The items of the nodes at the paths of a tree, in the depth first searches of src/utils/graphs.
use nodejs_proto_cache.Prelude.{
  ℕ, ◌+◌, ◌≡◌, sym, ◌∙◌, ap, inl, inr, Bool, Bool-cases, Option, none, some, List, [], ◌∷◌, ◌++◌,
  append_assoc, if◌then◌else◌,
}
use mathlib.Core.Path.{subst}
use nodejs_proto_cache.Keys.{Text, ChainedObject, chained, text_eq}
use nodejs_proto_cache.Keys.Chain.{keys_to, path_of-chained}
use nodejs_proto_cache.Tree.{Tree, Entries, leaf, branch, nil, entry, hole, entries_of, get_entry}
use nodejs_proto_cache.Tree.Paths.{find_tree}
use nodejs_proto_cache.Tree.Writes.{text_eq_iff}
use nodejs_proto_cache.Graphs.{create_traversal_item}
use nodejs_proto_cache.Graphs.Depth.{depth_order, depth_below}
use nodejs_proto_cache.Graphs.Complete.{
  AnyOf, AnyOf-left, AnyOf-right, At, At-create, find_tree-cons, some-tree, find_tree-nil,
}

module _ {R : Type 0} (now : ℕ) where
  mutual
    unfolding AnyOf depth_order depth_below get_entry

    depth_order-At :
        (t : Tree R) (k : Text) (level : ℕ) (parent : Option ChainedObject) (path : List Text)
        (u : Tree R)
        → find_tree t path ≡ some u
        → AnyOf (At (keys_to parent ++ k ∷ path) u) (depth_order now k level parent t)
    depth_order-At (leaf v d) k level parent [] u e = inl (
        subst
          (λ (x : Tree R).
            At (keys_to parent ++ k ∷ []) x (create_traversal_item k level parent (leaf v d) now))
          (find_tree-nil (leaf v d) u e) (At-create k level parent (leaf v d) now))
    depth_order-At (leaf v d) k level parent (j ∷ path) u e =
        let (c, found, rest) = find_tree-cons (leaf v d) u j path e in absurd (cc found)
    depth_order-At (branch v d es) k level parent [] u e = inl (
        subst
          (λ (x : Tree R).
            At (keys_to parent ++ k ∷ []) x
              (create_traversal_item k level parent (branch v d es) now))
          (find_tree-nil (branch v d es) u e) (At-create k level parent (branch v d es) now))
    depth_order-At (branch v d es) k level parent (j ∷ path) u e =
        let (c, found, rest) = find_tree-cons (branch v d es) u j path e in
        let own = some (chained k level parent) in
        inr (
          subst (λ (q : List Text). AnyOf (At q u) (depth_below now (level + 1) own es))
            (ap (λ (q : List Text). q ++ j ∷ path) (path_of-chained k level parent)
              ∙ append_assoc (keys_to parent) (k ∷ []) (j ∷ path))
            (depth_below-At es j c (level + 1) own path u found rest))

    pub depth_below-At :
        (es : Entries R) (k : Text) (c : Tree R) (level : ℕ) (parent : Option ChainedObject)
        (path : List Text) (u : Tree R)
        → get_entry es k ≡ some c
        → find_tree c path ≡ some u
        → AnyOf (At (keys_to parent ++ k ∷ path) u) (depth_below now level parent es)
    depth_below-At nil k c level parent path u e rest = absurd (cc e)
    depth_below-At (entry j t es) k c level parent path u e rest = elim (Bool-cases (text_eq j k)) [
      | inl same ↦
          let tree : t ≡ c =
            some-tree t c
              (sym (ap (λ (b : Bool). if b then some t else get_entry es k) same) ∙ e) in
          AnyOf-right (At (keys_to parent ++ k ∷ path) u) (depth_below now level parent es) _ (
            subst
              (λ (i : Text).
                AnyOf (At (keys_to parent ++ i ∷ path) u) (depth_order now j level parent t))
              ((text_eq_iff j k).0 same)
              (depth_order-At t j level parent path u
                (ap (λ (x : Tree R). find_tree x path) tree ∙ rest)))
      | inr other ↦
          AnyOf-left (At (keys_to parent ++ k ∷ path) u) (depth_below now level parent es) _ (
            depth_below-At es k c level parent path u
              (sym (ap (λ (b : Bool). if b then some t else get_entry es k) other) ∙ e) rest)
    ]
    depth_below-At (hole j es) k c level parent path u e rest = elim (Bool-cases (text_eq j k)) [
      | inl same ↦
          absurd (cc (sym (ap (λ (b : Bool). if b then none else get_entry es k) same) ∙ e))
      | inr other ↦
          depth_below-At es k c level parent path u
            (sym (ap (λ (b : Bool). if b then none else get_entry es k) other) ∙ e) rest
    ]

  pub depth_below-find_tree :
      (t u : Tree R) (k : Text) (path : List Text)
      → find_tree t (k ∷ path) ≡ some u
      → AnyOf (At (k ∷ path) u) (depth_below now 1 none (entries_of t))
  depth_below-find_tree t u k path e =
      let (c, found, rest) = find_tree-cons t u k path e in
      depth_below-At (entries_of t) k c 1 none path u found rest
