-- ===== src/Cache/Searches/Passing.antt =====
-- From a node of the storage's tree (src/internal/async-tree-ref.ts) to its children.
use nodejs_proto_cache.Prelude.{
  ℕ, zero, suc, ◌+◌, ◌-◌, ◌≤◌, ◌≡◌, refl, sym, ◌∙◌, ap, inl, inr, Option, none, some, List, [], ◌∷◌,
  ◌++◌, append-nil, append_assoc, arith, length,
}
use mathlib.Core.Path.{subst}
use nodejs_proto_cache.Keys.{Text, ChainedObject, chained, level_of, build_key}
use nodejs_proto_cache.Keys.Chain.{path_of, keys_to, level_of-chained}
use nodejs_proto_cache.Tree.{Tree, entries_of, current_value}
use nodejs_proto_cache.Tree.Paths.{find_tree}
use nodejs_proto_cache.TreeUtils.Modifying.{find_tree-snoc}
use nodejs_proto_cache.Prune.Spec.{Distinct}
use nodejs_proto_cache.Graphs.Async.{AnyTree, deferred}
use nodejs_proto_cache.Graphs.Async.Flat.{as_tree, as_entries, Steady}
use nodejs_proto_cache.Graphs.Invariant.{
  HasEntry, get_entry-HasEntry, Distinct-HasEntry, Distinct-entries_of, GoodBelow,
}
use nodejs_proto_cache.Cache.{Options, Storage}
use nodejs_proto_cache.Cache.Laws.{IsReliable}
use nodejs_proto_cache.Cache.Searches.{
  GetChildren, Child, no_child, broken_child, child, ref_children, key_child, async_tree_ref,
}
use nodejs_proto_cache.Cache.Searches.Nodes.{
  Lists, HoldsTrees, TreeNode, Stored, HasEntry-key_entries, SteadyChild, Steady-ref_children,
  key_child-tree, key_child-key, length-chained, tree_child-cases, ref_children-listed,
}

-- The tree of a child that the storage gives.
unfoldable tree_of : {R : Type 0} → AnyTree R → Child R → Tree R
tree_of c no_child = as_tree c
tree_of c broken_child = as_tree c
tree_of c (child t) = as_tree t

module _ {T R S : Type 0} (options : Options T R) (storage : Storage S R)
    (lookup : S → Text → Option R) (reliable : IsReliable storage lookup)
    (get_children : GetChildren S) (s : S) (lists : Lists get_children s)
    (trees : HoldsTrees options (lookup s)) where
  pub key_child-Steady :
      (n level : ℕ) (parent : Option ChainedObject) (k : Text)
      → level ≡ suc (length (keys_to parent))
      → length (keys_to parent) + suc n ≡ options.key_level_nodes
      → SteadyChild (key_child options storage get_children s n level parent k)
  unfolding SteadyChild Steady
  key_child-Steady zero level parent k e above =
      let own = chained k level parent in
      let long =
        length-chained options storage lookup reliable get_children s lists trees k level parent in
      subst SteadyChild
        (sym (
          key_child-tree options storage lookup reliable get_children s lists trees level parent k))
        (elim (tree_child-cases options storage lookup reliable get_children s lists trees level own
          (omega (arith, e, above)) (omega (arith, long, above))) [
            | inl absent ↦ subst SteadyChild (sym absent) tt
            | inr (r, t, there, held, full, parsed, distinct) ↦ subst SteadyChild (sym there) tt
          ])
  key_child-Steady (suc n) level parent k e above =
      let own = chained k level parent in
      let long =
        length-chained options storage lookup reliable get_children s lists trees k level parent in
      subst SteadyChild
        (sym (
          key_child-key options storage lookup reliable get_children s lists trees n level parent
            k))
        (Steady-ref_children options storage lookup reliable get_children s lists trees
          (key_child options storage get_children s n (suc level) (some own)) (some own)
          (λ j.
            key_child-Steady n (suc level) (some own) j (omega (arith, e, long))
              (omega (arith, long, above))))

  key_child-Stored :
      (n level : ℕ) (parent : Option ChainedObject) (k : Text) (c : AnyTree R)
      → level ≡ suc (length (keys_to parent))
      → length (keys_to parent) + suc n ≡ options.key_level_nodes
      → key_child options storage get_children s n level parent k ≡ child c
      → Stored options storage lookup reliable get_children s (chained k level parent) (as_tree c)
  unfolding as_tree tree_of
  key_child-Stored zero level parent k c e above gives =
      let own = chained k level parent in
      let long =
        length-chained options storage lookup reliable get_children s lists trees k level parent in
      let read =
        key_child-tree options storage lookup reliable get_children s lists trees level parent k in
      elim (tree_child-cases options storage lookup reliable get_children s lists trees level own
        (omega (arith, e, above)) (omega (arith, long, above))) [
          | inl absent ↦ absurd (cc (sym absent ∙ sym read ∙ gives))
          | inr (r, t, there, held, full, parsed, distinct) ↦
              let same : t ≡ as_tree c = ap (tree_of c) (sym there ∙ sym read ∙ gives) in
              inr (record {
                front = path_of own;
                rest = [];
                buffer = r;
                root = t;
                split = sym (append-nil (path_of own));
                above = omega (arith, long, above);
                held = held;
                full = full;
                parsed = parsed;
                there = unfold find_tree in ap some same;
                distinct = subst Distinct same distinct;
              })
        ]
  key_child-Stored (suc n) level parent k c e above gives =
      let own = chained k level parent in
      let long =
        length-chained options storage lookup reliable get_children s lists trees k level parent in
      let below = key_child options storage get_children s n (suc level) (some own) in
      let t : AnyTree R =
        deferred (lookup s (build_key own)) none
          (ref_children options storage get_children s below (some own)) in
      let same : as_tree t ≡ as_tree c = ap (tree_of c) (
        sym (
          key_child-key options storage lookup reliable get_children s lists trees n level parent k)
        ∙ gives) in
      inl (record {
        levels = n;
        above = omega (arith, long, above);
        counted = level_of-chained k level parent ∙ omega (arith, e, long);
        held = λ seen.
            ap (λ (x : Tree R). current_value x seen) (sym same) ∙ (unfold current_value in refl);
        children =
            ap entries_of (sym same)
            ∙ ap
                (λ (m : ℕ). as_entries (
                  ref_children options storage get_children s
                    (key_child options storage get_children s n (suc m) (some own)) (some own)))
                (sym (level_of-chained k level parent));
      })

  -- Every child of a stored node is stored.
  ref_children-Stored :
      (n level : ℕ) (parent : Option ChainedObject)
      → level ≡ suc (length (keys_to parent))
      → length (keys_to parent) + suc n ≡ options.key_level_nodes
      → GoodBelow (Stored options storage lookup reliable get_children s) level parent (
          as_entries (
            ref_children options storage get_children s
              (key_child options storage get_children s n level parent)
              parent))
  ref_children-Stored n level parent e above k u has =
      let child_of = key_child options storage get_children s n level parent in
      let (keys, listed) =
        ref_children-listed options storage lookup reliable get_children s lists trees child_of
          parent in
      let (c, gives, same) =
        HasEntry-key_entries child_of keys k u
          (subst (λ x. HasEntry k u (as_entries x)) listed has) in
      subst (Stored options storage lookup reliable get_children s (chained k level parent)) same
        (key_child-Stored n level parent k c e above gives)

  tree-passes :
      (own : ChainedObject) (t : Tree R) (level : ℕ)
      → TreeNode options storage lookup reliable get_children s own t
      → GoodBelow
          (Stored options storage lookup reliable get_children s)
          level
          (some own)
          (entries_of t)
  unfolding path_of
  tree-passes own t level node k u has =
      let found = get_entry-HasEntry k u (entries_of t) (Distinct-entries_of t node.distinct) has in
      inr (record {
        front = node.front;
        rest = node.rest ++ k ∷ [];
        buffer = node.buffer;
        root = node.root;
        split =
            ap (λ (ks : List Text). ks ++ k ∷ []) node.split
            ∙ append_assoc node.front node.rest (k ∷ []);
        above = node.above;
        held = node.held;
        full = node.full;
        parsed = node.parsed;
        there =
            find_tree-snoc node.rest k node.root t node.there
            ∙ (unfold find_tree in rw (found, find_tree) refl);
        distinct = Distinct-HasEntry k u (entries_of t) (Distinct-entries_of t node.distinct) has;
      })

  pub Stored-passes :
      (k : Text) (level : ℕ) (parent : Option ChainedObject) (t : Tree R)
      → Stored options storage lookup reliable get_children s (chained k level parent) t
      → GoodBelow
          (Stored options storage lookup reliable get_children s)
          (level + 1)
          (some (chained k level parent))
          (entries_of t)
  Stored-passes k level parent t (inr node) =
      tree-passes (chained k level parent) t (level + 1) node
  Stored-passes k level parent t (inl node) =
      let own = chained k level parent in
      let at : level_of own ≡ level = level_of-chained k level parent in
      subst
        (λ (m : ℕ).
          GoodBelow (Stored options storage lookup reliable get_children s) m (some own)
            (entries_of t))
        (omega (arith, at))
        (subst
          (GoodBelow (Stored options storage lookup reliable get_children s) (suc (level_of own))
            (some own))
          (sym node.children)
          (ref_children-Stored node.levels (suc (level_of own)) (some own)
            (omega (arith, node.counted)) node.above))

  module _ (levels : 1 ≤ options.key_level_nodes) where
    -- The root's children are stored, and none of its iterables throws.
    pub async_tree_ref-Stored :
        GoodBelow
          (Stored options storage lookup reliable get_children s)
          1
          none
          (entries_of (as_tree (async_tree_ref options storage get_children s none)))
    unfolding async_tree_ref as_tree
    async_tree_ref-Stored =
        ref_children-Stored (options.key_level_nodes - 1) 1 none refl (omega arith)

    pub async_tree_ref-Steady : Steady (async_tree_ref options storage get_children s none)
    unfolding async_tree_ref Steady
    async_tree_ref-Steady =
        Steady-ref_children options storage lookup reliable get_children s lists trees
          (key_child options storage get_children s (options.key_level_nodes - 1) 1 none) none
          (λ k. key_child-Steady (options.key_level_nodes - 1) 1 none k refl (omega arith))
