-- ===== src/Cache/Searches/Complete.antt =====
-- The nodes at paths of listed keys, and in the trees that are held there, in the tree of
-- src/internal/async-tree-ref.ts.
use nodejs_proto_cache.Prelude.{
  ℕ, zero, suc, ◌+◌, ◌-◌, ◌<◌, ◌≡◌, refl, ◌∙◌, ap, Option, none, some, List, [], ◌∷◌, ◌++◌,
  append_assoc, arith, length, le→ltb,
}
use nodejs_proto_cache.Keys.{Text, ChainedObject, chained, join, build_key, Result, ok}
use nodejs_proto_cache.Keys.Chain.{path_of, keys_to, path_of-chained, build_key-path_of}
use nodejs_proto_cache.Tree.{Tree, get_entry}
use nodejs_proto_cache.Tree.Paths.{find_tree}
use nodejs_proto_cache.Graphs.Async.{AnyTree, plain, deferred}
use nodejs_proto_cache.Graphs.Async.Flat.{as_tree, as_entries}
use nodejs_proto_cache.Graphs.Complete.{AnyOf}
use nodejs_proto_cache.Cache.{Options, Storage}
use nodejs_proto_cache.Cache.Laws.{IsReliable}
use nodejs_proto_cache.Cache.Searches.{
  GetChildren, child, key_under, key_entries, ref_children, key_child, tree_child, async_tree_ref,
}
use nodejs_proto_cache.Cache.Searches.Nodes.{
  Lists, HoldsTrees, key_child-tree, key_child-key, length-chained,
}
use nodejs_proto_cache.Cache.Searches.Passing.{key_child-Steady}
use nodejs_proto_cache.Cache.Searches.Listed.{
  Listed, get_entry-key_entries, find_tree-entry, ref_children-keys,
}

module _ {T R S : Type 0} (options : Options T R) (storage : Storage S R)
    (lookup : S → Text → Option R) (reliable : IsReliable storage lookup)
    (get_children : GetChildren S) (s : S) (lists : Lists get_children s)
    (trees : HoldsTrees options (lookup s)) (children : Option Text → S → Result (List Text))
    (there : get_children ≡ some children) where
  -- The children of a node whose child at a listed key is given.
  ref_children-finds :
      (u : Tree R) (n level : ℕ) (parent : Option ChainedObject) (k : Text) (keys path : List Text)
      → level ≡ suc (length (keys_to parent))
      → length (keys_to parent) + suc n ≡ options.key_level_nodes
      → children (key_under parent) s ≡ ok keys
      → AnyOf (◌≡◌ k) keys
      → (c : AnyTree R) × (key_child options storage get_children s n level parent k ≡ child c)
        × (find_tree (as_tree c) path ≡ some u)
      → (v : Option R) (d : Option ℕ)
      → find_tree
          (as_tree (
            deferred v d (
              ref_children options storage get_children s
                (key_child options storage get_children s n level parent)
                parent)))
          (k ∷ path)
        ≡ some u
  unfolding as_tree ref_children
  ref_children-finds u n level parent k keys path e above gives listed (c, is_child, found) v d =
      let child_of = key_child options storage get_children s n level parent in
      let es : ref_children options storage get_children s child_of parent
          ≡ key_entries child_of keys =
        ref_children-keys options storage get_children s children child_of parent keys there
          gives in
      find_tree-entry _ (as_tree c) u k path
        (ap (λ x. get_entry (as_entries x) k) es
          ∙ get_entry-key_entries child_of keys k c
              (λ j.
                key_child-Steady options storage lookup reliable get_children s lists trees n level
                  parent j e above)
              listed is_child)
        found

  -- A path of listed keys that ends above the level of the trees.
  key_child-finds_key :
      (front : List Text) (n level : ℕ) (parent : Option ChainedObject) (k : Text)
      → length front < n
      → level ≡ suc (length (keys_to parent))
      → length (keys_to parent) + suc n ≡ options.key_level_nodes
      → Listed children s (suc level) (some (chained k level parent)) front
      → (u : Tree R) × (c : AnyTree R) × (key_child options storage get_children s n level parent k
          ≡ child c)
        × (find_tree (as_tree c) front ≡ some u)
  unfolding find_tree Listed
  key_child-finds_key front zero level parent k short e above listed = absurd (omega arith)
  key_child-finds_key [] (suc n) level parent k short e above listed = (
    _,
    _,
    key_child-key options storage lookup reliable get_children s lists trees n level parent k,
    refl,
  )
  key_child-finds_key (j ∷ front) (suc n) level parent k short e above
        (keys, gives, among, listed) =
      let own = chained k level parent in
      let long =
        length-chained options storage lookup reliable get_children s lists trees k level parent in
      let (u, c, is_child, found) =
        key_child-finds_key front n (suc level) (some own) j (omega arith) (omega (arith, e, long))
          (omega (arith, long, above)) listed in
      (
        u,
        _,
        key_child-key options storage lookup reliable get_children s lists trees n level parent k,
        ref_children-finds u n (suc level) (some own) j keys front (omega (arith, e, long))
            (omega (arith, long, above)) gives among (c, is_child, found) (lookup s (build_key own))
            none,
      )

  pub async_tree_ref-finds_key :
      (k : Text) (front : List Text)
      → suc (length front) < options.key_level_nodes
      → Listed children s 1 none (k ∷ front)
      → (u : Tree R) × (find_tree
            (as_tree (async_tree_ref options storage get_children s none))
            (k ∷ front)
          ≡ some u)
  unfolding async_tree_ref Listed
  async_tree_ref-finds_key k front short (keys, gives, among, listed) =
      let n = options.key_level_nodes - 1 in
      let (u, c, is_child, found) =
        key_child-finds_key front n 1 none k (omega (arith, short)) refl (omega (arith, short))
          listed in
      (
        u,
        ref_children-finds u n 1 none k keys front refl (omega (arith, short)) gives among
            (c, is_child, found) none none,
      )

  module _ (r : R) (t u : Tree R) (parsed : options.deserialize_tree r ≡ some t) (rest : List Text)
      (within : find_tree t rest ≡ some u) where
    key_child-finds :
        (front : List Text) (n level : ℕ) (parent : Option ChainedObject) (k : Text)
        → length front ≡ n
        → level ≡ suc (length (keys_to parent))
        → length (keys_to parent) + suc n ≡ options.key_level_nodes
        → Listed children s (suc level) (some (chained k level parent)) front
        → lookup s (join (keys_to parent ++ k ∷ front)) ≡ some r
        → (c : AnyTree R) × (key_child options storage get_children s n level parent k ≡ child c)
          × (find_tree (as_tree c) (front ++ rest) ≡ some u)
    unfolding as_tree tree_child Listed
    key_child-finds [] zero level parent k short e above listed held =
        let own = chained k level parent in
        let read : lookup s (build_key own) ≡ some r =
          ap (lookup s) (build_key-path_of own ∙ ap join (path_of-chained k level parent)) ∙ held in
        (
          plain t,
          key_child-tree options storage lookup reliable get_children s lists trees level parent k
              ∙ rw
                  (
                    read,
                    tree_child,
                    le→ltb options.key_level_nodes level (omega (arith, e, above)),
                    parsed,
                  )
                  refl,
          within,
        )
    key_child-finds [] (suc n) level parent k short e above listed held = absurd (omega arith)
    key_child-finds (j ∷ front) zero level parent k short e above listed held = absurd (omega arith)
    key_child-finds (j ∷ front) (suc n) level parent k short e above (keys, gives, among, listed)
          held =
        let own = chained k level parent in
        let long =
          length-chained options storage lookup reliable get_children s lists trees k level
            parent in
        let same : path_of own ++ j ∷ front ≡ keys_to parent ++ k ∷ j ∷ front =
          ap (λ (q : List Text). q ++ j ∷ front) (path_of-chained k level parent)
          ∙ append_assoc (keys_to parent) (k ∷ []) (j ∷ front) in
        (
          _,
          key_child-key options storage lookup reliable get_children s lists trees n level parent k,
          ref_children-finds u n (suc level) (some own) j keys (front ++ rest)
              (omega (arith, e, long)) (omega (arith, long, above)) gives among
              (key_child-finds front n (suc level) (some own) j (omega arith)
                (omega (arith, e, long)) (omega (arith, long, above)) listed
                (ap (λ (q : List Text). lookup s (join q)) same ∙ held))
              (lookup s (build_key own)) none,
        )

    pub async_tree_ref-finds :
        (k : Text) (front : List Text)
        → suc (length front) ≡ options.key_level_nodes
        → Listed children s 1 none (k ∷ front)
        → lookup s (join (k ∷ front)) ≡ some r
        → find_tree
            (as_tree (async_tree_ref options storage get_children s none))
            (k ∷ front ++ rest)
          ≡ some u
    unfolding async_tree_ref Listed
    async_tree_ref-finds k front long (keys, gives, among, listed) held =
        let n = options.key_level_nodes - 1 in
        ref_children-finds u n 1 none k keys (front ++ rest) refl (omega (arith, long)) gives among
          (key_child-finds front n 1 none k (omega (arith, long)) refl (omega (arith, long)) listed
            held)
          none none
