-- ===== src/Cache/Searches/Every.antt =====
-- The paths of the storage's nodes, and the items of the four searches of the whole cache
-- (src/tree-key-cache.ts).
use nodejs_proto_cache.Prelude.{
  ℕ, ◌≤◌, ◌<◌, ◌≡◌, sym, ◌∙◌, ap, ◌⊎◌, inl, inr, Option, none, some, List, [], ◌∷◌, ◌++◌,
  append-nil, map, arith, length, reverse,
}
use mathlib.Core.Path.{subst}
use mathlib.Core.List.{reverse-reverse}
use nodejs_proto_cache.Keys.{Text, join, Result}
use nodejs_proto_cache.Keys.Chain.{path_of}
use nodejs_proto_cache.Tree.{Tree}
use nodejs_proto_cache.Tree.Paths.{find_tree}
use nodejs_proto_cache.Graphs.{Item, done}
use nodejs_proto_cache.Graphs.Async.Flat.{as_tree, as_item, map_run}
use nodejs_proto_cache.Graphs.Complete.{
  AnyOf, AnyOf-reverse, AnyOf-map, At, breadth_order-find_tree,
}
use nodejs_proto_cache.Graphs.Complete.Depth.{depth_below-find_tree}
use nodejs_proto_cache.Cache.{Options, Storage, World}
use nodejs_proto_cache.Cache.Laws.{IsReliable}
use nodejs_proto_cache.Cache.Searches.{
  GetChildren, Search, Found, found, get_traversal_iterable, pre_order_breadth_first,
  pre_order_depth_first, post_order_breadth_first, post_order_depth_first,
}
use nodejs_proto_cache.Cache.Searches.Nodes.{Lists, HoldsTrees}
use nodejs_proto_cache.Cache.Searches.Complete.{async_tree_ref-finds, async_tree_ref-finds_key}
use nodejs_proto_cache.Cache.Searches.Listed.{Listed}
use nodejs_proto_cache.Cache.Searches.Whole.{
  root, post_items, reverse-post_items, searches-items, map_run-found,
}

-- Keys of the levels above the trees, or a path in the tree that is held under the keys of all levels.
abbrev pub Leads : {T R : Type 0} → Options T R → (Text → Option R) → List Text → List Text → Type 0
Leads {R = R} options look front rest =
    ((length front < options.key_level_nodes) × (rest ≡ []))
    ⊎ ((length front ≡ options.key_level_nodes)
        × (r : R) × (t : Tree R) × (u : Tree R) × (look (join front) ≡ some r)
        × (options.deserialize_tree r ≡ some t)
        × (find_tree t rest ≡ some u))

module _ {T R S : Type 0} (options : Options T R) (storage : Storage S R)
    (get_children : GetChildren S) (s : S) where
  -- The search from the root ends, and yields an item for the node at the path.
  abbrev pub Yields : List Text → Search R → Type 0
  Yields path traversal =
      (items : List (Found R)) × (get_traversal_iterable options storage get_children traversal none
          s
        ≡ done items)
      × AnyOf (λ (i : Found R). path_of i.0 ≡ path) items

module _ {T R S : Type 0} (options : Options T R) (storage : Storage S R)
    (lookup : S → Text → Option R) (reliable : IsReliable storage lookup)
    (get_children : GetChildren S) (now : ℕ) (w : World S T) (lists : Lists get_children w.store)
    (trees : HoldsTrees options (lookup w.store)) (levels : 1 ≤ options.key_level_nodes) where
  abbrev whole : Tree R
  whole = as_tree (root options storage lookup reliable get_children now w lists trees levels)

  root-finds :
      (children : Option Text → S → Result (List Text)) (k : Text) (front rest : List Text)
      → get_children ≡ some children
      → Listed children w.store 1 none (k ∷ front)
      → Leads options (lookup w.store) (k ∷ front) rest
      → (u : Tree R) × (find_tree whole (k ∷ front ++ rest) ≡ some u)
  root-finds children k front rest there listed (inl (short, ends)) =
      let (u, found) =
        async_tree_ref-finds_key options storage lookup reliable get_children w.store lists trees
          children there k front (omega (arith, short)) listed in
      (
        u,
        ap (λ (q : List Text). find_tree whole (k ∷ q))
              (ap (λ (q : List Text). front ++ q) ends ∙ append-nil front)
            ∙ found,
      )
  root-finds children k front rest there listed (inr (long, r, t, u, held, parsed, within)) = (
    u,
    async_tree_ref-finds options storage lookup reliable get_children w.store lists trees children
        there r t u parsed rest within k front (omega (arith, long)) listed held,
  )

  Yields-run :
      (traversal : Search R) (items : List (Item R)) (path : List Text) (u : Tree R)
      → map_run as_item (
          traversal.async_search
            (root options storage lookup reliable get_children now w lists trees levels)
            none)
        ≡ done items
      → AnyOf (At path u) items
      → Yields options storage get_children w.store path traversal
  unfolding get_traversal_iterable map_run
  Yields-run traversal items path u runs here = (
    map found items,
    map_run-found (
          traversal.async_search
            (root options storage lookup reliable get_children now w lists trees levels) none)
        ∙ ap (map_run found) runs,
    AnyOf-map (At path u) _ found items (λ i at. at.0) here,
  )

  -- A storage that answers its calls, lists children for every key, and holds trees with distinct
  -- keys at the paths of `keyLevelNodes` keys, which is not 0: each of the four searches from the
  -- root ends without an exception and yields an item at every path of keys that are each listed
  -- below the keys before them, if the path has fewer than `keyLevelNodes` keys, or has that many
  -- and a tree is held there, and at every path that goes on into that tree to one of its nodes.
  pub searches-Yields :
      (children : Option Text → S → Result (List Text)) (k : Text) (front rest : List Text)
      → get_children ≡ some children
      → Listed children w.store 1 none (k ∷ front)
      → Leads options (lookup w.store) (k ∷ front) rest
      → Yields options storage get_children w.store
          (k ∷ front ++ rest)
          (pre_order_breadth_first now)
        × Yields options storage get_children w.store
            (k ∷ front ++ rest)
            (pre_order_depth_first now)
        × Yields options storage get_children w.store
            (k ∷ front ++ rest)
            (post_order_breadth_first now)
        × Yields options storage get_children w.store
            (k ∷ front ++ rest)
            (post_order_depth_first now)
  searches-Yields children k front rest there listed leads =
      let path = k ∷ front ++ rest in
      let (u, found) = root-finds children k front rest there listed leads in
      let (breadth, depth, post_breadth, post_depth) =
        searches-items options storage lookup reliable get_children now w lists trees levels in
      let post = post_items options storage lookup reliable get_children now w lists trees levels in
      let here = depth_below-find_tree now whole u k (front ++ rest) found in
      let backwards : AnyOf (At path u) (reverse post) =
        subst (AnyOf (At path u))
          (sym (
            reverse-post_items options storage lookup reliable get_children now w lists trees
              levels))
          here in
      let post_here : AnyOf (At path u) post =
        subst (AnyOf (At path u)) (reverse-reverse post)
          (AnyOf-reverse (At path u) (reverse post) backwards) in
      (
        Yields-run (pre_order_breadth_first now) _ path u breadth
            (breadth_order-find_tree now whole u k (front ++ rest) found),
        Yields-run (pre_order_depth_first now) _ path u depth here,
        Yields-run (post_order_breadth_first now) _ path u post_breadth post_here,
        Yields-run (post_order_depth_first now) _ path u post_depth post_here,
      )
