-- ===== src/Cache/Searches/Whole.antt =====
-- The four searches of the whole cache (src/tree-key-cache.ts), from the root.
use nodejs_proto_cache.Prelude.{
  ℕ, suc, ◌≤◌, ◌≡◌, refl, sym, ◌∙◌, ap, Option, none, List, [], ◌∷◌, map, arith, All, All-map,
  All-weaken, All-reverse, reverse,
}
use mathlib.Core.Path.{subst}
use mathlib.Core.List.{reverse-reverse}
use nodejs_proto_cache.Keys.{Text}
use nodejs_proto_cache.Tree.{entries_of}
use nodejs_proto_cache.Graphs.{Item, item_ref, Run, done, failed, out_of_fuel, start_item}
use nodejs_proto_cache.Graphs.Loop.{tree_nodes}
use nodejs_proto_cache.Graphs.Depth.{depth_below, pre_order_depth_first_search-depth_below}
use nodejs_proto_cache.Graphs.Breadth.{breadth_order, child_items, entries_height}
use nodejs_proto_cache.Graphs.Breadth.Rounds.{pre_order_breadth_first_search-breadth_order}
use nodejs_proto_cache.Graphs.PostOrder.{post_order_depth_first_search}
use nodejs_proto_cache.Graphs.PostOrder.Mirror.{
  pre_order-reverse-post_order, post_order_breadth-depth,
}
use nodejs_proto_cache.Graphs.Async.{AnyTree, AnyItem}
use nodejs_proto_cache.Graphs.Async.Flat.{as_tree, as_item, map_run, Steady}
use nodejs_proto_cache.Graphs.Async.Searches.{
  async_pre_order_depth_first_search-as_tree, async_pre_order_breadth_first_search-as_tree,
}
use nodejs_proto_cache.Graphs.Async.PostOrder.Lockstep.{async_post_order_searches-as_tree}
use nodejs_proto_cache.Graphs.Invariant.{
  GoodItem, All-child_items, All-breadth_order, All-depth_below,
}
use nodejs_proto_cache.Cache.{Options, Storage, World}
use nodejs_proto_cache.Cache.Laws.{IsReliable}
use nodejs_proto_cache.Cache.Searches.{
  GetChildren, Search, Found, found, found_any, async_tree_ref, get_traversal_iterable,
  pre_order_breadth_first, pre_order_depth_first, post_order_breadth_first, post_order_depth_first,
}
use nodejs_proto_cache.Cache.Searches.Nodes.{Lists, HoldsTrees, Stored}
use nodejs_proto_cache.Cache.Searches.Passing.{
  Stored-passes, async_tree_ref-Stored, async_tree_ref-Steady,
}
use nodejs_proto_cache.Cache.Searches.Agree.{Agrees, Agrees-Stored}

map-found :
    {R : Type 0} (items : List (AnyItem R)) → map found (map as_item items) ≡ map found_any items
unfolding as_item
map-found [] = refl
map-found (i ∷ items) = ap (◌∷◌ (found_any i)) (map-found items)

-- What the steps need of an item is the same in the tree in memory.
pub map_run-found :
    {R : Type 0} (r : Run (AnyItem R)) → map_run found_any r ≡ map_run found (map_run as_item r)
unfolding map_run
map_run-found (done items) = ap done (sym (map-found items))
map_run-found (failed items) = ap failed (sym (map-found items))
map_run-found out_of_fuel = refl

module _ {T R S : Type 0} (options : Options T R) (storage : Storage S R)
    (lookup : S → Text → Option R) (reliable : IsReliable storage lookup)
    (get_children : GetChildren S) (now : ℕ) (w : World S T) where
  -- The search from the root ends, and `getNodeRef` finds every node that it yields, with the value
  -- that it yields, at the path of the node's keys.
  abbrev pub FindsAll : Search R → Type 0
  FindsAll traversal =
      (items : List (Found R)) × (get_traversal_iterable options storage get_children traversal none
          w.store
        ≡ done items)
      × All (Agrees options storage lookup reliable get_children now w) items

  module _ (lists : Lists get_children w.store) (trees : HoldsTrees options (lookup w.store))
      (levels : 1 ≤ options.key_level_nodes) where
    abbrev pub root : AnyTree R
    root = async_tree_ref options storage get_children w.store none

    abbrev GoodFound : Item R → Type 0
    GoodFound i =
        GoodItem (Stored options storage lookup reliable get_children w.store)
          (Stored-passes options storage lookup reliable get_children w.store lists trees) now i

    FindsAll-run :
        (traversal : Search R) (items : List (Item R))
        → map_run as_item (traversal.async_search root none) ≡ done items
        → All GoodFound items
        → FindsAll traversal
    unfolding get_traversal_iterable map_run
    FindsAll-run traversal items runs good = (
      map found items,
      map_run-found (traversal.async_search root none) ∙ ap (map_run found) runs,
      All-map _ found items (
          All-weaken GoodFound _ items
            (λ i h.
              Agrees-Stored options storage lookup reliable get_children now w (item_ref i)
                i.tree_ref i.value levels h.0 h.1)
            good),
    )

    good_depth : All GoodFound (depth_below now 1 none (entries_of (as_tree root)))
    good_depth =
        All-depth_below (Stored options storage lookup reliable get_children w.store)
          (Stored-passes options storage lookup reliable get_children w.store lists trees) now 1
          none (entries_of (as_tree root))
          (async_tree_ref-Stored options storage lookup reliable get_children w.store lists trees
            levels)

    good_breadth : All GoodFound (
        breadth_order now
          (entries_height (entries_of (as_tree root)))
          (child_items now 1 none (entries_of (as_tree root))))
    good_breadth =
        let stored = Stored options storage lookup reliable get_children w.store in
        let passes =
          Stored-passes options storage lookup reliable get_children w.store lists trees in
        All-breadth_order stored passes now (entries_height (entries_of (as_tree root)))
          (child_items now 1 none (entries_of (as_tree root)))
          (All-child_items stored passes now 1 none (entries_of (as_tree root)) (
            async_tree_ref-Stored options storage lookup reliable get_children w.store lists trees
              levels))

    steady : Steady root
    steady =
        async_tree_ref-Steady options storage lookup reliable get_children w.store lists trees
          levels

    abbrev pub post_items : List (Item R)
    post_items = post_order_depth_first_search now (as_tree root) none

    -- The post orders are the depth first search backwards.
    pub reverse-post_items : reverse post_items ≡ depth_below now 1 none (entries_of (as_tree root))
    unfolding start_item
    reverse-post_items =
        let fuel = suc (tree_nodes (as_tree root)) in
        ap (λ (r : Run (Item R)). elim r [ done xs ↦ xs | failed xs ↦ xs | out_of_fuel ↦ [] ])
          (sym (pre_order-reverse-post_order now fuel (as_tree root) none (omega arith))
            ∙ pre_order_depth_first_search-depth_below now fuel (as_tree root) none (omega arith))

    good_post : All GoodFound post_items
    good_post = subst (All GoodFound) (reverse-reverse post_items) (
        All-reverse GoodFound (reverse post_items)
          (subst (All GoodFound) (sym reverse-post_items) good_depth))

    -- The items of the four searches.
    pub searches-items :
        (map_run as_item ((pre_order_breadth_first now).async_search root none)
          ≡ done (
              breadth_order now
                (entries_height (entries_of (as_tree root)))
                (child_items now 1 none (entries_of (as_tree root)))))
        × (map_run as_item ((pre_order_depth_first now).async_search root none)
            ≡ done (depth_below now 1 none (entries_of (as_tree root))))
        × (map_run as_item ((post_order_breadth_first now).async_search root none)
            ≡ done post_items)
        × (map_run as_item ((post_order_depth_first now).async_search root none) ≡ done post_items)
    unfolding pre_order_breadth_first pre_order_depth_first post_order_breadth_first
        post_order_depth_first start_item
    searches-items =
        let t = as_tree root in
        let fuel = suc (tree_nodes t) in
        let post = async_post_order_searches-as_tree now root none steady in
        (
          async_pre_order_breadth_first_search-as_tree now fuel root none steady
              ∙ pre_order_breadth_first_search-breadth_order now fuel t none (omega arith),
          async_pre_order_depth_first_search-as_tree now fuel root none steady
              ∙ pre_order_depth_first_search-depth_below now fuel t none (omega arith),
          post.1 ∙ ap done (post_order_breadth-depth now t none),
          post.0,
        )

    -- A storage that answers its calls, lists children for every key, and holds trees with distinct
    -- keys at the paths of `keyLevelNodes` keys, which is not 0: each of the four searches from the
    -- root ends without an exception, and `getNodeRef` finds every node that it yields, at the path
    -- of the node's keys and with the value that the search gives it.
    pub searches-FindsAll :
        FindsAll (pre_order_breadth_first now)
        × FindsAll (pre_order_depth_first now)
        × FindsAll (post_order_breadth_first now)
        × FindsAll (post_order_depth_first now)
    searches-FindsAll =
        let (breadth, depth, post_breadth, post_depth) = searches-items in
        (
          FindsAll-run (pre_order_breadth_first now) _ breadth good_breadth,
          FindsAll-run (pre_order_depth_first now) _ depth good_depth,
          FindsAll-run (post_order_breadth_first now) _ post_breadth good_post,
          FindsAll-run (post_order_depth_first now) _ post_depth good_post,
        )
