-- ===== src/Cache/Searches.antt =====
-- The searches of the cache (src/tree-key-cache.ts), with `getTraversalIterable` and
-- `getTraversalStepsIterable` of src/internal/tree-internal-control.ts, and the tree of
-- src/internal/async-tree-ref.ts, whose children are keys of the storage. For a storage without
-- `getHistory`, which does not change while it is searched.
pub mod Nodes
pub mod Passing
pub mod Agree
pub mod Whole
pub mod Steps
pub mod Listed
pub mod Complete
pub mod Every
use nodejs_proto_cache.Prelude.{
  ℕ, zero, suc, ◌-◌, false, Option, none, some, List, [], ◌∷◌, ltb, leb, if◌then◌else◌,
}
use nodejs_proto_cache.Keys.{
  Text, ChainedObject, chained, build_key, Result, ok, throw, traversal_error,
}
use nodejs_proto_cache.Tree.{Tree, value_of}
use nodejs_proto_cache.Graphs.{Item, item_ref, Run, done, failed, out_of_fuel, level_or_zero}
use nodejs_proto_cache.Graphs.Loop.{tree_nodes}
use nodejs_proto_cache.Graphs.Depth.{pre_order_depth_first_search}
use nodejs_proto_cache.Graphs.Breadth.{pre_order_breadth_first_search}
use nodejs_proto_cache.Graphs.PostOrder.{
  post_order_depth_first_search, post_order_breadth_first_search,
}
use nodejs_proto_cache.Graphs.Async.{
  AnyTree, AnyEntries, plain, deferred, ends, yields, breaks, AnyItem, any_item_ref,
}
use nodejs_proto_cache.Graphs.Async.Flat.{as_tree, map_run}
use nodejs_proto_cache.Graphs.Async.Searches.{
  async_pre_order_depth_first_search, async_pre_order_breadth_first_search,
}
use nodejs_proto_cache.Graphs.Async.PostOrder.{
  async_post_order_depth_first_search, async_post_order_breadth_first_search,
}
use nodejs_proto_cache.Cache.{
  Options, Storage, Step, Consumer, M, pure, raise, ◌>>=◌, ◌>>◌, yield_step,
}
use nodejs_proto_cache.Cache.Values.{get_step}
use nodejs_proto_cache.Cache.Reads.{get_node_ref, ref_of}

-- `getChildren` of the storage, which it may lack: the keys below a key, or the first ones.
abbrev pub GetChildren : Type 0 → Type 0
GetChildren S = Option (Option Text → S → Result (List Text))

-- The key whose children are asked for.
unfoldable pub key_under : Option ChainedObject → Option Text
unfolding build_key
key_under none = none
key_under (some own) = some (build_key own)

-- What a key of the storage gives the tree above it: no child, an exception, or a child.
pub data Child (R : Type 0) : Type 0 where
  no_child broken_child : Child R
  child : AnyTree R → Child R

-- The `for await` loop over the keys, given what each one gives.
unfoldable pub key_entries : {R : Type 0} → (Text → Child R) → List Text → AnyEntries R
key_entries child_of [] = ends
key_entries child_of (k ∷ keys) = elim (child_of k) [
  | no_child ↦ key_entries child_of keys
  | broken_child ↦ breaks
  | child t ↦ yields k t (key_entries child_of keys)
]

module _ {T R S : Type 0} (options : Options T R) (storage : Storage S R)
    (get_children : GetChildren S) (s : S) where
  -- The children of an `AsyncTreeRef`: without `getChildren` it throws.
  unfoldable pub ref_children : (Text → Child R) → Option ChainedObject → AnyEntries R
  unfolding key_under key_entries
  ref_children child_of own = elim get_children [
    | none ↦ breaks
    | some children ↦ elim (children (key_under own) s) [
      | throw e ↦ breaks
      | ok keys ↦ key_entries child_of keys
    ]
  ]

  -- A key of the level whose values are trees, or of one below it, where none may be.
  unfoldable pub tree_child : ℕ → Option R → Child R
  tree_child level none = no_child
  tree_child level (some r) =
      if ltb options.key_level_nodes level
      then broken_child
      else elim (options.deserialize_tree r) [ none ↦ broken_child | some t ↦ child (plain t) ]

  -- A child of an `AsyncTreeRef`, at a level with a number of levels of keys below it.
  unfoldable pub key_child : ℕ → ℕ → Option ChainedObject → Text → Child R
  unfolding ref_children tree_child
  key_child zero level parent k = elim (storage.get (build_key (chained k level parent)) s) [
    | throw e ↦ broken_child
    | ok value ↦ tree_child level value
  ]
  key_child (suc n) level parent k =
      let own = some (chained k level parent) in
      let below = ref_children (key_child n (suc level) own) own in
      elim (storage.get (build_key (chained k level parent)) s) [
        | throw e ↦ broken_child
        | ok value ↦ child (deferred value none below)
      ]

  -- `new AsyncTreeRef(nodeRef, …)`
  unfoldable pub async_tree_ref : Option (Item R) → AnyTree R
  unfolding key_child
  async_tree_ref item =
      let own = ref_of item in
      let level = suc (level_or_zero own) in
      deferred (elim item [ none ↦ none | some i ↦ i.value ]) none
        (ref_children (key_child (options.key_level_nodes - level) level own) own)

-- A traversal of trees of either kind, as the methods of the cache pass it on.
pub record Search (R : Type 0) : Type 0 where
  pub async_search : AnyTree R → Option ChainedObject → Run (AnyItem R)
  pub sync_search : Tree R → Option ChainedObject → Run (Item R)

-- The four traversals, with fuel for the nodes.
module _ {R : Type 0} (now : ℕ) where
  unfoldable pub pre_order_breadth_first : Search R
  pre_order_breadth_first = record {
    async_search = λ t parent.
        async_pre_order_breadth_first_search now (suc (tree_nodes (as_tree t))) t parent;
    sync_search = λ t parent. pre_order_breadth_first_search now (suc (tree_nodes t)) t parent;
  }

  unfoldable pub pre_order_depth_first : Search R
  pre_order_depth_first = record {
    async_search =
        λ t parent. async_pre_order_depth_first_search now (suc (tree_nodes (as_tree t))) t parent;
    sync_search = λ t parent. pre_order_depth_first_search now (suc (tree_nodes t)) t parent;
  }

  unfoldable pub post_order_breadth_first : Search R
  post_order_breadth_first = record {
    async_search = async_post_order_breadth_first_search now;
    sync_search = λ t parent. done (post_order_breadth_first_search now t parent);
  }

  unfoldable pub post_order_depth_first : Search R
  post_order_depth_first = record {
    async_search = async_post_order_depth_first_search now;
    sync_search = λ t parent. done (post_order_depth_first_search now t parent);
  }

-- What the steps need of an item: the node and the serialized value.
abbrev pub Found : Type 0 → Type 0
Found R = ChainedObject × Option R

abbrev pub found_any : {R : Type 0} → AnyItem R → Found R
found_any i = (any_item_ref i, i.value)

abbrev pub found : {R : Type 0} → Item R → Found R
found i = (item_ref i, i.value)

module _ {T R S : Type 0} (options : Options T R) (consumer : Consumer T) where
  -- The step of each item, as it comes.
  unfoldable pub give_steps : List (Found R) → M S T (Unit {0})
  unfolding get_step yield_step
  give_steps [] = pure tt
  give_steps ((own, value) ∷ items) = do
    step ← get_step options value own (λ _. none)
    _ ← yield_step consumer step
    give_steps items

  unfoldable pub give_run : Run (Found R) → M S T (Unit {0})
  unfolding give_steps
  give_run (done items) = give_steps items
  give_run (failed items) = do give_steps items; raise traversal_error
  give_run out_of_fuel = raise traversal_error

module _ {T R S : Type 0} (options : Options T R) (storage : Storage S R)
    (get_children : GetChildren S) where
  -- `getTraversalIterable`
  unfoldable pub get_traversal_iterable : Search R → Option (Item R) → S → Run (Found R)
  unfolding async_tree_ref map_run
  get_traversal_iterable traversal none s =
      map_run found_any
        (traversal.async_search (async_tree_ref options storage get_children s none) none)
  get_traversal_iterable traversal (some i) s =
      if leb options.key_level_nodes i.level
      then map_run found (traversal.sync_search i.tree_ref (some (item_ref i)))
      else map_run found_any (
          traversal.async_search (async_tree_ref options storage get_children s (some i))
            (some (item_ref i)))

  module _ (consumer : Consumer T) where
    -- `getTraversalStepsIterable`, which the four searches of the cache call: nothing is found
    -- below a path that leads to no node.
    unfoldable pub get_traversal_steps : Search R → Option (List Text) → ℕ → M S T (Unit {0})
    unfolding get_node_ref get_traversal_iterable give_run
    get_traversal_steps traversal none now =
        λ w. give_run options consumer (get_traversal_iterable traversal none w.store) w
    get_traversal_steps traversal (some path) now = do
      base ← get_node_ref options storage path false now
      elim base [
        | none ↦ pure tt
        | some i ↦
            λ w. give_run options consumer (get_traversal_iterable traversal (some i) w.store) w
      ]
