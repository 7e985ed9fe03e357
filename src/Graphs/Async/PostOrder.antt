-- ===== src/Graphs/Async/PostOrder.antt =====
-- The post order of src/utils/graphs/async/async-tree-post-order-traversal.ts, with its two entries
-- src/utils/graphs/async/async-tree-post-order-depth-first-search.ts and
-- src/utils/graphs/async/async-tree-post-order-breadth-first-search.ts.
pub mod Lockstep
use nodejs_proto_cache.Prelude.{ℕ, ◌+◌, Option, none, some, List, [], ◌++◌}
use nodejs_proto_cache.Keys.{Text, ChainedObject}
use nodejs_proto_cache.Tree.{Tree, Entries, leaf, branch, nil, entry, hole}
use nodejs_proto_cache.Graphs.{Run, done, failed, level_or_zero}
use nodejs_proto_cache.Graphs.Queue.{new_queue}
use nodejs_proto_cache.Graphs.PostOrder.{option_list}
use nodejs_proto_cache.Graphs.Async.{
  AnyTree, AnyEntries, plain, deferred, ends, yields, skips, breaks, AnyItem, any_item_ref,
  create_any_item, AsyncSimpleList, any_start_item,
}
use nodejs_proto_cache.Graphs.Async.Stack.{async_stack}
use nodejs_proto_cache.Graphs.Async.Queue.{async_queue}

-- The tuple that is pushed for each child of a tree in memory: tree, key and node.
pub record AnyVisited {ℓ} (R : Type ℓ) : Type ℓ where
  pub tree : AnyTree R
  pub key : Option Text
  pub visited_node : Option ChainedObject

-- `node ?? parentRef`
abbrev pub any_node_or_parent {ℓ} :
    {R : Type ℓ} → Option (AnyItem R) → Option ChainedObject → Option ChainedObject
any_node_or_parent none parent = parent
any_node_or_parent (some i) parent = some (any_item_ref i)

abbrev pub any_node_ref {ℓ} : {R : Type ℓ} → Option (AnyItem R) → Option ChainedObject
any_node_ref none = none
any_node_ref (some i) = some (any_item_ref i)

-- The node of a call, which is there if the call has a key.
abbrev pub any_own_node {ℓ} :
    {R : Type ℓ} → ℕ → AnyTree R → Option ChainedObject → Option Text → Option (AnyItem R)
any_own_node now tree parent none = none
any_own_node now tree parent (some k) =
    some (create_any_item k (level_or_zero parent + 1) parent tree now)

-- What a generator has yielded when it ends with the list it pushed to, or when it throws.
pub data Trace {ℓ} (A L : Type ℓ) : Type ℓ where
  went : List A → L → Trace A L
  broke : List A → Trace A L

module _ {ℓ} {A L : Type ℓ} where
  -- What was yielded before.
  unfoldable pub after : List A → Trace A L → Trace A L
  after out (went items l) = went (out ++ items) l
  after out (broke items) = broke (out ++ items)

  -- A generator, then another one.
  unfoldable pub and_then : Trace A L → (L → Trace A L) → Trace A L
  unfolding after
  and_then (went items l) next = after items (next l)
  and_then (broke items) next = broke items

-- `asyncTreePostOrderTraversalRecursive`, on a tree in memory.
unfoldable mutual
  -- A tree in memory has all its descendants in memory. Each is pushed to the list.
  pub async_post_order_plain {ℓ} :
      {R L : Type ℓ}
      → AsyncSimpleList (AnyVisited R) L
      → ℕ
      → Tree R
      → L
      → Option ChainedObject
      → Option Text
      → Trace (AnyItem R) L
  async_post_order_plain list now (leaf v d) l parent key =
      went (option_list (any_own_node now (plain (leaf v d)) parent key)) l
  async_post_order_plain list now (branch v d es) l parent key =
      let own = any_own_node now (plain (branch v d es)) parent key in
      and_then (async_post_order_children list now es l parent own)
        (λ l'. went (option_list own) l')

  -- `for … in`
  pub async_post_order_children {ℓ} :
      {R L : Type ℓ}
      → AsyncSimpleList (AnyVisited R) L
      → ℕ
      → Entries R
      → L
      → Option ChainedObject
      → Option (AnyItem R)
      → Trace (AnyItem R) L
  async_post_order_children list now nil l parent own = went [] l
  async_post_order_children list now (entry k t es) l parent own =
      let pushed =
        list.push l (record { tree = plain t; key = some k; visited_node = any_node_ref own }) in
      and_then (async_post_order_plain list now t pushed (any_node_or_parent own parent) (some k))
        (λ l'. async_post_order_children list now es l' parent own)
  async_post_order_children list now (hole k es) l parent own =
      async_post_order_children list now es l parent own

-- The same on any tree: the children that an iterable gives are not pushed to the list.
unfoldable mutual
  pub async_post_order_recursive {ℓ} :
      {R L : Type ℓ}
      → AsyncSimpleList (AnyVisited R) L
      → ℕ
      → AnyTree R
      → L
      → Option ChainedObject
      → Option Text
      → Trace (AnyItem R) L
  async_post_order_recursive list now (plain t) l parent key =
      async_post_order_plain list now t l parent key
  async_post_order_recursive list now (deferred v d es) l parent key =
      let own = any_own_node now (deferred v d es) parent key in
      and_then (async_post_order_deferred list now es l parent own)
        (λ l'. went (option_list own) l')

  -- `for await … of`
  pub async_post_order_deferred {ℓ} :
      {R L : Type ℓ}
      → AsyncSimpleList (AnyVisited R) L
      → ℕ
      → AnyEntries R
      → L
      → Option ChainedObject
      → Option (AnyItem R)
      → Trace (AnyItem R) L
  async_post_order_deferred list now ends l parent own = went [] l
  async_post_order_deferred list now (yields k t es) l parent own =
      and_then (async_post_order_recursive list now t l (any_node_or_parent own parent) (some k))
        (λ l'. async_post_order_deferred list now es l' parent own)
  async_post_order_deferred list now (skips k es) l parent own =
      async_post_order_deferred list now es l parent own
  async_post_order_deferred list now breaks l parent own = broke []

-- The end of the traversal: the root is yielded last, if it starts at a node.
unfoldable pub end_trace {ℓ} : {A L : Type ℓ} → Trace A L → List A → Run A
end_trace (went items l) last = done (items ++ last)
end_trace (broke items) last = failed items

-- `asyncTreePostOrderTraversal`
unfoldable pub async_post_order_traversal {ℓ} :
    {R L : Type ℓ}
    → AsyncSimpleList (AnyVisited R) L
    → ℕ
    → AnyTree R
    → L
    → Option ChainedObject
    → Run (AnyItem R)
unfolding async_post_order_recursive end_trace
async_post_order_traversal list now tree l root =
    end_trace (async_post_order_recursive list now tree l root none) (any_start_item now tree root)

-- `asyncTreePostOrderDepthFirstSearch` and `asyncTreePostOrderBreadthFirstSearch`
unfoldable pub async_post_order_depth_first_search {ℓ} :
    {R : Type ℓ} → ℕ → AnyTree R → Option ChainedObject → Run (AnyItem R)
async_post_order_depth_first_search now tree parent =
    async_post_order_traversal async_stack now tree [] parent

unfoldable pub async_post_order_breadth_first_search {ℓ} :
    {R : Type ℓ} → ℕ → AnyTree R → Option ChainedObject → Run (AnyItem R)
async_post_order_breadth_first_search now tree parent =
    async_post_order_traversal async_queue now tree new_queue parent
