-- ===== src/Graphs/Async/PostOrder/Lockstep.antt =====
-- The post order of src/utils/graphs/async/async-tree-post-order-traversal.ts next to that of
-- src/utils/graphs/tree-post-order-traversal.ts.
use nodejs_proto_cache.Prelude.{
  ℕ, ◌≡◌, refl, sym, ◌∙◌, ap, Option, none, some, List, [], ◌++◌, map, map-append,
}
use mathlib.Core.Path.{ap₂}
use nodejs_proto_cache.Keys.{Text, ChainedObject}
use nodejs_proto_cache.Tree.{Tree, Entries, leaf, branch, nil, entry, hole}
use nodejs_proto_cache.Graphs.{Item, SimpleList, done}
use nodejs_proto_cache.Graphs.Depth.{array_list}
use nodejs_proto_cache.Graphs.Queue.{new_queue, queue_list}
use nodejs_proto_cache.Graphs.PostOrder.{
  Visited, node_or_parent, node_ref, own_node, option_list, post_order_recursive,
  post_order_children, post_order_traversal, post_order_depth_first_search,
  post_order_breadth_first_search,
}
use nodejs_proto_cache.Graphs.Async.{
  AnyTree, AnyEntries, plain, deferred, ends, yields, skips, breaks, AnyItem, AsyncSimpleList,
  any_start_item,
}
use nodejs_proto_cache.Graphs.Async.Flat.{
  as_tree, as_entries, Steady, SteadyEntries, as_item, map_run, as_item-create,
}
use nodejs_proto_cache.Graphs.Async.Stack.{async_stack}
use nodejs_proto_cache.Graphs.Async.Queue.{async_queue}
use nodejs_proto_cache.Graphs.Async.Searches.{as_item-start}
use nodejs_proto_cache.Graphs.Async.PostOrder.{
  AnyVisited, any_node_or_parent, any_own_node, Trace, went, and_then, after,
  async_post_order_recursive, async_post_order_deferred, async_post_order_plain,
  async_post_order_children, end_trace, async_post_order_traversal,
  async_post_order_depth_first_search, async_post_order_breadth_first_search,
}

abbrev as_own {ℓ} : {R : Type ℓ} → Option (AnyItem R) → Option (Item R)
as_own none = none
as_own (some i) = some (as_item i)

-- A run that ends, and has yielded the given items.
abbrev Yields {ℓ} : {R L : Type ℓ} → Trace (AnyItem R) L → List (Item R) → Type ℓ
Yields {R = R} {L = L} trace expected =
    (items : List (AnyItem R)) × (l : L) × (trace ≡ went items l) × (map as_item items ≡ expected)

module _ {ℓ} {R : Type ℓ} where
  as_own-any_own_node :
      (now : ℕ) (t : AnyTree R) (parent : Option ChainedObject) (key : Option Text)
      → as_own (any_own_node now t parent key) ≡ own_node now (as_tree t) parent key
  as_own-any_own_node now t parent none = refl
  as_own-any_own_node now t parent (some k) = ap some (as_item-create k _ parent t now)

  map-option_list :
      (own : Option (AnyItem R)) → map as_item (option_list own) ≡ option_list (as_own own)
  map-option_list none = refl
  map-option_list (some i) = refl

  node_or_parent-as_own :
      (own : Option (AnyItem R)) (parent : Option ChainedObject)
      → node_or_parent (as_own own) parent ≡ any_node_or_parent own parent
  unfolding as_item
  node_or_parent-as_own none parent = refl
  node_or_parent-as_own (some i) parent = refl

module _ {ℓ} {R L : Type ℓ} where
  Yields-and_then :
      (trace : Trace (AnyItem R) L) (next : L → Trace (AnyItem R) L) (first rest : List (Item R))
      → Yields trace first
      → ((l : L) → Yields (next l) rest)
      → Yields (and_then trace next) (first ++ rest)
  unfolding and_then after
  Yields-and_then trace next first rest (items, l, e, same) others =
      let (more, l', e', same') = others l in
      (
        items ++ more,
        l',
        rw (e, and_then, e', after) refl,
        map-append as_item items more ∙ ap₂ ◌++◌ same same',
      )

  -- The node of a call is yielded after what lies below it.
  Yields-own :
      (now : ℕ) (t : AnyTree R) (parent : Option ChainedObject) (key : Option Text) (l : L)
      → Yields
          (went (option_list (any_own_node now t parent key)) l)
          (option_list (own_node now (as_tree t) parent key))
  Yields-own now t parent key l = (
    _,
    l,
    refl,
    map-option_list (any_own_node now t parent key)
        ∙ ap option_list (as_own-any_own_node now t parent key),
  )

mutual
  unfolding async_post_order_plain async_post_order_children post_order_recursive
      post_order_children as_tree

  Yields-plain {ℓ} :
      {R L S : Type ℓ} (list : AsyncSimpleList (AnyVisited R) L) (sync : SimpleList (Visited R) S)
      (now : ℕ) (t : Tree R) (l : L) (s : S) (parent : Option ChainedObject) (key : Option Text)
      → Yields
          (async_post_order_plain list now t l parent key)
          (post_order_recursive sync now t s parent key).0
  Yields-plain list sync now (leaf v d) l s parent key =
      Yields-own now (plain (leaf v d)) parent key l
  Yields-plain list sync now (branch v d es) l s parent key =
      let own = any_own_node now (plain (branch v d es)) parent key in
      Yields-and_then _ _ _ _
        (Yields-children list sync now es l s parent own (own_node now (branch v d es) parent key)
          (as_own-any_own_node now (plain (branch v d es)) parent key))
        (λ l'. Yields-own now (plain (branch v d es)) parent key l')

  Yields-children {ℓ} :
      {R L S : Type ℓ} (list : AsyncSimpleList (AnyVisited R) L) (sync : SimpleList (Visited R) S)
      (now : ℕ) (es : Entries R) (l : L) (s : S) (parent : Option ChainedObject)
      (own : Option (AnyItem R)) (sync_own : Option (Item R))
      → as_own own ≡ sync_own
      → Yields
          (async_post_order_children list now es l parent own)
          (post_order_children sync now es s parent sync_own).0
  Yields-children list sync now nil l s parent own sync_own e = ([], l, refl, refl)
  Yields-children list sync now (entry k t es) l s parent own sync_own e =
      let s₁ = sync.push s (record { tree = t; key = k; node = node_ref sync_own }) in
      let up = any_node_or_parent own parent in
      let same : node_or_parent sync_own parent ≡ up =
        ap (λ o. node_or_parent o parent) (sym e) ∙ node_or_parent-as_own own parent in
      rw same (
        Yields-and_then _ _ _ _ (Yields-plain list sync now t _ s₁ up (some k)) (λ l'.
          Yields-children list sync now es l' (post_order_recursive sync now t s₁ up (some k)).1
            parent own sync_own e))
  Yields-children list sync now (hole k es) l s parent own sync_own e =
      Yields-children list sync now es l s parent own sync_own e

mutual
  unfolding async_post_order_recursive async_post_order_deferred post_order_recursive
      post_order_children as_tree as_entries Steady SteadyEntries

  Yields-recursive {ℓ} :
      {R L S : Type ℓ} (list : AsyncSimpleList (AnyVisited R) L) (sync : SimpleList (Visited R) S)
      (now : ℕ) (t : AnyTree R) (l : L) (s : S) (parent : Option ChainedObject) (key : Option Text)
      → Steady t
      → Yields
          (async_post_order_recursive list now t l parent key)
          (post_order_recursive sync now (as_tree t) s parent key).0
  Yields-recursive list sync now (plain t) l s parent key steady =
      Yields-plain list sync now t l s parent key
  Yields-recursive list sync now (deferred v d es) l s parent key steady =
      let own = any_own_node now (deferred v d es) parent key in
      Yields-and_then _ _ _ _
        (Yields-deferred list sync now es l s parent own
          (own_node now (branch v d (as_entries es)) parent key)
          (as_own-any_own_node now (deferred v d es) parent key) steady)
        (λ l'. Yields-own now (deferred v d es) parent key l')

  Yields-deferred {ℓ} :
      {R L S : Type ℓ} (list : AsyncSimpleList (AnyVisited R) L) (sync : SimpleList (Visited R) S)
      (now : ℕ) (es : AnyEntries R) (l : L) (s : S) (parent : Option ChainedObject)
      (own : Option (AnyItem R)) (sync_own : Option (Item R))
      → as_own own ≡ sync_own
      → SteadyEntries es
      → Yields
          (async_post_order_deferred list now es l parent own)
          (post_order_children sync now (as_entries es) s parent sync_own).0
  Yields-deferred list sync now ends l s parent own sync_own e steady = ([], l, refl, refl)
  Yields-deferred list sync now (yields k t es) l s parent own sync_own e steady =
      let s₁ = sync.push s (record { tree = as_tree t; key = k; node = node_ref sync_own }) in
      let up = any_node_or_parent own parent in
      let same : node_or_parent sync_own parent ≡ up =
        ap (λ o. node_or_parent o parent) (sym e) ∙ node_or_parent-as_own own parent in
      rw same (
        Yields-and_then _ _ _ _ (Yields-recursive list sync now t l s₁ up (some k) steady.0) (λ l'.
          Yields-deferred list sync now es l'
            (post_order_recursive sync now (as_tree t) s₁ up (some k)).1 parent own sync_own e
            steady.1))
  Yields-deferred list sync now (skips k es) l s parent own sync_own e steady =
      Yields-deferred list sync now es l s parent own sync_own e steady
  Yields-deferred list sync now breaks l s parent own sync_own e steady = absurd steady

async_post_order_traversal-as_tree {ℓ} :
    {R L S : Type ℓ} (list : AsyncSimpleList (AnyVisited R) L) (sync : SimpleList (Visited R) S)
    (now : ℕ) (tree : AnyTree R) (l : L) (s : S) (parent : Option ChainedObject)
    → Steady tree
    → map_run as_item (async_post_order_traversal list now tree l parent)
      ≡ done (post_order_traversal sync now (as_tree tree) s parent)
unfolding async_post_order_traversal post_order_traversal end_trace map_run
async_post_order_traversal-as_tree list sync now tree l s parent steady =
    let (items, l', e, same) = Yields-recursive list sync now tree l s parent none steady in
    ap (λ trace. map_run as_item (end_trace trace (any_start_item now tree parent))) e
    ∙ ap done (
        map-append as_item items (any_start_item now tree parent)
        ∙ ap₂ ◌++◌ same (as_item-start now tree parent))

-- Over a tree none of whose iterables throws, the two asynchronous post order searches end, and
-- each yields what the post order search of the tree in memory with the same nodes yields, item by
-- item.
pub async_post_order_searches-as_tree {ℓ} :
    {R : Type ℓ} (now : ℕ) (tree : AnyTree R) (parent : Option ChainedObject)
    → Steady tree
    → (map_run as_item (async_post_order_depth_first_search now tree parent)
        ≡ done (post_order_depth_first_search now (as_tree tree) parent))
      × (map_run as_item (async_post_order_breadth_first_search now tree parent)
          ≡ done (post_order_breadth_first_search now (as_tree tree) parent))
unfolding async_post_order_depth_first_search async_post_order_breadth_first_search
    post_order_depth_first_search post_order_breadth_first_search
async_post_order_searches-as_tree now tree parent steady = (
  async_post_order_traversal-as_tree async_stack array_list now tree [] [] parent steady,
  async_post_order_traversal-as_tree async_queue queue_list now tree new_queue new_queue parent
      steady,
)
