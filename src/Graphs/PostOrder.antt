-- ===== src/Graphs/PostOrder.antt =====
-- The post order of src/utils/graphs/tree-post-order-traversal.ts, with its two entries
-- src/utils/graphs/tree-post-order-depth-first-search.ts and
-- src/utils/graphs/tree-post-order-breadth-first-search.ts.
pub mod Mirror
pub mod Visit
use nodejs_proto_cache.Prelude.{ℕ, ◌+◌, Option, none, some, List, [], ◌∷◌, ◌++◌}
use nodejs_proto_cache.Keys.{Text, ChainedObject}
use nodejs_proto_cache.Tree.{Tree, Entries, leaf, branch, nil, entry, hole}
use nodejs_proto_cache.Graphs.{
  Item, item_ref, SimpleList, create_traversal_item, level_or_zero, start_item,
}
use nodejs_proto_cache.Graphs.Depth.{array_list}
use nodejs_proto_cache.Graphs.Queue.{queue_list, new_queue}

-- The tuple that is pushed for each child: tree, key and node.
pub record Visited {ℓ} (R : Type ℓ) : Type ℓ where
  pub tree : Tree R
  pub key : Text
  pub node : Option ChainedObject

-- `node ?? parentRef`
abbrev pub node_or_parent {ℓ} :
    {R : Type ℓ} → Option (Item R) → Option ChainedObject → Option ChainedObject
node_or_parent none parent = parent
node_or_parent (some i) parent = some (item_ref i)

abbrev pub node_ref {ℓ} : {R : Type ℓ} → Option (Item R) → Option ChainedObject
node_ref none = none
node_ref (some i) = some (item_ref i)

-- The node of a call, which is there if the call has a key.
abbrev pub own_node {ℓ} :
    {R : Type ℓ} → ℕ → Tree R → Option ChainedObject → Option Text → Option (Item R)
own_node now tree parent none = none
own_node now tree parent (some k) =
    some (create_traversal_item k (level_or_zero parent + 1) parent tree now)

abbrev pub option_list {ℓ} : {A : Type ℓ} → Option A → List A
option_list none = []
option_list (some a) = a ∷ []

-- `treePostOrderTraversalRecursive`: what is yielded, and the list that was pushed to.
unfoldable mutual
  pub post_order_recursive {ℓ} :
      {R L : Type ℓ}
      → SimpleList (Visited R) L
      → ℕ
      → Tree R
      → L
      → Option ChainedObject
      → Option Text
      → List (Item R) × L
  post_order_recursive list now (leaf v d) l parent key =
      (option_list (own_node now (leaf v d) parent key), l)
  post_order_recursive list now (branch v d es) l parent key =
      let node = own_node now (branch v d es) parent key in
      let (below, l') = post_order_children list now es l parent node in
      (below ++ option_list node, l')

  pub post_order_children {ℓ} :
      {R L : Type ℓ}
      → SimpleList (Visited R) L
      → ℕ
      → Entries R
      → L
      → Option ChainedObject
      → Option (Item R)
      → List (Item R) × L
  post_order_children list now nil l parent own = ([], l)
  post_order_children list now (entry k t es) l parent own =
      let l₁ = list.push l (record { tree = t; key = k; node = node_ref own }) in
      let (first, l₂) = post_order_recursive list now t l₁ (node_or_parent own parent) (some k) in
      let (rest, l₃) = post_order_children list now es l₂ parent own in (first ++ rest, l₃)
  post_order_children list now (hole k es) l parent own =
      post_order_children list now es l parent own

-- `treePostOrderTraversal`
unfoldable pub post_order_traversal {ℓ} :
    {R L : Type ℓ}
    → SimpleList (Visited R) L
    → ℕ
    → Tree R
    → L
    → Option ChainedObject
    → List (Item R)
unfolding post_order_recursive
post_order_traversal list now tree l root =
    (post_order_recursive list now tree l root none).0 ++ start_item now tree root

-- `treePostOrderDepthFirstSearch` and `treePostOrderBreadthFirstSearch`
unfoldable pub post_order_depth_first_search {ℓ} :
    {R : Type ℓ} → ℕ → Tree R → Option ChainedObject → List (Item R)
post_order_depth_first_search now tree parent = post_order_traversal array_list now tree [] parent

unfoldable pub post_order_breadth_first_search {ℓ} :
    {R : Type ℓ} → ℕ → Tree R → Option ChainedObject → List (Item R)
post_order_breadth_first_search now tree parent =
    post_order_traversal queue_list now tree new_queue parent
