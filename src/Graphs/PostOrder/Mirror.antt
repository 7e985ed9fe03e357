-- ===== src/Graphs/PostOrder/Mirror.antt =====
-- The post order and the depth first pre order (src/utils/graphs/tree-post-order-traversal.ts,
-- src/utils/graphs/tree-pre-order-traversal.ts).
use nodejs_proto_cache.Prelude.{
  ℕ, ◌+◌, ◌<◌, ◌≡◌, refl, sym, ◌∙◌, ap, Option, none, some, [], ◌∷◌, ◌++◌, reverse, append-nil,
}
use mathlib.Core.Path.{ap₂}
use mathlib.Core.List.{reverse-append, reverse-reverse}
use nodejs_proto_cache.Keys.{Text, ChainedObject, chained, level_of}
use nodejs_proto_cache.Tree.{Tree, Entries, leaf, branch, nil, entry, hole, entries_of}
use nodejs_proto_cache.Graphs.{
  Item, SimpleList, done, create_traversal_item, level_or_zero, start_item,
}
use nodejs_proto_cache.Graphs.Depth.{
  array_list, depth_order, depth_below, pre_order_depth_first_search,
  pre_order_depth_first_search-depth_below,
}
use nodejs_proto_cache.Graphs.Queue.{queue_list, new_queue}
use nodejs_proto_cache.Graphs.Loop.{tree_nodes}
use nodejs_proto_cache.Graphs.PostOrder.{
  Visited, node_ref, node_or_parent, post_order_recursive, post_order_children,
  post_order_traversal, post_order_depth_first_search, post_order_breadth_first_search,
}

level_of-chained : (k : Text) (n : ℕ) (p : Option ChainedObject) → level_of (chained k n p) ≡ n
level_of-chained k n none = refl
level_of-chained k n (some p) = refl

mutual
  unfolding post_order_recursive depth_order create_traversal_item

  post_order_keyed {ℓ} :
      {R L : Type ℓ} (list : SimpleList (Visited R) L) (now : ℕ) (t : Tree R) (l : L)
      (parent : Option ChainedObject) (k : Text)
      → reverse (post_order_recursive list now t l parent (some k)).0
        ≡ depth_order now k (level_or_zero parent + 1) parent t
  post_order_keyed list now (leaf v d) l parent k = refl
  post_order_keyed list now (branch v d es) l parent k =
      let node = create_traversal_item k (level_or_zero parent + 1) parent (branch v d es) now in
      rw reverse-append (
        ap (◌∷◌ node)
          (post_order_below list now es l parent (some node) ∙ rw level_of-chained refl))

  post_order_below {ℓ} :
      {R L : Type ℓ} (list : SimpleList (Visited R) L) (now : ℕ) (es : Entries R) (l : L)
      (parent : Option ChainedObject) (node : Option (Item R))
      → reverse (post_order_children list now es l parent node).0
        ≡ depth_below now
            (level_or_zero (node_or_parent node parent) + 1)
            (node_or_parent node parent)
            es
  post_order_below list now nil l parent own = refl
  post_order_below list now (entry k t es) l parent own =
      let l₁ = list.push l (record { tree = t; key = k; node = node_ref own }) in
      let up = node_or_parent own parent in
      rw reverse-append (
        ap₂ ◌++◌
          (post_order_below list now es (post_order_recursive list now t l₁ up (some k)).1 parent
            own)
          (post_order_keyed list now t l₁ up k))
  post_order_below list now (hole k es) l parent own = post_order_below list now es l parent own

post_order_unkeyed {ℓ} :
    {R L : Type ℓ} (list : SimpleList (Visited R) L) (now : ℕ) (t : Tree R) (l : L)
    (parent : Option ChainedObject)
    → reverse (post_order_recursive list now t l parent none).0
      ≡ depth_below now (level_or_zero parent + 1) parent (entries_of t)
unfolding post_order_recursive depth_below
post_order_unkeyed list now (leaf v d) l parent = refl
post_order_unkeyed list now (branch v d es) l parent =
    rw append-nil (post_order_below list now es l parent none)

reverse-start_item {ℓ} :
    {R : Type ℓ} (now : ℕ) (t : Tree R) (parent : Option ChainedObject)
    → reverse (start_item now t parent) ≡ start_item now t parent
unfolding start_item
reverse-start_item now t none = refl
reverse-start_item now t (some p) = refl

-- Whatever list it is given, the post order traversal yields the root, if there is one, and the
-- nodes below it in depth first order, all read backwards.
reverse-post_order_traversal {ℓ} :
    {R L : Type ℓ} (list : SimpleList (Visited R) L) (now : ℕ) (t : Tree R) (l : L)
    (parent : Option ChainedObject)
    → reverse (post_order_traversal list now t l parent)
      ≡ start_item now t parent ++ depth_below now (level_or_zero parent + 1) parent (entries_of t)
unfolding post_order_traversal
reverse-post_order_traversal list now t l parent =
    rw reverse-append
      (ap₂ ◌++◌ (reverse-start_item now t parent) (post_order_unkeyed list now t l parent))

-- The post order depth first search yields what the pre order one yields, in the opposite order:
-- every node after all that lie below it. The fuel of the pre order has to cover the nodes.
pub pre_order-reverse-post_order {ℓ} :
    {R : Type ℓ} (now fuel : ℕ) (tree : Tree R) (parent : Option ChainedObject)
    → tree_nodes tree < fuel
    → pre_order_depth_first_search now fuel tree parent
      ≡ done (reverse (post_order_depth_first_search now tree parent))
unfolding post_order_depth_first_search
pre_order-reverse-post_order now fuel tree parent h =
    pre_order_depth_first_search-depth_below now fuel tree parent h
    ∙ ap done (sym (reverse-post_order_traversal array_list now tree [] parent))

-- The post order breadth first search takes a queue and never reads it: it yields the nodes in the
-- order of the depth first search.
pub post_order_breadth-depth {ℓ} :
    {R : Type ℓ} (now : ℕ) (tree : Tree R) (parent : Option ChainedObject)
    → post_order_breadth_first_search now tree parent
      ≡ post_order_depth_first_search now tree parent
unfolding post_order_depth_first_search post_order_breadth_first_search
post_order_breadth-depth now tree parent =
    sym (reverse-reverse _)
    ∙ ap reverse (
        reverse-post_order_traversal queue_list now tree new_queue parent
        ∙ sym (reverse-post_order_traversal array_list now tree [] parent))
    ∙ reverse-reverse _
