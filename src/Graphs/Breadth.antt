-- ===== src/Graphs/Breadth.antt =====
-- The breadth first search of src/utils/graphs/tree-pre-order-breadth-first-search.ts: the loop
-- over the linked queue.
pub mod Rounds
use nodejs_proto_cache.Prelude.{
  ℕ, zero, suc, ◌+◌, ◌≤◌, ◌<◌, max, ◌≡◌, refl, sym, ◌∙◌, ap, Option, none, some, List, [], ◌∷◌,
  ◌++◌, append_assoc, append-nil, arith, length, All,
}
use nodejs_proto_cache.Keys.{Text, ChainedObject, chained}
use nodejs_proto_cache.Tree.{Tree, Entries, leaf, branch, nil, entry, hole, entries_of}
use nodejs_proto_cache.Graphs.{
  Item, item_ref, SimpleList, Pending, Run, done, pre_order_loop, pre_order_traversal,
  create_traversal_item, yield_pending, node_of, level_or_zero, start_item, root_pending,
}
use nodejs_proto_cache.Graphs.Interface.{IsListOf, at_end}
use nodejs_proto_cache.Graphs.Queue.{Queue, queue_list, new_queue}
use nodejs_proto_cache.Graphs.Queue.Fifo.{Holds, queue_list-IsListOf, new_queue-Holds}
use nodejs_proto_cache.Graphs.Loop.{
  tree_nodes, entries_nodes, pending_nodes, placed, loop-nil, loop-cons, tree_nodes-entries_of,
  child_pending, pending_nodes-root,
}

-- `treePreOrderBreadthFirstSearch`
unfoldable pub pre_order_breadth_first_search {ℓ} :
    {R : Type ℓ} → ℕ → ℕ → Tree R → Option ChainedObject → Run (Item R)
pre_order_breadth_first_search now fuel tree parent =
    pre_order_traversal queue_list now fuel new_queue tree parent

-- The height of a tree, and that of its children.
unfoldable mutual
  pub tree_height {ℓ} : {R : Type ℓ} → Tree R → ℕ
  tree_height (leaf v d) = 1
  tree_height (branch v d es) = suc (entries_height es)

  pub entries_height {ℓ} : {R : Type ℓ} → Entries R → ℕ
  entries_height nil = 0
  entries_height (entry k t es) = max (tree_height t) (entries_height es)
  entries_height (hole k es) = entries_height es

module _ {ℓ} {R : Type ℓ} (now : ℕ) where
  -- The items of the children of a node, in their order.
  unfoldable pub child_items : ℕ → Option ChainedObject → Entries R → List (Item R)
  child_items level parent nil = []
  child_items level parent (entry k t es) =
      create_traversal_item k level parent t now ∷ child_items level parent es
  child_items level parent (hole k es) = child_items level parent es

  -- The next level of the tree.
  unfoldable pub next_level : List (Item R) → List (Item R)
  next_level [] = []
  next_level (i ∷ items) =
      child_items (i.level + 1) (some (item_ref i)) (entries_of i.tree_ref) ++ next_level items

  -- A level, then the levels below it.
  unfoldable pub breadth_order : ℕ → List (Item R) → List (Item R)
  breadth_order zero items = []
  breadth_order (suc levels) items = items ++ breadth_order levels (next_level items)
