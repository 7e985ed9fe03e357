-- ===== src/Graphs.antt =====
-- The traversals of a tree in memory: src/utils/graphs/create-traversal-item.ts, the interfaces of
-- src/utils/graphs/graph-types.ts, and src/utils/graphs/tree-pre-order-traversal.ts. A generator
-- is the list of what it yields. The children modules hold the queue, the post order, and what is
-- proved of each order.
pub mod Interface
pub mod Loop
pub mod Depth
pub mod Queue
pub mod Breadth
pub mod PostOrder
pub mod Async
pub mod Invariant
pub mod Complete
use nodejs_proto_cache.Prelude.{
  ℕ, zero, suc, ◌+◌, Option, none, some, List, [], ◌∷◌, ◌++◌, ◌==◌, if◌then◌else◌,
}
use nodejs_proto_cache.Keys.{Text, ChainedObject, chained, key_of, level_of}
use nodejs_proto_cache.Tree.{Tree, Entries, nil, entry, hole, entries_of, current_value}

-- `SyncTraversalItem`
pub record Item {ℓ} (R : Type ℓ) : Type ℓ where
  pub key : Text
  pub level : ℕ
  pub parent_ref : Option ChainedObject
  pub value : Option R
  pub tree_ref : Tree R

-- An item as the chained object that it extends.
abbrev pub item_ref {ℓ} : {R : Type ℓ} → Item R → ChainedObject
item_ref i = chained i.key i.level i.parent_ref

-- `parentRef?.level ?? 0`
abbrev pub level_or_zero : Option ChainedObject → ℕ
level_or_zero none = 0
level_or_zero (some p) = level_of p

abbrev pub parent_of : ChainedObject → Option ChainedObject
parent_of (ChainedObject.top k n) = none
parent_of (ChainedObject.below k n p) = some p

-- `createTraversalItem`
unfoldable pub create_traversal_item {ℓ} :
    {R : Type ℓ} → Text → ℕ → Option ChainedObject → Tree R → ℕ → Item R
create_traversal_item key level parent tree now = record {
  key = key;
  level = level;
  parent_ref = parent;
  value = current_value tree now;
  tree_ref = tree;
}

-- `SimpleList`: a collection `L` of `A`, as a stack or a queue keeps it.
pub record SimpleList {ℓ} (A L : Type ℓ) : Type ℓ where
  pub push : L → A → L
  pub pop : L → Option A × L
  pub length : L → ℕ

-- A tuple of the list: tree, level, key and parent.
pub record Pending {ℓ} (R : Type ℓ) : Type ℓ where
  pub tree : Tree R
  pub level : ℕ
  pub key : Option Text
  pub parent : Option ChainedObject

-- The item that a tuple is yielded as, and the node that its children have for a parent.
abbrev pub yield_pending {ℓ} : {R : Type ℓ} → ℕ → Pending R → List (Item R)
yield_pending now p = elim p.key [
  | none ↦ []
  | some k ↦ create_traversal_item k p.level p.parent p.tree now ∷ []
]

abbrev pub node_of {ℓ} : {R : Type ℓ} → Pending R → Option ChainedObject
node_of p = elim p.key [ none ↦ p.parent | some k ↦ some (chained k p.level p.parent) ]

-- The end of a run: the generator is done, threw, or is out of the model's fuel.
pub data Run {ℓ} (A : Type ℓ) : Type ℓ where
  done : List A → Run A
  failed : List A → Run A
  out_of_fuel : Run A

-- Where the traversal starts at a node, that node is yielded first.
unfoldable pub start_item {ℓ} : {R : Type ℓ} → ℕ → Tree R → Option ChainedObject → List (Item R)
start_item now root none = []
start_item now root (some p) =
    create_traversal_item (key_of p) (level_of p) (parent_of p) root now ∷ []

abbrev pub root_pending {ℓ} : {R : Type ℓ} → Tree R → Option ChainedObject → Pending R
root_pending root start = record {
  tree = root;
  level = level_or_zero start;
  key = none;
  parent = start;
}

module _ {ℓ} {R L : Type ℓ} (list : SimpleList (Pending R) L) (now : ℕ) where
  -- The `for … in` loop over the children.
  unfoldable pub push_children : L → Entries R → ℕ → Option ChainedObject → L
  push_children l nil level parent = l
  push_children l (entry k t es) level parent =
      push_children
        (list.push l (record { tree = t; level = level; key = some k; parent = parent })) es level
        parent
  push_children l (hole k es) level parent = push_children l es level parent

  -- The `while` loop.
  unfoldable pub pre_order_loop : ℕ → L → List (Item R) → Run (Item R)
  pre_order_loop zero l out = out_of_fuel
  pre_order_loop (suc fuel) l out = elim (list.length l) [
    | zero ↦ done out
    | suc n ↦ elim (list.pop l).0 [
      | none ↦ failed out
      | some p ↦
          pre_order_loop fuel
            (push_children (list.pop l).1 (entries_of p.tree) (p.level + 1) (node_of p))
            (out ++ yield_pending now p)
    ]
  ]

  -- `treePreOrderTraversal` with the list `l` that it is given.
  unfoldable pub pre_order_traversal : ℕ → L → Tree R → Option ChainedObject → Run (Item R)
  unfolding pre_order_loop
  pre_order_traversal fuel l root start =
      pre_order_loop fuel (list.push l (root_pending root start)) (start_item now root start)
