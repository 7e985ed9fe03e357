-- ===== src/Cache/Reads.antt =====
-- Reading nodes: `getNodeRef` of src/internal/tree-internal-control.ts, with
-- src/internal/get-next-storage-node.ts, get-next-tree-node.ts, and `getNode` and `iteratePath` of
-- src/tree-key-cache.ts, for a storage without `getHistory` and options without a memoizer.
use nodejs_proto_cache.Prelude.{
  ℕ, zero, suc, ◌-◌, min, Bool, false, not, Option, none, some, List, ltb, if◌then◌else◌, length,
}
use nodejs_proto_cache.Keys.{
  Text, ChainedObject, build_key, get_key, parse_error, Result, ok, throw,
}
use nodejs_proto_cache.Tree.{Tree, empty_tree, entries_of, get_entry}
use nodejs_proto_cache.Graphs.{Item, create_traversal_item, item_ref}
use nodejs_proto_cache.Cache.{Options, Storage, Step, M, pure, raise, ◌>>=◌, lift, reading}
use nodejs_proto_cache.Cache.Values.{deserialize_tree, get_step}

abbrev pub ref_of : {R : Type 0} → Option (Item R) → Option ChainedObject
ref_of none = none
ref_of (some i) = some (item_ref i)

-- `getNextStorageNode`
unfoldable pub get_next_storage_node :
    {R : Type 0} → List Text → ℕ → Option ChainedObject → Tree R → ℕ → Result (Item R)
unfolding get_key create_traversal_item
get_next_storage_node path level parent tree now = elim (get_key path level) [
  | ok key ↦ ok (create_traversal_item key (suc level) parent tree now)
  | throw e ↦ throw e
]

-- `getNextTreeNode`: the node's item and its subtree, if there is one.
unfoldable pub get_next_tree_node :
    {R : Type 0}
    → List Text
    → ℕ
    → Tree R
    → Option ChainedObject
    → Tree R
    → ℕ
    → Result (Option (Item R × Tree R))
unfolding get_key get_entry create_traversal_item
get_next_tree_node path level tree parent tree_ref now = elim (get_key path level) [
  | throw e ↦ throw e
  | ok key ↦ elim (get_entry (entries_of tree) key) [
    | none ↦ ok none
    | some next ↦ ok (some (create_traversal_item key (suc level) parent tree_ref now, next))
  ]
]

-- The loop of `getNodeRef` over the levels of the storage, from the item of a level.
unfoldable pub storage_nodes :
    {R : Type 0} → List Text → ℕ → ℕ → Option (Item R) → ℕ → Result (Option (Item R))
unfolding get_next_storage_node
storage_nodes path zero level item now = ok item
storage_nodes path (suc n) level item now =
    elim (get_next_storage_node path level (ref_of item) empty_tree now) [
      | throw e ↦ throw e
      | ok next ↦ storage_nodes path n (suc level) (some next) now
    ]

-- The loop of `getNodeRef` over the levels of a tree.
unfoldable pub tree_nodes :
    {R : Type 0} → List Text → ℕ → ℕ → Item R → Tree R → ℕ → Result (Option (Item R × Tree R))
unfolding get_next_tree_node
tree_nodes path zero level item tree now = ok (some (item, tree))
tree_nodes path (suc n) level item tree now =
    elim (get_next_tree_node path level tree (some (item_ref item)) empty_tree now) [
      | throw e ↦ throw e
      | ok none ↦ ok none
      | ok (some (next, subtree)) ↦ tree_nodes path n (suc level) next subtree now
    ]

-- The item of the node that a tree's walk ended in.
abbrev pub final_item : {R : Type 0} → Option (Item R × Tree R) → ℕ → Option (Item R)
final_item none now = none
final_item (some (i, tree)) now = some (create_traversal_item i.key i.level i.parent_ref tree now)

module _ {T R S : Type 0} (options : Options T R) (storage : Storage S R) where
  -- The value of `getMemoizedTree`, without a memoizer.
  unfoldable pub get_tree : Text → M S T (Option (Tree R))
  unfolding deserialize_tree
  get_tree chained_key = do
    buffer ← reading (storage.get chained_key)
    elim buffer [
      | none ↦ pure none
      | some r ↦ if options.truthy r then deserialize_tree options r else pure none
    ]

  -- The tree of `getNodeRef` for `lastValue`: the parser may throw.
  unfoldable pub get_last_tree : Text → M S T (Option (Tree R))
  get_last_tree chained_key = do
    buffer ← reading (storage.get chained_key)
    elim buffer [
      | none ↦ pure none
      | some r ↦
          if options.truthy r
          then elim (options.deserialize_tree r) [
            | none ↦ raise parse_error
            | some t ↦ pure (some t)
          ]
          else pure none
    ]

  -- `getNodeRef` from the item of the last level: a node of a key of its own.
  unfoldable pub read_key_level : Item R → M S T (Option (Item R))
  unfolding build_key
  read_key_level item = do
    buffer ← reading (storage.get (build_key (item_ref item)))
    pure (some (record item { value = buffer }))

  -- The same, for a node of a tree.
  unfoldable pub read_tree_level : List Text → Bool → ℕ → Item R → M S T (Option (Item R))
  unfolding build_key tree_nodes get_tree get_last_tree create_traversal_item
  read_tree_level path last_value now item = do
    let chained_key = build_key (item_ref item)
    found ← (if last_value then get_last_tree chained_key else get_tree chained_key)
    elim found [
      | none ↦ pure (if last_value then none else some item)
      | some tree ↦ do
        walked ← lift (tree_nodes path (length path - item.level) item.level item tree now)
        pure (final_item walked now)
    ]

  unfoldable pub read_item : List Text → Bool → ℕ → Item R → M S T (Option (Item R))
  unfolding read_key_level read_tree_level
  read_item path last_value now item =
      if ltb item.level options.key_level_nodes
      then read_key_level item
      else read_tree_level path last_value now item

  -- `getNodeRef`
  unfoldable pub get_node_ref : List Text → Bool → ℕ → M S T (Option (Item R))
  unfolding storage_nodes read_item
  get_node_ref path last_value now = do
    reached ← lift (storage_nodes path (min options.key_level_nodes (length path)) 0 none now)
    elim reached [ none ↦ pure none | some item ↦ read_item path last_value now item ]

  -- The step of an item whose value is set.
  unfoldable pub step_of_item : Item R → M S T (Option (Step T))
  unfolding get_step
  step_of_item item = elim item.value [
    | none ↦ pure none
    | some r ↦
        if not (options.truthy r)
        then pure none
        else do step ← get_step options (some r) (item_ref item) (λ node. none); pure (some step)
  ]

  -- `getNode`
  unfoldable pub get_node : List Text → ℕ → M S T (Option (Step T))
  unfolding get_node_ref step_of_item
  get_node path now = do
    found ← get_node_ref path false now
    elim found [ none ↦ pure none | some item ↦ step_of_item item ]
