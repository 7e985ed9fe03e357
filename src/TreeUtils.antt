-- ===== src/TreeUtils.antt =====
-- The utilities on trees in memory: `deepTreeSet` of src/utils/deep-tree-set.ts and
-- `deserializeWholeTree` of src/utils/deserialize-whole-tree.ts. A reference to a node of the tree
-- that is changed is the path of keys that leads to it.
pub mod Setting
pub mod Frame
pub mod Modifying
pub mod Rebuilding
pub mod Whole
pub mod Same
use nodejs_proto_cache.Prelude.{
  ℕ, zero, suc, ◌+◌, ◌-◌, Bool, true, false, ◌&&◌, Option, none, some, List, [], ◌∷◌, ◌++◌, ltb,
  if◌then◌else◌,
}
use nodejs_proto_cache.Keys.{Text, ChainedObject, chained}
use nodejs_proto_cache.Tree.{
  Tree, leaf, empty_tree, value_of, deadline_of, children_of, entries_of, with_value, with_children,
  get_entry, set_entry, current_value,
}
use nodejs_proto_cache.Graphs.{Item, Run}
use nodejs_proto_cache.Graphs.Depth.{pre_order_depth_first_search}
use nodejs_proto_cache.Cache.{Step}

-- A consumer leaves a value in the step, and goes on or leaves.
pub data Answer (T : Type 0) : Type 0 where
  goes_on : Option T → Answer T
  leaves : Option T → Answer T

-- `children[key] ??= tree`, the node that it gives.
abbrev pub found_or : {T : Type 0} → Tree T → Option (Tree T) → Tree T
found_or new none = new
found_or new (some t) = t

module _ {T : Type 0} where
  -- `step.value = value`
  abbrev pub write_value : Tree T → Option T → Tree T
  write_value t v = with_value t v (deadline_of t)

  -- `children[key] = node`, in a tree that has a children object from then on.
  abbrev pub put_child : Tree T → Text → Tree T → Tree T
  put_child t k u = with_children t (set_entry (entries_of t) k u)

  abbrev pub memory_step : Tree T → Text → ℕ → ChainedObject → Step T
  memory_step t k level own = record { value = value_of t; key = k; level = level; node_ref = own }

module _ {T : Type 0} (create_value : ℕ → Option T) (consumer : Step T → Answer T) where
  -- The rest of the loop from a level on: what is yielded, and the tree afterwards.
  unfoldable pub set_path : ℕ → Option ChainedObject → Tree T → List Text → List (Step T) × Tree T
  set_path level node_ref tree [] = ([], tree)
  set_path level node_ref tree (key ∷ path) =
      let own = chained key (suc level) node_ref in
      let node =
        found_or (leaf (create_value (suc level)) none) (get_entry (entries_of tree) key) in
      let step = memory_step node key (suc level) own in
      elim (consumer step) [
        | leaves v ↦ (step ∷ [], put_child tree key (write_value node v))
        | goes_on v ↦
            let (steps, below) = set_path (suc level) (some own) (write_value node v) path in
            (step ∷ steps, put_child tree key below)
      ]

  -- `deepTreeSet`
  unfoldable pub deep_tree_set_in_memory : Tree T → List Text → List (Step T) × Tree T
  deep_tree_set_in_memory tree path = set_path 0 none tree path

-- `EmptyTree`, the two messages of `TreeError`, the access to a node that is not there, an exception
-- of a serializer; and the ends of a search that gives no list.
pub data Problem : Type 0 where
  empty_data path_lost stack_lost no_node serializer_threw search_failed out_of_fuel : Problem

pub data Attempt (A : Type 0) : Type 0 where
  gave : A → Attempt A
  raised : Problem → Attempt A

-- The new tree, the references on the stack, the last one first, and the current level.
pub record Rebuild (T : Type 0) : Type 0 where
  pub tree : Tree T
  pub stack : List (List Text)
  pub current_level : ℕ

module _ {T : Type 0} where
  -- A change of the node that a reference leads to.
  unfoldable pub modify : List Text → (Tree T → Tree T) → Tree T → Tree T
  modify [] f t = f t
  modify (k ∷ ref) f t = elim (get_entry (entries_of t) k) [
    | none ↦ t
    | some u ↦ put_child t k (modify ref f u)
  ]

  abbrev pub write_some : Tree T → Option T → Tree T
  write_some t none = t
  write_some t (some v) = write_value t (some v)

  -- The child of a node under a key, new or not, with its value.
  unfoldable pub add_child : Text → Option T → Tree T → Tree T
  add_child k v t = put_child t k (write_some (found_or empty_tree (get_entry (entries_of t) k)) v)

  abbrev pub new_tree : Attempt (Rebuild T) → Attempt (Tree T)
  new_tree (raised e) = raised e
  new_tree (gave b) = gave b.tree

-- `isUndefinedOrNull(tree[TreeKeys.children]) && isUndefinedOrNull(rootValue)`
abbrev pub no_tree : {R : Type 0} → Tree R → ℕ → Bool
no_tree tree now = elim (children_of tree) [
  | some es ↦ false
  | none ↦ elim (current_value tree now) [ none ↦ true | some r ↦ false ]
]

-- `while (currentLevel > node.level)`, for the levels that are too many.
unfoldable pub pop_levels {ℓ} : {A : Type ℓ} → ℕ → List A → Option (List A)
pop_levels zero stack = some stack
pop_levels (suc n) [] = none
pop_levels (suc n) (x ∷ stack) = pop_levels n stack

module _ {T R : Type 0} (deserialize_tree : R → Option (Tree R)) (deserialize : R → Option T)
    (truthy : R → Bool) where
  abbrev pub read_some : Option R → Attempt (Option T)
  read_some none = gave none
  read_some (some r) = elim (deserialize r) [
    | none ↦ raised serializer_threw
    | some v ↦ gave (some v)
  ]

  -- The value of the root, which is read if it is truthy.
  abbrev pub read_root : Option R → Attempt (Option T)
  read_root none = gave none
  read_root (some r) = if truthy r then read_some (some r) else gave none

  unfoldable pub place_at : Item R → Tree T → List (List Text) → Attempt (Rebuild T)
  place_at item tree [] = raised no_node
  place_at item tree (ref ∷ stack) = elim (read_some item.value) [
    | raised e ↦ raised e
    | gave v ↦ gave (record {
      tree = modify ref (add_child item.key v) tree;
      stack = (ref ++ item.key ∷ []) ∷ ref ∷ stack;
      current_level = item.level;
    })
  ]

  -- The body of the loop.
  unfoldable pub place_node : Item R → Rebuild T → Attempt (Rebuild T)
  place_node item b =
      if ltb (b.current_level + 1) item.level
      then raised path_lost
      else elim (pop_levels (b.current_level + 1 - item.level) b.stack) [
        | none ↦ raised stack_lost
        | some stack ↦ place_at item b.tree stack
      ]

  unfoldable pub place_nodes : List (Item R) → Rebuild T → Attempt (Rebuild T)
  place_nodes [] b = gave b
  place_nodes (item ∷ items) b = elim (place_node item b) [
    | raised e ↦ raised e
    | gave b' ↦ place_nodes items b'
  ]

  unfoldable pub rebuild_from : Run (Item R) → Option T → Attempt (Tree T)
  rebuild_from (Run.done items) v =
      new_tree
        (place_nodes items (record { tree = leaf v none; stack = [] ∷ []; current_level = 0 }))
  rebuild_from (Run.failed items) v = raised search_failed
  rebuild_from Run.out_of_fuel v = raised out_of_fuel

  -- What is done with the tree; the search reads the clock again.
  unfoldable pub rebuild : ℕ → ℕ → ℕ → Tree R → Attempt (Tree T)
  rebuild fuel now later tree =
      if no_tree tree now then raised empty_data else elim (read_root (current_value tree now)) [
        | raised e ↦ raised e
        | gave v ↦ rebuild_from (pre_order_depth_first_search later fuel tree none) v
      ]

  -- `deserializeWholeTree`
  unfoldable pub deserialize_whole_tree : ℕ → ℕ → ℕ → R → Attempt (Tree T)
  deserialize_whole_tree fuel now later data' = elim (deserialize_tree data') [
    | none ↦ raised serializer_threw
    | some tree ↦ rebuild fuel now later tree
  ]
