-- ===== src/Cache/FullTreeSet.antt =====
-- Setting a whole tree: `fullTreeSet` of src/tree-key-cache.ts, with `saveFullTreeValue`,
-- `getFullSetItem`, `checkFullSetItemChange` and `registerKeyLevelChildren` of
-- src/internal/tree-internal-control.ts. A reference into the tree that is saved is the path of
-- keys to the node; the array of references is a function of the level.
pub mod Saved
pub mod Loop
pub mod Refines
pub mod Rounds
pub mod Views
pub mod Held
pub mod SavedRun
pub mod SavesTree
use nodejs_proto_cache.Prelude.{
  ℕ, zero, suc, ◌-◌, Bool, true, false, not, ◌||◌, Option, none, some, List, [], ◌∷◌, ◌++◌, ltb,
  leb, ◌==◌, if◌then◌else◌,
}
use nodejs_proto_cache.Keys.{
  Text, ChainedObject, build_key, algorithm_error, stopped, Result, ok, throw,
}
use nodejs_proto_cache.Tree.{
  Tree, Entries, leaf, nil, entry, hole, empty_tree, deadline_of, children_of, entries_of,
  with_value, get_entry, current_value,
}
use nodejs_proto_cache.Tree.Paths.{find_tree}
use nodejs_proto_cache.Graphs.{Item, Run, item_ref}
use nodejs_proto_cache.Graphs.Loop.{tree_nodes}
use nodejs_proto_cache.Graphs.Depth.{pre_order_depth_first_search}
use nodejs_proto_cache.Graphs.Breadth.{pre_order_breadth_first_search}
use nodejs_proto_cache.TreeUtils.{found_or, put_child, modify}
use nodejs_proto_cache.Cache.{
  Options, Storage, Step, StepTtl, Reply, resume, leave, M, pure, raise, ◌>>=◌, ◌>>◌, reading,
  writing, yielded, acquire_if, finally_release,
}
use nodejs_proto_cache.Cache.Values.{
  get_ttl, is_undefined_or_null, differs, deserialize_value, get_step, persist_step, persist_tree,
}
use nodejs_proto_cache.Cache.DeepTreeSet.{parse_tree}

-- `FullSetItem`: a step, with the value before and the serialized one.
pub record FullSetItem (T R : Type 0) : Type 0 where
  pub step : Step T
  pub old_value : Option T
  pub current : Option R

abbrev pub FullConsumer : Type 0 → Type 0 → Type 0
FullConsumer T R = FullSetItem T R → Reply T

abbrev pub with_step_value : {T R : Type 0} → FullSetItem T R → Option T → FullSetItem T R
with_step_value item v = record item { step = record item.step { value = v } }

-- `yield item`
unfoldable pub yield_item :
    {S T R : Type 0} → FullConsumer T R → FullSetItem T R → M S T (FullSetItem T R)
yield_item consumer item w =
    let w' = record w { events = w.events ++ yielded item.step ∷ [] } in
    elim (consumer item) [
      | resume v ↦ (ok (with_step_value item v), w')
      | leave ↦ (throw stopped, w')
    ]

-- The tree that is saved, the reference of each level, the current one, and what has changed.
pub record Saving (R : Type 0) : Type 0 where
  pub tree : Tree R
  pub stack : ℕ → Option (List Text)
  pub current : List Text
  pub changed : Bool
  pub max_ttl : Option ℕ

-- `stack[level] = ref`
abbrev pub set_level : (ℕ → Option (List Text)) → ℕ → List Text → ℕ → Option (List Text)
set_level stack level ref j = if level == j then some ref else stack j

-- The node that a reference leads to.
abbrev pub node_at : {R : Type 0} → Tree R → List Text → Tree R
node_at tree ref = found_or empty_tree (find_tree tree ref)

abbrev pub start_saving : {R : Type 0} → ℕ → Tree R → Saving R
start_saving root_level tree = record {
  tree = tree;
  stack = set_level (λ j. none) root_level [];
  current = [];
  changed = false;
  max_ttl = none;
}

-- A traversal that comes to its end.
abbrev pub run_items : {S T A : Type 0} → Run A → M S T (List A)
run_items (Run.done items) = pure items
run_items (Run.failed items) = raise algorithm_error
run_items Run.out_of_fuel = raise algorithm_error

module _ {T R : Type 0} (options : Options T R) where
  -- The value of a new node, if it gets one.
  abbrev pub created : Option T → Option R
  created none = none
  created (some v) =
      if is_undefined_or_null options (some v) then none else some (options.serialize v)

  abbrev pub is_some : Option R → Bool
  is_some none = false
  is_some (some r) = true

  -- `children[key] ??= {}`, with the value of a new node.
  abbrev pub ensure_child : Text → Option R → Tree R → Tree R
  ensure_child key value t =
      put_child t key (found_or (leaf value none) (get_entry (entries_of t) key))

  -- `checkFullSetItemChange`: the node, and whether it is changed.
  unfoldable pub check_full_set_item_change : FullSetItem T R → Tree R → Tree R × Bool
  unfolding differs
  check_full_set_item_change item tree = elim item.step.value [
    | none ↦ (tree, false)
    | some v ↦
        if differs options item.current (options.serialize v)
        then (with_value tree (some (options.serialize v)) (deadline_of tree), true)
        else (tree, false)
  ]

module _ {T R S : Type 0} (options : Options T R) where
  -- `currentSerialized ? deserializeValue(currentSerialized) : undefined`
  abbrev pub old_value : Option R → M S T (Option T)
  old_value none = pure none
  old_value (some r) = if options.truthy r then deserialize_value options r else pure none

  -- `getFullSetItem`
  unfoldable pub get_full_set_item : Tree R → Item T → ℕ → M S T (FullSetItem T R)
  unfolding deserialize_value
  get_full_set_item tree item now = do
    old ← old_value (current_value tree now)
    pure (record {
      step = record {
        value = item.value;
        key = item.key;
        level = item.level;
        node_ref = item_ref item;
      };
      old_value = old;
      current = current_value tree now;
    })

  module _ (storage : Storage S R) (create_value : ChainedObject → Option T)
      (ttl : Option (StepTtl T)) (consumer : FullConsumer T R) where
    -- The node below the reference of the level above, made if it is not there.
    unfoldable pub place_below : Item T → List Text → Saving R → Saving R
    unfolding is_undefined_or_null
    place_below item above s =
        let ref = above ++ item.key ∷ [] in
        let value = created options (create_value (item_ref item)) in
        record {
          tree = modify above (ensure_child options item.key value) s.tree;
          stack = set_level s.stack item.level ref;
          current = ref;
          changed = elim (get_entry (entries_of (node_at s.tree above)) item.key) [
            | some t ↦ s.changed
            | none ↦ s.changed || is_some options value
          ];
          max_ttl = s.max_ttl;
        }

    -- `if (level !== rootNode.level)`
    unfoldable pub place_item : ℕ → Item T → Saving R → M S T (Saving R)
    unfolding place_below
    place_item root_level item s = if item.level == root_level then pure s else elim item.level [
      | zero ↦ raise algorithm_error
      | suc n ↦ elim (s.stack n) [
        | none ↦ raise algorithm_error
        | some above ↦ pure (place_below item above s)
      ]
    ]

    -- The item as the consumer leaves it, and what it changes.
    abbrev pub checked : FullSetItem T R → Saving R → Saving R
    checked item s =
        let changed = (check_full_set_item_change options item (node_at s.tree s.current)).1 in
        record s {
          tree = modify s.current (λ t. (check_full_set_item_change options item t).0) s.tree;
          changed = changed || s.changed;
          max_ttl = if changed then (get_ttl ttl item.step s.max_ttl).1 else s.max_ttl;
        }

    -- The body of the loop.
    unfoldable pub save_item : ℕ → ℕ → Item T → Saving R → M S T (Saving R)
    unfolding place_item get_full_set_item yield_item check_full_set_item_change
    save_item root_level now item s = do
      s' ← place_item root_level item s
      full ← get_full_set_item (node_at s'.tree s'.current) item now
      left ← yield_item consumer full
      pure (checked left s')

    unfoldable pub save_items : ℕ → ℕ → List (Item T) → Saving R → M S T (Saving R)
    unfolding save_item
    save_items root_level now [] s = pure s
    save_items root_level now (item ∷ items) s = do
      s' ← save_item root_level now item s
      save_items root_level now items s'

    -- `saveFullTreeValue`, with the times at which it and the traversal read the clock; the fuel is
    -- one more than the nodes of the tree.
    unfoldable pub save_full_tree_value : ℕ → ℕ → Item T → Text → M S T (Unit {0})
    unfolding parse_tree save_items persist_tree
    save_full_tree_value now later root chained_key = do
      buffer ← reading (storage.get chained_key)
      tree ← parse_tree options storage buffer
      let fuel = suc (tree_nodes root.tree_ref)
      items ←
          run_items (pre_order_depth_first_search later fuel root.tree_ref (some (item_ref root)))
      s ← save_items root.level now items (start_saving root.level tree)
      if s.changed then persist_tree options storage chained_key s.max_ttl s.tree else pure tt

    -- `registerKeyLevelChildren`: every property of the children object.
    unfoldable pub register_children :
        (Option Text → Text → S → Result S) → Text → Entries T → M S T (Unit {0})
    register_children register chained_key nil = pure tt
    register_children register chained_key (entry k t es) = do
      writing (register (some chained_key) k)
      register_children register chained_key es
    register_children register chained_key (hole k es) = do
      writing (register (some chained_key) k)
      register_children register chained_key es

    unfoldable pub register_key_level_children : Item T → Text → M S T (Unit {0})
    unfolding register_children
    register_key_level_children item chained_key = elim storage.register_child [
      | none ↦ pure tt
      | some register ↦ elim (children_of item.tree_ref) [
        | none ↦ pure tt
        | some es ↦ register_children register chained_key es
      ]
    ]

    -- `value ?? oldValue`
    abbrev pub value_or_old : Option T → Option T → Option T
    value_or_old value old = if is_undefined_or_null options value then old else value

    -- A node with a key of its own.
    unfoldable pub save_key_item : Item T → Text → M S T (Unit {0})
    unfolding register_key_level_children get_step is_undefined_or_null yield_item persist_step
    save_key_item item chained_key = do
      register_key_level_children item chained_key
      current ← reading (storage.get chained_key)
      old ← get_step options current (item_ref item) create_value
      left ← yield_item consumer (record {
        step = record old { value = value_or_old item.value old.value };
        old_value = old.value;
        current = none;
      })
      persist_step options storage left.step current chained_key ttl

    -- What is done with an item under its semaphore; the clock is read for each tree.
    unfoldable pub full_item : (Text → ℕ) → (Text → ℕ) → Item T → Text → M S T (Unit {0})
    unfolding save_full_tree_value save_key_item
    full_item now later item chained_key =
        if item.level == options.key_level_nodes
        then save_full_tree_value (now chained_key) (later chained_key) item chained_key
        else save_key_item item chained_key

    -- The loop over the breadth first search, which ends below the level of the trees.
    unfoldable pub full_items : ℕ → (Text → ℕ) → (Text → ℕ) → List (Item T) → M S T (Unit {0})
    unfolding full_item build_key acquire_if finally_release
    full_items min_level now later [] = pure tt
    full_items min_level now later (item ∷ items) =
        if ltb options.key_level_nodes item.level then pure tt else do
          let chained_key = build_key (item_ref item)
          release ← acquire_if (leb min_level item.level) chained_key
          finally_release release (full_item now later item chained_key)
          full_items min_level now later items

    -- `fullTreeSet`, with the consumer that runs it.
    unfoldable pub full_tree_set : ℕ → (Text → ℕ) → (Text → ℕ) → Tree T → ℕ → M S T (Unit {0})
    unfolding full_items
    full_tree_set started now later tree min_level = do
      items ← run_items (pre_order_breadth_first_search started (suc (tree_nodes tree)) tree none)
      full_items min_level now later items
