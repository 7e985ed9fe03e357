-- ===== src/Cache/Iterate.antt =====
-- The reads of a path: `iteratePath` of src/tree-key-cache.ts, for a storage without `getHistory`
-- and options without a memoizer, where `getMemoizedStep` and `getMemoizedTree` are plain reads.
use nodejs_proto_cache.Prelude.{
  ℕ, zero, suc, ◌-◌, min, not, Option, none, some, List, ltb, if◌then◌else◌, length,
}
use nodejs_proto_cache.Keys.{Text, ChainedObject, build_key}
use nodejs_proto_cache.Tree.{Tree, empty_tree, value_of, current_value}
use nodejs_proto_cache.Graphs.{Item, create_traversal_item, item_ref}
use nodejs_proto_cache.Cache.{
  Options, Storage, Step, Consumer, M, pure, ◌>>=◌, ◌>>◌, lift, reading, yield_step,
}
use nodejs_proto_cache.Cache.Values.{get_step}
use nodejs_proto_cache.Cache.Reads.{ref_of, get_next_storage_node, get_next_tree_node, get_tree}

module _ {T R S : Type 0} (options : Options T R) (storage : Storage S R) where
  -- The step of a serialized value, with no value to create.
  abbrev pub step_of : Option R → ChainedObject → M S T (Step T)
  step_of serialized own = get_step options serialized own (λ _. none)

  -- The value of `getMemoizedStep`.
  unfoldable pub read_step : Text → ChainedObject → M S T (Option (Step T))
  unfolding get_step
  read_step chained_key own = do
    buffer ← reading (storage.get chained_key)
    elim buffer [
      | none ↦ pure none
      | some r ↦
          if not (options.truthy r)
          then pure none
          else do step ← step_of (some r) own; pure (some step)
    ]

  module _ (path : List Text) (now : ℕ) (consumer : Consumer T) where
    -- `yield`, without a use of the step afterwards.
    abbrev pub give : Step T → M S T (Unit {0})
    give step = do _ ← yield_step consumer step; pure tt

    -- The loop over the levels that have a key of their own, for a number of levels.
    unfoldable pub iterate_keys : ℕ → ℕ → Option (Item R) → M S T (Option (Item R))
    unfolding get_next_storage_node build_key read_step yield_step
    iterate_keys zero level item = pure item
    iterate_keys (suc n) level item = do
      next ← lift (get_next_storage_node path level (ref_of item) empty_tree now)
      found ← read_step (build_key (item_ref next)) (item_ref next)
      elim found [ none ↦ pure tt | some step ↦ give step ]
      iterate_keys n (suc level) (some next)

    -- The last node: its value is tested against the time, and the step is that of the item.
    unfoldable pub iterate_last : Item R → Tree R → M S T (Unit {0})
    unfolding get_step yield_step current_value create_traversal_item
    iterate_last item tree = elim (current_value tree now) [
      | none ↦ pure tt
      | some r ↦ do
        step ← step_of (value_of tree) (
            item_ref
              (create_traversal_item item.key item.level item.parent_ref (empty_tree {R = R}) now))
        give step
    ]

    -- The loop over the levels of a tree, for a number of levels, then the last node.
    unfoldable pub iterate_tree : ℕ → ℕ → Item R → Tree R → M S T (Unit {0})
    unfolding get_step yield_step current_value get_next_tree_node iterate_last
    iterate_tree zero level item tree = iterate_last item tree
    iterate_tree (suc n) level item tree = do
      elim (current_value tree now) [
        | none ↦ pure tt
        | some r ↦ do step ← step_of (some r) (item_ref item); give step
      ]
      next ← lift (get_next_tree_node path level tree (some (item_ref item)) empty_tree now)
      elim next [ none ↦ pure tt | some p ↦ iterate_tree n (suc level) p.0 p.1 ]

    -- What follows the first loop, from its last item.
    unfoldable pub iterate_tree_part : Item R → M S T (Unit {0})
    unfolding get_next_storage_node build_key get_tree iterate_tree
    iterate_tree_part item = if not (ltb item.level (length path)) then pure tt else do
      next ← lift (get_next_storage_node path item.level (some (item_ref item)) empty_tree now)
      found ← get_tree options storage (build_key (item_ref next))
      elim found [
        | none ↦ pure tt
        | some tree ↦ iterate_tree (length path - next.level) next.level next tree
      ]

    -- `iteratePath`, with the consumer that runs it.
    unfoldable pub iterate_path : M S T (Unit {0})
    unfolding iterate_keys iterate_tree_part
    iterate_path = do
      reached ← iterate_keys (min (options.key_level_nodes - 1) (length path)) 0 none
      elim reached [ none ↦ pure tt | some item ↦ iterate_tree_part item ]
