-- ===== src/Cache/DeepTreeSet.antt =====
-- Setting nodes: `deepTreeSet` and `setNode` of src/tree-key-cache.ts.
use nodejs_proto_cache.Prelude.{
  ℕ, zero, suc, ◌-◌, min, Bool, true, false, ◌||◌, Option, none, some, List, [], ◌∷◌, ltb, leb,
  ◌==◌, if◌then◌else◌, length,
}
use nodejs_proto_cache.Keys.{
  Text, ChainedObject, join, truthy_text, get_key, get_chained_key, inconsistent_storage,
  parse_error,
}
use nodejs_proto_cache.Tree.{
  Tree, empty_tree, current_value, entries_of, get_entry, set_entry, with_children,
}
use nodejs_proto_cache.Graphs.{create_traversal_item, item_ref}
use nodejs_proto_cache.Cache.{
  Options, Storage, StepTtl, fixed, Consumer, resume, M, pure, raise, ◌>>=◌, ◌>>◌, lift, reading,
  writing, yield_step, acquire_if, finally_release,
}
use nodejs_proto_cache.Cache.Values.{
  get_ttl, is_undefined_or_null, get_step, Enriched, enrich_tree, persist_step, persist_tree,
}

-- Where the loop over the levels stands: `currentLevel`, `chainedKey` and `nodeRef`.
pub record Reached : Type 0 where
  pub level : ℕ
  pub chained_key : Option Text
  pub node_ref : Option ChainedObject

-- The `nodeRef` of a level: a traversal item on the empty tree.
abbrev pub next_ref : {R : Type 0} → Tree R → Text → ℕ → Option ChainedObject → ℕ → ChainedObject
next_ref tree key level parent now = item_ref (create_traversal_item key level parent tree now)

-- A ttl that is a number, or absent.
abbrev pub step_ttl_of : {T : Type 0} → Option ℕ → Option (StepTtl T)
step_ttl_of none = none
step_ttl_of (some n) = some (fixed n)

-- The subtree of a key, `{}` where there is none.
abbrev pub found_or_new : {R : Type 0} → Option (Tree R) → Tree R
found_or_new none = empty_tree
found_or_new (some t) = t

abbrev pub is_new : {R : Type 0} → Option (Tree R) → Bool
is_new none = true
is_new (some t) = false

-- `previousKeys.length > 0 ? previousKeys.join(':') : undefined`
abbrev pub previous_key : List Text → Option Text
previous_key [] = none
previous_key (k ∷ ks) = some (join (k ∷ ks))

-- The consumer of `setNode`: it gives the value to the step of the last level.
abbrev pub set_at : {T : Type 0} → ℕ → T → Consumer T
set_at level value step = resume (if step.level == level then some value else step.value)

module _ {T R S : Type 0} (options : Options T R) (storage : Storage S R) where
  -- `storage.registerChild?.(parent, key)`
  abbrev pub register_child : Option Text → Text → M S T (Unit {0})
  register_child parent key = elim storage.register_child [
    | none ↦ pure tt
    | some register ↦ writing (register parent key)
  ]

  -- `buffer ? treeSerializer.deserialize(buffer) : {}`, where the parser may throw.
  unfoldable pub parse_tree : Option R → M S T (Tree R)
  parse_tree none = pure empty_tree
  parse_tree (some buffer) =
      if options.truthy buffer
      then elim (options.deserialize_tree buffer) [ none ↦ raise parse_error | some t ↦ pure t ]
      else pure empty_tree

  module _ (create_value : ChainedObject → Option T) (ttl : Option (StepTtl T)) (now : ℕ)
      (path : List Text) (consumer : Consumer T) where
    -- One level of the first loop, under the semaphore: read, yield, persist.
    unfoldable pub set_key_level : Text → ChainedObject → M S T (Unit {0})
    unfolding get_step yield_step persist_step
    set_key_level chained_key node = do
      current ← reading (storage.get chained_key)
      step0 ← get_step options current node create_value
      step ← yield_step consumer step0
      persist_step options storage step current chained_key ttl

    -- The first loop, for a number of levels.
    unfoldable pub set_key_levels : ℕ → ℕ → Reached → M S T Reached
    unfolding get_chained_key set_key_level acquire_if finally_release create_traversal_item
    set_key_levels zero min_level at = pure at
    set_key_levels (suc n) min_level at = do
      (chained_key, key) ← lift (get_chained_key path at.level at.chained_key)
      register_child at.chained_key key
      release ← acquire_if (leb min_level at.level) chained_key
      let node = next_ref {R = R} empty_tree key (suc at.level) at.node_ref now
      finally_release release (set_key_level chained_key node)
      set_key_levels n min_level
          (record { level = suc at.level; chained_key = some chained_key; node_ref = some node })

    -- The node that the path ends in: its ttl is that of the call.
    unfoldable pub set_last : ChainedObject → Tree R → Option ℕ → M S T (Enriched R)
    unfolding get_step yield_step get_ttl enrich_tree
    set_last node tree max_ttl = do
      let current = current_value tree now
      step0 ← get_step options current node create_value
      step ← yield_step consumer step0
      let (current_ttl, max_ttl') = get_ttl ttl step max_ttl
      pure (enrich_tree options step current tree (step_ttl_of current_ttl) now max_ttl')

    -- The second loop, for a number of levels, then the last node; the tree is the subtree of the
    -- level, and the result holds the subtree as it is left.
    unfoldable pub set_tree_levels :
        ℕ → ℕ → Text → Option ChainedObject → Tree R → Option ℕ → M S T (Enriched R)
    unfolding get_step yield_step enrich_tree get_key get_entry set_entry set_last
    set_tree_levels zero level key parent tree max_ttl =
        set_last (next_ref {R = R} empty_tree key level parent now) tree max_ttl
    set_tree_levels (suc n) level key parent tree max_ttl = do
      let node = next_ref {R = R} empty_tree key level parent now
      let current = current_value tree now
      step0 ← get_step options current node create_value
      step ← yield_step consumer step0
      let enriched = enrich_tree options step current tree none now max_ttl
      next_key ← lift (get_key path level)
      let found = get_entry (entries_of enriched.tree) next_key
      rest ←
          set_tree_levels n (suc level) next_key (some node) (found_or_new found) enriched.max_ttl
      pure (record {
        tree =
            with_children enriched.tree (set_entry (entries_of enriched.tree) next_key rest.tree);
        changed = enriched.changed || is_new found || rest.changed;
        max_ttl = rest.max_ttl;
      })

    -- The part under the semaphore of the tree's key: read the tree, set its levels, persist it.
    unfoldable pub set_tree : ℕ → Text → Text → Option ChainedObject → M S T (Unit {0})
    unfolding parse_tree set_tree_levels persist_tree
    set_tree level chained_key key parent = do
      buffer ← reading (storage.get chained_key)
      root ← parse_tree buffer
      enriched ← set_tree_levels (length path - level) level key parent root none
      if enriched.changed
          then persist_tree options storage chained_key enriched.max_ttl enriched.tree
          else pure tt

    -- The tree's key, its semaphore, and the part under it.
    unfoldable pub set_locked_tree : ℕ → Text → Reached → M S T (Unit {0})
    unfolding get_chained_key acquire_if finally_release set_tree
    set_locked_tree min_level prefix at = do
      (chained_key, key) ← lift (get_chained_key path at.level (some prefix))
      release ← acquire_if (leb min_level (suc at.level)) chained_key
      finally_release release (set_tree (suc at.level) chained_key key at.node_ref)

    -- What follows the first loop.
    unfoldable pub set_tree_part : ℕ → Reached → M S T (Unit {0})
    unfolding set_locked_tree
    set_tree_part min_level at =
        if ltb at.level (length path)
        then elim at.chained_key [
          | none ↦ raise inconsistent_storage
          | some prefix ↦
              if truthy_text prefix
              then set_locked_tree min_level prefix at
              else raise inconsistent_storage
        ]
        else pure tt

    -- `deepTreeSet`, with the consumer that runs it.
    unfoldable pub deep_tree_set : List Text → ℕ → M S T (Unit {0})
    unfolding join set_key_levels set_tree_part
    deep_tree_set previous_keys min_level = do
      let level = length previous_keys
      at ←
          set_key_levels (min (options.key_level_nodes - 1) (length path) - level) min_level
            (record { level = level; chained_key = previous_key previous_keys; node_ref = none })
      set_tree_part min_level at

  -- `setNode`
  unfoldable pub set_node : List Text → Option T → Option (StepTtl T) → ℕ → M S T (Unit {0})
  unfolding is_undefined_or_null deep_tree_set
  set_node path none ttl now = pure tt
  set_node path (some value) ttl now =
      if is_undefined_or_null options (some value)
      then pure tt
      else deep_tree_set (λ node. none) ttl now path (set_at (length path) value) [] (length path)
