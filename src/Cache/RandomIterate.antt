-- ===== src/Cache/RandomIterate.antt =====
-- `randomIterate` of src/tree-key-cache.ts, with `internalRandomIterate` of
-- src/internal/tree-internal-control.ts. The times at which the trees read the clock are functions
-- of the key.
use nodejs_proto_cache.Prelude.{
  ℕ, suc, false, Option, none, some, List, [], ◌∷◌, ltb, if◌then◌else◌,
}
use nodejs_proto_cache.Keys.{Text, split_key, Result, unsupported_storage}
use nodejs_proto_cache.Graphs.{Item, item_ref, Run, done}
use nodejs_proto_cache.Graphs.Loop.{tree_nodes}
use nodejs_proto_cache.Graphs.Breadth.{pre_order_breadth_first_search}
use nodejs_proto_cache.Graphs.Async.Flat.{map_run}
use nodejs_proto_cache.Cache.{Options, Storage, Consumer, M, pure, raise, ◌>>=◌, ◌>>◌, reading}
use nodejs_proto_cache.Cache.Reads.{get_node_ref}
use nodejs_proto_cache.Cache.Searches.{Found, found, give_run}

module _ {T R S : Type 0} (options : Options T R) (storage : Storage S R) where
  -- A node of a key of its own, or a tree with all its nodes.
  unfoldable pub nodes_below : ℕ → Item R → Run (Found R)
  unfolding map_run
  nodes_below now i =
      if ltb i.level options.key_level_nodes
      then done (found i ∷ [])
      else map_run found (
          pre_order_breadth_first_search now (suc (tree_nodes i.tree_ref)) i.tree_ref
            (some (item_ref i)))

  module _ (consumer : Consumer T) (now_of : Text → ℕ) where
    -- The nodes of one key of the storage.
    unfoldable pub iterate_key : Text → M S T (Unit {0})
    unfolding split_key get_node_ref nodes_below give_run
    iterate_key key = do
      base ← get_node_ref options storage (split_key key) false (now_of key)
      elim base [ none ↦ pure tt | some i ↦ give_run options consumer (nodes_below (now_of key) i) ]

    unfoldable pub iterate_keys_of : List Text → M S T (Unit {0})
    unfolding iterate_key
    iterate_keys_of [] = pure tt
    iterate_keys_of (key ∷ keys) = do iterate_key key; iterate_keys_of keys

    -- `randomIterate`, given the optional method of the storage that lists the keys.
    unfoldable pub random_iterate :
        Option (Option Text → S → Result (List Text)) → Option Text → M S T (Unit {0})
    unfolding iterate_keys_of
    random_iterate none pattern = raise unsupported_storage
    random_iterate (some iterate) pattern = do
      keys ← reading (iterate pattern)
      iterate_keys_of keys
