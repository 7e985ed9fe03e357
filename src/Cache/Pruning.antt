-- ===== src/Cache/Pruning.antt =====
-- The work of `prune` (src/tree-key-cache.ts) on one key of the storage, with the part of
-- `internalRandomIterate` (src/internal/tree-internal-control.ts) that leads to its node.
pub mod Views
use nodejs_proto_cache.Prelude.{ℕ, Bool, true, false, Option, none, some, ◌==◌, if◌then◌else◌}
use nodejs_proto_cache.Keys.{Text, split_key, build_key}
use nodejs_proto_cache.Tree.{Tree}
use nodejs_proto_cache.Graphs.{Item, item_ref}
use nodejs_proto_cache.Prune.{prune_tree}
use nodejs_proto_cache.Cache.{
  Options, Storage, M, World, acquired, released, pure, ◌>>=◌, ◌>>◌, emit, reading,
}
use nodejs_proto_cache.Cache.Values.{persist_tree}
use nodejs_proto_cache.Cache.Reads.{get_node_ref}

module _ {T R S : Type 0} (options : Options T R) (storage : Storage S R) where
  -- The write of a tree that was pruned, between the acquisition and the release of the semaphore.
  unfoldable pub persist_pruned : Item R → Tree R → M S T (Unit {0})
  unfolding build_key persist_tree
  persist_pruned item tree = do
    let chained_key = build_key (item_ref item)
    emit (acquired chained_key)
    ttl ← reading (storage.get_current_ttl chained_key)
    persist_tree options storage chained_key ttl tree
    emit (released chained_key)

  -- A node of the first level that is stored as a tree is pruned, and written if that changes it.
  unfoldable pub prune_item : ℕ → Item R → M S T (Unit {0})
  unfolding prune_tree persist_pruned
  prune_item now item =
      let (changed, tree) = prune_tree now item.tree_ref item.parent_ref in
      if item.level == options.key_level_nodes
      then (if changed then persist_pruned item tree else pure tt)
      else pure tt

  unfoldable pub prune_key : ℕ → Text → M S T (Unit {0})
  unfolding split_key get_node_ref prune_item
  prune_key now key = do
    found ← get_node_ref options storage (split_key key) true now
    elim found [ none ↦ pure tt | some item ↦ prune_item now item ]
