-- ===== src/Cache/Shallow.antt =====
-- `setNode` (src/tree-key-cache.ts) with fewer than two key levels.
use nodejs_proto_cache.Prelude.{
  Bool, if◌then◌else◌, lt→ltb, ℕ, ◌-◌, ◌≤◌, min, ◌≡◌, ap, ◌∙◌, false, Option, none, some, List, [],
  ◌∷◌, arith, length,
}
use nodejs_proto_cache.Keys.{Text, throw, inconsistent_storage}
use nodejs_proto_cache.Cache.{Options, Storage, StepTtl, World, raise, pure}
use nodejs_proto_cache.Cache.DeepTreeSet.{
  set_key_levels, set_tree_part, deep_tree_set, set_at, set_node,
}
use nodejs_proto_cache.Cache.Laws.{then-ok}
use nodejs_proto_cache.Cache.KeyLevels.{reached}
use nodejs_proto_cache.Cache.RoundTrip.{set_node-deep_tree_set}

-- With `keyLevelNodes` 0 or 1, setting a value that is not null at any path but the empty one
-- throws, as an inconsistent storage would make it do, and leaves the storage as it was.
pub set_node_shallow :
    {T R S : Type 0} (options : Options T R) (storage : Storage S R) (k : Text) (keys : List Text)
    (v : T) (ttl : Option (StepTtl T)) (now : ℕ) (w : World S T)
    → options.key_level_nodes ≤ 1
    → options.is_null v ≡ false
    → set_node options storage (k ∷ keys) (some v) ttl now w ≡ (throw inconsistent_storage, w)
unfolding deep_tree_set set_key_levels set_tree_part
set_node_shallow options storage k keys v ttl now w shallow z =
    let path = k ∷ keys in
    let rounds : min (options.key_level_nodes - 1) (length path) - 0 ≡ 0 = omega (arith, shallow) in
    set_node-deep_tree_set options storage v ttl now path w z
    ∙ then-ok _ _
        (ap
          (λ (n : ℕ).
            set_key_levels options storage (λ own. none) ttl now path (set_at (length path) v) n
              (length path) (reached [] none) w)
          rounds)
        (ap (λ (b : Bool). (if b then raise inconsistent_storage else pure tt) w)
          (lt→ltb 0 (length path) (omega arith)))
