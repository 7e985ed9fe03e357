-- ===== src/Tests/Storage.antt =====
-- Runs and instances for setting, reading and pruning on a storage in memory.
use nodejs_proto_cache.Prelude.{
  List, ◌≤◌, ◌*◌, ltb, ℕ, ◌+◌, ◌≡◌, refl, none, some, [], ◌∷◌, ◌==◌, arith, if◌then◌else◌,
}
use nodejs_proto_cache.Keys.{join, top, Text, text_eq, ok, throw, inconsistent_storage}
use nodejs_proto_cache.Keys.Chain.{path_of}
use nodejs_proto_cache.Tree.{has_property, current_value, Tree, leaf}
use nodejs_proto_cache.Cache.{fixed, writing, Step, World, ◌>>◌, Consumer, leave, resume}
use nodejs_proto_cache.Cache.DeepTreeSet.{deep_tree_set, set_node}
use nodejs_proto_cache.Cache.Reads.{get_node}
use nodejs_proto_cache.Cache.Values.{differs, enrich_tree, persist_tree}
use nodejs_proto_cache.Cache.Iterate.{iterate_path}
use nodejs_proto_cache.Cache.ReadOnly.{get_node-iterate_path_store}
use nodejs_proto_cache.Cache.Deadlines.{enrich_tree-current_value, persist_tree-longer_ttl}
use nodejs_proto_cache.Cache.RoundTrip.{set_node-get_node}
use nodejs_proto_cache.Cache.Semaphore.{acquisitions, releases}
use nodejs_proto_cache.Cache.Semaphore.Balanced.{deep_tree_set-Balanced}
use nodejs_proto_cache.Cache.Semaphore.Unlocked.{set_node-unlocked}
use nodejs_proto_cache.Cache.Pruning.{prune_key}
use nodejs_proto_cache.Cache.Pruning.Views.{Reads, prune_key-value_at}
use nodejs_proto_cache.Prune.Spec.{Distinct}
use nodejs_proto_cache.Tree.Paths.{value_at}
use nodejs_proto_cache.Cache.Shallow.{set_node_shallow}
use nodejs_proto_cache.Tests.Memory.{
  Raw, number, pack, read_tree-pack, options, Store, storage, lookup, storage-IsReliable,
  options-IsCodec, start, a, b, planted, garden,
}

-- The path ends in a tree.
set_node-get_node_example :
    (s : Step ℕ) × (w' : World Store ℕ) × ((set_node options storage
            (a ∷ b ∷ a ∷ [])
            (some 7)
            none
            5
          >> get_node options storage (a ∷ b ∷ a ∷ []) 5)
        start
      ≡ (ok (some s), w'))
    × (s.value ≡ some 7)
    × (path_of s.node_ref ≡ a ∷ b ∷ a ∷ [])
set_node-get_node_example =
    set_node-get_node options storage lookup 7 a (b ∷ a ∷ []) none 5 start storage-IsReliable
      options-IsCodec refl (cc) (omega arith) (λ deep r e truthy. absurd (ground (arith, e)))

-- The consumer leaves at the second step.
abbrev leaver : Consumer ℕ
leaver step = if step.level == 2 then leave else resume step.value

deep_tree_set-Balanced_example :
    acquisitions a
        (deep_tree_set options storage
          (λ own. some 3)
          none
          5
          (a ∷ b ∷ [])
          leaver
          []
          0
          start).1.events
      + releases {T = ℕ} a []
    ≡ acquisitions {T = ℕ} a []
      + releases a
          (deep_tree_set options storage
            (λ own. some 3)
            none
            5
            (a ∷ b ∷ [])
            leaver
            []
            0
            start).1.events
deep_tree_set-Balanced_example =
    deep_tree_set-Balanced options storage (λ own. some 3) none 5 0 (a ∷ b ∷ []) [] leaver a start

set_node_shallow_example :
    set_node (record options { key_level_nodes = 1 }) storage (a ∷ b ∷ []) (some 7) none 5 start
    ≡ (throw inconsistent_storage, start)
set_node_shallow_example =
    set_node_shallow (record options { key_level_nodes = 1 }) storage a (b ∷ []) 7 none 5 start
      (omega arith) refl

get_node-iterate_path_store_example :
    ((get_node options storage (a ∷ b ∷ []) 5 start).1.store ≡ start.store)
    × ((iterate_path options storage (a ∷ b ∷ []) 5 leaver start).1.store ≡ start.store)
get_node-iterate_path_store_example =
    get_node-iterate_path_store options storage (a ∷ b ∷ []) 5 leaver start

-- A step with the value 7.
abbrev seven : Step ℕ
seven = record { value = some 7; key = b; level = 3; node_ref = top b 3 }

enrich_tree-current_value_example :
    current_value
      (enrich_tree options seven none (leaf none none) (some (fixed 2)) 5 none).tree
      2004
    ≡ (if ltb 2004 (5 + 2 * 1000) then some (number 7) else none)
unfolding differs
enrich_tree-current_value_example =
    enrich_tree-current_value options seven 7 none (leaf none none) 2 5 2004 none refl refl refl
      (omega arith)

persist_tree-longer_ttl_example :
    (m : ℕ) × (persist_tree options storage a (some 3) (leaf none none) start
      ≡ writing (storage.set a (pack (leaf none none)) (some m)) start)
    × (3 ≤ m)
    × ((c : ℕ) → none ≡ some c → c ≤ m)
persist_tree-longer_ttl_example =
    persist_tree-longer_ttl options storage a 3 (leaf none none) none start (omega arith) refl

-- A path of one key more than the levels with keys of their own.
set_node-unlocked_example :
    acquisitions a (set_node options storage (a ∷ b ∷ a ∷ []) (some 7) none 5 start).1.events
    ≡ acquisitions {T = ℕ} a []
set_node-unlocked_example =
    set_node-unlocked options storage (a ∷ b ∷ a ∷ []) (some 7) none 5 a start (omega arith)
      (λ e. absurd (omega (arith, e)))

garden-Reads : Reads options planted (garden.store (join (a ∷ b ∷ [])))
unfolding text_eq pack join
garden-Reads = (pack planted, refl, refl, unfold pack join in read_tree-pack planted)

planted-Distinct : Distinct planted
unfolding has_property text_eq
planted-Distinct = (refl, tt, (refl, tt, tt))

prune_key-value_at_example :
    (w' : World Store ℕ) × (u : Tree Raw) × (prune_key options storage 9 (join (a ∷ b ∷ [])) garden
      ≡ (ok tt, w'))
    × Reads options u (w'.store (join (a ∷ b ∷ [])))
    × ((later : ℕ) (path : List Text)
        → 9 ≤ later
        → value_at later u path ≡ value_at later planted path)
prune_key-value_at_example =
    prune_key-value_at options storage lookup storage-IsReliable options-IsCodec a b [] 9 planted
      garden refl ((refl, tt), ((refl, tt), tt)) planted-Distinct garden-Reads
