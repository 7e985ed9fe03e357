-- ===== src/Cache/ReadOnly.antt =====
-- `getNode` and `iteratePath` (src/tree-key-cache.ts), and the state of the storage.
use nodejs_proto_cache.Prelude.{
  ℕ, zero, suc, ◌≡◌, refl, false, not, Option, none, some, List, ltb, length,
}
use nodejs_proto_cache.Keys.{Text, ChainedObject, build_key}
use nodejs_proto_cache.Tree.{Tree, current_value, value_of}
use nodejs_proto_cache.Graphs.{Item, item_ref}
use nodejs_proto_cache.Cache.{Options, Storage, Step, World, Consumer, pure, ◌>>=◌, yield_step}
use nodejs_proto_cache.Cache.Keeps.{
  Keeps, Keeps-bind, Keeps-pure, Keeps-lift, Keeps-reading, Keeps-if, Keeps-option, Keeps-emit,
  Keeps-yield,
}
use nodejs_proto_cache.Cache.Values.{get_step, deserialize_value, deserialize_tree}
use nodejs_proto_cache.Cache.Reads.{
  get_tree, read_key_level, read_tree_level, read_item, get_node_ref, step_of_item, get_node,
}
use nodejs_proto_cache.Cache.Iterate.{
  read_step, iterate_keys, iterate_last, iterate_tree, iterate_tree_part, iterate_path,
}

-- The storage of a world.
abbrev pub stored : {S T : Type 0} → World S T → S
stored w = w.store

module _ {T R S : Type 0} (options : Options T R) (storage : Storage S R) where
  pub Still-get_step :
      (current : Option R) (own : ChainedObject) (create_value : ChainedObject → Option T)
      → Keeps (stored {S = S} {T = T}) (get_step options current own create_value)
  unfolding get_step deserialize_value
  Still-get_step none own create_value = (Keeps-pure stored)
  Still-get_step (some r) own create_value =
      Keeps-bind stored
        (Keeps-option stored (options.deserialize r)
          (Keeps-bind stored (Keeps-emit stored _ (λ w. refl)) (λ _. (Keeps-pure stored)))
          (λ v. (Keeps-pure stored)))
        (λ value. (Keeps-pure stored))

  Still-get_tree : (key : Text) → Keeps (stored {S = S} {T = T}) (get_tree options storage key)
  unfolding get_tree deserialize_tree
  Still-get_tree key = Keeps-bind stored (Keeps-reading stored (storage.get key)) (λ buffer.
      Keeps-option stored buffer (Keeps-pure stored) (λ r.
        Keeps-if stored (options.truthy r)
          (Keeps-option stored (options.deserialize_tree r)
            (Keeps-bind stored (Keeps-emit stored _ (λ w. refl)) (λ _. (Keeps-pure stored)))
            (λ t. (Keeps-pure stored)))
          (Keeps-pure stored)))

  Still-step_of_item :
      (item : Item R) → Keeps (stored {S = S} {T = T}) (step_of_item options storage item)
  unfolding step_of_item
  Still-step_of_item item = Keeps-option stored item.value (Keeps-pure stored) (λ r.
      Keeps-if stored (not (options.truthy r)) (Keeps-pure stored) (
        Keeps-bind stored (Still-get_step (some r) (item_ref item) (λ _. none))
          (λ step. (Keeps-pure stored))))

  Still-read_item :
      (path : List Text) (now : ℕ) (item : Item R)
      → Keeps (stored {S = S} {T = T}) (read_item options storage path false now item)
  unfolding read_item read_key_level read_tree_level
  Still-read_item path now item =
      Keeps-if stored (ltb item.level options.key_level_nodes)
        (Keeps-bind stored (Keeps-reading stored (storage.get (build_key (item_ref item))))
          (λ buffer. (Keeps-pure stored)))
        (Keeps-bind stored (Still-get_tree (build_key (item_ref item))) (λ found.
          Keeps-option stored found (Keeps-pure stored)
            (λ tree. Keeps-bind stored (Keeps-lift stored) (λ walked. (Keeps-pure stored)))))

  pub Still-get_node_ref :
      (path : List Text) (now : ℕ)
      → Keeps (stored {S = S} {T = T}) (get_node_ref options storage path false now)
  unfolding get_node_ref
  Still-get_node_ref path now = Keeps-bind stored (Keeps-lift stored) (λ reached.
      Keeps-option stored reached (Keeps-pure stored) (λ item. Still-read_item path now item))

  Still-get_node :
      (path : List Text) (now : ℕ)
      → Keeps (stored {S = S} {T = T}) (get_node options storage path now)
  unfolding get_node
  Still-get_node path now =
      Keeps-bind stored (Still-get_node_ref path now)
        (λ found. Keeps-option stored found (Keeps-pure stored) Still-step_of_item)

  Still-read_step :
      (key : Text) (own : ChainedObject)
      → Keeps (stored {S = S} {T = T}) (read_step options storage key own)
  unfolding read_step
  Still-read_step key own = Keeps-bind stored (Keeps-reading stored (storage.get key)) (λ buffer.
      Keeps-option stored buffer (Keeps-pure stored) (λ r.
        Keeps-if stored (not (options.truthy r)) (Keeps-pure stored) (
          Keeps-bind stored (Still-get_step (some r) own (λ _. none))
            (λ step. (Keeps-pure stored)))))

  module _ (path : List Text) (now : ℕ) (consumer : Consumer T) where
    Still-give :
        (step : Step T) → Keeps (stored {S = S} {T = T}) (yield_step consumer step >>= λ _. pure tt)
    Still-give step =
        Keeps-bind stored (Keeps-yield stored consumer step (λ w. refl)) (λ _. (Keeps-pure stored))

    Still-iterate_keys :
        (n level : ℕ) (item : Option (Item R))
        → Keeps
            (stored {S = S} {T = T})
            (iterate_keys options storage path now consumer n level item)
    unfolding iterate_keys
    Still-iterate_keys zero level item = (Keeps-pure stored)
    Still-iterate_keys (suc n) level item = Keeps-bind stored (Keeps-lift stored) (λ next.
        Keeps-bind stored (Still-read_step (build_key (item_ref next)) (item_ref next)) (λ found.
          Keeps-bind stored (Keeps-option stored found (Keeps-pure stored) Still-give)
            (λ _. Still-iterate_keys n (suc level) (some next))))

    Still-iterate_last :
        (item : Item R) (tree : Tree R)
        → Keeps (stored {S = S} {T = T}) (iterate_last options storage path now consumer item tree)
    unfolding iterate_last
    Still-iterate_last item tree =
        Keeps-option stored (current_value tree now) (Keeps-pure stored)
          (λ r. Keeps-bind stored (Still-get_step (value_of tree) _ _) Still-give)

    Still-iterate_tree :
        (n level : ℕ) (item : Item R) (tree : Tree R)
        → Keeps
            (stored {S = S} {T = T})
            (iterate_tree options storage path now consumer n level item tree)
    unfolding iterate_tree
    Still-iterate_tree zero level item tree = Still-iterate_last item tree
    Still-iterate_tree (suc n) level item tree =
        Keeps-bind stored
          (Keeps-option stored (current_value tree now) (Keeps-pure stored) (λ r.
            Keeps-bind stored (Still-get_step (some r) (item_ref item) (λ _. none)) Still-give))
          (λ _. Keeps-bind stored (Keeps-lift stored) (λ next.
            Keeps-option stored next (Keeps-pure stored)
              (λ p. Still-iterate_tree n (suc level) p.0 p.1)))

    Still-iterate_path :
        Keeps (stored {S = S} {T = T}) (iterate_path options storage path now consumer)
    unfolding iterate_path iterate_tree_part
    Still-iterate_path = Keeps-bind stored (Still-iterate_keys _ 0 none) (λ reached.
        Keeps-option stored reached (Keeps-pure stored) (λ item.
          Keeps-if stored (not (ltb item.level (length path))) (Keeps-pure stored) (
            Keeps-bind stored (Keeps-lift stored) (λ next.
              Keeps-bind stored (Still-get_tree (build_key (item_ref next))) (λ found.
                Keeps-option stored found (Keeps-pure stored)
                  (λ tree. Still-iterate_tree _ _ next tree))))))

-- Reads do not write: whatever the storage and the serializers do, and wherever the consumer leaves,
-- `getNode` and `iteratePath` leave the storage as it was.
pub get_node-iterate_path_store :
    {T R S : Type 0} (options : Options T R) (storage : Storage S R) (path : List Text) (now : ℕ)
    (consumer : Consumer T) (w : World S T)
    → ((get_node options storage path now w).1.store ≡ w.store)
      × ((iterate_path options storage path now consumer w).1.store ≡ w.store)
get_node-iterate_path_store options storage path now consumer w = (
  (Still-get_node options storage path now).law w,
  (Still-iterate_path options storage path now consumer).law w,
)
