-- ===== src/Cache/Reading.antt =====
-- What `getNode` (src/tree-key-cache.ts) finds of a value that is in the storage.
pub mod Loops
pub mod Parsed
use nodejs_proto_cache.Prelude.{
  ℕ, suc, ◌+◌, ◌-◌, ◌<◌, min, ◌≡◌, refl, sym, ◌∙◌, ap, true, false, lt→ltb, le→ltb, Option, none,
  some, List, [], ◌∷◌, ◌++◌, append_assoc, append-nil, arith, inl, inr, Option-cases, length,
  length-append,
}
use mathlib.Core.Path.{subst}
use nodejs_proto_cache.Keys.{Text, ChainedObject, chained, join, build_key, get_key, Result, ok}
use nodejs_proto_cache.Keys.Chain.{path_of, build_key-path_of, get_elem?-length}
use nodejs_proto_cache.Tree.{Tree, empty_tree, entries_of, get_entry, current_value}
use nodejs_proto_cache.Tree.Paths.{value_at}
use nodejs_proto_cache.Graphs.{Item, item_ref, create_traversal_item}
use nodejs_proto_cache.Cache.{Options, Storage, Step, World}
use nodejs_proto_cache.Cache.Values.{get_step, mount_step, deserialize_value, deserialize_tree}
use nodejs_proto_cache.Cache.Reads.{
  ref_of, get_next_storage_node, get_next_tree_node, storage_nodes, tree_nodes, get_tree,
  read_key_level, read_tree_level, read_item, get_node_ref, step_of_item, get_node,
}
use nodejs_proto_cache.Cache.Laws.{IsReliable, IsCodec, then-ok, reading-get}
use nodejs_proto_cache.Cache.KeyLevels.{chain_below}
use nodejs_proto_cache.Cache.Setting.Trees.{HoldsTree}
use nodejs_proto_cache.Cache.Reading.Parsed.{get_tree-found}
use nodejs_proto_cache.Cache.Reading.Loops.{storage_nodes-reached, tree_nodes-found}

module _ {T R S : Type 0} (options : Options T R) (storage : Storage S R)
    (lookup : S → Text → Option R) (reliable : IsReliable storage lookup)
    (codec : IsCodec options) where
  get_step-known :
      (own : ChainedObject) (create_value : ChainedObject → Option T) (v : T) (w : World S T)
      → get_step options (some (options.serialize v)) own create_value w
        ≡ (ok (mount_step own (some v)), w)
  unfolding get_step
  get_step-known own create_value v w =
      then-ok _ _ (unfold deserialize_value in rw (codec.value_read v, deserialize_value) refl) refl

  step_of_value :
      (item : Item R) (v : T) (w : World S T)
      → step_of_item options storage (record item { value = some (options.serialize v) }) w
        ≡ (ok (some (mount_step (item_ref item) (some v))), w)
  unfolding step_of_item
  step_of_value item v w =
      rw (codec.value_truthy v)
        (then-ok _ _ (get_step-known (item_ref item) (λ own. none) v w) refl)

  -- An item with the value gives a step with the value.
  step_of_item-found :
      (item : Item R) (v : T) (w : World S T)
      → item.value ≡ some (options.serialize v)
      → step_of_item options storage item w ≡ (ok (some (mount_step (item_ref item) (some v))), w)
  step_of_item-found item v w e =
      ap (λ (o : Option R). step_of_item options storage (record item { value = o }) w) e
      ∙ step_of_value item v w

  read_key_level-found :
      (i : Item R) (r : R) (w : World S T)
      → lookup w.store (build_key (item_ref i)) ≡ some r
      → read_key_level options storage i w ≡ (ok (some (record i { value = some r })), w)
  unfolding read_key_level
  read_key_level-found i r w e =
      then-ok _ _ (reading-get storage lookup reliable (build_key (item_ref i)) w)
        (ap (λ (o : Option R). (ok (some (record i { value = o })), w)) e)

  -- `getNode` from the item that `getNodeRef` ends in.
  get_node-item :
      (k : Text) (path : List Text) (now n : ℕ) (v : T) (w : World S T) (i found : Item R)
      → storage_nodes (k ∷ path) n 0 none now ≡ ok (some i)
      → min options.key_level_nodes (length (k ∷ path)) ≡ n
      → read_item options storage (k ∷ path) false now i w ≡ (ok (some found), w)
      → found.value ≡ some (options.serialize v)
      → get_node options storage (k ∷ path) now w
        ≡ (ok (some (mount_step (item_ref found) (some v))), w)
  unfolding get_node get_node_ref
  get_node-item k path now n v w i found runs rounds reads e =
      then-ok _ _
        (then-ok _ _
          (ap (λ (x : Result (Option (Item R))). (x, w))
            (ap (λ (m : ℕ). storage_nodes (k ∷ path) m 0 none now) rounds ∙ runs))
          reads)
        (step_of_item-found found v w e)

  -- A node of a key of its own.
  pub get_node-key :
      (k : Text) (path : List Text) (now : ℕ) (v : T) (w : World S T)
      → length (k ∷ path) < options.key_level_nodes
      → lookup w.store (join (k ∷ path)) ≡ some (options.serialize v)
      → (s : Step T) × (get_node options storage (k ∷ path) now w ≡ (ok (some s), w))
        × (s.value ≡ some v)
        × (path_of s.node_ref ≡ k ∷ path)
  unfolding read_item
  get_node-key k path now v w low held =
      let (i, runs, keys, level) =
        storage_nodes-reached (k ∷ path) now [] path [] k none
          (ap (◌∷◌ k) (sym (append-nil path))) in
      let key : build_key (item_ref i) ≡ join (k ∷ path) =
        build_key-path_of (item_ref i) ∙ ap join keys in
      let found : Item R = record i { value = some (options.serialize v) } in
      let reads =
        read_key_level-found i (options.serialize v) w
          (ap (λ (x : Text). lookup w.store x) key ∙ held) in
      (
        mount_step (item_ref i) (some v),
        get_node-item k path now (suc (length path)) v w i found runs (omega (arith, low))
            (rw (lt→ltb i.level options.key_level_nodes (omega (arith, low, level))) reads) refl,
        refl,
        keys,
      )

  read_tree_level-found :
      (path rest above : List Text) (now : ℕ) (v : T) (w : World S T) (i : Item R)
      → path ≡ above ++ rest
      → i.level ≡ length above
      → HoldsTree options now rest v (lookup w.store (build_key (item_ref i)))
      → (found : Item R) × (read_tree_level options storage path false now i w
          ≡ (ok (some found), w))
        × (found.value ≡ some (options.serialize v))
        × (path_of (item_ref found) ≡ path_of (item_ref i) ++ rest)
  unfolding read_tree_level create_traversal_item
  read_tree_level-found path rest above now v w i e level (r, t, held, full, read, leads) =
      let (j, u, runs, current, keys) =
        tree_nodes-found path now above rest i t (options.serialize v) e leads in
      let walk : tree_nodes path (length path - i.level) i.level i t now ≡ ok (some (j, u)) =
        ap (λ (m : ℕ). tree_nodes path (length path - m) m i t now) level
        ∙ ap (λ (m : ℕ). tree_nodes path m (length above) i t now)
            (omega (arith, ap length e, length-append above rest))
        ∙ runs in
      (
        create_traversal_item j.key j.level j.parent_ref u now,
        then-ok _ _
            (get_tree-found options storage lookup reliable (build_key (item_ref i)) w r t held full
              read)
            (then-ok _ _ (ap (λ (x : Result (Option (Item R × Tree R))). (x, w)) walk) refl),
        current,
        keys,
      )

  -- A node of a tree.
  pub get_node-tree :
      (k : Text) (front rest : List Text) (now : ℕ) (v : T) (w : World S T)
      → length (k ∷ front) ≡ options.key_level_nodes
      → HoldsTree options now rest v (lookup w.store (join (k ∷ front)))
      → (s : Step T) × (get_node options storage (k ∷ front ++ rest) now w ≡ (ok (some s), w))
        × (s.value ≡ some v)
        × (path_of s.node_ref ≡ k ∷ front ++ rest)
  unfolding read_item
  get_node-tree k front rest now v w last holds =
      let path = k ∷ front ++ rest in
      let (i, runs, keys, level) = storage_nodes-reached path now [] front rest k none refl in
      let key : build_key (item_ref i) ≡ join (k ∷ front) =
        build_key-path_of (item_ref i) ∙ ap join keys in
      let (found, reads, value, ends) =
        read_tree_level-found path rest (k ∷ front) now v w i refl (omega (arith, level))
          (subst (λ (x : Text). HoldsTree options now rest v (lookup w.store x)) (sym key) holds) in
      (
        mount_step (item_ref found) (some v),
        get_node-item k (front ++ rest) now (suc (length front)) v w i found runs
            (omega (arith, last, length-append front rest))
            (rw (le→ltb i.level options.key_level_nodes (omega (arith, last, level))) reads) value,
        refl,
        ends ∙ ap (λ (ks : List Text). ks ++ rest) keys,
      )
