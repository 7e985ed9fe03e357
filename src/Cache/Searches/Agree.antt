-- ===== src/Cache/Searches/Agree.antt =====
-- What the searches of the cache (src/tree-key-cache.ts) find from the root, next to what
-- `getNodeRef` (src/internal/tree-internal-control.ts) finds for the path of its keys.
use nodejs_proto_cache.Prelude.{
  ℕ, suc, ◌-◌, ◌≤◌, ◌<◌, min, ◌≡◌, refl, sym, ◌∙◌, ap, inl, inr, true, false, lt→ltb, le→ltb,
  Option, none, some, List, [], ◌∷◌, ◌++◌, append-nil, arith, length, length-append,
}
use mathlib.Core.Path.{subst}
use nodejs_proto_cache.Keys.{Text, ChainedObject, top, below, join, build_key, Result, ok}
use nodejs_proto_cache.Keys.Chain.{path_of, build_key-path_of}
use nodejs_proto_cache.Tree.{Tree, current_value}
use nodejs_proto_cache.Tree.Paths.{find_tree}
use nodejs_proto_cache.Graphs.{Item, item_ref, create_traversal_item}
use nodejs_proto_cache.Cache.{Options, Storage, World}
use nodejs_proto_cache.Cache.Reading.Parsed.{get_tree-found}
use nodejs_proto_cache.Cache.Laws.{IsReliable, then-ok, reading-get}
use nodejs_proto_cache.Cache.Reads.{
  get_node_ref, read_item, read_key_level, read_tree_level, storage_nodes, tree_nodes,
}
use nodejs_proto_cache.Cache.Reading.Loops.{storage_nodes-reached, tree_nodes-find_tree}
use nodejs_proto_cache.Cache.Searches.{GetChildren, Found}
use nodejs_proto_cache.Cache.Searches.Nodes.{Stored}

path_of-head : (own : ChainedObject) → (k : Text) × (front : List Text) × (path_of own ≡ k ∷ front)
unfolding path_of
path_of-head (top k n) = (k, [], refl)
path_of-head (below k n p) =
    let (j, front, e) = path_of-head p in
    (j, front ++ k ∷ [], ap (λ (ks : List Text). ks ++ k ∷ []) e)

module _ {T R S : Type 0} (options : Options T R) (storage : Storage S R)
    (lookup : S → Text → Option R) (reliable : IsReliable storage lookup)
    (get_children : GetChildren S) (now : ℕ) (w : World S T) where
  -- `getNodeRef` finds a node at the keys, with the value, and its path is that of the keys.
  abbrev pub FindsNode : List Text → Option R → Type 0
  FindsNode path v =
      (i : Item R) × (get_node_ref options storage path false now w ≡ (ok (some i), w))
      × (i.value ≡ v)
      × (path_of (item_ref i) ≡ path)

  -- The same for what a search finds.
  abbrev pub Agrees : Found R → Type 0
  Agrees (own, v) = FindsNode (path_of own) v

  -- `getNodeRef` from the item of the last level of the storage.
  get_node_ref-item :
      (path : List Text) (n : ℕ) (i found : Item R)
      → min options.key_level_nodes (length path) ≡ n
      → storage_nodes path n 0 none now ≡ ok (some i)
      → read_item options storage path false now i w ≡ (ok (some found), w)
      → get_node_ref options storage path false now w ≡ (ok (some found), w)
  unfolding get_node_ref
  get_node_ref-item path n i found rounds runs reads =
      then-ok _ _
        (ap (λ (x : Result (Option (Item R))). (x, w))
          (ap (λ (m : ℕ). storage_nodes path m 0 none now) rounds ∙ runs))
        reads

  FindsNode-key :
      (k : Text) (front : List Text)
      → length (k ∷ front) < options.key_level_nodes
      → FindsNode (k ∷ front) (lookup w.store (join (k ∷ front)))
  unfolding read_item read_key_level
  FindsNode-key k front low =
      let (i, runs, keys, level) =
        storage_nodes-reached (k ∷ front) now [] front [] k none
          (ap (◌∷◌ k) (sym (append-nil front))) in
      let key : build_key (item_ref i) ≡ join (k ∷ front) =
        build_key-path_of (item_ref i) ∙ ap join keys in
      (
        record i { value = lookup w.store (join (k ∷ front)) },
        get_node_ref-item (k ∷ front) (suc (length front)) i
            (record i { value = lookup w.store (join (k ∷ front)) }) (omega (arith, low)) runs
            (rw (lt→ltb i.level options.key_level_nodes (omega (arith, low, level))) (
              then-ok _ _ (reading-get storage lookup reliable (build_key (item_ref i)) w)
                (ap (λ (x : Text). (ok (some (record i { value = lookup w.store x })), w)) key))),
        refl,
        keys,
      )

  -- `getNodeRef` goes on in the tree of the item's key, to the node that the rest leads to.
  read_item-tree :
      (path above rest : List Text) (i : Item R) (r : R) (root t : Tree R)
      → path ≡ above ++ rest
      → i.level ≡ length above
      → options.key_level_nodes ≤ i.level
      → lookup w.store (build_key (item_ref i)) ≡ some r
      → options.truthy r ≡ true
      → options.deserialize_tree r ≡ some root
      → find_tree root rest ≡ some t
      → (node : Item R) × (read_item options storage path false now i w ≡ (ok (some node), w))
        × (node.value ≡ current_value t now)
        × (path_of (item_ref node) ≡ path_of (item_ref i) ++ rest)
  unfolding read_item read_tree_level create_traversal_item
  read_item-tree path above rest i r root t e reached deep held full parsed there =
      let (j, walks, lower) = tree_nodes-find_tree path now above rest i root t e there in
      let walk : tree_nodes path (length path - i.level) i.level i root now ≡ ok (some (j, t)) =
        ap (λ (m : ℕ). tree_nodes path (length path - m) m i root now) reached
        ∙ ap (λ (m : ℕ). tree_nodes path m (length above) i root now)
            (omega (arith, ap length e, length-append above rest))
        ∙ walks in
      (
        create_traversal_item j.key j.level j.parent_ref t now,
        rw (le→ltb i.level options.key_level_nodes deep) (
            then-ok _ _
              (get_tree-found options storage lookup reliable (build_key (item_ref i)) w r root held
                full parsed)
              (then-ok _ _ (ap (λ (x : Result (Option (Item R × Tree R))). (x, w)) walk) refl)),
        refl,
        lower,
      )

  FindsNode-tree :
      (k : Text) (front rest : List Text) (r : R) (root t : Tree R)
      → length (k ∷ front) ≡ options.key_level_nodes
      → lookup w.store (join (k ∷ front)) ≡ some r
      → options.truthy r ≡ true
      → options.deserialize_tree r ≡ some root
      → find_tree root rest ≡ some t
      → FindsNode ((k ∷ front) ++ rest) (current_value t now)
  FindsNode-tree k front rest r root t above held full parsed there =
      let path = (k ∷ front) ++ rest in
      let (i, runs, keys, level) = storage_nodes-reached path now [] front rest k none refl in
      let key : build_key (item_ref i) ≡ join (k ∷ front) =
        build_key-path_of (item_ref i) ∙ ap join keys in
      let (node, reads, value, lower) =
        read_item-tree path (k ∷ front) rest i r root t refl (omega (arith, level))
          (omega (arith, above, level)) (ap (lookup w.store) key ∙ held) full parsed there in
      (
        node,
        get_node_ref-item path (suc (length front)) i node
            (omega (arith, above, length-append (k ∷ front) rest)) runs reads,
        value,
        lower ∙ ap (λ (ks : List Text). ks ++ rest) keys,
      )

  FindsNode-front :
      (front rest : List Text) (r : R) (root t : Tree R)
      → 1 ≤ options.key_level_nodes
      → length front ≡ options.key_level_nodes
      → lookup w.store (join front) ≡ some r
      → options.truthy r ≡ true
      → options.deserialize_tree r ≡ some root
      → find_tree root rest ≡ some t
      → FindsNode (front ++ rest) (current_value t now)
  FindsNode-front [] rest r root t levels above held full parsed there = absurd (omega arith)
  FindsNode-front (k ∷ front) rest r root t levels above held full parsed there =
      FindsNode-tree k front rest r root t above held full parsed there

  -- A stored node is found.
  pub Agrees-Stored :
      (own : ChainedObject) (t : Tree R) (v : Option R)
      → 1 ≤ options.key_level_nodes
      → Stored options storage lookup reliable get_children w.store own t
      → v ≡ current_value t now
      → Agrees (own, v)
  Agrees-Stored own t v levels (inl node) e =
      let (k, front, path) = path_of-head own in
      let long = node.above in
      let value : v ≡ lookup w.store (join (k ∷ front)) =
        e ∙ node.held now ∙ ap (lookup w.store) (build_key-path_of own ∙ ap join path) in
      subst (λ (q : List Text). FindsNode q v) (sym path)
        (subst (FindsNode (k ∷ front)) (sym value)
          (FindsNode-key k front (omega (arith, long, ap length path))))
  Agrees-Stored own t v levels (inr node) e =
      subst (λ (q : List Text). FindsNode q v) (sym node.split)
        (subst (FindsNode (node.front ++ node.rest)) (sym e) (
          FindsNode-front node.front node.rest node.buffer node.root t levels node.above node.held
            node.full node.parsed node.there))
