-- ===== src/Cache/Pruning/Views.antt =====
-- What a reader sees after `prune` (src/tree-key-cache.ts) has worked on the key of a tree.
use nodejs_proto_cache.Prelude.{
  ℕ, suc, ◌-◌, ◌≤◌, min, ◌≡◌, refl, sym, ◌∙◌, ap, true, Bool, Bool-cases, inl, inr, Option, none,
  some, List, [], ◌∷◌, ◌++◌, append-nil, ==_iff, le→ltb, arith, All, length, if◌then◌else◌,
}
use mathlib.Core.Path.{subst}
use nodejs_proto_cache.Keys.{Text, ChainedObject, chained, join, split_key, build_key, Result, ok}
use nodejs_proto_cache.Keys.Chain.{path_of, build_key-path_of}
use nodejs_proto_cache.Keys.RoundTrip.{ColonFree, split_key-join}
use nodejs_proto_cache.Tree.{Tree}
use nodejs_proto_cache.Tree.Paths.{value_at}
use nodejs_proto_cache.Graphs.{Item, item_ref, create_traversal_item}
use nodejs_proto_cache.Prune.{prune_tree}
use nodejs_proto_cache.Prune.Spec.{Distinct}
use nodejs_proto_cache.Prune.Views.{value_at-prune_tree}
use nodejs_proto_cache.Cache.{Options, Storage, World, pure, acquired, released}
use nodejs_proto_cache.Cache.Reads.{
  storage_nodes, tree_nodes, get_last_tree, read_item, read_tree_level, get_node_ref,
}
use nodejs_proto_cache.Cache.Laws.{IsReliable, IsCodec, then-ok, reading-get}
use nodejs_proto_cache.Cache.Persist.{persist_tree-found}
use nodejs_proto_cache.Cache.Reading.Loops.{storage_nodes-reached}
use nodejs_proto_cache.Cache.Pruning.{persist_pruned, prune_item, prune_key}

parent-some :
    (k a l : Text) (n : ℕ) (o : Option ChainedObject) (rest : List Text)
    → path_of (chained k n o) ≡ a ∷ l ∷ rest
    → (p : ChainedObject) × (o ≡ some p)
unfolding path_of
parent-some k a l n none rest e = absurd (ground (arith, e))
parent-some k a l n (some p) rest e = (p, refl)

-- What is held is a tree.
abbrev pub Reads : {T R : Type 0} → Options T R → Tree R → Option R → Type 0
Reads options t held =
    (r : _) × (held ≡ some r) × (options.truthy r ≡ true) × (options.deserialize_tree r ≡ some t)

module _ {T R S : Type 0} (options : Options T R) (storage : Storage S R)
    (lookup : S → Text → Option R) (reliable : IsReliable storage lookup) where
  get_last_tree-found :
      (key : Text) (w : World S T) (t : Tree R)
      → Reads options t (lookup w.store key)
      → get_last_tree options storage key w ≡ (ok (some t), w)
  unfolding get_last_tree
  get_last_tree-found key w t (r, held, full, read) =
      then-ok _ _
        (reading-get storage lookup reliable key w ∙ ap (λ (o : Option R). (ok o, w)) held)
        (rw (full, read) refl)

  persist_pruned-found :
      (item : Item R) (tree : Tree R) (w : World S T)
      → (w' : World S T) × (persist_pruned options storage item tree w ≡ (ok tt, w'))
        × (lookup w'.store (build_key (item_ref item)) ≡ some (options.serialize_tree tree))
  unfolding persist_pruned
  persist_pruned-found item tree w =
      let key = build_key (item_ref item) in
      let w₁ : World S T = record w { events = w.events ++ acquired key ∷ [] } in
      let (ttl, read) = reliable.ttl_lem key w.store in
      let (w₂, runs, held) = persist_tree-found options storage lookup reliable key ttl tree w₁ in
      (
        record w₂ { events = w₂.events ++ released key ∷ [] },
        then-ok _ _ refl
            (then-ok _ _ (ap (λ (x : Result (Option ℕ)). (x, w₁)) read) (then-ok _ _ runs refl)),
        held,
      )

  -- The node of a key of the storage: the item of its tree.
  get_node_ref-tree :
      (k l : Text) (front : List Text) (now : ℕ) (t : Tree R) (w : World S T)
      → length (k ∷ l ∷ front) ≡ options.key_level_nodes
      → Reads options t (lookup w.store (join (k ∷ l ∷ front)))
      → (i : Item R) × (p : ChainedObject) × (get_node_ref options storage
            (k ∷ l ∷ front)
            true
            now
            w
          ≡ (ok (some i), w))
        × (i.tree_ref ≡ t)
        × (i.parent_ref ≡ some p)
        × (i.level ≡ options.key_level_nodes)
        × (path_of (item_ref i) ≡ k ∷ l ∷ front)
  unfolding get_node_ref read_item read_tree_level tree_nodes create_traversal_item
  get_node_ref-tree k l front now t w last reads =
      let path = k ∷ l ∷ front in
      let (i, runs, keys, level) =
        storage_nodes-reached path now [] (l ∷ front) [] k none
          (ap (λ (ks : List Text). k ∷ l ∷ ks) (sym (append-nil front))) in
      let key : build_key (item_ref i) ≡ join path =
        build_key-path_of (item_ref i) ∙ ap join keys in
      let (p, below_one) = parent-some i.key k l i.level i.parent_ref front keys in
      let found : Item R = create_traversal_item i.key i.level i.parent_ref t now in
      let none_left : length path - i.level ≡ 0 = omega (arith, level) in
      let walk : tree_nodes path (length path - i.level) i.level i t now ≡ ok (some (i, t)) =
        ap (λ (m : ℕ). tree_nodes path m i.level i t now) none_left in
      let item_reads : read_tree_level options storage path true now i w ≡ (ok (some found), w) =
        then-ok _ _
          (get_last_tree-found (build_key (item_ref i)) w t
            (subst (λ (x : Text). Reads options t (lookup w.store x)) (sym key) reads))
          (then-ok _ _ (ap (λ (x : Result (Option (Item R × Tree R))). (x, w)) walk) refl) in
      let rounds : min options.key_level_nodes (length path) ≡ suc (suc (length front)) =
        omega (arith, last) in
      (
        found,
        p,
        then-ok _ _
            (ap (λ (x : Result (Option (Item R))). (x, w))
              (ap (λ (m : ℕ). storage_nodes path m 0 none now) rounds ∙ runs))
            (rw (le→ltb i.level options.key_level_nodes (omega (arith, last, level))) item_reads),
        refl,
        below_one,
        omega (arith, level, last),
        keys,
      )

  -- The pruned tree is written if pruning reports a change.
  prune_item-runs :
      (i : Item R) (t : Tree R) (p : ChainedObject) (now : ℕ) (w : World S T)
      → i.tree_ref ≡ t
      → i.parent_ref ≡ some p
      → i.level ≡ options.key_level_nodes
      → prune_item options storage now i w
        ≡ (if (prune_tree now t (some p)).0
              then persist_pruned options storage i (prune_tree now t (some p)).1
              else pure tt)
            w
  unfolding prune_item
  prune_item-runs i t p now w tree parent level =
      ap
        (λ (b : Bool).
          (if b
              then (if (prune_tree now i.tree_ref i.parent_ref).0
                  then persist_pruned options storage i (prune_tree now i.tree_ref i.parent_ref).1
                  else pure tt)
              else pure tt)
            w)
        ((==_iff i.level options.key_level_nodes).1 level)
      ∙ λ j.
          (if (prune_tree now (tree j) (parent j)).0
              then persist_pruned options storage i (prune_tree now (tree j) (parent j)).1
              else pure tt)
            w

  prune_item-views :
      (codec : IsCodec options) (i : Item R) (t : Tree R) (p : ChainedObject) (now : ℕ)
      (w : World S T)
      → i.tree_ref ≡ t
      → i.parent_ref ≡ some p
      → i.level ≡ options.key_level_nodes
      → Distinct t
      → Reads options t (lookup w.store (build_key (item_ref i)))
      → (w' : World S T) × (u : Tree R) × (prune_item options storage now i w ≡ (ok tt, w'))
        × Reads options u (lookup w'.store (build_key (item_ref i)))
        × ((later : ℕ) (path : List Text)
            → now ≤ later
            → value_at later u path ≡ value_at later t path)
  prune_item-views codec i t p now w tree parent level distinct reads =
      let after = prune_tree now t (some p) in
      let runs = prune_item-runs i t p now w tree parent level in
      let act = λ (b : Bool). (if b then persist_pruned options storage i after.1 else pure tt) w in
      elim (Bool-cases after.0) [
        | inl changed ↦
            let (w', writes, held) = persist_pruned-found i after.1 w in
            let (u, read, same) = codec.tree_read after.1 in
            (
              w',
              u,
              runs ∙ ap act changed ∙ writes,
              (options.serialize_tree after.1, held, codec.tree_truthy after.1, read),
              λ later path le. same later path ∙ value_at-prune_tree now later t p path le distinct,
            )
        | inr unchanged ↦ (w, t, runs ∙ ap act unchanged, reads, λ later path le. refl)
      ]

  -- On a storage that answers and serializers that read what they wrote: the work of `prune` on the
  -- chained key of `keyLevelNodes` keys, two or more, none of which holds a colon, under which a tree
  -- is held whose children objects have distinct properties, ends without an exception, and leaves
  -- under the key a tree that has the value at every path, at every time from then on, that the tree
  -- had before.
  pub prune_key-value_at :
      (codec : IsCodec options) (k l : Text) (front : List Text) (now : ℕ) (t : Tree R)
      (w : World S T)
      → length (k ∷ l ∷ front) ≡ options.key_level_nodes
      → All ColonFree (k ∷ l ∷ front)
      → Distinct t
      → Reads options t (lookup w.store (join (k ∷ l ∷ front)))
      → (w' : World S T) × (u : Tree R) × (prune_key options storage now (join (k ∷ l ∷ front)) w
          ≡ (ok tt, w'))
        × Reads options u (lookup w'.store (join (k ∷ l ∷ front)))
        × ((later : ℕ) (path : List Text)
            → now ≤ later
            → value_at later u path ≡ value_at later t path)
  unfolding prune_key
  prune_key-value_at codec k l front now t w last plain distinct reads =
      let path = k ∷ l ∷ front in
      let (i, p, finds, tree, parent, level, keys) =
        get_node_ref-tree k l front now t w last reads in
      let key : build_key (item_ref i) ≡ join path =
        build_key-path_of (item_ref i) ∙ ap join keys in
      let (w', u, runs, reads', views) =
        prune_item-views codec i t p now w tree parent level distinct
          (subst (λ (x : Text). Reads options t (lookup w.store x)) (sym key) reads) in
      let split : split_key (join path) ≡ path = split_key-join path (cc) plain in
      (
        w',
        u,
        then-ok _ _
            (ap (λ (ks : List Text). get_node_ref options storage ks true now w) split ∙ finds)
            runs,
        subst (λ (x : Text). Reads options u (lookup w'.store x)) key reads',
        views,
      )
