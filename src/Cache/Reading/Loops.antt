-- ===== src/Cache/Reading/Loops.antt =====
-- What the loops of `getNodeRef` (src/internal/tree-internal-control.ts) over the levels of the storage
-- and of a tree end in.
use nodejs_proto_cache.Prelude.{
  ℕ, suc, ◌+◌, ◌≡◌, refl, sym, ◌∙◌, ap, Option, none, some, List, [], ◌∷◌, ◌++◌, append_assoc,
  append-nil, arith, inl, inr, Option-cases, length, length-append,
}
use nodejs_proto_cache.Keys.{Text, ChainedObject, chained, get_key, ok}
use nodejs_proto_cache.Keys.Chain.{keys_to, path_of-chained, path_of, get_elem?-length}
use nodejs_proto_cache.Tree.{Tree, empty_tree, entries_of, get_entry, current_value}
use nodejs_proto_cache.Tree.Paths.{find_tree, value_at}
use nodejs_proto_cache.Graphs.{Item, item_ref, create_traversal_item}
use nodejs_proto_cache.Cache.Reads.{
  ref_of, get_next_storage_node, get_next_tree_node, storage_nodes, tree_nodes,
}
use nodejs_proto_cache.Cache.KeyLevels.{chain_below}

-- The chain below a node has the keys of the path below those of the node.
keys_to-chain_below :
    (parent : Option ChainedObject) (level : ℕ) (path : List Text)
    → keys_to (chain_below parent level path) ≡ keys_to parent ++ path
unfolding chain_below
keys_to-chain_below parent level [] = sym (append-nil (keys_to parent))
keys_to-chain_below parent level (k ∷ path) =
    keys_to-chain_below (some (chained k (suc level) parent)) (suc level) path
    ∙ ap (λ (ks : List Text). ks ++ path) (path_of-chained k (suc level) parent)
    ∙ append_assoc (keys_to parent) (k ∷ []) path

get_key-split :
    (path above rest : List Text) (k : Text)
    → path ≡ above ++ k ∷ rest
    → get_key path (length above) ≡ ok k
unfolding get_key
get_key-split path above rest k e =
    ap (λ (p : List Text). get_key p (length above)) e
    ∙ rw (get_elem?-length above k rest, get_key) refl

snoc-split :
    (path above rest : List Text) (k : Text)
    → path ≡ above ++ k ∷ rest
    → path ≡ (above ++ k ∷ []) ++ rest
snoc-split path above rest k e = e ∙ sym (append_assoc above (k ∷ []) rest)

module _ {R : Type 0} (path : List Text) (now : ℕ) where
  path_of-item :
      (k : Text) (n : ℕ) (p : Option ChainedObject) (t : Tree R)
      → path_of (item_ref (create_traversal_item k n p t now)) ≡ keys_to p ++ k ∷ []
  unfolding create_traversal_item
  path_of-item k n p t = path_of-chained k n p

  storage_nodes-step :
      (n level : ℕ) (k : Text) (item : Option (Item R))
      → get_key path level ≡ ok k
      → storage_nodes path (suc n) level item now
        ≡ storage_nodes path n
            (suc level)
            (some (create_traversal_item k (suc level) (ref_of item) empty_tree now))
            now
  unfolding storage_nodes get_next_storage_node
  storage_nodes-step n level k item e = rw (e, storage_nodes, get_next_storage_node) refl

  tree_nodes-step :
      (n level : ℕ) (k : Text) (item : Item R) (tree u : Tree R)
      → get_key path level ≡ ok k
      → get_entry (entries_of tree) k ≡ some u
      → tree_nodes path (suc n) level item tree now
        ≡ tree_nodes path n
            (suc level)
            (create_traversal_item k (suc level) (some (item_ref item)) empty_tree now)
            u
            now
  unfolding tree_nodes get_next_tree_node
  tree_nodes-step n level k item tree u e p = rw (e, p, tree_nodes, get_next_tree_node) refl

  -- The loop over the levels of the storage ends in the item of the last key.
  pub storage_nodes-reached :
      (above front rest : List Text) (k : Text) (item : Option (Item R))
      → path ≡ above ++ k ∷ (front ++ rest)
      → (i : Item R) × (storage_nodes path (suc (length front)) (length above) item now
          ≡ ok (some i))
        × (path_of (item_ref i) ≡ keys_to (ref_of item) ++ k ∷ front)
        × (i.level ≡ length above + suc (length front))
  storage_nodes-reached above [] rest k item e = (
    create_traversal_item k (suc (length above)) (ref_of item) empty_tree now,
    storage_nodes-step 0 (length above) k item (get_key-split path above rest k e)
        ∙ unfold storage_nodes in refl,
    unfold create_traversal_item in path_of-chained k (suc (length above)) (ref_of item),
    unfold create_traversal_item in omega arith,
  )
  storage_nodes-reached above (l ∷ front) rest k item e =
      let next =
        create_traversal_item k (suc (length above)) (ref_of item) (empty_tree {R = R}) now in
      let counted : length (above ++ k ∷ []) ≡ suc (length above) =
        omega (arith, length-append above (k ∷ [])) in
      let (i, runs, keys, level) =
        storage_nodes-reached (above ++ k ∷ []) front rest l (some next)
          (snoc-split path above ((l ∷ front) ++ rest) k e) in
      (
        i,
        storage_nodes-step (suc (length front)) (length above) k item
              (get_key-split path above ((l ∷ front) ++ rest) k e)
            ∙ (ap (λ (m : ℕ). storage_nodes path (suc (length front)) m (some next) now)
                  (sym counted)
                ∙ runs),
        keys
            ∙ ap (λ (ks : List Text). ks ++ l ∷ front)
                (path_of-item k (suc (length above)) (ref_of item) empty_tree)
            ∙ append_assoc (keys_to (ref_of item)) (k ∷ []) (l ∷ front),
        omega (arith, level, counted),
      )

  -- The loop over the levels of a tree ends in the subtree that the path leads to.
  pub tree_nodes-find_tree :
      (above rest : List Text) (item : Item R) (tree t : Tree R)
      → path ≡ above ++ rest
      → find_tree tree rest ≡ some t
      → (i : Item R) × (tree_nodes path (length rest) (length above) item tree now
          ≡ ok (some (i, t)))
        × (path_of (item_ref i) ≡ path_of (item_ref item) ++ rest)
  unfolding find_tree
  tree_nodes-find_tree above [] item tree t e h = (
    item,
    unfold tree_nodes in
        ap (λ (o : Option (Tree R)). ok (some (item, elim o [ none ↦ tree | some u ↦ u ]))) h,
    sym (append-nil (path_of (item_ref item))),
  )
  tree_nodes-find_tree above (k ∷ rest) item tree t e h =
      elim (Option-cases (get_entry (entries_of tree) k)) [
        | inl p ↦ absurd (ground (arith, rw (p, find_tree) at h))
        | inr (u, p) ↦
            let next =
              create_traversal_item k (suc (length above)) (some (item_ref item))
                (empty_tree {R = R}) now in
            let counted : length (above ++ k ∷ []) ≡ suc (length above) =
              omega (arith, length-append above (k ∷ [])) in
            let (i, runs, keys) =
              tree_nodes-find_tree (above ++ k ∷ []) rest next u t (snoc-split path above rest k e)
                (rw (p, find_tree) at h) in
            (
              i,
              tree_nodes-step (length rest) (length above) k item tree u
                    (get_key-split path above rest k e) p
                  ∙ (ap (λ (m : ℕ). tree_nodes path (length rest) m next u now) (sym counted)
                      ∙ runs),
              keys
                  ∙ ap (λ (ks : List Text). ks ++ rest)
                      (path_of-item k (suc (length above)) (some (item_ref item)) empty_tree)
                  ∙ append_assoc (path_of (item_ref item)) (k ∷ []) rest,
            )
      ]

  value_at-find_tree :
      (t : Tree R) (q : List Text) (r : R)
      → value_at now t q ≡ some r
      → (u : Tree R) × (find_tree t q ≡ some u) × (current_value u now ≡ some r)
  unfolding value_at find_tree
  value_at-find_tree t [] r h = (t, refl, h)
  value_at-find_tree t (k ∷ q) r h = elim (Option-cases (get_entry (entries_of t) k)) [
    | inl p ↦ absurd (ground (arith, rw (p, value_at) at h))
    | inr (u, p) ↦ rw (p, find_tree) (value_at-find_tree u q r (rw (p, value_at) at h))
  ]

  -- The same for a path that leads to a value.
  pub tree_nodes-found :
      (above rest : List Text) (item : Item R) (tree : Tree R) (r : R)
      → path ≡ above ++ rest
      → value_at now tree rest ≡ some r
      → (i : Item R) × (t : Tree R) × (tree_nodes path (length rest) (length above) item tree now
          ≡ ok (some (i, t)))
        × (current_value t now ≡ some r)
        × (path_of (item_ref i) ≡ path_of (item_ref item) ++ rest)
  tree_nodes-found above rest item tree r e h =
      let (t, found, current) = value_at-find_tree tree rest r h in
      let (i, runs, keys) = tree_nodes-find_tree above rest item tree t e found in
      (i, t, runs, current, keys)
