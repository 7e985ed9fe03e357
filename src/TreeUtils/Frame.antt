-- ===== src/TreeUtils/Frame.antt =====
-- What `deepTreeSet` (src/utils/deep-tree-set.ts) leaves alone.
use nodejs_proto_cache.Prelude.{
  ℕ, suc, ◌≡◌, refl, ◌∙◌, ap, Option, none, some, List, [], ◌∷◌, arith, inl, inr, Bool, true, false,
  ◌&&◌, if◌then◌else◌, Bool-cases,
}
use nodejs_proto_cache.Keys.{Text, ChainedObject, chained, text_eq}
use nodejs_proto_cache.Tree.{Tree, leaf, expired, entries_of, get_entry, current_value}
use nodejs_proto_cache.Tree.Writes.{get_entry-set_entry, text_eq_iff}
use nodejs_proto_cache.Tree.Paths.{value_at}
use nodejs_proto_cache.Cache.{Step}
use nodejs_proto_cache.TreeUtils.{
  Answer, found_or, write_value, put_child, set_path, deep_tree_set_in_memory,
}
use nodejs_proto_cache.TreeUtils.Setting.{
  Answer-cases, node_at, step_at, set_path-leaves, set_path-goes_on, root-set_path,
  entries_of-write_value,
}

-- Whether the first path is a beginning of the second.
abbrev pub begins : List Text → List Text → Bool
begins [] path = true
begins (j ∷ q) [] = false
begins (j ∷ q) (k ∷ path) = text_eq k j && begins q path

module _ {T : Type 0} (now : ℕ) where
  abbrev below : Option (Tree T) → List Text → Option T
  below o q = elim o [ none ↦ none | some u ↦ value_at now u q ]

  value_at-put_child :
      (t u : Tree T) (k j : Text) (q : List Text)
      → value_at now (put_child t k u) (j ∷ q)
        ≡ below (if text_eq k j then some u else get_entry (entries_of t) j) q
  unfolding value_at
  value_at-put_child t u k j q =
      ap (λ (o : Option (Tree T)). below o q) (get_entry-set_entry k j u (entries_of t))

  -- Below a node, a write of its value is not seen.
  value_at-write_value :
      (t : Tree T) (v : Option T) (j : Text) (q : List Text)
      → value_at now (write_value t v) (j ∷ q) ≡ below (get_entry (entries_of t) j) q
  unfolding value_at
  value_at-write_value t v j q = ap (λ es. below (get_entry es j) q) (entries_of-write_value t v)

  -- A new node has nothing below it.
  below-found_or :
      (v : Option T) (o : Option (Tree T)) (j : Text) (q : List Text)
      → below (get_entry (entries_of (found_or (leaf v none) o)) j) q ≡ below o (j ∷ q)
  unfolding value_at get_entry
  below-found_or v none j q = refl
  below-found_or v (some t) j q = refl

  view-node :
      (v w : Option T) (o : Option (Tree T)) (q path : List Text)
      → begins q path ≡ false
      → value_at now (write_value (found_or (leaf v none) o) w) q ≡ below o q
  view-node v w o [] path off = absurd (ground (arith, off))
  view-node v w o (j ∷ q) path off =
      value_at-write_value (found_or (leaf v none) o) w j q ∙ below-found_or v o j q

  -- A child that agrees with the one before on every path, where that is asked, keeps the view.
  view-put_child :
      (t u : Tree T) (k j : Text) (q path : List Text)
      → begins (j ∷ q) (k ∷ path) ≡ false
      → (begins q path ≡ false → value_at now u q ≡ below (get_entry (entries_of t) k) q)
      → value_at now (put_child t k u) (j ∷ q) ≡ value_at now t (j ∷ q)
  unfolding value_at
  view-put_child t u k j q path off same = elim (Bool-cases (text_eq k j)) [
    | inl e ↦
        value_at-put_child t u k j q
        ∙ rw e (
            same (rw e at off)
            ∙ ap (λ (i : Text). below (get_entry (entries_of t) i) q) ((text_eq_iff k j).0 e))
    | inr e ↦ value_at-put_child t u k j q ∙ rw e refl
  ]

module _ {T : Type 0} (now : ℕ) (create_value : ℕ → Option T) (consumer : Step T → Answer T) where
  value_at-set_path :
      (path q : List Text) (level : ℕ) (node_ref : Option ChainedObject) (tree : Tree T)
      → begins q path ≡ false
      → value_at now (set_path create_value consumer level node_ref tree path).1 q
        ≡ value_at now tree q
  unfolding set_path
  value_at-set_path path [] level node_ref tree off = absurd (ground (arith, off))
  value_at-set_path [] (j ∷ q) level node_ref tree off = refl
  value_at-set_path (k ∷ path) (j ∷ q) level node_ref tree off =
      let node = node_at create_value consumer level tree k in
      let answer = Answer-cases (consumer (step_at create_value consumer level node_ref tree k)) in
      let kept = λ (v : Option T) (h : begins q path ≡ false).
        view-node now (create_value (suc level)) v (get_entry (entries_of tree) k) q path h in
      elim answer [
        | inl (v, e) ↦
            (λ i.
              value_at now
                (set_path-leaves create_value consumer level node_ref tree k path v e i).1 (j ∷ q))
            ∙ view-put_child now tree (write_value node v) k j q path off (kept v)
        | inr (v, e) ↦
            let own = some (chained k (suc level) node_ref) in
            (λ i.
              value_at now
                (set_path-goes_on create_value consumer level node_ref tree k path v e i).1 (j ∷ q))
            ∙ view-put_child now tree
                (set_path create_value consumer (suc level) own (write_value node v) path).1 k j q
                path off
                (λ h. value_at-set_path path q (suc level) own (write_value node v) h ∙ kept v h)
      ]

  -- Whatever the consumer does, the current value at each path that is not a beginning of the one
  -- that is set stays what it was, at any time, and so does that of the root.
  pub deep_tree_set_in_memory-value_at :
      (tree : Tree T) (path q : List Text)
      → begins q path ≡ false
      → let tree' = (deep_tree_set_in_memory create_value consumer tree path).1 in
        (value_at now tree' q ≡ value_at now tree q)
        × (current_value tree' now ≡ current_value tree now)
  unfolding deep_tree_set_in_memory current_value
  deep_tree_set_in_memory-value_at tree path q off =
      let (value, deadline) = root-set_path create_value consumer 0 none tree path in
      (
        value_at-set_path path q 0 none tree off,
        λ i. if expired (deadline i) now then none else value i,
      )
