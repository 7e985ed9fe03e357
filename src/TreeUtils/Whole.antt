-- ===== src/TreeUtils/Whole.antt =====
-- What `deserializeWholeTree` (src/utils/deserialize-whole-tree.ts) builds.
use nodejs_proto_cache.Prelude.{
  ℕ, ◌<◌, ◌≡◌, refl, sym, ◌∙◌, ap, Option, none, some, List, [], ◌∷◌, append-nil, arith, inl, inr,
  Bool, true, false, if◌then◌else◌, Bool-cases,
}
use mathlib.Core.Path.{subst}
use nodejs_proto_cache.Keys.{Text, text_eq}
use nodejs_proto_cache.Tree.{
  Tree, Entries, leaf, branch, nil, entry, hole, empty_tree, value_of, deadline_of, entries_of,
  get_entry, current_value, expired, has_property,
}
use nodejs_proto_cache.Tree.Writes.{get_entry-set_entry, text_eq_iff}
use nodejs_proto_cache.Tree.Paths.{value_at}
use nodejs_proto_cache.Prune.Spec.{Distinct, DistinctEntries}
use nodejs_proto_cache.Graphs.{Item, Run, start_item}
use nodejs_proto_cache.Graphs.Loop.{tree_nodes}
use nodejs_proto_cache.Graphs.Depth.{
  depth_below, pre_order_depth_first_search, pre_order_depth_first_search-depth_below,
}
use nodejs_proto_cache.TreeUtils.{
  new_tree, pop_levels, gave, Rebuild, found_or, put_child, write_some, modify, add_child,
  place_nodes, read_root, no_tree, rebuild, rebuild_from, deserialize_whole_tree,
}
use nodejs_proto_cache.TreeUtils.Modifying.{modify-put_child}
use nodejs_proto_cache.TreeUtils.Rebuilding.{
  Places-depth_below, read_some-read_value, read_value, built_node, built_below,
}

module _ {T R : Type 0} (now : ℕ) (read : R → T) where
  -- A node on its own, and with what is below it.
  abbrev node_with : Option T → Tree T
  node_with v = write_some empty_tree v

  abbrev rebuilt : Tree R → Tree T
  rebuilt u =
      built_below now read (entries_of u) (node_with (read_value now read (current_value u now)))

  abbrev rebuilt? : Option (Tree R) → Option (Tree T)
  rebuilt? none = none
  rebuilt? (some u) = some (rebuilt u)

  add_child-new :
      (k : Text) (v : Option T) (t : Tree T)
      → get_entry (entries_of t) k ≡ none
      → add_child k v t ≡ put_child t k (node_with v)
  unfolding add_child
  add_child-new k v t e =
      ap (λ (o : Option (Tree T)). put_child t k (write_some (found_or empty_tree o) v)) e

  built_node-new :
      (k : Text) (u : Tree R) (t : Tree T)
      → get_entry (entries_of t) k ≡ none
      → built_node now read k u t ≡ put_child t k (rebuilt u)
  unfolding built_node built_below
  built_node-new k (leaf v d) t e = add_child-new k _ t e
  built_node-new k (branch v d es) t e =
      ap (modify (k ∷ []) (built_below now read es)) (add_child-new k _ t e)
      ∙ modify-put_child k [] (built_below now read es) t _
      ∙ unfold modify in refl

  absent : (es : Entries R) (k : Text) → has_property es k ≡ false → get_entry es k ≡ none
  unfolding get_entry has_property
  absent nil k h = refl
  absent (entry j t es) k h = ground (arith, absent es k)
  absent (hole j es) k h = ground (arith, absent es k)

  -- The children of the new tree are those of the old one, rebuilt.
  get_entry-built_below :
      (es : Entries R) (t : Tree T) (j : Text)
      → entries_of t ≡ nil
      → DistinctEntries es
      → get_entry (entries_of (built_below now read es t)) j ≡ rebuilt? (get_entry es j)
  unfolding built_below get_entry
  get_entry-built_below nil t j bare d = ap (λ (es : Entries T). get_entry es j) bare
  get_entry-built_below (entry k u es) t j bare d =
      let t' = built_below now read es t in
      let none_yet : get_entry (entries_of t') k ≡ none =
        get_entry-built_below es t k bare d.2 ∙ ap rebuilt? (absent es k d.0) in
      ap (λ (x : Tree T). get_entry (entries_of x) j) (built_node-new k u t' none_yet)
      ∙ get_entry-set_entry k j (rebuilt u) (entries_of t')
      ∙ elim (Bool-cases (text_eq k j)) [
        | inl e ↦ rw e refl
        | inr e ↦ rw e (get_entry-built_below es t j bare d.2)
      ]
  get_entry-built_below (hole k es) t j bare d = elim (Bool-cases (text_eq k j)) [
    | inl e ↦ rw e (
        get_entry-built_below es t j bare d.1
        ∙ ap rebuilt? (ap (get_entry es) (sym ((text_eq_iff k j).0 e)) ∙ absent es k d.0))
    | inr e ↦ rw e (get_entry-built_below es t j bare d.1)
  ]

  root-built_below :
      (es : Entries R) (t : Tree T)
      → entries_of t ≡ nil
      → DistinctEntries es
      → (value_of (built_below now read es t) ≡ value_of t)
        × (deadline_of (built_below now read es t) ≡ deadline_of t)
  unfolding built_below
  root-built_below nil t bare d = (refl, refl)
  root-built_below (entry k u es) t bare d =
      let t' = built_below now read es t in
      let none_yet : get_entry (entries_of t') k ≡ none =
        get_entry-built_below es t k bare d.2 ∙ ap rebuilt? (absent es k d.0) in
      let (value, deadline) = root-built_below es t bare d.2 in
      (
        ap value_of (built_node-new k u t' none_yet) ∙ value,
        ap deadline_of (built_node-new k u t' none_yet) ∙ deadline,
      )
  root-built_below (hole k es) t bare d = root-built_below es t bare d.1

  Distinct-entries : (t : Tree R) → Distinct t → DistinctEntries (entries_of t)
  Distinct-entries (leaf v d) h = tt
  Distinct-entries (branch v d es) h = h

  node_with-bare : (v : Option T) → entries_of (node_with v) ≡ nil
  node_with-bare none = refl
  node_with-bare (some x) = refl

  current_value-node_with : (seen : ℕ) (v : Option T) → current_value (node_with v) seen ≡ v
  unfolding current_value
  current_value-node_with seen none = refl
  current_value-node_with seen (some x) = refl

  Distinct-child :
      (es : Entries R) (k : Text) (u : Tree R)
      → DistinctEntries es
      → get_entry es k ≡ some u
      → DistinctEntries (entries_of u)
  unfolding get_entry
  Distinct-child nil k u d e = cc
  Distinct-child (entry j t es) k u d e = elim (Bool-cases (text_eq j k)) [
    | inl same ↦
        let found : t ≡ u = ground (arith, rw same at e) in
        subst (λ (x : Tree R). DistinctEntries (entries_of x)) found (Distinct-entries t d.1)
    | inr other ↦ Distinct-child es k u d.2 (rw other at e)
  ]
  Distinct-child (hole j es) k u d e = elim (Bool-cases (text_eq j k)) [
    | inl same ↦ absurd (ground (arith, rw same at e))
    | inr other ↦ Distinct-child es k u d.1 (rw other at e)
  ]

  current_value-rebuilt :
      (seen : ℕ) (u : Tree R)
      → DistinctEntries (entries_of u)
      → current_value (rebuilt u) seen ≡ read_value now read (current_value u now)
  unfolding current_value
  current_value-rebuilt seen u d =
      let v = read_value now read (current_value u now) in
      let (value, deadline) = root-built_below (entries_of u) (node_with v) (node_with-bare v) d in
      (λ i. if expired (deadline i) seen then none else value i) ∙ current_value-node_with seen v

  abbrev value_below : ℕ → List Text → Option (Tree T) → Option T
  value_below seen path o = elim o [ none ↦ none | some u ↦ value_at seen u path ]

  abbrev Agree : ℕ → List Text → Type 0
  Agree seen path =
      (u : Tree R)
      → DistinctEntries (entries_of u)
      → value_at seen (rebuilt u) path ≡ read_value now read (value_at now u path)

  below-rebuilt? :
      (seen : ℕ) (path : List Text) (o : Option (Tree R))
      → ((u : Tree R) → o ≡ some u → DistinctEntries (entries_of u))
      → Agree seen path
      → value_below seen path (rebuilt? o)
        ≡ read_value now read (elim o [ none ↦ none | some u ↦ value_at now u path ])
  below-rebuilt? seen path none d agree = refl
  below-rebuilt? seen path (some u) d agree = agree u (d u refl)

  value_at-built_below :
      (seen : ℕ) (path : List Text) (k : Text) (old : Tree R) (t : Tree T)
      → entries_of t ≡ nil
      → DistinctEntries (entries_of old)
      → Agree seen path
      → value_at seen (built_below now read (entries_of old) t) (k ∷ path)
        ≡ read_value now read (value_at now old (k ∷ path))
  unfolding value_at
  value_at-built_below seen path k old t bare d agree =
      ap (value_below seen path) (get_entry-built_below (entries_of old) t k bare d)
      ∙ below-rebuilt? seen path (get_entry (entries_of old) k)
          (λ u e. Distinct-child (entries_of old) k u d e) agree

  value_at-rebuilt : (seen : ℕ) (path : List Text) → Agree seen path
  unfolding value_at
  value_at-rebuilt seen [] u d = current_value-rebuilt seen u d
  value_at-rebuilt seen (k ∷ path) u d =
      let v = read_value now read (current_value u now) in
      value_at-built_below seen path k u (node_with v) (node_with-bare v) d
        (value_at-rebuilt seen path)

module _ {T R : Type 0} (deserialize_tree : R → Option (Tree R)) (deserialize : R → Option T)
    (truthy : R → Bool) (read : R → T) (reads : (r : R) → deserialize r ≡ some (read r)) where
  read_root-truthy :
      (now : ℕ) (o : Option R)
      → ((r : R) → o ≡ some r → truthy r ≡ true)
      → read_root deserialize_tree deserialize truthy o ≡ gave (read_value now read o)
  read_root-truthy now none full = refl
  read_root-truthy now (some r) full =
      rw (full r refl)
        (read_some-read_value now read deserialize_tree deserialize truthy reads (some r))

  rebuilds :
      (now later fuel : ℕ) (tree : Tree R) (v : Option T)
      → tree_nodes tree < fuel
      → rebuild_from deserialize_tree deserialize truthy
          (pre_order_depth_first_search later fuel tree none)
          v
        ≡ gave (built_below later read (entries_of tree) (leaf v none))
  unfolding rebuild_from place_nodes start_item pop_levels modify
  rebuilds now later fuel tree v enough =
      let items = depth_below later 1 none (entries_of tree) in
      let b : Rebuild T = record { tree = leaf v none; stack = [] ∷ []; current_level = 0 } in
      let (b', runs, built, stands) =
        Places-depth_below later read deserialize_tree deserialize truthy reads (entries_of tree) 1
          none [] [] b (record { low = omega arith; popped = refl }) [] in
      ap (λ (r : Run (Item R)). rebuild_from deserialize_tree deserialize truthy r v)
        (pre_order_depth_first_search-depth_below later fuel tree none enough)
      ∙ ap (λ (is : List (Item R)). new_tree (place_nodes deserialize_tree deserialize truthy is b))
          (sym (append-nil items))
      ∙ ap new_tree runs
      ∙ ap gave built

  -- With a value deserializer that does not throw, data of a tree with distinct properties that is
  -- not empty, a root value that is truthy if there is one, and fuel for the tree's nodes, the
  -- deserialization ends with a tree. Its root has the deserialized current value of the root,
  -- and at each path below it stands, at any time, what the value current there deserializes to.
  pub deserialize_whole_tree-value_at :
      (now later fuel : ℕ) (data' : R) (tree : Tree R)
      → deserialize_tree data' ≡ some tree
      → no_tree tree now ≡ false
      → ((r : R) → current_value tree now ≡ some r → truthy r ≡ true)
      → Distinct tree
      → tree_nodes tree < fuel
      → (tree' : Tree T) × (deserialize_whole_tree deserialize_tree deserialize truthy fuel now
            later data'
          ≡ gave tree')
        × (value_of tree' ≡ read_value now read (current_value tree now))
        × ((seen : ℕ) (k : Text) (path : List Text)
            → value_at seen tree' (k ∷ path)
              ≡ read_value later read (value_at later tree (k ∷ path)))
  unfolding deserialize_whole_tree rebuild
  deserialize_whole_tree-value_at now later fuel data' tree given some_tree full distinct enough =
      let v = read_value now read (current_value tree now) in
      let d = Distinct-entries later read tree distinct in
      (
        built_below later read (entries_of tree) (leaf v none),
        rw
            (
              given,
              deserialize_whole_tree,
              some_tree,
              rebuild,
              read_root-truthy now (current_value tree now) full,
            )
            (rebuilds now later fuel tree v enough),
        (root-built_below later read (entries_of tree) (leaf v none) refl d).0,
        λ seen k path.
            value_at-built_below later read seen path k tree (leaf v none) refl d
              (value_at-rebuilt later read seen path),
      )
