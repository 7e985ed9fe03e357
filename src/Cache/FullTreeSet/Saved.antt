-- ===== src/Cache/FullTreeSet/Saved.antt =====
-- What `saveFullTreeValue` (src/internal/tree-internal-control.ts) is to leave of a stored tree: the
-- recursion on the tree that is set, for a consumer that never leaves.
use nodejs_proto_cache.Prelude.{
  ℕ, ◌+◌, ◌≡◌, refl, sym, ◌∙◌, ap, false, Option, none, some, arith, inl, inr, Bool-cases,
  if◌then◌else◌,
}
use nodejs_proto_cache.Keys.{Text, ChainedObject, chained, text_eq}
use nodejs_proto_cache.Tree.{
  Tree, Entries, leaf, branch, nil, entry, hole, value_of, deadline_of, entries_of, get_entry,
  current_value, has_property,
}
use nodejs_proto_cache.Tree.Writes.{get_entry-set_entry, text_eq_iff}
use nodejs_proto_cache.Graphs.{Item, item_ref, create_traversal_item}
use nodejs_proto_cache.Prune.Spec.{DistinctEntries}
use nodejs_proto_cache.TreeUtils.{found_or, put_child}
use nodejs_proto_cache.Cache.{Options}
use nodejs_proto_cache.Cache.FullTreeSet.{
  FullSetItem, with_step_value, created, check_full_set_item_change,
}

absent {ℓ} :
    {R : Type ℓ} (es : Entries R) (k : Text) → has_property es k ≡ false → get_entry es k ≡ none
unfolding get_entry has_property
absent nil k h = refl
absent (entry j t es) k h = ground (arith, absent es k)
absent (hole j es) k h = ground (arith, absent es k)

module _ {T R : Type 0} (options : Options T R) where
  abbrev pub deserialized : Option R → Option T
  deserialized none = none
  deserialized (some r) = if options.truthy r then options.deserialize r else none

  -- The item of a node of the given tree, against the stored node.
  abbrev pub full_of : ℕ → Item T → Tree R → FullSetItem T R
  full_of now item c = record {
    step = record {
      value = item.value;
      key = item.key;
      level = item.level;
      node_ref = item_ref item;
    };
    old_value = deserialized (current_value c now);
    current = current_value c now;
  }

  module _ (create_value : ChainedObject → Option T) (given : FullSetItem T R → Option T)
      (now later : ℕ) where
    abbrev pub left_by : Item T → Tree R → FullSetItem T R
    left_by item c = with_step_value (full_of now item c) (given (full_of now item c))

    -- The stored node with the value that the consumer leaves.
    abbrev pub written : Item T → Tree R → Tree R
    written item c = (check_full_set_item_change options (left_by item c) c).0

    abbrev pub new_node : Item T → Tree R
    new_node item = leaf (created options (create_value (item_ref item))) none

    unfoldable mutual
      -- The child under a key, with the stored child that is there, and all that is below it.
      pub saved_child : Text → ℕ → Option ChainedObject → Tree T → Option (Tree R) → Tree R
      saved_child k level parent (leaf v d) o =
          let item = create_traversal_item k level parent (leaf v d) later in
          written item (found_or (new_node item) o)
      saved_child k level parent (branch v d es) o =
          let item = create_traversal_item k level parent (branch v d es) later in
          saved_below (level + 1) (some (chained k level parent)) es
            (written item (found_or (new_node item) o))

      -- The last child first.
      pub saved_below : ℕ → Option ChainedObject → Entries T → Tree R → Tree R
      saved_below level parent nil u = u
      saved_below level parent (entry k t es) u =
          let u' = saved_below level parent es u in
          put_child u' k (saved_child k level parent t (get_entry (entries_of u') k))
      saved_below level parent (hole k es) u = saved_below level parent es u

    abbrev pub stored : Text → ℕ → Option ChainedObject → Tree T → Option (Tree R) → Tree R
    stored k level parent t o =
        let item = create_traversal_item k level parent t later in found_or (new_node item) o

    pub saved_child-below :
        (k : Text) (level : ℕ) (parent : Option ChainedObject) (t : Tree T) (o : Option (Tree R))
        → saved_child k level parent t o
          ≡ saved_below
              (level + 1)
              (some (chained k level parent))
              (entries_of t)
              (written (create_traversal_item k level parent t later) (stored k level parent t o))
    unfolding saved_child
    saved_child-below k level parent (leaf v d) o = refl
    saved_child-below k level parent (branch v d es) o = refl

    abbrev pub saved_entry :
        ℕ → Option ChainedObject → Text → Option (Tree T) → Option (Tree R) → Option (Tree R)
    saved_entry level parent j none o = o
    saved_entry level parent j (some t) o = some (saved_child j level parent t o)

    -- Each child of the given tree is saved into the stored one.
    pub get_entry-saved_below :
        (level : ℕ) (parent : Option ChainedObject) (es : Entries T) (u : Tree R) (j : Text)
        → DistinctEntries es
        → get_entry (entries_of (saved_below level parent es u)) j
          ≡ saved_entry level parent j (get_entry es j) (get_entry (entries_of u) j)
    unfolding saved_below get_entry
    get_entry-saved_below level parent nil u j d = refl
    get_entry-saved_below level parent (entry k t es) u j d =
        let u' = saved_below level parent es u in
        let own =
          get_entry-saved_below level parent es u k d.2
          ∙ ap (λ (o : Option (Tree T)). saved_entry level parent k o (get_entry (entries_of u) k))
              (absent es k d.0) in
        get_entry-set_entry k j (saved_child k level parent t (get_entry (entries_of u') k))
          (entries_of u')
        ∙ elim (Bool-cases (text_eq k j)) [
          | inl e ↦ rw e (
              ap (λ (o : Option (Tree R)). some (saved_child k level parent t o)) own
              ∙ ap (λ (i : Text). some (saved_child i level parent t (get_entry (entries_of u) i)))
                  ((text_eq_iff k j).0 e))
          | inr e ↦ rw e (get_entry-saved_below level parent es u j d.2)
        ]
    get_entry-saved_below level parent (hole k es) u j d = elim (Bool-cases (text_eq k j)) [
      | inl e ↦ rw e (
          get_entry-saved_below level parent es u j d.1
          ∙ ap (λ (o : Option (Tree T)). saved_entry level parent j o (get_entry (entries_of u) j))
              (ap (get_entry es) (sym ((text_eq_iff k j).0 e)) ∙ absent es k d.0))
      | inr e ↦ rw e (get_entry-saved_below level parent es u j d.1)
    ]

    -- The root keeps its value and its deadline.
    pub root-saved_below :
        (level : ℕ) (parent : Option ChainedObject) (es : Entries T) (u : Tree R)
        → (value_of (saved_below level parent es u) ≡ value_of u)
          × (deadline_of (saved_below level parent es u) ≡ deadline_of u)
    unfolding saved_below
    root-saved_below level parent nil u = (refl, refl)
    root-saved_below level parent (entry k t es) u = root-saved_below level parent es u
    root-saved_below level parent (hole k es) u = root-saved_below level parent es u
