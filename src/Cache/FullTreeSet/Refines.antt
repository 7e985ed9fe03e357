-- ===== src/Cache/FullTreeSet/Refines.antt =====
-- The rounds of the loop of `saveFullTreeValue` (src/internal/tree-internal-control.ts) against the
-- recursion on the tree that is set.
use nodejs_proto_cache.Prelude.{
  ℕ, suc, ◌≤◌, ◌≡◌, refl, sym, ◌∙◌, ap, Bool, false, ◌||◌, Option, none, some, List, [], ◌∷◌, ◌++◌,
  arith,
}
use nodejs_proto_cache.Keys.{Text, ChainedObject, ok}
use nodejs_proto_cache.Tree.{Tree, leaf, empty_tree, entries_of, get_entry}
use nodejs_proto_cache.Tree.Paths.{find_tree, value_at}
use nodejs_proto_cache.Graphs.{Item, item_ref}
use nodejs_proto_cache.TreeUtils.{found_or, put_child, modify}
use nodejs_proto_cache.TreeUtils.Modifying.{
  modify-modify, modify-append, modify-found, modify-put_child, find_tree-modify, find_tree-snoc,
}
use nodejs_proto_cache.TreeUtils.Setting.{find_tree-put_child}
use nodejs_proto_cache.TreeUtils.Same.{Same}
use nodejs_proto_cache.Cache.{Options, Storage, StepTtl, resume, M, World}
use nodejs_proto_cache.Cache.FullTreeSet.{
  FullSetItem, FullConsumer, Saving, set_level, node_at, created, is_some, ensure_child,
  check_full_set_item_change, place_below, checked, save_item, save_items,
}
use nodejs_proto_cache.Cache.FullTreeSet.Saved.{written, new_node}
use nodejs_proto_cache.Cache.FullTreeSet.Loop.{saves-placed, place_item-below, unchanged-same, left}

module _ {R : Type 0} where
  -- The reference of level `l` leads to `u`.
  pub record Stands (l : ℕ) (ref : List Text) (u : Tree R) (s : Saving R) : Type 0 where
    pub above : s.stack l ≡ some ref
    pub there : find_tree s.tree ref ≡ some u

module _ {T R S : Type 0} (options : Options T R) (storage : Storage S R)
    (create_value : ChainedObject → Option T) (ttl : Option (StepTtl T))
    (given : FullSetItem T R → Option T) (root_level now later : ℕ) where
  abbrev consumer : FullConsumer T R
  consumer full = resume (given full)

  abbrev one : Item T → Saving R → M S T (Saving R)
  one = save_item options storage create_value ttl consumer root_level now

  abbrev run : List (Item T) → Saving R → M S T (Saving R)
  run = save_items options storage create_value ttl consumer root_level now

  abbrev write : Item T → Tree R → Tree R
  write = written options create_value given now later

  abbrev child_or_new : Tree R → Item T → Tree R
  child_or_new u item =
      found_or (new_node options create_value given now later item)
        (get_entry (entries_of u) item.key)

  below_placed : Item T → List Text → Saving R → Saving R
  below_placed = place_below options storage create_value ttl consumer

  -- The node that was placed.
  node-placed :
      (item : Item T) (ref : List Text) (u : Tree R) (s : Saving R)
      → find_tree s.tree ref ≡ some u
      → let s₁ = below_placed item ref s in node_at s₁.tree s₁.current ≡ child_or_new u item
  unfolding below_placed place_below find_tree
  node-placed item ref u s there =
      let value = created options (create_value (item_ref item)) in
      let f = ensure_child options item.key value in
      ap (found_or empty_tree) (
        find_tree-snoc ref item.key (modify ref f s.tree) (f u)
          (find_tree-modify ref f s.tree u there)
        ∙ find_tree-put_child u item.key (child_or_new u item) [])

  -- What the round leaves of the tree.
  tree-checked :
      (item : Item T) (full : FullSetItem T R) (ref : List Text) (u : Tree R) (s : Saving R)
      → find_tree s.tree ref ≡ some u
      → (checked options storage create_value ttl consumer full (below_placed item ref s)).tree
        ≡ modify ref
            (λ x.
              put_child u item.key
                (check_full_set_item_change options full (child_or_new u item)).0)
            s.tree
  unfolding below_placed place_below
  tree-checked item full ref u s there =
      let value = created options (create_value (item_ref item)) in
      let f = ensure_child options item.key value in
      let g : Tree R → Tree R = λ t. (check_full_set_item_change options full t).0 in
      modify-append ref (item.key ∷ []) g (modify ref f s.tree)
      ∙ modify-modify ref (modify (item.key ∷ []) g) f s.tree
      ∙ modify-found ref (λ t. modify (item.key ∷ []) g (f t))
          (λ x. put_child u item.key (g (child_or_new u item))) s.tree u there
          (modify-put_child item.key [] g u (child_or_new u item) ∙ unfold modify in refl)

  settled :
      (o : Option (Tree R)) (value : Option R) (b : Bool)
      → elim o [ some t ↦ b | none ↦ b || is_some options value ] ≡ false
      → (b ≡ false) × (found_or (leaf value none) o ≡ found_or empty_tree o)
  settled (some t) value b h = (h, refl)
  settled none none b h = (ground arith, refl)
  settled none (some r) b h = absurd (ground (arith, h))

  -- A round that changes nothing leaves a child that leads to what it led to before.
  round-unchanged :
      (item : Item T) (ref : List Text) (u : Tree R) (s : Saving R)
      → find_tree s.tree ref ≡ some u
      → let s₁ = below_placed item ref s in
        let full =
          left options storage create_value ttl given root_level now later item
            (node_at s₁.tree s₁.current) in
        (checked options storage create_value ttl consumer full s₁).changed ≡ false
        → (s.changed ≡ false)
          × Same
              (write item (child_or_new u item))
              (found_or empty_tree (get_entry (entries_of u) item.key))
  unfolding below_placed place_below
  round-unchanged item ref u s there h =
      let value = created options (create_value (item_ref item)) in
      let c = child_or_new u item in
      let s₁ = below_placed item ref s in
      let at = node-placed item ref u s there in
      let full = left options storage create_value ttl given root_level now later item in
      let kept : (check_full_set_item_change options (full c) c).1 ≡ false =
        ap (λ (x : Tree R). (check_full_set_item_change options (full x) x).1) (sym at)
        ∙ ground (arith, h) in
      let o = get_entry (entries_of (node_at s.tree ref)) item.key in
      let (before, same) = settled o value s.changed (ground (arith, h)) in
      let here : o ≡ get_entry (entries_of u) item.key =
        ap (λ (x : Option (Tree R)). get_entry (entries_of (found_or empty_tree x)) item.key)
          there in
      (
        before,
        λ seen q.
            ap (λ (x : Tree R). value_at seen x q)
              (unchanged-same options storage create_value ttl given root_level now later (full c) c
                  kept
                ∙ ap (found_or (leaf value none)) (sym here)
                ∙ same
                ∙ ap (found_or empty_tree) here),
      )

  -- One round: the child is there with what the consumer leaves of it, and its reference stands on
  -- the stack.
  pub saves-item :
      (item : Item T) (l : ℕ) (ref : List Text) (u : Tree R) (s : Saving R) (w : World S T)
      → item.level ≡ suc l
      → root_level ≤ l
      → Stands l ref u s
      → (s' : Saving R) × (w' : World S T) × (one item s w ≡ (ok s', w'))
        × (w'.store ≡ w.store)
        × (s'.tree
            ≡ modify ref (λ x. put_child u item.key (write item (child_or_new u item))) s.tree)
        × ((j : ℕ) → s'.stack j ≡ set_level s.stack item.level (ref ++ item.key ∷ []) j)
        × (s'.changed ≡ false
            → (s.changed ≡ false)
              × Same
                  (write item (child_or_new u item))
                  (found_or empty_tree (get_entry (entries_of u) item.key)))
  saves-item item l ref u s w level deep stands =
      let s₁ = below_placed item ref s in
      let at = node-placed item ref u s stands.there in
      let full = left options storage create_value ttl given root_level now later item in
      let (w', runs, same) =
        saves-placed options storage create_value ttl given root_level now later item s s₁ w (
          place_item-below options storage create_value ttl given root_level now later item l ref s
            level deep stands.above
          ∙ unfold below_placed in refl) in
      (
        checked options storage create_value ttl consumer (full (node_at s₁.tree s₁.current)) s₁,
        w',
        runs,
        same,
        tree-checked item (full (node_at s₁.tree s₁.current)) ref u s stands.there
            ∙ ap
                (λ (x : Tree R).
                  modify ref
                    (λ y.
                      put_child u item.key
                        (check_full_set_item_change options (full x) (child_or_new u item)).0)
                    s.tree)
                at,
        λ j. unfold below_placed place_below in refl,
        round-unchanged item ref u s stands.there,
      )
