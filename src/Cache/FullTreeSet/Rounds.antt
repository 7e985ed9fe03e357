-- ===== src/Cache/FullTreeSet/Rounds.antt =====
-- All rounds of the loop of `saveFullTreeValue` (src/internal/tree-internal-control.ts), in the order
-- of the depth first search over the tree that is set.
use nodejs_proto_cache.Prelude.{
  ℕ, suc, ◌+◌, ◌≤◌, ◌≡◌, refl, sym, ◌∙◌, ap, false, Option, some, List, [], ◌∷◌, ◌++◌, append_assoc,
  arith,
}
use nodejs_proto_cache.Keys.{Text, ChainedObject, chained, ok}
use nodejs_proto_cache.Tree.{
  Tree, Entries, leaf, branch, nil, entry, hole, empty_tree, entries_of, get_entry,
}
use nodejs_proto_cache.Tree.Paths.{find_tree}
use nodejs_proto_cache.Graphs.{Item, create_traversal_item}
use nodejs_proto_cache.Graphs.Depth.{depth_order, depth_below}
use nodejs_proto_cache.TreeUtils.{found_or, put_child, modify}
use nodejs_proto_cache.TreeUtils.Modifying.{
  modify-modify, modify-append, modify-same, modify-found, modify-put_child_const, find_tree-modify,
  find_tree-snoc,
}
use nodejs_proto_cache.TreeUtils.Setting.{find_tree-put_child}
use nodejs_proto_cache.TreeUtils.Same.{Same, Same-put_child}
use nodejs_proto_cache.Cache.{Options, Storage, StepTtl, resume, M, World}
use nodejs_proto_cache.Cache.Laws.{then-ok}
use nodejs_proto_cache.Cache.FullTreeSet.{FullSetItem, Saving, save_item, save_items}
use nodejs_proto_cache.Cache.FullTreeSet.Saved.{written, new_node, saved_child, saved_below}
use nodejs_proto_cache.Cache.FullTreeSet.Refines.{Stands, saves-item}

module _ {T R S : Type 0} (options : Options T R) (storage : Storage S R)
    (create_value : ChainedObject → Option T) (ttl : Option (StepTtl T))
    (given : FullSetItem T R → Option T) (root_level now later : ℕ) where
  abbrev run : List (Item T) → Saving R → M S T (Saving R)
  run = save_items options storage create_value ttl (λ full. resume (given full)) root_level now

  abbrev below : ℕ → Option ChainedObject → Entries T → Tree R → Tree R
  below = saved_below options create_value given now later

  abbrev child : Text → ℕ → Option ChainedObject → Tree T → Option (Tree R) → Tree R
  child = saved_child options create_value given now later

  abbrev pub node_left : Item T → Tree R → Tree R
  node_left item u = written options create_value given now later item (
      found_or (new_node options create_value given now later item)
        (get_entry (entries_of u) item.key))

  -- The items are taken, and leave `u'` where `u` was: the references of the levels above stay,
  -- and if nothing is marked as changed then `u'` leads to what `u` led to.
  abbrev pub Saves : List (Item T) → ℕ → List Text → Tree R → Tree R → Saving R → World S T → Type 0
  Saves items l ref u u' s w =
      (rest : List (Item T))
      → (s' : Saving R) × (w' : World S T) × (run (items ++ rest) s w ≡ run rest s' w')
        × (w'.store ≡ w.store)
        × (s'.tree ≡ modify ref (λ x. u') s.tree)
        × ((j : ℕ) → j ≤ l → s'.stack j ≡ s.stack j)
        × (s'.changed ≡ false → (s.changed ≡ false) × Same u' u)

  Stands-saved :
      (l : ℕ) (ref : List Text) (u u' : Tree R) (s s' : Saving R)
      → Stands l ref u s
      → s'.tree ≡ modify ref (λ x. u') s.tree
      → s'.stack l ≡ s.stack l
      → Stands l ref u' s'
  Stands-saved l ref u u' s s' stands tree stack = record {
    above = stack ∙ stands.above;
    there =
        ap (λ (x : Tree R). find_tree x ref) tree
        ∙ find_tree-modify ref (λ x. u') s.tree u stands.there;
  }

  -- The first item of a list, then the rest.
  run-item :
      (item : Item T) (rest : List (Item T)) (s s' : Saving R) (w w' : World S T)
      → save_item options storage create_value ttl
          (λ full. resume (given full))
          root_level
          now
          item
          s
          w
        ≡ (ok s', w')
      → run (item ∷ rest) s w ≡ run rest s' w'
  unfolding save_items
  run-item item rest s s' w w' e = then-ok _ _ e refl

  -- The item of a node alone.
  Saves-item :
      (k : Text) (level l : ℕ) (parent : Option ChainedObject) (t : Tree T) (ref : List Text)
      (u : Tree R) (s : Saving R) (w : World S T)
      → level ≡ suc l
      → root_level ≤ l
      → Stands l ref u s
      → let item = create_traversal_item k level parent t later in
        (rest : List (Item T))
        → (s' : Saving R) × (w' : World S T) × (run (item ∷ rest) s w ≡ run rest s' w')
          × (w'.store ≡ w.store)
          × (s'.tree ≡ modify ref (λ x. put_child u k (node_left item u)) s.tree)
          × ((j : ℕ) → j ≤ l → s'.stack j ≡ s.stack j)
          × Stands level (ref ++ k ∷ []) (node_left item u) s'
          × (s'.changed ≡ false
              → (s.changed ≡ false)
                × Same (node_left item u) (found_or empty_tree (get_entry (entries_of u) k)))
  unfolding create_traversal_item
  Saves-item k level l parent t ref u s w e deep stands rest =
      let item = create_traversal_item k level parent t later in
      let (s', w', runs, same, tree, stack, kept) =
        saves-item options storage create_value ttl given root_level now later item l ref u s w e
          deep stands in
      let c = node_left item u in
      (
        s',
        w',
        run-item item rest s s' w w' runs,
        same,
        tree,
        λ j low. stack j ∙ ground (arith, e, low),
        record {
          above = stack level ∙ ground arith;
          there =
              ap (λ (x : Tree R). find_tree x (ref ++ k ∷ [])) tree
              ∙ find_tree-snoc ref k (modify ref (λ x. put_child u k c) s.tree) (put_child u k c)
                  (find_tree-modify ref (λ x. put_child u k c) s.tree u stands.there)
              ∙ find_tree-put_child u k c []
              ∙ unfold find_tree in refl;
        },
        kept,
      )

  mutual
    unfolding depth_order depth_below saved_child saved_below create_traversal_item

    Saves-depth_order :
        (t : Tree T) (k : Text) (level l : ℕ) (parent : Option ChainedObject) (ref : List Text)
        (u : Tree R) (s : Saving R) (w : World S T)
        → level ≡ suc l
        → root_level ≤ l
        → Stands l ref u s
        → Saves
            (depth_order later k level parent t)
            l
            ref
            u
            (put_child u k (child k level parent t (get_entry (entries_of u) k)))
            s
            w
    Saves-depth_order (leaf v d) k level l parent ref u s w e deep stands rest =
        let (s', w', runs, same, tree, stack, here, kept) =
          Saves-item k level l parent (leaf v d) ref u s w e deep stands rest in
        (
          s',
          w',
          runs,
          same,
          tree,
          stack,
          λ h. let (before, alike) = kept h in (before, Same-put_child u _ k _ refl alike),
        )
    Saves-depth_order (branch v d es) k level l parent ref u s w e deep stands rest =
        let own = some (chained k level parent) in
        let item = create_traversal_item k level parent (branch v d es) later in
        let c = node_left item u in
        let c' = below (level + 1) own es c in
        let deeper = depth_below later (level + 1) own es in
        let (s₁, w₁, runs₁, same₁, tree₁, stack₁, here, kept₁) =
          Saves-item k level l parent (branch v d es) ref u s w e deep stands (deeper ++ rest) in
        let (s₂, w₂, runs₂, same₂, tree₂, stack₂, kept₂) =
          Saves-depth_below es (level + 1) level own (ref ++ k ∷ []) c s₁ w₁ (omega arith)
            (omega arith) here rest in
        let tree : s₂.tree ≡ modify ref (λ x. put_child u k c') s.tree =
          tree₂
          ∙ modify-append ref (k ∷ []) (λ x. c') s₁.tree
          ∙ ap (modify ref (modify (k ∷ []) (λ x. c'))) tree₁
          ∙ modify-modify ref (modify (k ∷ []) (λ x. c')) (λ x. put_child u k c) s.tree
          ∙ ap (λ (x : Tree R). modify ref (λ y. x) s.tree) (modify-put_child_const k u c c') in
        (
          s₂,
          w₂,
          runs₁ ∙ runs₂,
          same₂ ∙ same₁,
          tree,
          λ j low. stack₂ j (omega arith) ∙ stack₁ j low,
          λ h.
              let (between, alike₂) = kept₂ h in
              let (before, alike₁) = kept₁ between in
              (
                before,
                Same-put_child u c' k (get_entry (entries_of u) k) refl
                    (λ seen q. alike₂ seen q ∙ alike₁ seen q),
              ),
        )

    pub Saves-depth_below :
        (es : Entries T) (level l : ℕ) (parent : Option ChainedObject) (ref : List Text)
        (u : Tree R) (s : Saving R) (w : World S T)
        → level ≡ suc l
        → root_level ≤ l
        → Stands l ref u s
        → Saves (depth_below later level parent es) l ref u (below level parent es u) s w
    Saves-depth_below nil level l parent ref u s w e deep stands rest = (
      s,
      w,
      refl,
      refl,
      sym (modify-found ref (λ x. u) (λ x. x) s.tree u stands.there refl ∙ modify-same ref s.tree),
      λ j low. refl,
      λ h. (h, λ seen q. refl),
    )
    Saves-depth_below (entry k t es) level l parent ref u s w e deep stands rest =
        let front = depth_order later k level parent t in
        let u₁ = below level parent es u in
        let u₂ = put_child u₁ k (child k level parent t (get_entry (entries_of u₁) k)) in
        let (s₁, w₁, runs₁, same₁, tree₁, stack₁, kept₁) =
          Saves-depth_below es level l parent ref u s w e deep stands (front ++ rest) in
        let (s₂, w₂, runs₂, same₂, tree₂, stack₂, kept₂) =
          Saves-depth_order t k level l parent ref u₁ s₁ w₁ e deep
            (Stands-saved l ref u u₁ s s₁ stands tree₁ (stack₁ l (omega arith))) rest in
        (
          s₂,
          w₂,
          ap (λ (items : List (Item T)). run items s w)
                (append_assoc (depth_below later level parent es) front rest)
              ∙ runs₁
              ∙ runs₂,
          same₂ ∙ same₁,
          tree₂ ∙ ap (modify ref (λ x. u₂)) tree₁ ∙ modify-modify ref (λ x. u₂) (λ x. u₁) s.tree,
          λ j low. stack₂ j low ∙ stack₁ j low,
          λ h.
              let (between, alike₂) = kept₂ h in
              let (before, alike₁) = kept₁ between in
              (before, λ seen q. alike₂ seen q ∙ alike₁ seen q),
        )
    Saves-depth_below (hole k es) level l parent ref u s w e deep stands rest =
        Saves-depth_below es level l parent ref u s w e deep stands rest
