-- ===== src/Cache/FullTreeSet/SavedRun.antt =====
-- A whole run of `saveFullTreeValue` (src/internal/tree-internal-control.ts) on a storage that
-- answers.
use nodejs_proto_cache.Prelude.{
  ℕ, suc, ◌+◌, ◌≡◌, refl, sym, ◌∙◌, ap, true, false, Option, some, List, [], ◌++◌, append-nil,
  arith, inl, inr, Bool-cases, ◌==◌,
}
use nodejs_proto_cache.Keys.{Text, ChainedObject, key_of, level_of, ok}
use nodejs_proto_cache.Keys.Chain.{level_of-chained}
use nodejs_proto_cache.Tree.{Tree, empty_tree, entries_of}
use nodejs_proto_cache.Tree.Paths.{find_tree, value_at}
use nodejs_proto_cache.Graphs.{Item, Run, item_ref, parent_of, start_item, create_traversal_item}
use nodejs_proto_cache.Graphs.Loop.{tree_nodes}
use nodejs_proto_cache.Graphs.Depth.{depth_below, pre_order_depth_first_search-depth_below}
use nodejs_proto_cache.TreeUtils.{found_or, modify}
use nodejs_proto_cache.TreeUtils.Same.{Same, below-found_or}
use nodejs_proto_cache.Cache.{Options, Storage, StepTtl, resume, M, pure, World}
use nodejs_proto_cache.Cache.Laws.{IsReliable, IsCodec, then-ok, reading-get}
use nodejs_proto_cache.Cache.Persist.{persist_tree-found}
use nodejs_proto_cache.Cache.Setting.Trees.{Parses}
use nodejs_proto_cache.Cache.FullTreeSet.{
  FullSetItem, Saving, checked, place_item, start_saving, run_items, save_items,
  save_full_tree_value,
}
use nodejs_proto_cache.Cache.FullTreeSet.Saved.{written, saved_below}
use nodejs_proto_cache.Cache.FullTreeSet.Loop.{saves-placed, unchanged-same, left}
use nodejs_proto_cache.Cache.FullTreeSet.Refines.{Stands}
use nodejs_proto_cache.Cache.FullTreeSet.Rounds.{Saves-depth_below}
use nodejs_proto_cache.Cache.FullTreeSet.Held.{
  parsed, held_value, parse_tree-parsed, held_value-serialized,
}

module _ {T R S : Type 0} (options : Options T R) (storage : Storage S R)
    (create_value : ChainedObject → Option T) (ttl : Option (StepTtl T))
    (given : FullSetItem T R → Option T) (now later : ℕ) where
  abbrev run : ℕ → List (Item T) → Saving R → M S T (Saving R)
  run root_level =
      save_items options storage create_value ttl (λ full. resume (given full)) root_level now

  -- The tree after the first item.
  abbrev pub root_written : ChainedObject → Tree T → Tree R → Tree R
  root_written p tree t =
      written options create_value given now later
        (create_traversal_item (key_of p) (level_of p) (parent_of p) tree later) t

  abbrev pub whole : ChainedObject → Tree T → Tree R → Tree R
  whole p tree t =
      saved_below options create_value given now later (level_of p + 1) (some p) (entries_of tree)
        (root_written p tree t)

  place_item-root :
      (item : Item T) (s : Saving R)
      → place_item {S = S} options storage create_value ttl
          (λ full. resume (given full))
          item.level
          item
          s
        ≡ pure s
  unfolding place_item
  place_item-root item s =
      let here : (item.level == item.level) ≡ true = ground arith in rw (here, place_item) refl

  -- The first item changes the root alone.
  saves-root :
      (p : ChainedObject) (tree : Tree T) (t : Tree R) (w : World S T) (rest : List (Item T))
      → (s : Saving R) × (w' : World S T) × (run
            (level_of p)
            (start_item later tree (some p) ++ rest)
            (start_saving (level_of p) t)
            w
          ≡ run (level_of p) rest s w')
        × (w'.store ≡ w.store)
        × Stands (level_of p) [] (root_written p tree t) s
        × (s.changed ≡ false → root_written p tree t ≡ t)
  unfolding save_items start_item create_traversal_item place_item modify find_tree
  saves-root p tree t w rest =
      let item = create_traversal_item (key_of p) (level_of p) (parent_of p) tree later in
      let s₀ : Saving R = start_saving (level_of p) t in
      let full = left options storage create_value ttl given (level_of p) now later item t in
      let (w', runs, same) =
        saves-placed options storage create_value ttl given (level_of p) now later item s₀ s₀ w
          (place_item-root item s₀) in
      (
        checked options storage create_value ttl (λ f. resume (given f)) full s₀,
        w',
        then-ok _ _ runs refl,
        same,
        record { above = ground arith; there = refl },
        λ h.
            unchanged-same options storage create_value ttl given (level_of p) now later full t
              (ground (arith, h)),
      )

  -- The whole loop: the tree is saved, and what is not marked as changed leads to what it led to.
  saves-whole :
      (p : ChainedObject) (tree : Tree T) (t : Tree R) (w : World S T)
      → (s : Saving R) × (w' : World S T) × (run
            (level_of p)
            (start_item later tree (some p)
              ++ depth_below later (level_of p + 1) (some p) (entries_of tree))
            (start_saving (level_of p) t)
            w
          ≡ (ok s, w'))
        × (w'.store ≡ w.store)
        × (s.tree ≡ whole p tree t)
        × (s.changed ≡ false → Same (whole p tree t) t)
  saves-whole p tree t w =
      let items = depth_below later (level_of p + 1) (some p) (entries_of tree) in
      let (s₁, w₁, runs₁, same₁, stands, kept₁) = saves-root p tree t w items in
      let root = root_written p tree t in
      let (s₂, w₂, runs₂, same₂, tree₂, stack₂, kept₂) =
        Saves-depth_below options storage create_value ttl given (level_of p) now later
          (entries_of tree) (level_of p + 1) (level_of p) (some p) [] root s₁ w₁ (omega arith)
          (omega arith) stands [] in
      (
        s₂,
        w₂,
        runs₁
            ∙ ap (λ (is : List (Item T)). run (level_of p) is s₁ w₁) (sym (append-nil items))
            ∙ runs₂
            ∙ unfold save_items in refl,
        same₂ ∙ same₁,
        tree₂ ∙ unfold modify in refl,
        λ h.
            let (before, alike) = kept₂ h in
            λ seen q. alike seen q ∙ ap (λ (x : Tree R). value_at seen x q) (kept₁ before),
      )

  module _ (lookup : S → Text → Option R) (reliable : IsReliable storage lookup)
      (codec : IsCodec options) where
    -- The run ends with the saved tree under the key.
    pub saves-held :
        (root : Item T) (key : Text) (w : World S T)
        → Parses options (lookup w.store key)
        → let p = item_ref root in
          let t = found_or empty_tree (parsed options (lookup w.store key)) in
          (w' : World S T) × (save_full_tree_value options storage create_value ttl
              (λ full. resume (given full))
              now
              later
              root
              key
              w
            ≡ (ok tt, w'))
          × ((seen : ℕ) (q : List Text)
              → held_value options seen q (lookup w'.store key)
                ≡ value_at seen (whole p root.tree_ref t) q)
    unfolding save_full_tree_value
    saves-held root key w parses =
        let p = item_ref root in
        let tree = root.tree_ref in
        let buffer = lookup w.store key in
        let t = found_or empty_tree (parsed options buffer) in
        let level = level_of-chained root.key root.level root.parent_ref in
        let (s, w₁, runs, same, saved, kept) = saves-whole p tree t w in
        let items =
          start_item later tree (some p)
          ++ depth_below later (level_of p + 1) (some p) (entries_of tree) in
        let searched =
          pre_order_depth_first_search-depth_below later (suc (tree_nodes tree)) tree (some p)
            (omega arith) in
        let loop =
          ap
            (λ (n : ℕ).
              save_items options storage create_value ttl (λ full. resume (given full)) n now items
                (start_saving n t) w)
            (sym level)
          ∙ runs in
        let found = ap (λ (r : Run (Item T)). run_items {S = S} {T = T} r w) searched in
        elim (Bool-cases s.changed) [
          | inl changed ↦
              let (w', persists, held) =
                persist_tree-found options storage lookup reliable key s.max_ttl s.tree w₁ in
              (
                w',
                then-ok _ _ (reading-get storage lookup reliable key w) (
                    then-ok _ _ (parse_tree-parsed options storage buffer w parses)
                      (then-ok _ _ found (then-ok _ _ loop (rw changed persists)))),
                λ seen q.
                    ap (held_value options seen q) held
                    ∙ held_value-serialized options codec s.tree seen q
                    ∙ ap (λ (x : Tree R). value_at seen x q) saved,
              )
          | inr unchanged ↦ (
            w₁,
            then-ok _ _ (reading-get storage lookup reliable key w) (
                then-ok _ _ (parse_tree-parsed options storage buffer w parses)
                  (then-ok _ _ found (then-ok _ _ loop (rw unchanged refl)))),
            λ seen q.
                ap (λ (st : S). held_value options seen q (lookup st key)) same
                ∙ sym (below-found_or seen q (parsed options buffer))
                ∙ sym (kept unchanged seen q),
          )
        ]
