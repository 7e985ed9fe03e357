-- ===== src/Prune/Refines/Body.antt =====
-- The body of the loop of `pruneTree` (src/internal/prune-tree.ts) at a leaf and at a node whose
-- children have been visited.
use nodejs_proto_cache.Prelude.{
  ℕ, ◌+◌, ◌-◌, Bool, true, false, ◌||◌, ◌≡◌, refl, ◌∙◌, ap, Option, none, some, arith, inl, inr,
  Bool-cases,
}
use mathlib.Core.Path.{ap₂}
use nodejs_proto_cache.Keys.{Text, ChainedObject, chained}
use nodejs_proto_cache.Tree.{Tree, Entries, leaf, branch, nil, entry, hole}
use nodejs_proto_cache.Graphs.{Item, create_traversal_item, level_or_zero}
use nodejs_proto_cache.Graphs.PostOrder.Visit.{visit_keyed, visit_children}
use nodejs_proto_cache.Prune.{
  map_get, level_map, PruneState, sweep_children, note_node, is_undefined, prune_step,
}
use nodejs_proto_cache.Prune.Spec.{
  gone, has_child, tree_empty, entries_empty, tree_changed, entries_changed, clean, pruned, kept,
  DistinctEntries,
}
use nodejs_proto_cache.Prune.Sweep.{flags, visited, any_empty, entries_changed-flags}
use nodejs_proto_cache.Prune.Stacks.{
  Ready, noted, lowered, with_map, level_map-Ready, after, after-flags, after-childless,
  sweep_children-Ready, note_node-fresh, sweep_children-flags, note_node-marked,
}

changed_order : (s b e a : Bool) → (e || a) ≡ e → (((s || e) || a) || b) ≡ (s || (b || e))
changed_order s b e a h = ground arith

changed_order' : (s b e a : Bool) → (e || a) ≡ e → (b || ((s || e) || a)) ≡ (s || (b || e))
changed_order' s b e a h = ground arith

module _ {ℓ} {R : Type ℓ} (now : ℕ) where
  childless :
      (es : Entries R)
      → has_child es ≡ false
      → (entries_empty now es ≡ true)
        × (entries_changed now es ≡ false)
        × (visited now es ≡ kept now es)
  unfolding has_child entries_empty entries_changed visited kept
  childless nil h = (refl, refl, refl)
  childless (entry k t es) h = cc
  childless (hole k es) h = let (a, b, c) = childless es h in (a, b, ap (hole k) c)

  pub step_lem :
      (base : ℕ) (s : PruneState) (item : Item R) (c : ℕ)
      → item.level - base + 1 ≡ c
      → prune_step base s item ≡ note_node c item (sweep_children c item.key s item.tree_ref)
  step_lem base s item c h = unfold prune_step in rw h

  -- The body at a node whose children have been visited.
  module _ (s : PruneState) (c : ℕ) (item : Item R) (v : Option R) (d : Option ℕ) (es : Entries R)
      (r : Ready s c) (fresh : map_get (level_map s.stack c) item.key ≡ none)
      (distinct : DistinctEntries es)
      (value : is_undefined item.value ≡ gone now (branch v d es)) where
    abbrev pub Step : PruneState → Type ℓ
    Step s' = note_node c item (sweep_children c item.key s' (branch v d (visited now es))) ≡ (
      noted s c item.key (tree_empty now (branch v d es)) (tree_changed now (branch v d es)),
      pruned now (branch v d es),
    )

    abbrev outcome : Bool → Bool → Tree R → PruneState × Tree R
    outcome e ch t = (record { stack = (noted s c item.key e ch).stack; changed = ch }, t)

    note-fresh :
        (ch : Bool) (t : Tree R)
        → note_node c item (record { stack = lowered s c; changed = ch }, t)
          ≡ outcome
              (gone now (branch v d es))
              (ch || gone now (branch v d es))
              (clean (gone now (branch v d es)) t)
    note-fresh ch t = rw (← value) (
        note_node-fresh now (record { stack = lowered s c; changed = ch }) c item t
          (record { short = omega arith; clear = r.clear }) fresh)

    step-childless : has_child es ≡ false → Step s
    unfolding tree_empty tree_changed pruned
    step-childless h =
        let (empty, changed, same) = childless es h in
        let b = gone now (branch v d es) in
        rw
          (
            sweep_children-Ready now s c item.key (branch v d (visited now es)) r,
            h,
            same,
            note_node-fresh now s c item (branch v d (kept now es)) r fresh,
            value,
            empty,
            changed,
          )
          (ap₂ (λ (e ch : Bool). outcome e (s.changed || ch) (clean b (branch v d (kept now es))))
            (ground arith) (ground arith))

    step-parent :
        has_child es ≡ true → Step (with_map s (c + 1) (flags now es) (entries_changed now es))
    unfolding tree_empty tree_changed pruned
    step-parent h =
        let b = gone now (branch v d es) in
        let ch = entries_changed now es in
        let a = any_empty (flags now es) in
        let order = entries_changed-flags now es in
        elim (Bool-cases (entries_empty now es)) [
          | inl e ↦
              rw (sweep_children-flags now s c item.key v d es ch r distinct, e, h)
                (note-fresh ((s.changed || ch) || a) (leaf v d)
                  ∙ ap₂ (λ (x y : Bool). outcome x y (clean b (leaf v d))) (ground arith)
                      (changed_order s.changed b ch a order))
          | inr e ↦
              rw (sweep_children-flags now s c item.key v d es ch r distinct, e, h)
                (note_node-marked now s c item ((s.changed || ch) || a) (branch v d (kept now es)) r
                    fresh
                  ∙ rw value (
                      ap₂ (λ (x y : Bool). outcome x y (clean b (branch v d (kept now es))))
                        (ground arith) (changed_order' s.changed b ch a order)))
        ]

    pub step-branch : Step (after now s (c + 1) es)
    step-branch = elim (Bool-cases (has_child es)) [
      | inl h ↦ rw (after-flags now s (c + 1) es h, level_map-Ready s c r) (step-parent h)
      | inr h ↦ rw (after-childless now s (c + 1) es h) (step-childless h)
    ]

module _ {ℓ} {R : Type ℓ} (now base : ℕ) (s : PruneState) (c : ℕ) (parent : Option ChainedObject)
    (k : Text) (r : Ready s c) (level : (level_or_zero parent + 1) - base + 1 ≡ c)
    (fresh : map_get (level_map s.stack c) k ≡ none) where
  pub visit-leaf :
      (v : Option R) (d : Option ℕ)
      → visit_keyed (prune_step base) now s parent k (leaf v d) ≡ (
        noted s c k (tree_empty now (leaf v d)) (tree_changed now (leaf v d)),
        pruned now (leaf v d),
      )
  unfolding visit_keyed tree_empty tree_changed pruned gone create_traversal_item
  visit-leaf v d =
      let item = create_traversal_item k (level_or_zero parent + 1) parent (leaf v d) now in
      step_lem now base s item c level
      ∙ rw (sweep_children-Ready now s c k (leaf v d) r)
          (note_node-fresh now s c item (leaf v d) r fresh)

  pub visit-branch :
      (v : Option R) (d : Option ℕ) (es : Entries R)
      → DistinctEntries es
      → visit_children
          (prune_step base)
          now
          s
          (some (chained k (level_or_zero parent + 1) parent))
          es
        ≡ (after now s (c + 1) es, visited now es)
      → visit_keyed (prune_step base) now s parent k (branch v d es) ≡ (
        noted s c k (tree_empty now (branch v d es)) (tree_changed now (branch v d es)),
        pruned now (branch v d es),
      )
  unfolding visit_keyed gone create_traversal_item
  visit-branch v d es distinct below =
      let item = create_traversal_item k (level_or_zero parent + 1) parent (branch v d es) now in
      rw below (
        step_lem now base (after now s (c + 1) es)
          (record item { tree_ref = branch v d (visited now es) }) c level
        ∙ step-branch now s c (record item { tree_ref = branch v d (visited now es) }) v d es r
            fresh distinct refl)
