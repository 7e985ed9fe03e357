-- ===== src/Prune/Refines.antt =====
-- `pruneTree` (src/internal/prune-tree.ts), with its stack of maps, against the recursion on the tree.
pub mod Body
use nodejs_proto_cache.Prelude.{
  ℕ, ◌+◌, ◌-◌, ◌≤◌, Bool, true, false, ◌||◌, ◌≡◌, refl, ◌∙◌, ap, Option, none, some, [], ◌∷◌, ◌++◌,
  arith, inl, inr, Bool-cases,
}
use mathlib.Core.Path.{ap₂}
use nodejs_proto_cache.Keys.{Text, ChainedObject, chained, level_of, key_of, text_eq}
use nodejs_proto_cache.Keys.Chain.{level_of-chained}
use nodejs_proto_cache.Tree.{
  Tree, Entries, leaf, branch, nil, entry, hole, has_property, current_value,
}
use nodejs_proto_cache.Tree.Writes.{text_eq_iff}
use nodejs_proto_cache.Graphs.{Item, create_traversal_item, level_or_zero, parent_of}
use nodejs_proto_cache.Graphs.PostOrder.Visit.{visit_keyed, visit_children, visit_post_order}
use nodejs_proto_cache.Prune.{
  LevelMap, map_get, empty_stack, level_map, PruneState, sweep_children, note_node, is_undefined,
  prune_step, prune_tree,
}
use nodejs_proto_cache.Prune.Spec.{
  gone, has_child, tree_empty, entries_empty, tree_changed, entries_changed, clean, pruned, kept,
  Distinct, DistinctEntries,
}
use nodejs_proto_cache.Prune.Sweep.{flags, visited, any_empty, entries_changed-flags}
use nodejs_proto_cache.Prune.Stacks.{
  Ready, Ready-noted, Ready-suc, noted, lowered, with_map, level_map-with_map, level_map-Ready,
  after, after-flags, after-childless, sweep_children-Ready, note_node-fresh, sweep_children-flags,
  note_node-marked,
}
use nodejs_proto_cache.Prune.Refines.Body.{step_lem, step-branch, visit-leaf, visit-branch}

abbrev pub FreshIn {ℓ} : {R : Type ℓ} → LevelMap → Entries R → Type 0
FreshIn m nil = Unit
FreshIn m (entry k t es) = (map_get m k ≡ none) × FreshIn m es
FreshIn m (hole k es) = FreshIn m es

map_get-snoc :
    (m : LevelMap) (k j : Text) (b : Bool)
    → map_get m j ≡ none
    → text_eq k j ≡ false
    → map_get (m ++ (k, b) ∷ []) j ≡ none
unfolding map_get
map_get-snoc [] k j b h ne = rw ne
map_get-snoc ((i, c) ∷ m) k j b h ne = ground (arith, map_get-snoc m k j b)

FreshIn-snoc {ℓ} :
    {R : Type ℓ} (m : LevelMap) (k : Text) (b : Bool) (es : Entries R)
    → has_property es k ≡ false
    → FreshIn m es
    → FreshIn (m ++ (k, b) ∷ []) es
unfolding has_property
FreshIn-snoc m k b nil h f = tt
FreshIn-snoc m k b (entry j t es) h f = (
  map_get-snoc m k j b (f.0) (ground (arith, text_eq_iff k j, text_eq_iff j k)),
  FreshIn-snoc m k b es (ground arith) f.1,
)
FreshIn-snoc m k b (hole j es) h f = FreshIn-snoc m k b es (ground arith) f

pub FreshIn-nil {ℓ} : {R : Type ℓ} (es : Entries R) → FreshIn [] es
unfolding map_get
FreshIn-nil nil = tt
FreshIn-nil (entry k t es) = (refl, FreshIn-nil es)
FreshIn-nil (hole k es) = FreshIn-nil es

mutual
  unfolding visit_children after visited

  -- A visit leaves the tree pruned and notes the node in the map of its level.
  visit_keyed-noted {ℓ} :
      {R : Type ℓ} (now base : ℕ) (t : Tree R) (s : PruneState) (c : ℕ)
      (parent : Option ChainedObject) (k : Text)
      → Ready s c
      → base ≤ level_or_zero parent
      → (level_or_zero parent + 1) - base + 1 ≡ c
      → map_get (level_map s.stack c) k ≡ none
      → Distinct t
      → visit_keyed (prune_step base) now s parent k t
        ≡ (noted s c k (tree_empty now t) (tree_changed now t), pruned now t)
  visit_keyed-noted now base (leaf v d) s c parent k r le level fresh distinct =
      visit-leaf now base s c parent k r level fresh v d
  visit_keyed-noted now base (branch v d es) s c parent k r le level fresh distinct =
      let own = chained k (level_or_zero parent + 1) parent in
      let own_level = level_of-chained k (level_or_zero parent + 1) parent in
      visit-branch now base s c parent k r level fresh v d es distinct (
        visit_children-after now base es s (c + 1) (some own) (Ready-suc s c r) (omega arith)
          (omega arith) (rw (level_map-Ready s c r) (FreshIn-nil es)) distinct)

  pub visit_children-after {ℓ} :
      {R : Type ℓ} (now base : ℕ) (es : Entries R) (s : PruneState) (c : ℕ)
      (parent : Option ChainedObject)
      → Ready s c
      → base ≤ level_or_zero parent
      → (level_or_zero parent + 1) - base + 1 ≡ c
      → FreshIn (level_map s.stack c) es
      → DistinctEntries es
      → visit_children (prune_step base) now s parent es ≡ (after now s c es, visited now es)
  visit_children-after now base nil s c parent r le level fresh distinct = refl
  visit_children-after now base (entry k t es) s c parent r le level fresh distinct =
      let e = tree_empty now t in
      let ch = tree_changed now t in
      let m = level_map s.stack c in
      rw (
        visit_keyed-noted now base t s c parent k r le level fresh.0 distinct.1,
        visit_children-after now base es (noted s c k e ch) c parent (Ready-noted s c k e ch r) le
            level
            (rw (level_map-with_map s c (m ++ (k, e) ∷ []) ch)
              (FreshIn-snoc m k e es distinct.0 fresh.1))
            distinct.2,
      )
  visit_children-after now base (hole k es) s c parent r le level fresh distinct =
      rw (visit_children-after now base es s c parent r le level fresh distinct.1)

pub Ready-empty : (c : ℕ) → Ready (record { stack = empty_stack; changed = false }) c
Ready-empty c = record { short = omega arith; clear = λ i h. refl }

abbrev pub start : PruneState
start = record { stack = empty_stack; changed = false }

visit_post_order-noted {ℓ} :
    {R : Type ℓ} (now : ℕ) (tree : Tree R) (p : ChainedObject)
    → Distinct tree
    → visit_post_order (prune_step (level_of p)) now start tree (some p)
      ≡ (noted start 1 (key_of p) (tree_empty now tree) (tree_changed now tree), pruned now tree)
unfolding visit_post_order gone create_traversal_item current_value tree_empty tree_changed pruned
    map_get
visit_post_order-noted now (leaf v d) p distinct =
    let item = create_traversal_item (key_of p) (level_of p) (parent_of p) (leaf v d) now in
    step_lem now (level_of p) start item 1 (omega arith)
    ∙ rw (sweep_children-Ready now start 1 (key_of p) (leaf v d) (Ready-empty 1))
        (note_node-fresh now start 1 item (leaf v d) (Ready-empty 1) refl)
visit_post_order-noted now (branch v d es) p distinct =
    let tree' = branch v d (visited now es) in
    let item = create_traversal_item (key_of p) (level_of p) (parent_of p) tree' now in
    rw
      (visit_children-after now (level_of p) es start 2 (some p) (Ready-empty 2) (omega arith)
        (omega arith) (FreshIn-nil es) distinct)
      (step_lem now (level_of p) (after now start 2 es) item 1 (omega arith)
        ∙ step-branch now start 1 item v d es (Ready-empty 1) refl distinct refl)

-- Started below a node, the loop with its stack of maps prunes the tree: it leaves what the
-- recursion on the tree describes, and reports a change exactly if some node had no live value.
-- The properties of each children object are distinct, and the node's key is not read.
pub prune_tree-pruned {ℓ} :
    {R : Type ℓ} (now : ℕ) (tree : Tree R) (p : ChainedObject)
    → Distinct tree
    → prune_tree now tree (some p) ≡ (tree_changed now tree, pruned now tree)
unfolding prune_tree
prune_tree-pruned now tree p distinct =
    ap (λ (w : PruneState × Tree _). (w.0.changed, w.1))
      (visit_post_order-noted now tree p distinct)
