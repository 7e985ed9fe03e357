-- ===== src/Graphs/PostOrder/Visit.antt =====
-- A `for … of` loop over the depth first post order whose body changes the tree that it is given
-- (src/utils/graphs/tree-post-order-traversal.ts as src/internal/prune-tree.ts uses it). The
-- generator waits while the body runs, so a node is changed after all that lie below it, and its
-- parent holds the changed node. `value` of an item is read before its children are visited.
use nodejs_proto_cache.Prelude.{ℕ, ◌+◌, Option, none, some}
use nodejs_proto_cache.Keys.{Text, ChainedObject, key_of, level_of}
use nodejs_proto_cache.Tree.{Tree, Entries, leaf, branch, nil, entry, hole}
use nodejs_proto_cache.Graphs.{Item, item_ref, create_traversal_item, level_or_zero, parent_of}

-- The body of a loop with state `S`: the new state, and the item's tree as it leaves it.
abbrev pub Body {ℓ κ} : Type ℓ → Type κ → Type (ℓ ⊔ κ)
Body S R = S → Item R → S × Tree R

unfoldable mutual
  pub visit_keyed {ℓ κ} :
      {S : Type ℓ} {R : Type κ}
      → Body S R
      → ℕ
      → S
      → Option ChainedObject
      → Text
      → Tree R
      → S × Tree R
  visit_keyed body now s parent k (leaf v d) =
      body s (create_traversal_item k (level_or_zero parent + 1) parent (leaf v d) now)
  visit_keyed body now s parent k (branch v d es) =
      let own = create_traversal_item k (level_or_zero parent + 1) parent (branch v d es) now in
      let (s', es') = visit_children body now s (some (item_ref own)) es in
      body s' (record own { tree_ref = branch v d es' })

  pub visit_children {ℓ κ} :
      {S : Type ℓ} {R : Type κ}
      → Body S R
      → ℕ
      → S
      → Option ChainedObject
      → Entries R
      → S × Entries R
  visit_children body now s parent nil = (s, nil)
  visit_children body now s parent (entry k t es) =
      let (s₁, t') = visit_keyed body now s parent k t in
      let (s₂, es') = visit_children body now s₁ parent es in (s₂, entry k t' es')
  visit_children body now s parent (hole k es) =
      let (s', es') = visit_children body now s parent es in (s', hole k es')

module _ {ℓ κ} {S : Type ℓ} {R : Type κ} (body : Body S R) (now : ℕ) where
  abbrev pub visit_below : S → Tree R → Option ChainedObject → S × Tree R
  visit_below s (leaf v d) root = (s, leaf v d)
  visit_below s (branch v d es) root =
      let (s', es') = visit_children body now s root es in (s', branch v d es')

  -- The whole loop: the last item is the root, if there is a node to start from.
  unfoldable pub visit_post_order : S → Tree R → Option ChainedObject → S × Tree R
  visit_post_order s tree none = visit_below s tree none
  visit_post_order s tree (some p) =
      let (s', tree') = visit_below s tree (some p) in
      body s' (create_traversal_item (key_of p) (level_of p) (parent_of p) tree' now)
