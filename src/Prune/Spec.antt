-- ===== src/Prune/Spec.antt =====
-- What pruning should do to a tree, by recursion on the tree and without the stack of maps of
-- src/internal/prune-tree.ts.
use nodejs_proto_cache.Prelude.{ℕ, Bool, true, false, ◌&&◌, ◌||◌, ◌≡◌, none, if◌then◌else◌}
use nodejs_proto_cache.Tree.{
  Tree, Entries, leaf, branch, nil, entry, hole, has_property, current_value, with_value,
}
use nodejs_proto_cache.Prune.{is_undefined}

module _ {ℓ} {R : Type ℓ} where
  -- The node has no value, or one that has expired.
  unfoldable pub gone : ℕ → Tree R → Bool
  gone now t = is_undefined (current_value t now)

  unfoldable pub has_child : Entries R → Bool
  has_child nil = false
  has_child (entry k t es) = true
  has_child (hole k es) = has_child es

  -- Writes the values of a node that keeps or loses its own.
  unfoldable pub clean : Bool → Tree R → Tree R
  clean b t = if b then with_value t none none else t

unfoldable mutual
  -- Neither the node nor any below it has a value.
  pub tree_empty {ℓ} : {R : Type ℓ} → ℕ → Tree R → Bool
  tree_empty now (leaf v d) = gone now (leaf v d)
  tree_empty now (branch v d es) = gone now (branch v d es) && entries_empty now es

  pub entries_empty {ℓ} : {R : Type ℓ} → ℕ → Entries R → Bool
  entries_empty now nil = true
  entries_empty now (entry k t es) = tree_empty now t && entries_empty now es
  entries_empty now (hole k es) = entries_empty now es

unfoldable mutual
  -- The node or one below it has no value.
  pub tree_changed {ℓ} : {R : Type ℓ} → ℕ → Tree R → Bool
  tree_changed now (leaf v d) = gone now (leaf v d)
  tree_changed now (branch v d es) = gone now (branch v d es) || entries_changed now es

  pub entries_changed {ℓ} : {R : Type ℓ} → ℕ → Entries R → Bool
  entries_changed now nil = false
  entries_changed now (entry k t es) = tree_changed now t || entries_changed now es
  entries_changed now (hole k es) = entries_changed now es

unfoldable mutual
  -- Expired values go, and so do the children that hold no value at any depth; a children object
  -- whose children have all gone goes with them.
  pub pruned {ℓ} : {R : Type ℓ} → ℕ → Tree R → Tree R
  pruned now (leaf v d) = clean (gone now (leaf v d)) (leaf v d)
  pruned now (branch v d es) =
      clean (gone now (branch v d es))
        (if has_child es && entries_empty now es then leaf v d else branch v d (kept now es))

  pub kept {ℓ} : {R : Type ℓ} → ℕ → Entries R → Entries R
  kept now nil = nil
  kept now (entry k t es) =
      let rest = kept now es in
      let t' = pruned now t in if tree_empty now t then hole k rest else entry k t' rest
  kept now (hole k es) = hole k (kept now es)

-- Every children object has each property once, as a JavaScript object does.
abbrev mutual
  pub Distinct {ℓ} : {R : Type ℓ} → Tree R → Type 0
  Distinct (leaf v d) = Unit
  Distinct (branch v d es) = DistinctEntries es

  pub DistinctEntries {ℓ} : {R : Type ℓ} → Entries R → Type 0
  DistinctEntries nil = Unit
  DistinctEntries (entry k t es) = (has_property es k ≡ false) × Distinct t × DistinctEntries es
  DistinctEntries (hole k es) = (has_property es k ≡ false) × DistinctEntries es
