-- ===== src/Tree/Paths.antt =====
-- The subtree and the current value that a path of keys leads to in a tree of
-- src/types/tree-type.ts.
use nodejs_proto_cache.Prelude.{ℕ, Option, none, some, List, [], ◌∷◌}
use nodejs_proto_cache.Keys.{Text}
use nodejs_proto_cache.Tree.{Tree, entries_of, get_entry, current_value}

module _ {ℓ} {R : Type ℓ} where
  unfoldable pub find_tree : Tree R → List Text → Option (Tree R)
  find_tree t [] = some t
  find_tree t (k ∷ path) = elim (get_entry (entries_of t) k) [
    | none ↦ none
    | some u ↦ find_tree u path
  ]

  unfoldable pub value_at : ℕ → Tree R → List Text → Option R
  value_at now t [] = current_value t now
  value_at now t (k ∷ path) = elim (get_entry (entries_of t) k) [
    | none ↦ none
    | some u ↦ value_at now u path
  ]
