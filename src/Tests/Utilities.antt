-- ===== src/Tests/Utilities.antt =====
-- Runs of the utilities on trees in memory, src/utils/deep-tree-set.ts and
-- src/utils/deserialize-whole-tree.ts.
use nodejs_proto_cache.Prelude.{
  ℕ, ◌+◌, ◌≡◌, refl, none, some, List, [], ◌∷◌, arith, get_elem?, length, ltb,
}
use nodejs_proto_cache.Keys.{Text, text_eq}
use nodejs_proto_cache.Keys.Chain.{path_of}
use nodejs_proto_cache.Tree.{Tree, leaf, branch, nil, entry, value_of, current_value, has_property}
use nodejs_proto_cache.Tree.Paths.{find_tree, value_at}
use nodejs_proto_cache.Graphs.Loop.{tree_nodes}
use nodejs_proto_cache.Prune.Spec.{Distinct}
use nodejs_proto_cache.Cache.{Step}
use nodejs_proto_cache.TreeUtils.{
  goes_on, leaves, deep_tree_set_in_memory, gave, deserialize_whole_tree,
}
use nodejs_proto_cache.TreeUtils.Setting.{deep_tree_set_in_memory-find_tree}
use nodejs_proto_cache.TreeUtils.Frame.{deep_tree_set_in_memory-value_at}
use nodejs_proto_cache.TreeUtils.Rebuilding.{read_value}
use nodejs_proto_cache.TreeUtils.Whole.{deserialize_whole_tree-value_at}

abbrev a : Text
a = b'a' ∷ []

abbrev b : Text
b = b'b' ∷ []

-- A value that expires at 5, and a node without a value.
abbrev sample : Tree ℕ
sample = branch (some 4) none (
    entry a (leaf (some 1) (some 5))
      (entry b (branch none none (entry a (leaf (some 2) none) nil)) nil))

sample-Distinct : Distinct sample
unfolding has_property text_eq
sample-Distinct = (refl, tt, (refl, (refl, tt, tt), tt))

-- The consumer leaves its level in each step.
abbrev levels_run : List (Step ℕ) × Tree ℕ
levels_run =
    deep_tree_set_in_memory (λ level. none) (λ s. goes_on (some s.level)) sample (b ∷ b ∷ a ∷ [])

deep_tree_set_in_memory-find_tree_example :
    (s : Step ℕ) × (u : Tree ℕ) × (length levels_run.0 ≡ 3)
    × (get_elem? levels_run.0 1 ≡ some s)
    × (s.key ≡ b)
    × (s.level ≡ 2)
    × (path_of s.node_ref ≡ b ∷ b ∷ [])
    × (find_tree levels_run.1 (b ∷ b ∷ []) ≡ some u)
    × (value_of u ≡ some s.level)
deep_tree_set_in_memory-find_tree_example =
    deep_tree_set_in_memory-find_tree (λ level. none) (λ s. some s.level) sample (b ∷ []) (a ∷ []) b

-- The consumer leaves at the first step.
abbrev short_run : List (Step ℕ) × Tree ℕ
short_run =
    deep_tree_set_in_memory (λ level. some level) (λ s. leaves (some 7)) sample (b ∷ b ∷ a ∷ [])

deep_tree_set_in_memory-value_at_example :
    (value_at 9 short_run.1 (b ∷ a ∷ []) ≡ value_at 9 sample (b ∷ a ∷ []))
    × (current_value short_run.1 9 ≡ current_value sample 9)
unfolding text_eq
deep_tree_set_in_memory-value_at_example =
    deep_tree_set_in_memory-value_at 9 (λ level. some level) (λ s. leaves (some 7)) sample
      (b ∷ b ∷ a ∷ []) (b ∷ a ∷ []) refl

deserialize_whole_tree-value_at_example :
    (tree' : Tree ℕ) × (deserialize_whole_tree
        (λ n. some sample)
        (λ n. some (n + 1))
        (λ n. ltb 0 n)
        9
        6
        7
        0
      ≡ gave tree')
    × (value_of tree' ≡ read_value 6 (λ n. n + 1) (current_value sample 6))
    × ((seen : ℕ) (k : Text) (path : List Text)
        → value_at seen tree' (k ∷ path) ≡ read_value 7 (λ n. n + 1) (value_at 7 sample (k ∷ path)))
unfolding tree_nodes current_value
deserialize_whole_tree-value_at_example =
    deserialize_whole_tree-value_at (λ n. some sample) (λ n. some (n + 1)) (λ n. ltb 0 n)
      (λ n. n + 1) (λ r. refl) 6 7 9 0 sample refl refl (λ r e. ground (arith, e)) sample-Distinct
      (omega arith)
