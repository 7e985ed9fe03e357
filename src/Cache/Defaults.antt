-- ===== src/Cache/Defaults.antt =====
-- The constructor of src/tree-key-cache.ts: the options that are given over the defaults of
-- src/internal/default-options.ts. An option that is `undefined` or `null` is not given.
use nodejs_proto_cache.Prelude.{ℕ, Option, none, some}

-- `KeyTreeCacheOptions`, with a type for each of the interfaces.
pub record GivenOptions (V P Sem M Sel : Type 0) : Type 0 where
  pub key_level_nodes : ℕ
  pub value_serializer : Option V
  pub tree_serializer : Option P
  pub semaphore : Option Sem
  pub memoizer : Option M
  pub multi_tree_selector : Option Sel

-- `DefaultOptions`: neither `keyLevelNodes` nor `memoizer` has a default.
pub record DefaultOptions (V P Sem Sel : Type 0) : Type 0 where
  pub value_serializer : V
  pub tree_serializer : P
  pub semaphore : Sem
  pub multi_tree_selector : Sel

-- `MergedOptions`
pub record MergedOptions (V P Sem M Sel : Type 0) : Type 0 where
  pub key_level_nodes : ℕ
  pub value_serializer : V
  pub tree_serializer : P
  pub semaphore : Sem
  pub memoizer : Option M
  pub multi_tree_selector : Sel

-- A property of the second object, where it has one, replaces that of the first.
abbrev pub spread_over : {A : Type 0} → A → Option A → A
spread_over a none = a
spread_over a (some b) = b

unfoldable pub merge_options :
    {V P Sem M Sel : Type 0}
    → DefaultOptions V P Sem Sel
    → GivenOptions V P Sem M Sel
    → MergedOptions V P Sem M Sel
merge_options defaults given = record {
  key_level_nodes = given.key_level_nodes;
  value_serializer = spread_over defaults.value_serializer given.value_serializer;
  tree_serializer = spread_over defaults.tree_serializer given.tree_serializer;
  semaphore = spread_over defaults.semaphore given.semaphore;
  memoizer = given.memoizer;
  multi_tree_selector = spread_over defaults.multi_tree_selector given.multi_tree_selector;
}
