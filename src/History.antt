-- ===== src/History.antt =====
-- Trees with a history of values: src/internal/multi-tree-ref.ts over a list of trees, with
-- src/internal/get-multi-value-from-trees.ts, and the lists of trees that
-- src/internal/tree-internal-control.ts parses. `distinct`, which puts the elements of a key
-- together by a function that it is given, is of a library, and is a parameter; the function that
-- it is given is not.
pub mod Merging
pub mod Views
pub mod Paths
use nodejs_proto_cache.Prelude.{
  ℕ, Bool, true, false, Option, none, some, List, [], ◌∷◌, ◌++◌, if◌then◌else◌,
}
use nodejs_proto_cache.Keys.{
  Text, text_eq, ChainedObject, chained, Result, ok, throw, fixed_children,
}
use nodejs_proto_cache.Tree.{Tree, Entries, nil, entry, hole, children_of, current_value}

-- `MultiTreeRef`: its value, and what its children are made from.
pub record MultiTree (R : Type 0) : Type 0 where
  pub value : List R
  pub node_ref : Option ChainedObject
  pub trees : List (Tree R)
  pub empty_children : Bool

-- A key, and the trees that lie under it.
abbrev pub KeyTrees : Type 0 → Type 0
KeyTrees R = Text × List (Tree R)

-- `distinct` of the iteration library, by the key of an element and the function that puts a later
-- element of a key into the first one.
abbrev pub DistinctBy : Type 0 → Type 0
DistinctBy A = (A → Text) → (A → A → A) → List A → List A

abbrev pub own_key : {R : Type 0} → KeyTrees R → Text
own_key (k, trees) = k

-- `(a, b) => { a.trees.push(...b.trees); return a; }`
unfoldable pub merge_trees : {R : Type 0} → KeyTrees R → KeyTrees R → KeyTrees R
merge_trees (k, trees) (j, more) = (k, trees ++ more)

-- The children of one tree that are not `undefined`, each with its key.
unfoldable pub key_trees : {R : Type 0} → Entries R → List (KeyTrees R)
key_trees nil = []
key_trees (entry k t es) = (k, t ∷ []) ∷ key_trees es
key_trees (hole k es) = key_trees es

-- Those of all the trees that have a children object.
unfoldable pub all_key_trees : {R : Type 0} → List (Tree R) → List (KeyTrees R)
unfolding key_trees
all_key_trees [] = []
all_key_trees (t ∷ trees) =
    elim (children_of t) [ none ↦ [] | some es ↦ key_trees es ] ++ all_key_trees trees

module _ {R : Type 0} (truthy : R → Bool) (now : ℕ) where
  abbrev pub keep_truthy : Option R → List R → List R
  keep_truthy none rest = rest
  keep_truthy (some r) rest = if truthy r then r ∷ rest else rest

  -- `getMultiTreeValueFromTrees`: the current values of the roots that are truthy.
  unfoldable pub get_multi_tree_value_from_trees : List (Tree R) → List R
  get_multi_tree_value_from_trees [] = []
  get_multi_tree_value_from_trees (t ∷ trees) =
      keep_truthy (current_value t now) (get_multi_tree_value_from_trees trees)

  -- `new MultiTreeRef(nodeRef, trees, now)`
  unfoldable pub new_multi_tree : Option ChainedObject → List (Tree R) → MultiTree R
  unfolding get_multi_tree_value_from_trees
  new_multi_tree node_ref trees = record {
    value = get_multi_tree_value_from_trees trees;
    node_ref = node_ref;
    trees = trees;
    empty_children = false;
  }

  module _ (distinct : DistinctBy (KeyTrees R)) where
    -- The object of the children: a `MultiTreeRef` for each key.
    unfoldable pub child_refs : Option ChainedObject → List (KeyTrees R) → List (Text × MultiTree R)
    unfolding new_multi_tree
    child_refs node_ref [] = []
    child_refs node_ref ((k, trees) ∷ rest) =
        (k, new_multi_tree (some (chained k 0 node_ref)) trees) ∷ child_refs node_ref rest

    -- The getter of the children.
    unfoldable pub multi_children : MultiTree R → Option (List (Text × MultiTree R))
    unfolding all_key_trees child_refs merge_trees
    multi_children m =
        if m.empty_children
        then none
        else some (child_refs m.node_ref (distinct own_key merge_trees (all_key_trees m.trees)))

    -- `children[key]`
    unfoldable pub get_child_ref : List (Text × MultiTree R) → Text → Option (MultiTree R)
    get_child_ref [] k = none
    get_child_ref ((j, m) ∷ rest) k = if text_eq j k then some m else get_child_ref rest k

    -- The loop of `getNextTreeNode` over the keys of a path.
    unfoldable pub find_multi : MultiTree R → List Text → Option (MultiTree R)
    unfolding multi_children get_child_ref
    find_multi m [] = some m
    find_multi m (k ∷ path) = elim (multi_children m) [
      | none ↦ none
      | some children ↦ elim (get_child_ref children k) [
        | none ↦ none
        | some child ↦ find_multi child path
      ]
    ]

-- The setter of the children, which takes `undefined` only.
unfoldable pub set_multi_children : {R A : Type 0} → MultiTree R → Option A → Result (MultiTree R)
set_multi_children m none = ok (record m { empty_children = true })
set_multi_children m (some children) = throw fixed_children
