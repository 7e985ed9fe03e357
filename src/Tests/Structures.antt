-- ===== src/Tests/Structures.antt =====
-- Runs and instances for the keys, the trees, the traversals and the pruning.
use nodejs_proto_cache.Prelude.{
  ℕ, ◌≡◌, refl, false, none, some, List, [], ◌∷◌, ◌++◌, reverse, arith,
}
use nodejs_proto_cache.Keys.{
  Text, text_eq, ChainedObject, top, below, join, split_key, build_key, get_chained_key, ok, throw,
  undefined_key, colon,
}
use nodejs_proto_cache.Keys.RoundTrip.{join-split_key, split_key-join}
use nodejs_proto_cache.Keys.Chain.{
  path_of, build_key-path_of, get_chained_key-join, get_chained_key_drops_empty_head,
}
use nodejs_proto_cache.Tree.{
  Tree, leaf, branch, nil, entry, hole, get_entry, entries_of, has_property, current_value,
}
use nodejs_proto_cache.Tree.Paths.{find_tree, value_at}
use nodejs_proto_cache.Graphs.{done, start_item}
use nodejs_proto_cache.Graphs.Loop.{tree_nodes}
use nodejs_proto_cache.Graphs.Queue.{new_queue}
use nodejs_proto_cache.Graphs.Queue.Runs.{
  Call, enqueue, look, dequeue, count, answers, expected, answers-expected,
}
use nodejs_proto_cache.Graphs.Depth.{
  pre_order_depth_first_search, depth_below, pre_order_depth_first_search-depth_below,
}
use nodejs_proto_cache.Graphs.Breadth.{
  entries_height, pre_order_breadth_first_search, breadth_order, child_items,
}
use nodejs_proto_cache.Graphs.Breadth.Rounds.{pre_order_breadth_first_search-breadth_order}
use nodejs_proto_cache.Graphs.PostOrder.{
  post_order_depth_first_search, post_order_breadth_first_search,
}
use nodejs_proto_cache.Graphs.PostOrder.Mirror.{
  pre_order-reverse-post_order, post_order_breadth-depth,
}
use nodejs_proto_cache.Prune.{prune_tree}
use nodejs_proto_cache.Prune.Spec.{
  Distinct, DistinctEntries, gone, clean, has_child, tree_changed, pruned, tree_empty,
}
use nodejs_proto_cache.Prune.Refines.{prune_tree-pruned}
use nodejs_proto_cache.Prune.Views.{value_at-prune_tree, find_tree-prune_tree}
use nodejs_proto_cache.Prune.Rootless.{find_tree-prune_tree_rootless}

abbrev a : Text
a = b'a' ∷ []

abbrev b : Text
b = b'b' ∷ []

abbrev path : List Text
path = a ∷ b ∷ (b'c' ∷ b'd' ∷ []) ∷ []

path-joined : join path ≡ b'a' ∷ colon ∷ b'b' ∷ colon ∷ b'c' ∷ b'd' ∷ []
unfolding join
path-joined = refl

split_key-join_example : split_key (join path) ≡ path
split_key-join_example =
    split_key-join path (cc) ((refl, tt), ((refl, tt), ((refl, (refl, tt)), tt)))

join-split_key_example : join (split_key (colon ∷ b'a' ∷ colon ∷ [])) ≡ colon ∷ b'a' ∷ colon ∷ []
join-split_key_example = join-split_key (colon ∷ b'a' ∷ colon ∷ [])

abbrev chain : ChainedObject
chain = below b 2 (top a 1)

build_key-path_of_example : build_key chain ≡ join (path_of chain)
build_key-path_of_example = build_key-path_of chain

get_chained_key-join_example :
    (get_chained_key ((a ∷ []) ++ b ∷ []) 1 (some (join (a ∷ []))) ≡ ok (join (a ∷ b ∷ []), b))
    × (get_chained_key (a ∷ []) 1 (some (join (a ∷ []))) ≡ throw (undefined_key 1))
get_chained_key-join_example = get_chained_key-join (a ∷ []) b [] (cc)

get_chained_key_drops_empty_head_example :
    (get_chained_key ([] ∷ b ∷ []) 1 (some []) ≡ ok (b, b))
    × (build_key (below b 2 (top [] 1)) ≡ colon ∷ b)
get_chained_key_drops_empty_head_example = get_chained_key_drops_empty_head b []

-- The root's child `a` has a live value and one that expires at 5 below it; `b` has none.
abbrev sample : Tree ℕ
sample = branch none none (
    entry a (branch (some 1) none (entry b (leaf (some 2) (some 5)) nil))
      (entry b (leaf none none) nil))

abbrev calls : List (Call ℕ)
calls = enqueue 3 ∷ enqueue 4 ∷ dequeue ∷ look ∷ dequeue ∷ dequeue ∷ count ∷ []

answers-expected_example : answers new_queue calls ≡ expected [] calls
answers-expected_example = answers-expected calls

abbrev node : ChainedObject
node = below a 2 (top b 1)

depth_example :
    pre_order_depth_first_search 9 5 sample none
    ≡ done (start_item 9 sample none ++ depth_below 9 1 none (entries_of sample))
depth_example =
    pre_order_depth_first_search-depth_below 9 5 sample none (unfold tree_nodes in omega arith)

breadth_example :
    pre_order_breadth_first_search 9 5 sample (some node)
    ≡ done (
        start_item 9 sample (some node)
        ++ breadth_order 9
            (entries_height (entries_of sample))
            (child_items 9 3 (some node) (entries_of sample)))
breadth_example =
    pre_order_breadth_first_search-breadth_order 9 5 sample (some node)
      (unfold tree_nodes in omega arith)

mirror_example :
    pre_order_depth_first_search 9 5 sample (some node)
    ≡ done (reverse (post_order_depth_first_search 9 sample (some node)))
mirror_example =
    pre_order-reverse-post_order 9 5 sample (some node) (unfold tree_nodes in omega arith)

post_order_breadth-depth_example :
    post_order_breadth_first_search 9 sample none ≡ post_order_depth_first_search 9 sample none
post_order_breadth-depth_example = post_order_breadth-depth 9 sample none

-- The properties of the sample are distinct.
sample-Distinct : Distinct sample
unfolding has_property text_eq
sample-Distinct = (refl, (refl, tt, tt), (refl, tt, tt))

prune_tree-pruned_example :
    prune_tree 9 sample (some node) ≡ (tree_changed 9 sample, pruned 9 sample)
prune_tree-pruned_example = prune_tree-pruned 9 sample node sample-Distinct

-- What pruning at 9 leaves of the sample.
sample-pruned : pruned 9 sample ≡ branch none none (entry a (leaf (some 1) none) (hole b nil))
unfolding pruned gone clean tree_empty has_child current_value
sample-pruned = refl

value_at-prune_tree_example :
    value_at 12 (prune_tree 9 sample (some node)).1 (a ∷ []) ≡ value_at 12 sample (a ∷ [])
value_at-prune_tree_example =
    value_at-prune_tree 9 12 sample node (a ∷ []) (omega arith) sample-Distinct

sample-found :
    find_tree {R = ℕ} (branch none none (entry a (leaf (some 1) none) (hole b nil))) (a ∷ [])
    ≡ some (leaf (some 1) none)
unfolding find_tree get_entry text_eq
sample-found = refl

find_tree-prune_tree_example : tree_empty {R = ℕ} 9 (leaf (some 1) none) ≡ false
find_tree-prune_tree_example =
    find_tree-prune_tree 9 sample (leaf (some 1) none) node a [] sample-Distinct
      (rw (prune_tree-pruned 9 sample node sample-Distinct, sample-pruned) sample-found)

abbrev dead : Tree ℕ
dead = leaf (some 2) (some 5)

b-found : get_entry (entry b dead nil) b ≡ some dead
unfolding get_entry text_eq
b-found = refl

b-Distinct : DistinctEntries (entry b dead nil)
unfolding has_property
b-Distinct = (refl, tt, tt)

find_tree-prune_tree_rootless_example :
    find_tree (prune_tree 9 (branch none none (entry b dead nil)) none).1 (b ∷ [])
    ≡ some (pruned 9 dead)
find_tree-prune_tree_rootless_example =
    find_tree-prune_tree_rootless 9 none none (entry b dead nil) b dead b-Distinct b-found
