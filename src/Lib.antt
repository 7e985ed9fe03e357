-- ===== src/Lib.antt =====
-- Verification of the tree key cache, a cache of values at paths of keys.
--
-- The program. `TreeKeyCache` (src/tree-key-cache.ts) stores a value for a path of keys. The first
-- levels of a path have a key of their own in a storage that the caller gives: the path's keys joined
-- by colons. From level `keyLevelNodes` on, a whole subtree is stored under one such key, and the cache
-- reads, changes and writes that tree. `TreeInternalControl` (src/internal/tree-internal-control.ts)
-- holds the steps that the methods of the cache share; src/internal and src/utils hold keys, ttls, the
-- traversals of a tree and its pruning.
--
-- The files.
--   Prelude         names of the libraries, Boolean tests, lists over the native numbers
--   Keys            src/utils/build-key.ts, src/internal/get-key.ts, src/internal/get-chained-key.ts:
--                   `buildKey` is build_key, `splitKey` split_key, `getKey` get_key, `getChainedKey`
--                   get_chained_key. A string is the list of its code units
--   Tree            src/types/tree-type.ts and src/internal/get-tree-current-serialized-value.ts: a
--                   node is a leaf, or a branch with a children object, which is the list of its own
--                   properties in the order of `for … in`; a property that holds `undefined` is a hole
--   Graphs          src/utils/graphs, the synchronous part: `treePreOrderTraversal` is
--                   pre_order_traversal, over the contract of a list in Graphs/Interface; Graphs/Queue
--                   is the linked queue over a heap of cells; Graphs/Depth, Graphs/Breadth and
--                   Graphs/PostOrder are the four searches. A generator is the list of what it yields
--   Graphs/Async    src/utils/graphs/async: `asyncTreePreOrderTraversal` is async_pre_order_traversal,
--                   `asyncTreePostOrderTraversal` async_post_order_traversal; Graphs/Async/Queue and
--                   Graphs/Async/Stack are `AsyncQueue` and `AsyncStack`. An async iterable is the
--                   list of what it gives, to its end or to the place where it throws
--   Prune           src/internal/prune-tree.ts: `pruneTree` is prune_tree. The loop pulls items from
--                   the lazy post order and writes to the tree meanwhile; Graphs/PostOrder/Visit is
--                   that traversal with a body that may change the visited node. Prune/Spec says what
--                   pruning should do, by recursion on the tree
--   Cache           options, storage, steps and effects. An operation takes a world (the state of the
--                   storage and the events so far) to a result and a world; the semaphore's
--                   acquisitions and releases, deserialization errors and yields are events. The
--                   consumer of a generator is a function that answers each step with a value, or
--                   leaves. Cache/Values holds the methods of `TreeInternalControl`,
--                   Cache/DeepTreeSet `deepTreeSet` and `setNode`, Cache/Reads `getNodeRef` and
--                   `getNode`, Cache/Iterate `iteratePath`, Cache/FullTreeSet `saveFullTreeValue` and
--                   `fullTreeSet` (a reference into a tree is the path of keys to it, and the times at
--                   which the trees read the clock are a function of their keys), Cache/Pruning the
--                   work of `prune` on a key, Cache/Searches the four searches, with `AsyncTreeRef` of
--                   src/internal/async-tree-ref.ts as an asynchronous tree; Cache/Laws is what the storage and the
--                   serializers promise, and Cache/KeyLevels, TreeLevels, Setting, Reading and
--                   Persist are the lemmas on each part of a run
--                   Cache/RandomIterate is `randomIterate`, Cache/Reprocessing
--                   `reprocessAllKeyLevelChildren`, Cache/Memoizing `getMemoized` of
--                   src/internal/get-memoized.ts, Cache/Defaults the options of the constructor
--   History         src/internal/multi-tree-ref.ts and src/internal/get-multi-value-from-trees.ts:
--                   `MultiTreeRef` is MultiTree, with the trees that its children are made from
--   TreeUtils       src/utils/deep-tree-set.ts and src/utils/deserialize-whole-tree.ts: `deepTreeSet` of
--                   a tree in memory is deep_tree_set_in_memory, `deserializeWholeTree` is
--                   deserialize_whole_tree. A reference to a node of the new tree is the path of keys
--                   to it, which `??=` never changes
--   Tests           runs at concrete inputs, with a storage and serializers of their own
--
-- Parameters. The storage, the serializers, the memoizer and the semaphore are not part of the
-- library, nor is `distinct`, which MultiTreeRef iterates with. The storage and the serializers are
-- records of functions; the semaphore only leaves events. Time is a number that a call reads once, as
-- the source does; where an operation reads the clock again for each key, it is a function of the
-- key. Equality of serialized values is a function of the options, since `===` depends on their type.
--
-- Fuel. The loop over the list of the pre order traversals runs on fuel, which `deserializeWholeTree`
-- takes too; one unit more than the nodes of the tree is enough, which the theorems on the two
-- searches show. A pop of AsyncQueue asks one node after another, with fuel for its size, which
-- bounds the nodes. All other loops are structural, in the number of levels that are left, in a list
-- or in the tree.
--
-- Not modelled: the iteration of `prune` over the keys, which works on all of them at once; the reads
-- of the cache for a storage with `getHistory` or options with a memoizer; a serialized `null`;
-- interleavings of two operations on one storage; children objects that inherit from
-- `Object.prototype`.
pub mod Prelude
pub mod Keys
pub mod Tree
pub mod TreeUtils
pub mod Graphs
pub mod Prune
pub mod Cache
pub mod History
mod Tests
