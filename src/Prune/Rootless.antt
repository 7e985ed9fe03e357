-- ===== src/Prune/Rootless.antt =====
-- `pruneTree` (src/internal/prune-tree.ts) on a tree with no node above it, where the root is not
-- among the items.
use nodejs_proto_cache.Prelude.{ℕ, ◌≡◌, refl, Option, none, some, [], ◌∷◌, arith}
use nodejs_proto_cache.Keys.{Text}
use nodejs_proto_cache.Tree.{Tree, Entries, branch, nil, entry, hole, get_entry}
use nodejs_proto_cache.Tree.Paths.{find_tree}
use nodejs_proto_cache.Graphs.PostOrder.Visit.{visit_post_order}
use nodejs_proto_cache.Prune.{prune_tree}
use nodejs_proto_cache.Prune.Spec.{pruned, DistinctEntries}
use nodejs_proto_cache.Prune.Sweep.{visited}
use nodejs_proto_cache.Prune.Refines.{visit_children-after, Ready-empty, FreshIn-nil, start}

get_entry-visited {ℓ} :
    {R : Type ℓ} (now : ℕ) (es : Entries R) (k : Text) (t : Tree R)
    → get_entry es k ≡ some t
    → get_entry (visited now es) k ≡ some (pruned now t)
unfolding get_entry visited
get_entry-visited now nil k t h = cc
get_entry-visited now (entry j u es) k t h = ground (arith, get_entry-visited now es k t)
get_entry-visited now (hole j es) k t h = ground (arith, get_entry-visited now es k t)

-- With no node above the tree, every child of the root is still there after pruning, pruned
-- itself, even if it holds no live value at any depth.
pub find_tree-prune_tree_rootless {ℓ} :
    {R : Type ℓ} (now : ℕ) (v : Option R) (d : Option ℕ) (es : Entries R) (k : Text) (t : Tree R)
    → DistinctEntries es
    → get_entry es k ≡ some t
    → find_tree (prune_tree now (branch v d es) none).1 (k ∷ []) ≡ some (pruned now t)
unfolding prune_tree visit_post_order find_tree
find_tree-prune_tree_rootless now v d es k t distinct h =
    rw
      (
        visit_children-after now 0 es start 2 none (Ready-empty 2) (omega arith) (omega arith)
            (FreshIn-nil es) distinct,
        get_entry-visited now es k t h,
        find_tree,
      )
      refl
