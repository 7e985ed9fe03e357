-- ===== src/Graphs/Loop.antt =====
-- One round of the loop of src/utils/graphs/tree-pre-order-traversal.ts, over any list that meets
-- its contract, and the number of nodes, which bounds the rounds.
use nodejs_proto_cache.Prelude.{arith, ℕ, suc, ◌+◌, ◌≡◌, refl, Option, some, List, [], ◌∷◌, ◌++◌}
use nodejs_proto_cache.Keys.{Text, ChainedObject}
use nodejs_proto_cache.Tree.{Tree, Entries, leaf, branch, nil, entry, hole, entries_of}
use nodejs_proto_cache.Graphs.{
  Item, SimpleList, Pending, done, push_children, pre_order_loop, yield_pending, node_of,
  root_pending,
}
use nodejs_proto_cache.Graphs.Interface.{IsListOf}

-- The nodes of a tree, itself included, and those of a children object.
unfoldable mutual
  pub tree_nodes {ℓ} : {R : Type ℓ} → Tree R → ℕ
  tree_nodes (leaf v d) = 1
  tree_nodes (branch v d es) = suc (entries_nodes es)

  pub entries_nodes {ℓ} : {R : Type ℓ} → Entries R → ℕ
  entries_nodes nil = 0
  entries_nodes (entry k t es) = tree_nodes t + entries_nodes es
  entries_nodes (hole k es) = entries_nodes es

module _ {ℓ} {R : Type ℓ} where
  unfoldable pub pending_nodes : List (Pending R) → ℕ
  pending_nodes [] = 0
  pending_nodes (p ∷ xs) = suc (entries_nodes (entries_of p.tree)) + pending_nodes xs

  pub tree_nodes-entries_of : (t : Tree R) → tree_nodes t ≡ suc (entries_nodes (entries_of t))
  unfolding tree_nodes
  tree_nodes-entries_of (leaf v d) = refl
  tree_nodes-entries_of (branch v d es) = refl

  pub pending_nodes-root :
      (tree : Tree R) (parent : Option ChainedObject)
      → pending_nodes (root_pending tree parent ∷ []) ≡ suc (entries_nodes (entries_of tree))
  unfolding pending_nodes
  pending_nodes-root tree parent = omega arith

  abbrev pub child_pending : Text → Tree R → ℕ → Option ChainedObject → Pending R
  child_pending k t level parent = record { tree = t; level = level; key = some k; parent = parent }

  -- The list after all the children have been pushed to it.
  unfoldable pub placed :
      (Pending R → List (Pending R) → List (Pending R))
      → List (Pending R)
      → Entries R
      → ℕ
      → Option ChainedObject
      → List (Pending R)
  placed place xs nil level parent = xs
  placed place xs (entry k t es) level parent =
      placed place (place (child_pending k t level parent) xs) es level parent
  placed place xs (hole k es) level parent = placed place xs es level parent

  module _ {L : Type ℓ} (place : Pending R → List (Pending R) → List (Pending R))
      (list : SimpleList (Pending R) L) (Holds : L → List (Pending R) → Type ℓ)
      (law : IsListOf place list Holds) (now : ℕ) where
    push_children-placed :
        (l : L) (xs : List (Pending R)) (es : Entries R) (level : ℕ) (parent : Option ChainedObject)
        → Holds l xs
        → Holds (push_children list now l es level parent) (placed place xs es level parent)
    unfolding push_children placed
    push_children-placed l xs nil level parent h = h
    push_children-placed l xs (entry k t es) level parent h =
        let p = child_pending k t level parent in
        push_children-placed (list.push l p) (place p xs) es level parent (law.push_holds l xs p h)
    push_children-placed l xs (hole k es) level parent h =
        push_children-placed l xs es level parent h

    -- With no tuple left the loop ends.
    pub loop-nil :
        (fuel : ℕ) (l : L) (out : List (Item R))
        → Holds l []
        → pre_order_loop list now (suc fuel) l out ≡ done out
    unfolding pre_order_loop
    loop-nil fuel l out h = rw (law.length_holds l [] h, pre_order_loop)

    -- Otherwise it yields the first tuple and goes on with its children in the list.
    pub loop-cons :
        (fuel : ℕ) (l : L) (p : Pending R) (xs : List (Pending R)) (out : List (Item R))
        → Holds l (p ∷ xs)
        → (l' : L) × Holds l' (placed place xs (entries_of p.tree) (p.level + 1) (node_of p))
          × (pre_order_loop list now (suc fuel) l out
              ≡ pre_order_loop list now fuel l' (out ++ yield_pending now p))
    unfolding pre_order_loop
    loop-cons fuel l p xs out h = (
      push_children list now (list.pop l).1 (entries_of p.tree) (p.level + 1) (node_of p),
      push_children-placed _ _ (entries_of p.tree) (p.level + 1) (node_of p)
          (law.pop_holds l p xs h),
      rw (law.length_holds l (p ∷ xs) h, law.pop_first l p xs h, pre_order_loop),
    )
