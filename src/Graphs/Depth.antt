-- ===== src/Graphs/Depth.antt =====
-- The depth first search of src/utils/graphs/tree-pre-order-depth-first-search.ts: the loop over
-- an array, which is the list of its elements from the last to the first.
use nodejs_proto_cache.Prelude.{
  ℕ, zero, suc, ◌+◌, ◌<◌, ◌≡◌, refl, sym, ◌∙◌, ap, Option, none, some, List, [], ◌∷◌, ◌++◌,
  append_assoc, append-nil, arith, length,
}
use nodejs_proto_cache.Keys.{Text, ChainedObject, chained}
use nodejs_proto_cache.Tree.{Tree, Entries, leaf, branch, nil, entry, hole, entries_of}
use nodejs_proto_cache.Graphs.{
  Item, SimpleList, Pending, Run, done, pre_order_loop, pre_order_traversal, create_traversal_item,
  yield_pending, node_of, level_or_zero, start_item, root_pending,
}
use nodejs_proto_cache.Graphs.Interface.{IsListOf}
use nodejs_proto_cache.Graphs.Loop.{
  tree_nodes, entries_nodes, pending_nodes, placed, loop-nil, loop-cons, tree_nodes-entries_of,
  child_pending, pending_nodes-root,
}

module _ {ℓ} {A : Type ℓ} where
  unfoldable pub array_push : List A → A → List A
  array_push xs a = a ∷ xs

  unfoldable pub array_pop : List A → Option A × List A
  array_pop [] = (none, [])
  array_pop (a ∷ xs) = (some a, xs)

  abbrev pub array_list : SimpleList A (List A)
  array_list = record { push = array_push; pop = array_pop; length = length }

  abbrev pub in_front : A → List A → List A
  in_front a xs = a ∷ xs

  pub array_list-IsListOf : IsListOf in_front array_list (λ xs ys. xs ≡ ys)
  unfolding array_push array_pop
  array_list-IsListOf = record {
    push_holds = λ l xs a h. ap (◌∷◌ a) h;
    pop_first = λ l a xs h. rw h;
    pop_holds = λ l a xs h. rw h;
    length_holds = λ l xs h. ap length h;
  }

-- `treePreOrderDepthFirstSearch`
unfoldable pub pre_order_depth_first_search {ℓ} :
    {R : Type ℓ} → ℕ → ℕ → Tree R → Option ChainedObject → Run (Item R)
pre_order_depth_first_search now fuel tree parent =
    pre_order_traversal array_list now fuel [] tree parent

-- A node, then its children, the last one first, each with all below it before the next.
unfoldable mutual
  pub depth_order {ℓ} : {R : Type ℓ} → ℕ → Text → ℕ → Option ChainedObject → Tree R → List (Item R)
  depth_order now k level parent (leaf v d) =
      create_traversal_item k level parent (leaf v d) now ∷ []
  depth_order now k level parent (branch v d es) =
      create_traversal_item k level parent (branch v d es) now
      ∷ depth_below now (level + 1) (some (chained k level parent)) es

  pub depth_below {ℓ} : {R : Type ℓ} → ℕ → ℕ → Option ChainedObject → Entries R → List (Item R)
  depth_below now level parent nil = []
  depth_below now level parent (entry k t es) =
      depth_below now level parent es ++ depth_order now k level parent t
  depth_below now level parent (hole k es) = depth_below now level parent es

module _ {ℓ} {R : Type ℓ} (now : ℕ) where
  depth_pending : Pending R → List (Item R)
  depth_pending p =
      yield_pending now p ++ depth_below now (p.level + 1) (node_of p) (entries_of p.tree)

  depth_rest : List (Pending R) → List (Item R)
  depth_rest [] = []
  depth_rest (p ∷ xs) = depth_pending p ++ depth_rest xs

  depth_pending-child :
      (t : Tree R) (level : ℕ) (k : Text) (parent : Option ChainedObject)
      → depth_pending (child_pending k t level parent) ≡ depth_order now k level parent t
  unfolding depth_pending depth_order
  depth_pending-child (leaf v d) level k parent = refl
  depth_pending-child (branch v d es) level k parent = refl

  depth_rest-child :
      (k : Text) (t : Tree R) (level : ℕ) (parent : Option ChainedObject) (xs : List (Pending R))
      → depth_rest (child_pending k t level parent ∷ xs)
        ≡ depth_order now k level parent t ++ depth_rest xs
  unfolding depth_rest
  depth_rest-child k t level parent xs =
      ap (λ (items : List (Item R)). items ++ depth_rest xs) (depth_pending-child t level k parent)

  depth_rest-placed :
      (xs : List (Pending R)) (es : Entries R) (level : ℕ) (parent : Option ChainedObject)
      → depth_rest (placed in_front xs es level parent)
        ≡ depth_below now level parent es ++ depth_rest xs
  unfolding placed depth_below
  depth_rest-placed xs nil level parent = refl
  depth_rest-placed xs (entry k t es) level parent =
      depth_rest-placed (child_pending k t level parent ∷ xs) es level parent
      ∙ rw depth_rest-child (
          sym (
            append_assoc (depth_below now level parent es) (depth_order now k level parent t)
              (depth_rest xs)))
  depth_rest-placed xs (hole k es) level parent = depth_rest-placed xs es level parent

  depth_rest-root :
      (tree : Tree R) (parent : Option ChainedObject)
      → depth_rest (root_pending tree parent ∷ [])
        ≡ depth_below now (level_or_zero parent + 1) parent (entries_of tree)
  unfolding depth_rest depth_pending
  depth_rest-root tree parent = append-nil _

  nodes-placed :
      (xs : List (Pending R)) (es : Entries R) (level : ℕ) (parent : Option ChainedObject)
      → pending_nodes (placed in_front xs es level parent) ≡ entries_nodes es + pending_nodes xs
  unfolding placed pending_nodes entries_nodes
  nodes-placed xs nil level parent = omega arith
  nodes-placed xs (entry k t es) level parent = omega (
    arith,
    nodes-placed (child_pending k t level parent ∷ xs) es level parent,
    tree_nodes-entries_of t,
  )
  nodes-placed xs (hole k es) level parent = nodes-placed xs es level parent

  module _ {L : Type ℓ} (list : SimpleList (Pending R) L) (Holds : L → List (Pending R) → Type ℓ)
      (law : IsListOf in_front list Holds) where
    depth_loop :
        (fuel : ℕ) (l : L) (xs : List (Pending R)) (out : List (Item R))
        → pending_nodes xs < fuel
        → Holds l xs
        → pre_order_loop list now fuel l out ≡ done (out ++ depth_rest xs)
    unfolding depth_rest pending_nodes
    depth_loop zero l xs out h holds = absurd (omega arith)
    depth_loop (suc fuel) l [] out h holds =
        loop-nil in_front list Holds law now fuel l out holds ∙ ap done (sym (append-nil out))
    depth_loop (suc fuel) l (p ∷ xs) out h holds =
        let (l', holds', step) = loop-cons in_front list Holds law now fuel l p xs out holds in
        let es = entries_of p.tree in
        step
        ∙ depth_loop fuel l' (placed in_front xs es (p.level + 1) (node_of p))
            (out ++ yield_pending now p)
            (omega (arith, nodes-placed xs es (p.level + 1) (node_of p))) holds'
        ∙ rw depth_rest-placed (ap done (unfold depth_pending in simp append_assoc))

-- With fuel for the nodes of the tree, the search yields the root, if it starts below a node, and
-- then every node below it in depth first order, and ends.
pub pre_order_depth_first_search-depth_below {ℓ} :
    {R : Type ℓ} (now fuel : ℕ) (tree : Tree R) (parent : Option ChainedObject)
    → tree_nodes tree < fuel
    → pre_order_depth_first_search now fuel tree parent
      ≡ done (
          start_item now tree parent
          ++ depth_below now (level_or_zero parent + 1) parent (entries_of tree))
unfolding pre_order_depth_first_search pre_order_traversal
pre_order_depth_first_search-depth_below now fuel tree parent h =
    let root = root_pending tree parent in
    depth_loop now array_list (λ xs ys. xs ≡ ys) array_list-IsListOf fuel (array_push [] root)
      (root ∷ []) (start_item now tree parent)
      (omega (arith, tree_nodes-entries_of tree, pending_nodes-root tree parent))
      (unfold array_push in refl)
    ∙ ap done (
        ap (λ (items : List (Item _)). start_item now tree parent ++ items)
          (depth_rest-root now tree parent))
