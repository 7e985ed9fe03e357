-- ===== src/Graphs/Breadth/Rounds.antt =====
-- The loop of src/utils/graphs/tree-pre-order-traversal.ts over the queue of
-- src/utils/graphs/queue.ts, level by level.
use nodejs_proto_cache.Prelude.{
  ℕ, ◌-◌, zero, suc, ◌+◌, ◌≤◌, ◌<◌, max, ◌≡◌, refl, sym, ◌∙◌, ap, Option, none, some, List, [], ◌∷◌,
  ◌++◌, append_assoc, append-nil, arith, length, All,
}
use native.Mathlib.Nat.{zero-add, suc-add}
use nodejs_proto_cache.Keys.{Text, ChainedObject}
use nodejs_proto_cache.Tree.{Tree, Entries, leaf, branch, nil, entry, hole, entries_of}
use nodejs_proto_cache.Graphs.{
  Item, SimpleList, Pending, done, pre_order_loop, pre_order_traversal, create_traversal_item,
  yield_pending, node_of, level_or_zero, start_item, root_pending,
}
use nodejs_proto_cache.Graphs.Interface.{IsListOf, at_end}
use nodejs_proto_cache.Graphs.Queue.{queue_list, new_queue}
use nodejs_proto_cache.Graphs.Queue.Fifo.{Holds, queue_list-IsListOf, new_queue-Holds}
use nodejs_proto_cache.Graphs.Loop.{
  tree_nodes, entries_nodes, pending_nodes, placed, loop-nil, loop-cons, tree_nodes-entries_of,
  child_pending,
}
use nodejs_proto_cache.Graphs.Breadth.{
  pre_order_breadth_first_search, tree_height, entries_height, child_items, next_level,
  breadth_order,
}

module _ {ℓ} {R : Type ℓ} where
  child_pendings : ℕ → Option ChainedObject → Entries R → List (Pending R)
  child_pendings level parent nil = []
  child_pendings level parent (entry k t es) =
      child_pending k t level parent ∷ child_pendings level parent es
  child_pendings level parent (hole k es) = child_pendings level parent es

  abbrev own_children : Pending R → List (Pending R)
  own_children p = child_pendings (p.level + 1) (node_of p) (entries_of p.tree)

  next_pendings : List (Pending R) → List (Pending R)
  next_pendings [] = []
  next_pendings (p ∷ xs) = own_children p ++ next_pendings xs

  forest_height : List (Pending R) → ℕ
  forest_height [] = 0
  forest_height (p ∷ xs) = max (suc (entries_height (entries_of p.tree))) (forest_height xs)

  placed-at_end :
      (xs : List (Pending R)) (es : Entries R) (level : ℕ) (parent : Option ChainedObject)
      → placed at_end xs es level parent ≡ xs ++ child_pendings level parent es
  unfolding placed child_pendings
  placed-at_end xs nil level parent = sym (append-nil xs)
  placed-at_end xs (entry k t es) level parent =
      let p = child_pending k t level parent in
      placed-at_end (xs ++ p ∷ []) es level parent
      ∙ append_assoc xs (p ∷ []) (child_pendings level parent es)
  placed-at_end xs (hole k es) level parent = placed-at_end xs es level parent

  tree_height-entries_of : (t : Tree R) → tree_height t ≡ suc (entries_height (entries_of t))
  unfolding tree_height
  tree_height-entries_of (leaf v d) = refl
  tree_height-entries_of (branch v d es) = refl

  forest_height-child_pendings :
      (level : ℕ) (parent : Option ChainedObject) (es : Entries R)
      → forest_height (child_pendings level parent es) ≡ entries_height es
  unfolding forest_height child_pendings entries_height
  forest_height-child_pendings level parent nil = refl
  forest_height-child_pendings level parent (entry k t es) =
      omega (arith, forest_height-child_pendings level parent es, tree_height-entries_of t)
  forest_height-child_pendings level parent (hole k es) =
      forest_height-child_pendings level parent es

  forest_height-append :
      (xs ys : List (Pending R))
      → forest_height (xs ++ ys) ≡ max (forest_height xs) (forest_height ys)
  unfolding forest_height
  forest_height-append [] ys = omega arith
  forest_height-append (p ∷ xs) ys = omega (arith, forest_height-append xs ys)

  forest_height-next_pendings :
      (h : ℕ) (xs : List (Pending R))
      → forest_height xs ≤ suc h
      → forest_height (next_pendings xs) ≤ h
  unfolding forest_height next_pendings
  forest_height-next_pendings h [] le = omega arith
  forest_height-next_pendings h (p ∷ xs) le = omega (
    arith,
    forest_height-append (own_children p) (next_pendings xs),
    forest_height-child_pendings (p.level + 1) (node_of p) (entries_of p.tree),
    forest_height-next_pendings h xs (omega arith),
  )

  pending_nodes-append :
      (xs ys : List (Pending R)) → pending_nodes (xs ++ ys) ≡ pending_nodes xs + pending_nodes ys
  unfolding pending_nodes
  pending_nodes-append [] ys = omega arith
  pending_nodes-append (p ∷ xs) ys = omega (arith, pending_nodes-append xs ys)

  pending_nodes-child_pendings :
      (level : ℕ) (parent : Option ChainedObject) (es : Entries R)
      → pending_nodes (child_pendings level parent es) ≡ entries_nodes es
  unfolding pending_nodes child_pendings entries_nodes
  pending_nodes-child_pendings level parent nil = refl
  pending_nodes-child_pendings level parent (entry k t es) =
      omega (arith, pending_nodes-child_pendings level parent es, tree_nodes-entries_of t)
  pending_nodes-child_pendings level parent (hole k es) =
      pending_nodes-child_pendings level parent es

  pending_nodes-next_pendings :
      (xs : List (Pending R)) → pending_nodes xs ≡ length xs + pending_nodes (next_pendings xs)
  unfolding pending_nodes next_pendings
  pending_nodes-next_pendings [] = refl
  pending_nodes-next_pendings (p ∷ xs) = omega (
    arith,
    pending_nodes-append (own_children p) (next_pendings xs),
    pending_nodes-child_pendings (p.level + 1) (node_of p) (entries_of p.tree),
    pending_nodes-next_pendings xs,
  )

module _ {ℓ} {R : Type ℓ} (now : ℕ) where
  yields : List (Pending R) → List (Item R)
  yields [] = []
  yields (p ∷ xs) = yield_pending now p ++ yields xs

  -- Every tuple but that of the root has a key.
  abbrev HasKey : Pending R → Type 0
  HasKey p = (k : Text) × (p.key ≡ some k)

  yields-append : (xs ys : List (Pending R)) → yields (xs ++ ys) ≡ yields xs ++ yields ys
  unfolding yields
  yields-append [] ys = refl
  yields-append (p ∷ xs) ys =
      rw (yields-append xs ys) (sym (append_assoc (yield_pending now p) (yields xs) (yields ys)))

  yields-child_pendings :
      (level : ℕ) (parent : Option ChainedObject) (es : Entries R)
      → yields (child_pendings level parent es) ≡ child_items now level parent es
  unfolding yields child_pendings child_items
  yields-child_pendings level parent nil = refl
  yields-child_pendings level parent (entry k t es) = rw (yields-child_pendings level parent es)
  yields-child_pendings level parent (hole k es) = yields-child_pendings level parent es

  All-HasKey-child_pendings :
      (level : ℕ) (parent : Option ChainedObject) (es : Entries R) (ys : List (Pending R))
      → All HasKey ys
      → All HasKey (child_pendings level parent es ++ ys)
  unfolding child_pendings
  All-HasKey-child_pendings level parent nil ys h = h
  All-HasKey-child_pendings level parent (entry k t es) ys h =
      ((k, refl), All-HasKey-child_pendings level parent es ys h)
  All-HasKey-child_pendings level parent (hole k es) ys h =
      All-HasKey-child_pendings level parent es ys h

  All-HasKey-next_pendings : (xs : List (Pending R)) → All HasKey (next_pendings xs)
  unfolding next_pendings
  All-HasKey-next_pendings [] = tt
  All-HasKey-next_pendings (p ∷ xs) =
      All-HasKey-child_pendings (p.level + 1) (node_of p) (entries_of p.tree) (next_pendings xs)
        (All-HasKey-next_pendings xs)

  next_level-keyed :
      (tree : Tree R) (level : ℕ) (key : Option Text) (parent : Option ChainedObject)
      (items : List (Item R))
      → HasKey (record { tree = tree; level = level; key = key; parent = parent })
      → let p : Pending R = record { tree = tree; level = level; key = key; parent = parent } in
        next_level now (yield_pending now p ++ items)
        ≡ child_items now (level + 1) (node_of p) (entries_of tree) ++ next_level now items
  unfolding next_level create_traversal_item
  next_level-keyed tree level none parent items (k, e) = cc
  next_level-keyed tree level (some k) parent items h = refl

  yields-next_pendings :
      (xs : List (Pending R))
      → All HasKey xs
      → yields (next_pendings xs) ≡ next_level now (yields xs)
  unfolding next_pendings
  yields-next_pendings [] h = unfold yields next_level in refl
  yields-next_pendings (p ∷ xs) h =
      yields-append (own_children p) (next_pendings xs)
      ∙ rw (yields-child_pendings, yields-next_pendings xs h.1)
          (unfold yields in sym (next_level-keyed p.tree p.level p.key p.parent (yields xs) h.0))

  module _ {L : Type ℓ} (list : SimpleList (Pending R) L) (Holds : L → List (Pending R) → Type ℓ)
      (law : IsListOf at_end list Holds) where
    -- One level is taken from the list, and the next one is in it.
    queue_round :
        (fuel : ℕ) (l : L) (xs ys : List (Pending R)) (out : List (Item R))
        → Holds l (xs ++ ys)
        → (l' : L) × Holds l' (ys ++ next_pendings xs)
          × (pre_order_loop list now (length xs + fuel) l out
              ≡ pre_order_loop list now fuel l' (out ++ yields xs))
    unfolding next_pendings yields
    queue_round fuel l [] ys out h = (l, rw append-nil h, rw (append-nil, zero-add) refl)
    queue_round fuel l (p ∷ xs) ys out h =
        let (l₁, h₁, step) =
          loop-cons at_end list Holds law now (length xs + fuel) l p (xs ++ ys) out h in
        let holds : Holds l₁ (xs ++ (ys ++ own_children p)) =
          rw (placed-at_end, append_assoc) at h₁ in
        let (l₂, h₂, rest) =
          queue_round fuel l₁ xs (ys ++ own_children p) (out ++ yield_pending now p) holds in
        (
          l₂,
          rw (append_assoc ys (own_children p) (next_pendings xs)) at h₂,
          rw suc-add (step ∙ rest)
              ∙ ap (pre_order_loop list now fuel l₂)
                  (append_assoc out (yield_pending now p) (yields xs)),
        )

    queue_rounds :
        (levels fuel : ℕ) (l : L) (xs : List (Pending R)) (out : List (Item R))
        → All HasKey xs
        → forest_height xs ≤ levels
        → pending_nodes xs < fuel
        → Holds l xs
        → pre_order_loop list now fuel l out ≡ done (out ++ breadth_order now levels (yields xs))
    queue_rounds levels zero l xs out keyed low enough h = absurd (omega arith)
    queue_rounds zero (suc fuel) l [] out keyed low enough h =
        loop-nil at_end list Holds law now fuel l out h
        ∙ ap done (sym (unfold breadth_order in append-nil out))
    queue_rounds zero (suc fuel) l (p ∷ xs) out keyed low enough h =
        absurd (unfold forest_height in omega arith)
    queue_rounds (suc levels) (suc fuel) l xs out keyed low enough h =
        let rest : ℕ = suc fuel - length xs in
        let nodes = pending_nodes-next_pendings xs in
        let e : suc fuel ≡ length xs + rest = omega arith in
        let (l', h', round) = queue_round rest l xs [] out (rw append-nil h) in
        rw e (
          round
          ∙ queue_rounds levels rest l' (next_pendings xs) (out ++ yields xs)
              (All-HasKey-next_pendings xs) (forest_height-next_pendings levels xs low)
              (omega arith) h'
          ∙ rw (yields-next_pendings xs keyed) (unfold breadth_order in rw append_assoc))

-- With fuel for the nodes of the tree, the search yields the root, if it starts below a node, then
-- all the children of the root, then all of theirs, one level after another, and ends.
pub pre_order_breadth_first_search-breadth_order {ℓ} :
    {R : Type ℓ} (now fuel : ℕ) (tree : Tree R) (parent : Option ChainedObject)
    → tree_nodes tree < fuel
    → pre_order_breadth_first_search now fuel tree parent
      ≡ done (
          start_item now tree parent
          ++ breadth_order now
              (entries_height (entries_of tree))
              (child_items now (level_or_zero parent + 1) parent (entries_of tree)))
unfolding pre_order_breadth_first_search pre_order_traversal
pre_order_breadth_first_search-breadth_order now zero tree parent h = absurd (omega arith)
pre_order_breadth_first_search-breadth_order now (suc fuel) tree parent h =
    let es = entries_of tree in
    let root = root_pending tree parent in
    let start = start_item now tree parent in
    let law = queue_list-IsListOf in
    let (l, holds, step) =
      loop-cons at_end queue_list Holds law now fuel (queue_list.push new_queue root) root [] start
        (law.push_holds new_queue [] root new_queue-Holds) in
    let level = level_or_zero parent + 1 in
    let next = child_pendings level parent es in
    let nodes = pending_nodes-child_pendings level parent es in
    step
    ∙ queue_rounds now queue_list Holds law (entries_height es) fuel l next (start ++ [])
        (rw append-nil at (All-HasKey-child_pendings now level parent es [] tt))
        (omega (arith, forest_height-child_pendings level parent es))
        (omega (arith, nodes, tree_nodes-entries_of tree)) (rw placed-at_end at holds)
    ∙ rw (append-nil, yields-child_pendings) refl
