-- ===== src/Graphs/Async/Lockstep.antt =====
-- The loop of src/utils/graphs/async/async-tree-pre-order-traversal.ts next to that of
-- src/utils/graphs/tree-pre-order-traversal.ts, round by round.
use nodejs_proto_cache.Prelude.{
  ℕ, zero, suc, ◌+◌, ◌≡◌, refl, sym, ◌∙◌, ap, inl, inr, Option, some, List, [], ◌∷◌, ◌++◌, map,
  map-append, All,
}
use mathlib.Core.Path.{subst}
use nodejs_proto_cache.Keys.{ChainedObject}
use nodejs_proto_cache.Tree.{Entries, nil, entry, hole, entries_of}
use nodejs_proto_cache.Graphs.{Item, Pending, SimpleList, done, pre_order_loop}
use nodejs_proto_cache.Graphs.Interface.{IsListOf}
use nodejs_proto_cache.Graphs.Loop.{placed, loop-nil, loop-cons}
use nodejs_proto_cache.Graphs.Async.{
  AnyTree, AnyEntries, plain, deferred, ends, yields, skips, breaks, AnyItem, AnyPending,
  AsyncSimpleList, push_plain, push_any, yield_any, any_node_of, iterable_of, async_pre_order_loop,
}
use nodejs_proto_cache.Graphs.Async.Flat.{
  IsFlat, elements, place_all, as_tree, as_entries, Steady, SteadyEntries, as_item, as_pending,
  map_run, as_item-yield, plain_children, any_children, Quiet-iterable_of, All-any_children,
}

module _ {ℓ} {R : Type ℓ} (place : AnyPending R → List (AnyPending R) → List (AnyPending R))
    (place_sync : Pending R → List (Pending R) → List (Pending R))
    (map_place : (p : AnyPending R) (xs : List (AnyPending R))
      → map as_pending (place p xs) ≡ place_sync (as_pending p) (map as_pending xs)) where
  placed-plain :
      (es : Entries R) (level : ℕ) (parent : Option ChainedObject) (xs : List (AnyPending R))
      → map as_pending (place_all place xs (plain_children es level parent))
        ≡ placed place_sync (map as_pending xs) es level parent
  unfolding place_all plain_children placed as_tree
  placed-plain nil level parent xs = refl
  placed-plain (entry k t es) level parent xs =
      let p : AnyPending R = record {
        tree = plain t;
        level = level;
        key = some k;
        parent = parent;
      } in
      placed-plain es level parent (place p xs)
      ∙ ap (λ (ys : List (Pending R)). placed place_sync ys es level parent) (map_place p xs)
  placed-plain (hole k es) level parent xs = placed-plain es level parent xs

  placed-deferred :
      (es : AnyEntries R) (level : ℕ) (parent : Option ChainedObject) (xs : List (AnyPending R))
      → SteadyEntries es
      → map as_pending (place_all place xs (elements (iterable_of es level parent)))
        ≡ placed place_sync (map as_pending xs) (as_entries es) level parent
  unfolding place_all elements iterable_of placed as_entries SteadyEntries
  placed-deferred ends level parent xs h = refl
  placed-deferred (yields k t es) level parent xs h =
      let p : AnyPending R = record { tree = t; level = level; key = some k; parent = parent } in
      placed-deferred es level parent (place p xs) h.1
      ∙ ap (λ (ys : List (Pending R)). placed place_sync ys (as_entries es) level parent)
          (map_place p xs)
  placed-deferred (skips k es) level parent xs h = placed-deferred es level parent xs h
  placed-deferred breaks level parent xs h = absurd h

  placed-any_children :
      (t : AnyTree R) (level : ℕ) (parent : Option ChainedObject) (xs : List (AnyPending R))
      → Steady t
      → map as_pending (place_all place xs (any_children t level parent))
        ≡ placed place_sync (map as_pending xs) (entries_of (as_tree t)) level parent
  unfolding any_children as_tree Steady
  placed-any_children (plain t) level parent xs h = placed-plain (entries_of t) level parent xs
  placed-any_children (deferred v d es) level parent xs h = placed-deferred es level parent xs h

  module _ {L : Type ℓ} (list : AsyncSimpleList (AnyPending R) L)
      (Holds : L → List (AnyPending R) → Type ℓ) (law : IsFlat place list Holds) where
    push_plain-Holds :
        (es : Entries R) (level : ℕ) (parent : Option ChainedObject) (l : L)
        (xs : List (AnyPending R))
        → Holds l xs
        → Holds
            (push_plain list l es level parent)
            (place_all place xs (plain_children es level parent))
    unfolding push_plain place_all plain_children
    push_plain-Holds nil level parent l xs h = h
    push_plain-Holds (entry k t es) level parent l xs h =
        let p : AnyPending R = record {
          tree = plain t;
          level = level;
          key = some k;
          parent = parent;
        } in
        push_plain-Holds es level parent (list.push l p) (place p xs) (law.push_holds l xs p h)
    push_plain-Holds (hole k es) level parent l xs h = push_plain-Holds es level parent l xs h

    push_any-Holds :
        (t : AnyTree R) (level : ℕ) (parent : Option ChainedObject) (l : L)
        (xs : List (AnyPending R))
        → Steady t
        → Holds l xs
        → (l' : L) × (push_any list l t level parent ≡ some l')
          × Holds l' (place_all place xs (any_children t (level + 1) parent))
    unfolding push_any any_children Steady
    push_any-Holds (plain t) level parent l xs steady h =
        (_, refl, push_plain-Holds (entries_of t) (level + 1) parent l xs h)
    push_any-Holds (deferred v d es) level parent l xs steady h =
        law.iterable_holds l xs (iterable_of es (level + 1) parent)
          (Quiet-iterable_of es (level + 1) parent steady) h

    module _ (now : ℕ) where
      async_loop-nil :
          (fuel : ℕ) (l : L) (out : List (AnyItem R))
          → Holds l []
          → async_pre_order_loop list now (suc fuel) l out ≡ done out
      unfolding async_pre_order_loop
      async_loop-nil fuel l out h = elim (law.end_holds l h) [
        | inl e ↦ rw (e, async_pre_order_loop) refl
        | inr (n, e, l', popped) ↦ rw (e, popped, async_pre_order_loop) refl
      ]

      async_loop-cons :
          (fuel : ℕ) (l : L) (p : AnyPending R) (xs : List (AnyPending R)) (out : List (AnyItem R))
          → Steady p.tree
          → Holds l (p ∷ xs)
          → (l' : L) × Holds l'
              (place_all place xs (any_children p.tree (p.level + 1) (any_node_of p)))
            × (async_pre_order_loop list now (suc fuel) l out
                ≡ async_pre_order_loop list now fuel l' (out ++ yield_any now p))
      unfolding async_pre_order_loop
      async_loop-cons fuel l p xs out steady h =
          let (n, long) = law.length_holds l p xs h in
          let (l₁, popped, holds₁) = law.pop_holds l p xs h in
          let (l₂, pushed, holds₂) =
            push_any-Holds p.tree p.level (any_node_of p) l₁ xs steady holds₁ in
          (l₂, holds₂, rw (long, popped, pushed, async_pre_order_loop) refl)

      module _
          (All_place : (p : AnyPending R) (xs : List (AnyPending R))
            → Steady p.tree
            → All (λ q. Steady q.tree) xs
            → All (λ q. Steady q.tree) (place p xs)) where
        All-place_all :
            (ps xs : List (AnyPending R))
            → All (λ q. Steady q.tree) ps
            → All (λ q. Steady q.tree) xs
            → All (λ q. Steady q.tree) (place_all place xs ps)
        unfolding place_all
        All-place_all [] xs new h = h
        All-place_all (p ∷ ps) xs new h =
            All-place_all ps (place p xs) new.1 (All_place p xs new.0 h)

        module _ {S : Type ℓ} (sync : SimpleList (Pending R) S)
            (Keeps : S → List (Pending R) → Type ℓ)
            (sync_law : IsListOf place_sync sync Keeps) where
          -- With any fuel, both loops run the same number of rounds, and yield the same nodes.
          pub map_run-async_loop :
              (fuel : ℕ) (l : L) (s : S) (xs : List (AnyPending R)) (out : List (AnyItem R))
              → All (λ q. Steady q.tree) xs
              → Holds l xs
              → Keeps s (map as_pending xs)
              → map_run as_item (async_pre_order_loop list now fuel l out)
                ≡ pre_order_loop sync now fuel s (map as_item out)
          unfolding async_pre_order_loop pre_order_loop map_run
          map_run-async_loop zero l s xs out steady h keeps = refl
          map_run-async_loop (suc fuel) l s [] out steady h keeps =
              ap (map_run as_item) (async_loop-nil fuel l out h)
              ∙ sym (loop-nil place_sync sync Keeps sync_law now fuel s (map as_item out) keeps)
          map_run-async_loop (suc fuel) l s (p ∷ xs) out steady h keeps =
              let (l', holds', step) = async_loop-cons fuel l p xs out steady.0 h in
              let (s', keeps', sync_step) =
                loop-cons place_sync sync Keeps sync_law now fuel s (as_pending p)
                  (map as_pending xs) (map as_item out) keeps in
              let children = any_children p.tree (p.level + 1) (any_node_of p) in
              ap (map_run as_item) step
              ∙ map_run-async_loop fuel l' s' (place_all place xs children) (out ++ yield_any now p)
                  (All-place_all children xs
                    (All-any_children p.tree (p.level + 1) (any_node_of p) steady.0) steady.1)
                  holds'
                  (subst (Keeps s')
                    (sym (placed-any_children p.tree (p.level + 1) (any_node_of p) xs steady.0))
                    keeps')
              ∙ ap (λ (items : List (Item R)). pre_order_loop sync now fuel s' items)
                  (map-append as_item out (yield_any now p)
                    ∙ ap (λ (items : List (Item R)). map as_item out ++ items)
                        (as_item-yield p now))
              ∙ sym sync_step
