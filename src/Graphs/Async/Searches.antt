-- ===== src/Graphs/Async/Searches.antt =====
-- The pre order searches of src/utils/graphs/async/async-tree-pre-order-depth-first-search.ts and
-- src/utils/graphs/async/async-tree-pre-order-breadth-first-search.ts.
use nodejs_proto_cache.Prelude.{
  ℕ, ◌≡◌, refl, ◌∙◌, ap, inl, Option, none, some, List, [], ◌∷◌, map, map-append, length, All,
}
use nodejs_proto_cache.Keys.{ChainedObject}
use nodejs_proto_cache.Graphs.{Run, pre_order_traversal, start_item}
use nodejs_proto_cache.Graphs.Interface.{at_end}
use nodejs_proto_cache.Graphs.Depth.{
  array_list, in_front, array_list-IsListOf, pre_order_depth_first_search,
}
use nodejs_proto_cache.Graphs.Queue.{new_queue, queue_list}
use nodejs_proto_cache.Graphs.Queue.Fifo as Fifo
use nodejs_proto_cache.Graphs.Breadth.{pre_order_breadth_first_search}
use nodejs_proto_cache.Graphs.Async.{
  AnyTree, AnyItem, AnyPending, Stream, finished, emits, broken, async_pre_order_traversal,
  any_start_item, any_root,
}
use nodejs_proto_cache.Graphs.Async.Flat.{
  IsFlat, Quiet, elements, place_all, as_tree, Steady, as_item, as_pending, map_run, as_item-create,
}
use nodejs_proto_cache.Graphs.Async.Stack.{async_stack, add_iterable, stack_push, stack_pop}
use nodejs_proto_cache.Graphs.Async.Queue.{async_queue}
use nodejs_proto_cache.Graphs.Async.Queue.Holding as Holding
use nodejs_proto_cache.Graphs.Async.Lockstep.{map_run-async_loop}

-- `asyncTreePreOrderDepthFirstSearch` and `asyncTreePreOrderBreadthFirstSearch`
unfoldable pub async_pre_order_depth_first_search {ℓ} :
    {R : Type ℓ} → ℕ → ℕ → AnyTree R → Option ChainedObject → Run (AnyItem R)
async_pre_order_depth_first_search now fuel tree parent =
    async_pre_order_traversal async_stack now fuel [] tree parent

unfoldable pub async_pre_order_breadth_first_search {ℓ} :
    {R : Type ℓ} → ℕ → ℕ → AnyTree R → Option ChainedObject → Run (AnyItem R)
async_pre_order_breadth_first_search now fuel tree parent =
    async_pre_order_traversal async_queue now fuel new_queue tree parent

module _ {ℓ} {A : Type ℓ} where
  add_iterable-holds :
      (xs : List A) (s : Stream A)
      → Quiet s
      → add_iterable xs s ≡ some (place_all in_front xs (elements s))
  unfolding add_iterable place_all elements Quiet
  add_iterable-holds xs finished quiet = refl
  add_iterable-holds xs (emits a s) quiet = add_iterable-holds (a ∷ xs) s quiet
  add_iterable-holds xs broken quiet = absurd quiet

  async_stack-IsFlat : IsFlat in_front (async_stack {A = A}) (λ l xs. l ≡ xs)
  unfolding stack_push stack_pop
  async_stack-IsFlat = record {
    push_holds = λ l xs a h. ap (◌∷◌ a) h;
    iterable_holds = λ l xs s quiet h. (
      place_all in_front xs (elements s),
      ap (λ (ys : List A). add_iterable ys s) h ∙ add_iterable-holds xs s quiet,
      refl,
    );
    pop_holds = λ l a xs h. (xs, ap stack_pop h, refl);
    length_holds = λ l a xs h. (length xs, ap length h);
    end_holds = λ l h. inl (ap length h);
  }

module _ {ℓ} {R : Type ℓ} where
  map-in_front :
      (p : AnyPending R) (xs : List (AnyPending R))
      → map as_pending (in_front p xs) ≡ in_front (as_pending p) (map as_pending xs)
  map-in_front p xs = refl

  map-at_end :
      (p : AnyPending R) (xs : List (AnyPending R))
      → map as_pending (at_end p xs) ≡ at_end (as_pending p) (map as_pending xs)
  map-at_end p xs = map-append as_pending xs (p ∷ [])

  All-at_end :
      (p : AnyPending R) (xs : List (AnyPending R))
      → Steady p.tree
      → All (λ q. Steady q.tree) xs
      → All (λ q. Steady q.tree) (at_end p xs)
  All-at_end p [] h all = (h, tt)
  All-at_end p (x ∷ xs) h all = (all.0, All-at_end p xs h all.1)

  pub as_item-start :
      (now : ℕ) (tree : AnyTree R) (parent : Option ChainedObject)
      → map as_item (any_start_item now tree parent) ≡ start_item now (as_tree tree) parent
  unfolding any_start_item start_item
  as_item-start now tree none = refl
  as_item-start now tree (some p) = ap (λ i. i ∷ []) (as_item-create _ _ _ tree now)

-- Over a tree none of whose iterables throws, the asynchronous depth first search yields what the
-- search of the tree in memory with the same nodes yields, item by item, with the same fuel.
pub async_pre_order_depth_first_search-as_tree {ℓ} :
    {R : Type ℓ} (now fuel : ℕ) (tree : AnyTree R) (parent : Option ChainedObject)
    → Steady tree
    → map_run as_item (async_pre_order_depth_first_search now fuel tree parent)
      ≡ pre_order_depth_first_search now fuel (as_tree tree) parent
unfolding async_pre_order_depth_first_search async_pre_order_traversal pre_order_depth_first_search
    pre_order_traversal
async_pre_order_depth_first_search-as_tree now fuel tree parent steady =
    let root = any_root tree parent in
    map_run-async_loop in_front in_front map-in_front async_stack (λ l xs. l ≡ xs)
      async_stack-IsFlat now (λ p xs h all. (h, all)) array_list (λ l xs. l ≡ xs)
      array_list-IsListOf fuel (async_stack.push [] root) (array_list.push [] (as_pending root))
      (root ∷ []) (any_start_item now tree parent) (steady, tt)
      (async_stack-IsFlat.push_holds [] [] root refl)
      (array_list-IsListOf.push_holds [] [] (as_pending root) refl)
    ∙ rw as_item-start refl

-- Over a tree none of whose iterables throws, the asynchronous breadth first search, which keeps
-- the iterables of the children in its queue and reads them one element at a time, yields what the
-- search of the tree in memory with the same nodes yields, item by item, with the same fuel.
pub async_pre_order_breadth_first_search-as_tree {ℓ} :
    {R : Type ℓ} (now fuel : ℕ) (tree : AnyTree R) (parent : Option ChainedObject)
    → Steady tree
    → map_run as_item (async_pre_order_breadth_first_search now fuel tree parent)
      ≡ pre_order_breadth_first_search now fuel (as_tree tree) parent
unfolding async_pre_order_breadth_first_search async_pre_order_traversal
    pre_order_breadth_first_search pre_order_traversal
async_pre_order_breadth_first_search-as_tree now fuel tree parent steady =
    let root = any_root tree parent in
    map_run-async_loop at_end at_end map-at_end async_queue Holding.Holds Holding.async_queue-IsFlat
      now All-at_end queue_list Fifo.Holds Fifo.queue_list-IsListOf fuel
      (async_queue.push new_queue root) (queue_list.push new_queue (as_pending root)) (root ∷ [])
      (any_start_item now tree parent) (steady, tt)
      (Holding.async_queue-IsFlat.push_holds new_queue [] root Holding.new_queue-Holds)
      (Fifo.queue_list-IsListOf.push_holds new_queue [] (as_pending root) Fifo.new_queue-Holds)
    ∙ rw as_item-start refl
