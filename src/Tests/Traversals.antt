-- ===== src/Tests/Traversals.antt =====
-- Runs and instances for the traversals of trees whose children come one by one.
use nodejs_proto_cache.Graphs.Async.Stack.{stack_push, stack_pop, add_iterable}
use nodejs_proto_cache.Prelude.{ℕ, ◌≤◌, ◌≡◌, refl, none, some, List, [], ◌∷◌, map}
use nodejs_proto_cache.Keys.{Text, top}
use nodejs_proto_cache.Tree.{Tree, leaf, branch, nil, entry}
use nodejs_proto_cache.Graphs.{Run, done, failed, out_of_fuel}
use nodejs_proto_cache.Graphs.Queue.{new_queue}
use nodejs_proto_cache.Graphs.Depth.{pre_order_depth_first_search}
use nodejs_proto_cache.Graphs.Breadth.{pre_order_breadth_first_search}
use nodejs_proto_cache.Graphs.PostOrder.{
  post_order_depth_first_search, post_order_breadth_first_search,
}
use nodejs_proto_cache.Graphs.Async.{
  AnyTree, plain, deferred, ends, yields, skips, breaks, finished, emits, AnyItem,
  async_pre_order_traversal, push_any, iterable_of, push_plain, any_start_item, create_any_item,
}
use nodejs_proto_cache.Graphs.Async.Flat.{Steady, as_tree, as_item, map_run, Quiet, elements}
use nodejs_proto_cache.Graphs.Async.Searches.{
  async_pre_order_depth_first_search, async_pre_order_breadth_first_search,
  async_pre_order_depth_first_search-as_tree, async_pre_order_breadth_first_search-as_tree,
}
use nodejs_proto_cache.Graphs.Async.PostOrder.{
  async_post_order_depth_first_search, async_post_order_breadth_first_search,
}
use nodejs_proto_cache.Graphs.Async.PostOrder.Lockstep.{async_post_order_searches-as_tree}
use nodejs_proto_cache.Graphs.Async.Queue.{async_queue, push_slot, pop_fuel, remove_node}
use nodejs_proto_cache.Graphs.Async.Queue.Runs.{
  AsyncCall, enqueue, enqueue_all, dequeue, pops, firsts, replay, remaining, QuietCalls,
  pops-firsts, size-remaining,
}

abbrev a : Text
a = b'a' ∷ []

abbrev b : Text
b = b'b' ∷ []

abbrev stored : Tree ℕ
stored = branch (some 3) none (entry a (leaf (some 4) none) nil)

-- Two levels of a storage over a tree in memory.
abbrev forest : AnyTree ℕ
forest = deferred none none (
    yields a (deferred (some 1) none (yields a (plain stored) (skips b ends)))
      (yields b (deferred (some 2) none ends) ends))

forest-Steady : Steady forest
unfolding Steady
forest-Steady = (((tt), tt), (tt, tt))

async_depth_example :
    map_run as_item (async_pre_order_depth_first_search 9 6 forest none)
    ≡ pre_order_depth_first_search 9 6 (as_tree forest) none
async_depth_example = async_pre_order_depth_first_search-as_tree 9 6 forest none forest-Steady

async_breadth_example :
    map_run as_item (async_pre_order_breadth_first_search 9 6 forest (some (top b 1)))
    ≡ pre_order_breadth_first_search 9 6 (as_tree forest) (some (top b 1))
async_breadth_example =
    async_pre_order_breadth_first_search-as_tree 9 6 forest (some (top b 1)) forest-Steady

async_post_order_example :
    (map_run as_item (async_post_order_depth_first_search 9 forest none)
      ≡ done (post_order_depth_first_search 9 (as_tree forest) none))
    × (map_run as_item (async_post_order_breadth_first_search 9 forest none)
        ≡ done (post_order_breadth_first_search 9 (as_tree forest) none))
async_post_order_example = async_post_order_searches-as_tree 9 forest none forest-Steady

abbrev levels_of : List (AnyItem ℕ) → List ℕ
levels_of items = map (λ i. i.level) items

abbrev run_levels : Run (AnyItem ℕ) → List ℕ
run_levels (done items) = levels_of items
run_levels (failed items) = levels_of items
run_levels out_of_fuel = []

abbrev is_done : Run (AnyItem ℕ) → ℕ
is_done (done items) = 1
is_done (failed items) = 0
is_done out_of_fuel = 2

-- The breadth first search meets the levels one after the other.
breadth_levels :
    run_levels (async_pre_order_breadth_first_search 9 6 forest none) ≡ 1 ∷ 1 ∷ 2 ∷ 3 ∷ []
unfolding async_pre_order_breadth_first_search async_pre_order_traversal push_slot pop_fuel push_any
    remove_node iterable_of push_plain any_start_item create_any_item
breadth_levels = refl

-- An iterable that throws after its first element.
abbrev torn : AnyTree ℕ
torn = deferred none none (yields a (plain stored) breaks)

torn_breadth :
    is_done (async_pre_order_breadth_first_search 9 6 torn none)
      ∷ run_levels (async_pre_order_breadth_first_search 9 6 torn none)
    ≡ 0 ∷ 1 ∷ []
unfolding async_pre_order_breadth_first_search async_pre_order_traversal push_slot pop_fuel push_any
    remove_node iterable_of push_plain any_start_item create_any_item
torn_breadth = refl

torn_depth : run_levels (async_pre_order_depth_first_search 9 6 torn none) ≡ []
unfolding async_pre_order_depth_first_search async_pre_order_traversal stack_push stack_pop push_any
    add_iterable iterable_of any_start_item
torn_depth = refl

abbrev async_calls : List (AsyncCall ℕ)
async_calls =
    enqueue 1
    ∷ enqueue_all finished
    ∷ enqueue_all (emits 2 (emits 3 finished))
    ∷ dequeue
    ∷ dequeue
    ∷ enqueue 4
    ∷ dequeue
    ∷ []

async_calls-Quiet : QuietCalls async_calls
unfolding QuietCalls Quiet
async_calls-Quiet = (tt, (tt, tt))

pops-firsts_example : pops new_queue async_calls ≡ firsts [] async_calls
pops-firsts_example = pops-firsts async_calls async_calls-Quiet

async_calls_left : remaining [] async_calls ≡ 4 ∷ []
unfolding remaining elements
async_calls_left = refl

size-remaining_example : 1 ≤ async_queue.length (replay new_queue async_calls)
size-remaining_example = size-remaining async_calls 4 [] async_calls-Quiet async_calls_left
