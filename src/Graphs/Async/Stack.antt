-- ===== src/Graphs/Async/Stack.antt =====
-- The stack of src/utils/graphs/async/aync-stack.ts: the elements of its array from the last to the
-- first.
use nodejs_proto_cache.Prelude.{Option, none, some, List, [], ◌∷◌, length}
use nodejs_proto_cache.Graphs.Async.{Stream, finished, emits, broken, Popped, got, AsyncSimpleList}

module _ {ℓ} {A : Type ℓ} where
  unfoldable pub stack_push : List A → A → List A
  stack_push xs a = a ∷ xs

  -- `addIterable`: every element is pushed as it comes.
  unfoldable pub add_iterable : List A → Stream A → Option (List A)
  add_iterable xs finished = some xs
  add_iterable xs (emits a s) = add_iterable (a ∷ xs) s
  add_iterable xs broken = none

  unfoldable pub stack_pop : List A → Popped A (List A)
  stack_pop [] = got none []
  stack_pop (a ∷ xs) = got (some a) xs

  abbrev pub async_stack : AsyncSimpleList A (List A)
  async_stack = record {
    push = stack_push;
    push_iterable = add_iterable;
    pop = stack_pop;
    length = length;
  }
