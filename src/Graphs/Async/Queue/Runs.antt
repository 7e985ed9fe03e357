-- ===== src/Graphs/Async/Queue/Runs.antt =====
-- The queue of src/utils/graphs/async/aync-queue.ts from the outside: what the callers of `push`,
-- `pop` and `length` see, whatever they call in whatever order.
use nodejs_proto_cache.Prelude.{
  ◌≤◌, ◌≡◌, refl, ap, Option, none, some, List, [], ◌∷◌, ◌++◌, append-nil, arith,
}
use mathlib.Core.Path.{subst}
use nodejs_proto_cache.Graphs.Queue.{Queue, new_queue}
use nodejs_proto_cache.Graphs.Queue.Runs.{first, others}
use nodejs_proto_cache.Graphs.Async.{Stream, Popped, got, threw, stuck}
use nodejs_proto_cache.Graphs.Async.Flat.{elements, Quiet}
use nodejs_proto_cache.Graphs.Async.Queue.{Slot, async_queue, push_slot, iterator}
use nodejs_proto_cache.Graphs.Async.Queue.Holding.{
  Holds, pop-Holds, async_queue-IsFlat, new_queue-Holds, not_empty, push_slot-Holds, flat,
}

pub data AsyncCall {ℓ} (A : Type ℓ) : Type ℓ where
  enqueue : A → AsyncCall A
  enqueue_all : Stream A → AsyncCall A
  dequeue : AsyncCall A

module _ {ℓ} {A : Type ℓ} where
  -- What a pop answers: an element or `undefined`, or nothing, if it throws or is out of fuel.
  abbrev pub answer_of : Popped A (Queue (Slot A)) → Option (Option A)
  answer_of (got a q) = some a
  answer_of threw = none
  answer_of stuck = none

  abbrev pub left_of : Queue (Slot A) → Popped A (Queue (Slot A)) → Queue (Slot A)
  left_of q (got a q') = q'
  left_of q threw = q
  left_of q stuck = q

  abbrev pub after_call : Queue (Slot A) → AsyncCall A → Queue (Slot A)
  after_call q (enqueue a) = async_queue.push q a
  after_call q (enqueue_all s) = push_slot q (iterator s)
  after_call q dequeue = left_of q (async_queue.pop q)

  -- The answers of the pops among the calls, and the queue after the calls.
  unfoldable pub pops : Queue (Slot A) → List (AsyncCall A) → List (Option (Option A))
  pops q [] = []
  pops q (enqueue a ∷ calls) = pops (after_call q (enqueue a)) calls
  pops q (enqueue_all s ∷ calls) = pops (after_call q (enqueue_all s)) calls
  pops q (dequeue ∷ calls) = answer_of (async_queue.pop q) ∷ pops (after_call q dequeue) calls

  unfoldable pub replay : Queue (Slot A) → List (AsyncCall A) → Queue (Slot A)
  replay q [] = q
  replay q (call ∷ calls) = replay (after_call q call) calls

  -- The same of a list to whose end the elements go, those of an iterable one after the other.
  abbrev pub list_after : List A → AsyncCall A → List A
  list_after xs (enqueue a) = xs ++ a ∷ []
  list_after xs (enqueue_all s) = xs ++ elements s
  list_after xs dequeue = others xs

  unfoldable pub firsts : List A → List (AsyncCall A) → List (Option (Option A))
  firsts xs [] = []
  firsts xs (enqueue a ∷ calls) = firsts (list_after xs (enqueue a)) calls
  firsts xs (enqueue_all s ∷ calls) = firsts (list_after xs (enqueue_all s)) calls
  firsts xs (dequeue ∷ calls) = some (first xs) ∷ firsts (list_after xs dequeue) calls

  unfoldable pub remaining : List A → List (AsyncCall A) → List A
  remaining xs [] = xs
  remaining xs (call ∷ calls) = remaining (list_after xs call) calls

  -- No iterable that is pushed throws.
  unfoldable pub QuietCalls : List (AsyncCall A) → Type 0
  QuietCalls [] = Unit
  QuietCalls (enqueue a ∷ calls) = QuietCalls calls
  QuietCalls (enqueue_all s ∷ calls) = Quiet s × QuietCalls calls
  QuietCalls (dequeue ∷ calls) = QuietCalls calls

  enqueue_all-Holds :
      (q : Queue (Slot A)) (xs : List A) (s : Stream A)
      → Quiet s
      → Holds q xs
      → Holds (push_slot q (iterator s)) (xs ++ elements s)
  unfolding flat
  enqueue_all-Holds q xs s quiet h =
      subst (λ (ys : List A). Holds (push_slot q (iterator s)) (xs ++ ys)) (append-nil (elements s))
        (push_slot-Holds q xs (iterator s) quiet h)

  pops-Holds :
      (calls : List (AsyncCall A)) (q : Queue (Slot A)) (xs : List A)
      → QuietCalls calls
      → Holds q xs
      → (pops q calls ≡ firsts xs calls) × Holds (replay q calls) (remaining xs calls)
  unfolding pops firsts replay remaining QuietCalls
  pops-Holds [] q xs quiet h = (refl, h)
  pops-Holds (enqueue a ∷ calls) q xs quiet h =
      pops-Holds calls _ (xs ++ a ∷ []) quiet (async_queue-IsFlat.push_holds q xs a h)
  pops-Holds (enqueue_all s ∷ calls) q xs quiet h =
      pops-Holds calls _ (xs ++ elements s) quiet.1 (enqueue_all-Holds q xs s quiet.0 h)
  pops-Holds (dequeue ∷ calls) q xs quiet h =
      let (q', popped, holds) = pop-Holds q xs h in
      let (same, kept) = pops-Holds calls q' (others xs) quiet holds in
      rw popped (ap (◌∷◌ (some (first xs))) same, kept)

  size-positive : (a : A) (q : Queue (Slot A)) (xs : List A) → Holds q (a ∷ xs) → 1 ≤ q.size
  size-positive a q xs h = omega (arith, h.bounded, not_empty a xs h.slots h.flattened)

-- A new asynchronous queue answers its pops, between any pushes of elements and of iterables that do
-- not throw, as a list does to whose end all the elements go, each iterable's in place of it: no
-- pop throws or fails to end, and it answers `undefined` exactly when the list is empty.
pub pops-firsts {ℓ} :
    {A : Type ℓ} (calls : List (AsyncCall A))
    → QuietCalls calls
    → pops new_queue calls ≡ firsts [] calls
pops-firsts calls quiet = (pops-Holds calls new_queue [] quiet new_queue-Holds).0

-- After any calls, with iterables that do not throw, `length` is not 0 while an element is left, so
-- that a loop on `length > 0` leaves none behind.
pub size-remaining {ℓ} :
    {A : Type ℓ} (calls : List (AsyncCall A)) (a : A) (xs : List A)
    → QuietCalls calls
    → remaining [] calls ≡ a ∷ xs
    → 1 ≤ async_queue.length (replay new_queue calls)
size-remaining calls a xs quiet e = size-positive a (replay new_queue calls) xs (
    subst (Holds (replay new_queue calls)) e
      (pops-Holds calls new_queue [] quiet new_queue-Holds).1)
