-- ===== src/Graphs/Queue/Runs.antt =====
-- The queue of src/utils/graphs/queue.ts from the outside: what the callers of `push`, `peek`,
-- `pop` and `length` see, whatever they call in whatever order.
use nodejs_proto_cache.Prelude.{
  ℕ, ◌≡◌, refl, ap, Option, none, some, inl, inr, Option-cases, List, [], ◌∷◌, ◌++◌, ◌-◌, length,
}
use mathlib.Core.Path.{ap₂}
use nodejs_proto_cache.Graphs.Queue.{Node, Queue, last_after, new_queue, push, peek, pop, read_node}
use nodejs_proto_cache.Graphs.Queue.Fifo.{Holds, pop-Holds, queue_list-IsListOf, new_queue-Holds}

pub data Call {ℓ} (A : Type ℓ) : Type ℓ where
  enqueue : A → Call A
  look dequeue count : Call A

-- What a call returns.
pub data Answer {ℓ} (A : Type ℓ) : Type ℓ where
  nothing : Answer A
  element : Option A → Answer A
  size : ℕ → Answer A

module _ {ℓ} {A : Type ℓ} where
  -- The answers of the queue to a sequence of calls.
  unfoldable pub answers : Queue A → List (Call A) → List (Answer A)
  answers q [] = []
  answers q (enqueue a ∷ calls) = nothing ∷ answers (push q a) calls
  answers q (look ∷ calls) = element (peek q) ∷ answers q calls
  answers q (dequeue ∷ calls) = element (pop q).0 ∷ answers (pop q).1 calls
  answers q (count ∷ calls) = size q.size ∷ answers q calls

  abbrev pub first : List A → Option A
  first [] = none
  first (x ∷ xs) = some x

  abbrev pub others : List A → List A
  others [] = []
  others (x ∷ xs) = xs

  -- The answers of a list whose elements are added at the end and taken from the front.
  unfoldable pub expected : List A → List (Call A) → List (Answer A)
  expected xs [] = []
  expected xs (enqueue a ∷ calls) = nothing ∷ expected (xs ++ a ∷ []) calls
  expected xs (look ∷ calls) = element (first xs) ∷ expected xs calls
  expected xs (dequeue ∷ calls) = element (first xs) ∷ expected (others xs) calls
  expected xs (count ∷ calls) = size (length xs) ∷ expected xs calls

  peek-pop : (q : Queue A) → peek q ≡ (pop q).0
  unfolding peek pop
  peek-pop q = elim (Option-cases (read_node q)) [
    | inl e ↦ rw (e, peek, pop) refl
    | inr (n, e) ↦ rw (e, peek, pop) refl
  ]

  pub read-none : (q : Queue A) → q.next ≡ none → read_node q ≡ none
  read-none q e = ap (λ (o : Option ℕ). elim o [ none ↦ none | some p ↦ q.cell p ]) e

  pop-idle : (q : Queue A) → read_node q ≡ none → pop q ≡ (none, q)
  unfolding pop
  pop-idle q e =
      ap
        (λ (o : Option (Node A)). elim o [
          | none ↦ (none, q)
          | some own ↦ (
            some own.value,
            record {
              cell = q.cell;
              fresh = q.fresh;
              next = own.next;
              last = last_after own.next q.last;
              size = q.size - 1;
            },
          )
        ])
        e

  pop-first :
      (q : Queue A) (xs : List A)
      → Holds q xs
      → ((pop q).0 ≡ first xs) × Holds (pop q).1 (others xs)
  pop-first q [] h =
      let idle = pop-idle q (read-none q h.linked.0) in
      (ap (λ (w : Option A × Queue A). w.0) idle, rw idle h)
  pop-first q (x ∷ xs) h = pop-Holds q x xs h

  answers-Holds :
      (calls : List (Call A)) (q : Queue A) (xs : List A)
      → Holds q xs
      → answers q calls ≡ expected xs calls
  unfolding answers expected
  answers-Holds [] q xs h = refl
  answers-Holds (enqueue a ∷ calls) q xs h =
      ap (◌∷◌ nothing)
        (answers-Holds calls (push q a) (xs ++ a ∷ []) (queue_list-IsListOf.push_holds q xs a h))
  answers-Holds (look ∷ calls) q xs h =
      rw (peek-pop q, (pop-first q xs h).0)
        (ap (◌∷◌ (element (first xs))) (answers-Holds calls q xs h))
  answers-Holds (dequeue ∷ calls) q xs h = rw (pop-first q xs h).0 (
      ap (◌∷◌ (element (first xs)))
        (answers-Holds calls (pop q).1 (others xs) (pop-first q xs h).1))
  answers-Holds (count ∷ calls) q xs h = ap₂ ◌∷◌ (ap size h.counted) (answers-Holds calls q xs h)

-- A new queue answers every sequence of calls of `push`, `peek`, `pop` and `length`, in any order,
-- as a list does whose elements are added at the end and taken from the front; `peek` and `pop`
-- give `undefined` when it is empty.
pub answers-expected {ℓ} :
    {A : Type ℓ} (calls : List (Call A)) → answers new_queue calls ≡ expected [] calls
answers-expected calls = answers-Holds calls new_queue [] new_queue-Holds
