-- ===== src/Graphs/Queue/Fifo.antt =====
-- The linked queue of src/utils/graphs/queue.ts and the list that it holds.
use nodejs_proto_cache.Prelude.{
  ℕ, ◌≤◌, ◌<◌, ◌≡◌, refl, Option, none, some, List, [], ◌∷◌, ◌++◌, arith, length, length-append,
  Option-cases, inl, inr, ◌+◌,
}
use nodejs_proto_cache.Graphs.Queue.{Node, Queue, push, pop, new_queue, queue_list, set_next, write}
use nodejs_proto_cache.Graphs.Interface.{IsListOf, at_end}

module _ {ℓ} {A : Type ℓ} where
  -- The nodes from address `p` to address `l` hold `x` and then the list; each node was allocated
  -- after the one before it.
  abbrev pub Segment : (ℕ → Option (Node A)) → ℕ → ℕ → A → List A → Type ℓ
  Segment cell p l x [] = (p ≡ l) × (cell p ≡ some (record { value = x; next = none }))
  Segment cell p l x (y ∷ ys) =
      (q : ℕ) × (p < q)
      × (cell p ≡ some (record { value = x; next = some q }))
      × Segment cell q l y ys

  abbrev pub Linked : Queue A → List A → Type ℓ
  Linked q [] = (q.next ≡ none) × (q.last ≡ none) × Unit {ℓ}
  Linked q (x ∷ xs) =
      (p : ℕ) × (l : ℕ) × (q.next ≡ some p)
      × (q.last ≡ some l)
      × (l < q.fresh)
      × Segment q.cell p l x xs

  -- The queue holds the list, first element first, and counts it.
  pub record Holds (q : Queue A) (xs : List A) : Type ℓ where
    pub linked : Linked q xs
    pub counted : q.size ≡ length xs

  pub Segment-le :
      (cell : ℕ → Option (Node A)) (p l : ℕ) (x : A) (xs : List A) → Segment cell p l x xs → p ≤ l
  Segment-le cell p l x [] h = omega arith
  Segment-le cell p l x (y ∷ ys) (q, lt, _, rest) = omega (arith, Segment-le cell q l y ys rest)

  abbrev linked_cell : (ℕ → Option (Node A)) → ℕ → ℕ → A → ℕ → Option (Node A)
  linked_cell cell fresh l v =
      let new = write cell fresh (some (record { value = v; next = none })) in
      write new l (set_next (new l) fresh)

  Segment-push :
      (cell : ℕ → Option (Node A)) (fresh p l : ℕ) (v x : A) (xs : List A)
      → l < fresh
      → Segment cell p l x xs
      → Segment (linked_cell cell fresh l v) p fresh x (xs ++ v ∷ [])
  Segment-push cell fresh p l v x [] lt (e, c) =
      (fresh, ground arith, ground arith, (refl, ground arith))
  Segment-push cell fresh p l v x (y ∷ ys) lt (q, less, c, rest) = (
    q,
    less,
    ground (arith, Segment-le cell q l y ys rest),
    Segment-push cell fresh q l v y ys lt rest,
  )

  pub push-Linked :
      (q : Queue A) (xs : List A) (v : A) → Linked q xs → Linked (push q v) (xs ++ v ∷ [])
  unfolding push
  push-Linked q [] v h =
      rw (h.1, push) (q.fresh, q.fresh, refl, refl, omega arith, (refl, ground arith))
  push-Linked q (x ∷ xs) v h =
      let (p, l, first, last, lt, nodes) = h in
      rw (last, push)
        (p, q.fresh, first, refl, omega arith, Segment-push q.cell q.fresh p l v x xs lt nodes)

  pub push-size : (q : Queue A) (v : A) → (push q v).size ≡ q.size + 1
  unfolding push
  push-size q v = elim (Option-cases q.last) [
    | inl e ↦ rw (e, push) refl
    | inr (p, e) ↦ rw (e, push) refl
  ]

  push-Holds : (q : Queue A) (xs : List A) (v : A) → Holds q xs → Holds (push q v) (xs ++ v ∷ [])
  push-Holds q xs v h = record {
    linked = push-Linked q xs v h.linked;
    counted = omega (arith, push-size q v, h.counted, length-append xs (v ∷ []));
  }

  pub pop-Holds :
      (q : Queue A) (x : A) (xs : List A)
      → Holds q (x ∷ xs)
      → ((pop q).0 ≡ some x) × Holds (pop q).1 xs
  unfolding pop
  pop-Holds q x [] h =
      let (p, l, first, last, lt, nodes) = h.linked in
      rw (first, nodes.1, pop)
        (refl, record { linked = (refl, refl, tt); counted = omega (arith, h.counted) })
  pop-Holds q x (y ∷ ys) h =
      let (p, l, first, last, lt, nodes) = h.linked in
      let (r, less, c, rest) = nodes in
      rw (first, c, pop)
        (refl, record { linked = (r, l, refl, last, lt, rest); counted = omega (arith, h.counted) })

-- Whatever is pushed and popped, the linked queue keeps its elements in order of arrival: a push
-- puts the element at the end, a pop takes the first, and `length` counts them.
pub queue_list-IsListOf {ℓ} : {A : Type ℓ} → IsListOf at_end (queue_list {A = A}) Holds
queue_list-IsListOf = record {
  push_holds = push-Holds;
  pop_first = λ q x xs h. (pop-Holds q x xs h).0;
  pop_holds = λ q x xs h. (pop-Holds q x xs h).1;
  length_holds = λ q xs h. h.counted;
}

pub new_queue-Holds {ℓ} : {A : Type ℓ} → Holds (new_queue {A = A}) []
new_queue-Holds = record { linked = (refl, refl, tt); counted = refl }
