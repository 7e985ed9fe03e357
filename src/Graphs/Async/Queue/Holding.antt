-- ===== src/Graphs/Async/Queue/Holding.antt =====
-- The queue of src/utils/graphs/async/aync-queue.ts and the list of the elements that it has still
-- to give, those of its iterables included.
use nodejs_proto_cache.Prelude.{
  ℕ, zero, suc, ◌-◌, ◌≤◌, ◌<◌, ◌≡◌, refl, sym, ◌∙◌, ap, ◌⊎◌, inl, inr, Option, none, some, List, [],
  ◌∷◌, ◌++◌, append_assoc, append-nil, arith, length, length-append, All,
}
use mathlib.Core.Path.{subst}
use nodejs_proto_cache.Graphs.Interface.{at_end}
use nodejs_proto_cache.Graphs.Queue.{Node, Queue, write, read_node, new_queue}
use nodejs_proto_cache.Graphs.Queue.Fifo.{Segment, Linked, push-Linked, push-size}
use nodejs_proto_cache.Graphs.Queue.Runs.{first, others, read-none}
use nodejs_proto_cache.Graphs.Async.{finished, emits, broken, got}
use nodejs_proto_cache.Graphs.Async.Flat.{IsFlat, elements, Quiet, place_all}
use nodejs_proto_cache.Graphs.Async.Queue.{
  Slot, element, iterator, push_slot, remove_node, put_first, pop_fuel, async_queue,
}

positive : (n m : ℕ) → suc m ≤ n → (k : ℕ) × (n ≡ suc k)
positive zero m h = absurd (omega arith)
positive (suc k) m h = (k, refl)

module _ {ℓ} {A : Type ℓ} where
  -- The elements that are to come.
  unfoldable pub flat : List (Slot A) → List A
  flat [] = []
  flat (element a ∷ slots) = a ∷ flat slots
  flat (iterator s ∷ slots) = elements s ++ flat slots

  abbrev pub QuietSlot : Slot A → Type 0
  QuietSlot (element a) = Unit
  QuietSlot (iterator s) = Quiet s

  -- The nodes of the queue, which do not throw, and which its size bounds.
  pub record Holds (q : Queue (Slot A)) (xs : List A) : Type ℓ where
    pub slots : List (Slot A)
    pub linked : Linked q slots
    pub quiet : All QuietSlot slots
    pub bounded : length slots ≤ q.size
    pub flattened : flat slots ≡ xs

  flat-append : (xs ys : List (Slot A)) → flat (xs ++ ys) ≡ flat xs ++ flat ys
  unfolding flat
  flat-append [] ys = refl
  flat-append (element a ∷ xs) ys = ap (◌∷◌ a) (flat-append xs ys)
  flat-append (iterator s ∷ xs) ys =
      rw (flat-append xs ys) (sym (append_assoc (elements s) (flat xs) (flat ys)))

  All-append_one :
      (xs : List (Slot A)) (s : Slot A)
      → All QuietSlot xs
      → QuietSlot s
      → All QuietSlot (xs ++ s ∷ [])
  All-append_one [] s h quiet = (quiet, tt)
  All-append_one (x ∷ xs) s h quiet = (h.0, All-append_one xs s h.1 quiet)

  pub place_all-at_end : (xs ys : List A) → place_all at_end xs ys ≡ xs ++ ys
  unfolding place_all
  place_all-at_end xs [] = sym (append-nil xs)
  place_all-at_end xs (y ∷ ys) = place_all-at_end (xs ++ y ∷ []) ys ∙ append_assoc xs (y ∷ []) ys

  Linked-resized :
      (q : Queue (Slot A)) (slots : List (Slot A)) (n : ℕ)
      → Linked q slots
      → Linked (record q { size = n }) slots
  Linked-resized q [] n h = h
  Linked-resized q (s ∷ slots) n h = h

  Segment-write :
      (cell : ℕ → Option (Node (Slot A))) (p r l : ℕ) (v : Option (Node (Slot A))) (x : Slot A)
      (xs : List (Slot A))
      → p < r
      → Segment cell r l x xs
      → Segment (write cell p v) r l x xs
  Segment-write cell p r l v x [] lt (e, c) = (e, ground arith)
  Segment-write cell p r l v x (y ∷ ys) lt (q, less, c, rest) =
      (q, less, ground arith, Segment-write cell p q l v y ys (omega arith) rest)

  put_first-next :
      (q : Queue (Slot A)) (p : ℕ) (own : Node (Slot A)) (u : Slot A)
      → q.next ≡ some p
      → put_first q (some own) u
        ≡ record q { cell = write q.cell p (some (record own { value = u })) }
  put_first-next q p own u e =
      ap
        (λ (o : Option ℕ). elim o [
          | none ↦ q
          | some r ↦ record q { cell = write q.cell r (some (record own { value = u })) }
        ])
        e

  -- The first node is read, is dropped by `removeNode`, and may be given another state.
  Linked-first :
      (q : Queue (Slot A)) (s : Slot A) (slots : List (Slot A))
      → Linked q (s ∷ slots)
      → (n : Option ℕ) × (read_node q ≡ some (record { value = s; next = n }))
        × Linked (remove_node q) slots
        × ((remove_node q).size ≡ q.size)
        × ((u : Slot A)
            → Linked (put_first q (some (record { value = s; next = n })) u) (u ∷ slots)
              × ((put_first q (some (record { value = s; next = n })) u).size ≡ q.size))
  unfolding remove_node
  Linked-first q s [] (p, l, next, last, lt, nodes) = (
    none,
    rw (next, nodes.1) refl,
    rw (next, nodes.1, remove_node) (refl, refl, tt),
    rw (next, nodes.1, remove_node) refl,
    λ u.
        subst (λ (w : Queue (Slot A)). Linked w (u ∷ []) × (w.size ≡ q.size))
          (sym (put_first-next q p (record { value = s; next = none }) u next))
          ((p, l, next, last, lt, (nodes.0, ground arith)), refl),
  )
  Linked-first q s (y ∷ ys) (p, l, next, last, lt, (r, less, c, rest)) = (
    some r,
    rw (next, c) refl,
    rw (next, c, remove_node) (r, l, refl, last, lt, rest),
    rw (next, c, remove_node) refl,
    λ u.
        subst (λ (w : Queue (Slot A)). Linked w (u ∷ y ∷ ys) × (w.size ≡ q.size))
          (sym (put_first-next q p (record { value = s; next = some r }) u next))
          (
            (
              p,
              l,
              next,
              last,
              lt,
              (r, less, ground arith, Segment-write q.cell p r l _ y ys less rest),
            ),
            refl,
          ),
  )

  -- With fuel for the nodes, a pop gives the first of the elements to come, if there is one.
  pop-first :
      (fuel : ℕ) (q : Queue (Slot A)) (slots : List (Slot A))
      → Linked q slots
      → All QuietSlot slots
      → length slots ≤ q.size
      → length slots < fuel
      → (q' : Queue (Slot A)) × (pop_fuel fuel q ≡ got (first (flat slots)) q')
        × Holds q' (others (flat slots))
  unfolding pop_fuel flat Quiet elements
  pop-first zero q slots h quiet bound lt = absurd (omega arith)
  pop-first (suc fuel) q [] h quiet bound lt = (
    q,
    rw (read-none q h.0, pop_fuel) refl,
    record { slots = []; linked = h; quiet = tt; bounded = bound; flattened = refl },
  )
  pop-first (suc fuel) q (element a ∷ slots) h quiet bound lt =
      let (n, read, left, same, put) = Linked-first q (element a) slots h in
      (
        record (remove_node q) { size = q.size - 1 },
        rw (read, pop_fuel) refl,
        record {
          slots = slots;
          linked = Linked-resized (remove_node q) slots (q.size - 1) left;
          quiet = quiet.1;
          bounded = omega arith;
          flattened = refl;
        },
      )
  pop-first (suc fuel) q (iterator finished ∷ slots) h quiet bound lt =
      let (n, read, left, same, put) = Linked-first q (iterator finished) slots h in
      let (q', popped, holds) =
        pop-first fuel (remove_node q) slots left quiet.1 (omega (arith, same)) (omega arith) in
      (q', rw (read, pop_fuel) popped, holds)
  pop-first (suc fuel) q (iterator (emits a s) ∷ slots) h quiet bound lt =
      let (n, read, left, same, put) = Linked-first q (iterator (emits a s)) slots h in
      let (linked, kept) = put (iterator s) in
      (
        put_first q (some (record { value = iterator (emits a s); next = n })) (iterator s),
        rw (read, pop_fuel) refl,
        record {
          slots = iterator s ∷ slots;
          linked = linked;
          quiet = quiet;
          bounded = omega (arith, kept);
          flattened = refl;
        },
      )
  pop-first (suc fuel) q (iterator broken ∷ slots) h quiet bound lt = absurd quiet.0

  pub push_slot-Holds :
      (q : Queue (Slot A)) (xs : List A) (s : Slot A)
      → QuietSlot s
      → Holds q xs
      → Holds (push_slot q s) (xs ++ flat (s ∷ []))
  unfolding push_slot
  push_slot-Holds q xs s quiet h = record {
    slots = h.slots ++ s ∷ [];
    linked = push-Linked q h.slots s h.linked;
    quiet = All-append_one h.slots s h.quiet quiet;
    bounded = omega (arith, push-size q s, h.bounded, length-append h.slots (s ∷ []));
    flattened =
        flat-append h.slots (s ∷ []) ∙ ap (λ (ys : List A). ys ++ flat (s ∷ [])) h.flattened;
  }

  pub pop-Holds :
      (q : Queue (Slot A)) (xs : List A)
      → Holds q xs
      → (q' : Queue (Slot A)) × (pop_fuel (suc q.size) q ≡ got (first xs) q') × Holds q' (others xs)
  pop-Holds q xs h =
      rw (sym h.flattened)
        (pop-first (suc q.size) q h.slots h.linked h.quiet h.bounded (omega (arith, h.bounded)))

  pub not_empty :
      (a : A) (xs : List A) (slots : List (Slot A)) → flat slots ≡ a ∷ xs → 1 ≤ length slots
  unfolding flat
  not_empty a xs [] e = absurd (cc)
  not_empty a xs (s ∷ slots) e = omega arith

  size-cases :
      (n : ℕ) (q : Queue (Slot A))
      → q.size ≡ n
      → Holds q []
      → (q.size ≡ 0)
        ⊎ ((m : ℕ) × (q.size ≡ suc m)
            × (q' : Queue (Slot A)) × (pop_fuel (suc q.size) q ≡ got none q'))
  size-cases zero q e h = inl e
  size-cases (suc m) q e h = let (q', popped, holds) = pop-Holds q [] h in inr (m, e, q', popped)

-- The queue gives its elements in order of arrival, each iterable being read to its end in its
-- turn. A pop ends within its fuel: no more nodes are left than the size counts.
pub async_queue-IsFlat {ℓ} : {A : Type ℓ} → IsFlat at_end (async_queue {A = A}) Holds
unfolding flat
async_queue-IsFlat = record {
  push_holds = λ q xs a h. push_slot-Holds q xs (element a) tt h;
  iterable_holds = λ q xs s quiet h. (
    _,
    refl,
    rw (place_all-at_end xs (elements s), sym (append-nil (elements s)))
        (push_slot-Holds q xs (iterator s) quiet h),
  );
  pop_holds = λ q a xs h. pop-Holds q (a ∷ xs) h;
  length_holds =
      λ q a xs h. positive q.size 0 (omega (arith, h.bounded, not_empty a xs h.slots h.flattened));
  end_holds = λ q h. size-cases q.size q refl h;
}

pub new_queue-Holds {ℓ} : {A : Type ℓ} → Holds (new_queue {A = Slot A}) []
unfolding flat
new_queue-Holds = record {
  slots = [];
  linked = (refl, refl, tt);
  quiet = tt;
  bounded = omega arith;
  flattened = refl;
}
