-- ===== src/Graphs/Queue.antt =====
-- The linked queue of src/utils/graphs/queue.ts over an explicit heap: a node is a cell, `next`
-- and `last` are the addresses of the first and the last node.
pub mod Fifo
pub mod Runs
use nodejs_proto_cache.Prelude.{ℕ, ◌+◌, ◌-◌, Option, none, some, ◌==◌, if◌then◌else◌}
use nodejs_proto_cache.Graphs.{SimpleList}

pub record Node {ℓ} (A : Type ℓ) : Type ℓ where
  pub value : A
  pub next : Option ℕ

pub record Queue {ℓ} (A : Type ℓ) : Type ℓ where
  pub cell : ℕ → Option (Node A)
  pub fresh : ℕ
  pub next : Option ℕ
  pub last : Option ℕ
  pub size : ℕ

-- `last` is reset when no node is left.
abbrev pub last_after : Option ℕ → Option ℕ → Option ℕ
last_after none last = none
last_after (some p) last = last

module _ {ℓ} {A : Type ℓ} where
  abbrev pub write : (ℕ → Option (Node A)) → ℕ → Option (Node A) → ℕ → Option (Node A)
  write cell p node q = if p == q then node else cell q

  -- `p.next = target`
  abbrev pub set_next : Option (Node A) → ℕ → Option (Node A)
  set_next none target = none
  set_next (some node) target = some (record node { next = some target })

  -- `new Queue()`
  abbrev pub new_queue : Queue A
  new_queue = record { cell = λ _. none; fresh = 0; next = none; last = none; size = 0 }

  -- The heap with the new node.
  abbrev pub allocate : Queue A → A → ℕ → Option (Node A)
  allocate q value = write q.cell q.fresh (some (record { value = value; next = none }))

  unfoldable pub push : Queue A → A → Queue A
  push q value = elim q.last [
    | none ↦ record {
      cell = allocate q value;
      fresh = q.fresh + 1;
      next = some q.fresh;
      last = some q.fresh;
      size = q.size + 1;
    }
    | some p ↦ record {
      cell = write (allocate q value) p (set_next (allocate q value p) q.fresh);
      fresh = q.fresh + 1;
      next = q.next;
      last = some q.fresh;
      size = q.size + 1;
    }
  ]

  -- The node at an address, which is in the heap.
  abbrev pub read_node : Queue A → Option (Node A)
  read_node q = elim q.next [ none ↦ none | some p ↦ q.cell p ]

  unfoldable pub peek : Queue A → Option A
  peek q = elim (read_node q) [ none ↦ none | some node ↦ some node.value ]

  unfoldable pub pop : Queue A → Option A × Queue A
  pop q = elim (read_node q) [
    | none ↦ (none, q)
    | some node ↦ (
      some node.value,
      record {
        cell = q.cell;
        fresh = q.fresh;
        next = node.next;
        last = last_after node.next q.last;
        size = q.size - 1;
      },
    )
  ]

  abbrev pub queue_list : SimpleList A (Queue A)
  queue_list = record { push = push; pop = pop; length = λ q. q.size }
