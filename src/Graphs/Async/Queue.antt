-- ===== src/Graphs/Async/Queue.antt =====
-- The queue of src/utils/graphs/async/aync-queue.ts over an explicit heap, which is that of the
-- queue of src/utils/graphs/queue.ts: a node holds an element or the iterator of an iterable. The
-- iterator of a node is reached through that node only, so its next state is written there.
pub mod Holding
pub mod Runs
use nodejs_proto_cache.Prelude.{ℕ, zero, suc, ◌+◌, ◌-◌, Option, none, some}
use nodejs_proto_cache.Graphs.Async.{
  Stream, finished, emits, broken, Popped, got, threw, stuck, AsyncSimpleList,
}
use nodejs_proto_cache.Graphs.Queue as Linked
use nodejs_proto_cache.Graphs.Queue.{Node, Queue, last_after, write, read_node, new_queue}

-- What a node holds.
pub data Slot {ℓ} (A : Type ℓ) : Type ℓ where
  element : A → Slot A
  iterator : Stream A → Slot A

module _ {ℓ} {A : Type ℓ} where
  -- `push`, of an element or of an iterable
  unfoldable pub push_slot : Queue (Slot A) → Slot A → Queue (Slot A)
  unfolding Linked.push
  push_slot q s = Linked.push q s

  -- `removeNode`: the size is left as it is.
  unfoldable pub remove_node : Queue (Slot A) → Queue (Slot A)
  remove_node q = elim (read_node q) [
    | none ↦ q
    | some node ↦ record q { next = node.next; last = last_after node.next q.last }
  ]

  -- The first node holds the iterator after one more `next()`.
  abbrev pub put_first : Queue (Slot A) → Option (Node (Slot A)) → Slot A → Queue (Slot A)
  put_first q none s = q
  put_first q (some node) s = elim q.next [
    | none ↦ q
    | some p ↦ record q { cell = write q.cell p (some (record node { value = s })) }
  ]

  -- `pop`, with `asyncNext`: an iterator that is done is dropped, and the next node is asked.
  unfoldable pub pop_fuel : ℕ → Queue (Slot A) → Popped A (Queue (Slot A))
  pop_fuel zero q = stuck
  pop_fuel (suc fuel) q = elim (read_node q) [
    | none ↦ got none q
    | some node ↦ elim node.value [
      | element a ↦ got (some a) (record (remove_node q) { size = q.size - 1 })
      | iterator s ↦ elim s [
        | finished ↦ pop_fuel fuel (remove_node q)
        | emits a rest ↦ got (some a) (put_first q (some node) (iterator rest))
        | broken ↦ threw
      ]
    ]
  ]

  -- The size bounds the nodes.
  abbrev pub async_queue : AsyncSimpleList A (Queue (Slot A))
  async_queue = record {
    push = λ q a. push_slot q (element a);
    push_iterable = λ q s. some (push_slot q (iterator s));
    pop = λ q. pop_fuel (suc q.size) q;
    length = λ q. q.size;
  }
