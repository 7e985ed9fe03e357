-- ===== src/Graphs/Async.antt =====
-- The traversals of a tree whose children come one by one: src/utils/graphs/async. `AsyncTree` and
-- `AnyTree` are of src/types/tree-type.ts, `AsyncSimpleList` of
-- src/utils/graphs/async/async-struct-helper.ts, and the loop over the list is
-- src/utils/graphs/async/async-tree-pre-order-traversal.ts. An async iterable is the list of what
-- it gives; it ends, or it throws. The tree does not change while it is traversed.
pub mod Stack
pub mod Queue
pub mod Flat
pub mod Lockstep
pub mod Searches
pub mod PostOrder
use nodejs_proto_cache.Prelude.{
  ℕ, zero, suc, ◌+◌, Option, none, some, List, [], ◌∷◌, ◌++◌, if◌then◌else◌,
}
use nodejs_proto_cache.Keys.{Text, ChainedObject, chained, key_of, level_of}
use nodejs_proto_cache.Tree.{Tree, Entries, nil, entry, hole, entries_of, current_value, expired}
use nodejs_proto_cache.Graphs.{Run, done, failed, out_of_fuel, level_or_zero, parent_of}

-- A tree in memory, or one whose `children` is a function that gives an async iterable.
mutual
  pub data AnyTree {ℓ} (R : Type ℓ) : Type ℓ where
    plain : Tree R → AnyTree R
    deferred : Option R → Option ℕ → AnyEntries R → AnyTree R

  -- What that iterable gives: pairs of a key and a tree, or of a key and `undefined`.
  pub data AnyEntries {ℓ} (R : Type ℓ) : Type ℓ where
    ends : AnyEntries R
    yields : Text → AnyTree R → AnyEntries R → AnyEntries R
    skips : Text → AnyEntries R → AnyEntries R
    breaks : AnyEntries R

-- What an async iterable has left to give.
pub data Stream {ℓ} (A : Type ℓ) : Type ℓ where
  finished : Stream A
  emits : A → Stream A → Stream A
  broken : Stream A

-- `AnyTraversalItem`
pub record AnyItem {ℓ} (R : Type ℓ) : Type ℓ where
  pub key : Text
  pub level : ℕ
  pub parent_ref : Option ChainedObject
  pub value : Option R
  pub tree_ref : AnyTree R

abbrev pub any_item_ref {ℓ} : {R : Type ℓ} → AnyItem R → ChainedObject
any_item_ref i = chained i.key i.level i.parent_ref

-- `getTreeCurrentSerializedValue`
unfoldable pub any_current_value {ℓ} : {R : Type ℓ} → AnyTree R → ℕ → Option R
any_current_value (plain t) now = current_value t now
any_current_value (deferred v d es) now = if expired d now then none else v

-- `createTraversalItem`
unfoldable pub create_any_item {ℓ} :
    {R : Type ℓ} → Text → ℕ → Option ChainedObject → AnyTree R → ℕ → AnyItem R
create_any_item key level parent tree now = record {
  key = key;
  level = level;
  parent_ref = parent;
  value = any_current_value tree now;
  tree_ref = tree;
}

-- What a pop gives: an element, or `undefined`, and the list left; or it throws.
pub data Popped {ℓ} (A L : Type ℓ) : Type ℓ where
  got : Option A → L → Popped A L
  threw stuck : Popped A L

-- `AsyncSimpleList`: `push` of an element, and of an async iterable, which may throw.
pub record AsyncSimpleList {ℓ} (A L : Type ℓ) : Type ℓ where
  pub push : L → A → L
  pub push_iterable : L → Stream A → Option L
  pub pop : L → Popped A L
  pub length : L → ℕ

-- A tuple of the list: tree, level, key and parent.
pub record AnyPending {ℓ} (R : Type ℓ) : Type ℓ where
  pub tree : AnyTree R
  pub level : ℕ
  pub key : Option Text
  pub parent : Option ChainedObject

abbrev pub yield_any {ℓ} : {R : Type ℓ} → ℕ → AnyPending R → List (AnyItem R)
yield_any now p = elim p.key [
  | none ↦ []
  | some k ↦ create_any_item k p.level p.parent p.tree now ∷ []
]

abbrev pub any_node_of {ℓ} : {R : Type ℓ} → AnyPending R → Option ChainedObject
any_node_of p = elim p.key [ none ↦ p.parent | some k ↦ some (chained k p.level p.parent) ]

-- `pushIterable`, given the level of the children and their parent.
unfoldable pub iterable_of {ℓ} :
    {R : Type ℓ} → AnyEntries R → ℕ → Option ChainedObject → Stream (AnyPending R)
iterable_of ends level parent = finished
iterable_of (yields k t es) level parent =
    emits (record { tree = t; level = level; key = some k; parent = parent })
      (iterable_of es level parent)
iterable_of (skips k es) level parent = iterable_of es level parent
iterable_of breaks level parent = broken

unfoldable pub any_start_item {ℓ} :
    {R : Type ℓ} → ℕ → AnyTree R → Option ChainedObject → List (AnyItem R)
any_start_item now root none = []
any_start_item now root (some p) =
    create_any_item (key_of p) (level_of p) (parent_of p) root now ∷ []

abbrev pub any_root {ℓ} : {R : Type ℓ} → AnyTree R → Option ChainedObject → AnyPending R
any_root root start = record {
  tree = root;
  level = level_or_zero start;
  key = none;
  parent = start;
}

module _ {ℓ} {R L : Type ℓ} (list : AsyncSimpleList (AnyPending R) L) where
  -- The `for … in` loop over the children of a tree in memory.
  unfoldable pub push_plain : L → Entries R → ℕ → Option ChainedObject → L
  push_plain l nil level parent = l
  push_plain l (entry k t es) level parent =
      push_plain
        (list.push l (record { tree = plain t; level = level; key = some k; parent = parent })) es
        level parent
  push_plain l (hole k es) level parent = push_plain l es level parent

  -- The children of a node go to the list: one by one, or as an iterable.
  unfoldable pub push_any : L → AnyTree R → ℕ → Option ChainedObject → Option L
  push_any l (plain t) level parent = some (push_plain l (entries_of t) (level + 1) parent)
  push_any l (deferred v d es) level parent =
      list.push_iterable l (iterable_of es (level + 1) parent)

module _ {ℓ} {R L : Type ℓ} (list : AsyncSimpleList (AnyPending R) L) (now : ℕ) where
  -- The `while` loop. It also ends where the list has a length and gives nothing.
  unfoldable pub async_pre_order_loop : ℕ → L → List (AnyItem R) → Run (AnyItem R)
  async_pre_order_loop zero l out = out_of_fuel
  async_pre_order_loop (suc fuel) l out = elim (list.length l) [
    | zero ↦ done out
    | suc n ↦ elim (list.pop l) [
      | threw ↦ failed out
      | stuck ↦ out_of_fuel
      | got first l' ↦ elim first [
        | none ↦ done out
        | some p ↦ elim (push_any list l' p.tree p.level (any_node_of p)) [
          | none ↦ failed (out ++ yield_any now p)
          | some l'' ↦ async_pre_order_loop fuel l'' (out ++ yield_any now p)
        ]
      ]
    ]
  ]

  -- `asyncTreePreOrderTraversal` with the list `l` that it is given.
  unfoldable pub async_pre_order_traversal :
      ℕ → L → AnyTree R → Option ChainedObject → Run (AnyItem R)
  unfolding async_pre_order_loop
  async_pre_order_traversal fuel l root start =
      async_pre_order_loop fuel (list.push l (any_root root start)) (any_start_item now root start)
