-- ===== src/Graphs/Async/Flat.antt =====
-- The contract of `AsyncSimpleList` (src/utils/graphs/async/async-struct-helper.ts) that a traversal
-- relies on, and the tree in memory that an asynchronous tree stands for.
use nodejs_proto_cache.Prelude.{
  ℕ, suc, ◌≡◌, refl, ap, ◌⊎◌, Option, none, some, List, [], ◌∷◌, map, All,
}
use nodejs_proto_cache.Keys.{Text, ChainedObject}
use nodejs_proto_cache.Tree.{Tree, Entries, branch, nil, entry, hole, entries_of, current_value}
use nodejs_proto_cache.Graphs.{
  Item, Pending, Run, done, failed, out_of_fuel, create_traversal_item, yield_pending,
}
use nodejs_proto_cache.Graphs.Async.{
  AnyTree, AnyEntries, plain, deferred, ends, yields, skips, breaks, Stream, finished, emits,
  broken, AnyItem, AnyPending, any_current_value, create_any_item, got, AsyncSimpleList, yield_any,
  iterable_of,
}

module _ {ℓ} {A : Type ℓ} where
  -- What a stream gives, and that it does not throw.
  unfoldable pub elements : Stream A → List A
  elements finished = []
  elements (emits a s) = a ∷ elements s
  elements broken = []

  unfoldable pub Quiet : Stream A → Type 0
  Quiet finished = Unit
  Quiet (emits a s) = Quiet s
  Quiet broken = ⊥

  unfoldable pub place_all : (A → List A → List A) → List A → List A → List A
  place_all place xs [] = xs
  place_all place xs (a ∷ more) = place_all place (place a xs) more

-- The list stands for the elements that it will give, in that order, those of an iterable
-- included: a push places them by `place`, one after the other, and a pop takes the first.
pub record IsFlat {ℓ} {A L : Type ℓ} (place : A → List A → List A) (list : AsyncSimpleList A L)
    (Holds : L → List A → Type ℓ) : Type ℓ where
  pub push_holds : (l : L) (xs : List A) (a : A) → Holds l xs → Holds (list.push l a) (place a xs)
  pub iterable_holds :
      (l : L) (xs : List A) (s : Stream A)
      → Quiet s
      → Holds l xs
      → (l' : L) × (list.push_iterable l s ≡ some l') × Holds l' (place_all place xs (elements s))
  pub pop_holds :
      (l : L) (a : A) (xs : List A)
      → Holds l (a ∷ xs)
      → (l' : L) × (list.pop l ≡ got (some a) l') × Holds l' xs
  pub length_holds :
      (l : L) (a : A) (xs : List A) → Holds l (a ∷ xs) → (n : ℕ) × (list.length l ≡ suc n)
  pub end_holds :
      (l : L)
      → Holds l []
      → (list.length l ≡ 0)
        ⊎ ((n : ℕ) × (list.length l ≡ suc n) × (l' : L) × (list.pop l ≡ got none l'))

-- The tree in memory with the same nodes: the children are read to their end, and a child that is
-- `undefined` is a property that holds `undefined`.
unfoldable mutual
  pub as_tree {ℓ} : {R : Type ℓ} → AnyTree R → Tree R
  as_tree (plain t) = t
  as_tree (deferred v d es) = branch v d (as_entries es)

  pub as_entries {ℓ} : {R : Type ℓ} → AnyEntries R → Entries R
  as_entries ends = nil
  as_entries (yields k t es) = entry k (as_tree t) (as_entries es)
  as_entries (skips k es) = hole k (as_entries es)
  as_entries breaks = nil

-- No iterable of the tree throws.
unfoldable mutual
  pub Steady {ℓ} : {R : Type ℓ} → AnyTree R → Type 0
  Steady (plain t) = Unit
  Steady (deferred v d es) = SteadyEntries es

  pub SteadyEntries {ℓ} : {R : Type ℓ} → AnyEntries R → Type 0
  SteadyEntries ends = Unit
  SteadyEntries (yields k t es) = Steady t × SteadyEntries es
  SteadyEntries (skips k es) = SteadyEntries es
  SteadyEntries breaks = ⊥

unfoldable pub as_item {ℓ} : {R : Type ℓ} → AnyItem R → Item R
unfolding as_tree
as_item i = record {
  key = i.key;
  level = i.level;
  parent_ref = i.parent_ref;
  value = i.value;
  tree_ref = as_tree i.tree_ref;
}

abbrev pub as_pending {ℓ} : {R : Type ℓ} → AnyPending R → Pending R
as_pending p = record { tree = as_tree p.tree; level = p.level; key = p.key; parent = p.parent }

-- What a run yields, each item by itself.
unfoldable pub map_run {ℓ κ} : {A : Type ℓ} {B : Type κ} → (A → B) → Run A → Run B
map_run f (done out) = done (map f out)
map_run f (failed out) = failed (map f out)
map_run f out_of_fuel = out_of_fuel

module _ {ℓ} {R : Type ℓ} where
  pub current_value-as_tree :
      (t : AnyTree R) (now : ℕ) → any_current_value t now ≡ current_value (as_tree t) now
  unfolding any_current_value as_tree current_value
  current_value-as_tree (plain t) now = refl
  current_value-as_tree (deferred v d es) now = refl

  pub as_item-create :
      (k : Text) (level : ℕ) (parent : Option ChainedObject) (t : AnyTree R) (now : ℕ)
      → as_item (create_any_item k level parent t now)
        ≡ create_traversal_item k level parent (as_tree t) now
  unfolding as_item create_any_item create_traversal_item
  as_item-create k level parent t now = rw current_value-as_tree refl

  keyed_items :
      (k : Option Text) (t : AnyTree R) (level : ℕ) (parent : Option ChainedObject) (now : ℕ)
      → map as_item (yield_any now (record { tree = t; level = level; key = k; parent = parent }))
        ≡ yield_pending now (record { tree = as_tree t; level = level; key = k; parent = parent })
  keyed_items none t level parent now = refl
  keyed_items (some k) t level parent now = ap (λ i. i ∷ []) (as_item-create k level parent t now)

  pub as_item-yield :
      (p : AnyPending R) (now : ℕ)
      → map as_item (yield_any now p) ≡ yield_pending now (as_pending p)
  as_item-yield p now = keyed_items p.key p.tree p.level p.parent now

  -- The children of a node, as tuples.
  unfoldable pub plain_children : Entries R → ℕ → Option ChainedObject → List (AnyPending R)
  plain_children nil level parent = []
  plain_children (entry k t es) level parent =
      record { tree = plain t; level = level; key = some k; parent = parent }
      ∷ plain_children es level parent
  plain_children (hole k es) level parent = plain_children es level parent

  unfoldable pub any_children : AnyTree R → ℕ → Option ChainedObject → List (AnyPending R)
  any_children (plain t) level parent = plain_children (entries_of t) level parent
  any_children (deferred v d es) level parent = elements (iterable_of es level parent)

  pub Quiet-iterable_of :
      (es : AnyEntries R) (level : ℕ) (parent : Option ChainedObject)
      → SteadyEntries es
      → Quiet (iterable_of es level parent)
  unfolding Quiet iterable_of SteadyEntries
  Quiet-iterable_of ends level parent h = tt
  Quiet-iterable_of (yields k t es) level parent h = Quiet-iterable_of es level parent h.1
  Quiet-iterable_of (skips k es) level parent h = Quiet-iterable_of es level parent h
  Quiet-iterable_of breaks level parent h = h

  All-elements :
      (es : AnyEntries R) (level : ℕ) (parent : Option ChainedObject)
      → SteadyEntries es
      → All (λ p. Steady p.tree) (elements (iterable_of es level parent))
  unfolding elements iterable_of SteadyEntries
  All-elements ends level parent h = tt
  All-elements (yields k t es) level parent h = (h.0, All-elements es level parent h.1)
  All-elements (skips k es) level parent h = All-elements es level parent h
  All-elements breaks level parent h = absurd h

  All-plain_children :
      (es : Entries R) (level : ℕ) (parent : Option ChainedObject)
      → All (λ p. Steady p.tree) (plain_children es level parent)
  unfolding plain_children Steady
  All-plain_children nil level parent = tt
  All-plain_children (entry k t es) level parent = (tt, All-plain_children es level parent)
  All-plain_children (hole k es) level parent = All-plain_children es level parent

  pub All-any_children :
      (t : AnyTree R) (level : ℕ) (parent : Option ChainedObject)
      → Steady t
      → All (λ p. Steady p.tree) (any_children t level parent)
  unfolding any_children Steady
  All-any_children (plain t) level parent h = All-plain_children (entries_of t) level parent
  All-any_children (deferred v d es) level parent h = All-elements es level parent h
