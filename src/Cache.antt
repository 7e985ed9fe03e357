-- ===== src/Cache.antt =====
-- What the operations of the cache work with: the options and the storage of
-- src/types/key-tree-cache-options.ts and src/types/key-tree-cache-storage.ts, the steps of
-- src/types/tree-type.ts, and the effects of the code: storage calls, semaphore, events, yields.
pub mod Values
pub mod DeepTreeSet
pub mod Reads
pub mod Laws
pub mod Persist
pub mod KeyLevels
pub mod TreeLevels
pub mod Setting
pub mod Reading
pub mod RoundTrip
pub mod Semaphore
pub mod Shallow
pub mod Iterate
pub mod Keeps
pub mod ReadOnly
pub mod Pruning
pub mod FullTreeSet
pub mod Searches
pub mod Reprocessing
pub mod Memoizing
pub mod Defaults
pub mod RandomIterate
pub mod Deadlines
use nodejs_proto_cache.Prelude.{
  ℕ, ◌++◌, Bool, true, false, Option, none, some, List, [], ◌∷◌, if◌then◌else◌,
}
use nodejs_proto_cache.Keys.{Text, ChainedObject, Error, Result, ok, throw, storage_error, stopped}
use nodejs_proto_cache.Tree.{Tree}

-- The serializers, which are not part of the library: `none` stands for an exception. `same` is
-- `===` on serialized values, `truthy` their truth value; `is_null` tells `null` among the values.
pub record Options (T R : Type 0) : Type 0 where
  pub key_level_nodes : ℕ
  pub serialize : T → R
  pub deserialize : R → Option T
  pub serialize_tree : Tree R → R
  pub deserialize_tree : R → Option (Tree R)
  pub same : R → R → Bool
  pub truthy : R → Bool
  pub is_null : T → Bool

-- The storage, with a state of its own. `register_child` is optional.
pub record Storage (S R : Type 0) : Type 0 where
  pub get : Text → S → Result (Option R)
  pub set : Text → R → Option ℕ → S → Result S
  pub get_current_ttl : Text → S → Result (Option ℕ)
  pub register_child : Option (Option Text → Text → S → Result S)

pub record Step (T : Type 0) : Type 0 where
  pub value : Option T
  pub key : Text
  pub level : ℕ
  pub node_ref : ChainedObject

pub data StepTtl (T : Type 0) : Type 0 where
  fixed : ℕ → StepTtl T
  by_step : (Step T → Option ℕ) → StepTtl T

-- What happens besides the calls of the storage, in order.
pub data Event (T : Type 0) : Type 0 where
  acquired released : Text → Event T
  value_error tree_error : Event T
  yielded : Step T → Event T

pub record World (S T : Type 0) : Type 0 where
  pub store : S
  pub events : List (Event T)

-- A consumer of a generator takes each step, and goes on with a value for the step, or leaves.
pub data Reply (T : Type 0) : Type 0 where
  resume : Option T → Reply T
  leave : Reply T

abbrev pub Consumer : Type 0 → Type 0
Consumer T = Step T → Reply T

abbrev pub M : Type 0 → Type 0 → Type 0 → Type 0
M S T A = World S T → Result A × World S T

-- The events of the release that `acquire` gave, if it gave one.
abbrev pub release_events : {T : Type 0} → Option Text → List (Event T)
release_events none = []
release_events (some key) = released key ∷ []

module _ {S T : Type 0} where
  abbrev pub pure : {A : Type 0} → A → M S T A
  pure a w = (ok a, w)

  abbrev pub raise : {A : Type 0} → Error → M S T A
  raise e w = (throw e, w)

  infixl 5 ◌>>=◌ ◌>>◌
  unfoldable pub ◌>>=◌ : {A B : Type 0} → M S T A → (A → M S T B) → M S T B
  ◌>>=◌ m f w = elim (m w).0 [ ok a ↦ f a (m w).1 | throw e ↦ (throw e, (m w).1) ]

  abbrev pub ◌>>◌ : {B : Type 0} → M S T (Unit {0}) → M S T B → M S T B
  m >> k = m >>= λ _. k

  abbrev pub lift : {A : Type 0} → Result A → M S T A
  lift r w = (r, w)

  abbrev pub emit : Event T → M S T (Unit {0})
  emit e w = (ok tt, record w { events = w.events ++ e ∷ [] })

  -- A call that reads the storage, and one that changes it.
  abbrev pub reading : {A : Type 0} → (S → Result A) → M S T A
  reading f w = (f w.store, w)

  abbrev pub writing : (S → Result S) → M S T (Unit {0})
  writing f w = elim (f w.store) [ ok s ↦ (ok tt, record w { store = s }) | throw e ↦ (throw e, w) ]

  -- `yield step`: the step as the consumer leaves it.
  unfoldable pub yield_step : Consumer T → Step T → M S T (Step T)
  yield_step consumer step w =
      let w' : World S T = record w { events = w.events ++ yielded step ∷ [] } in
      elim (consumer step) [
        | resume v ↦ (ok (record step { value = v }), w')
        | leave ↦ (throw stopped, w')
      ]

  -- `semaphore.acquire(key)` where the level asks for it.
  unfoldable pub acquire_if : Bool → Text → M S T (Option Text)
  acquire_if true key w = (ok (some key), record w { events = w.events ++ acquired key ∷ [] })
  acquire_if false key w = (ok none, w)

  -- `try { … } finally { dontWait(release) }`
  unfoldable pub finally_release : {A : Type 0} → Option Text → M S T A → M S T A
  finally_release release body w =
      ((body w).0, record (body w).1 { events = (body w).1.events ++ release_events release })
