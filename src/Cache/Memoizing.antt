-- ===== src/Cache/Memoizing.antt =====
-- `getMemoized` of src/internal/get-memoized.ts. `A` is the promise of a result, `X` the further
-- arguments of the callback; the memoizer is not part of the library.
pub mod Once
use nodejs_proto_cache.Prelude.{Option, none, some, List, ◌∷◌}
use nodejs_proto_cache.Keys.{Text}

-- `Memoizer`, with a state of its own.
pub record Memoizer (Z A : Type 0) : Type 0 where
  pub get : Text → Z → Option A
  pub set : Text → A → Z → Z

-- The state of the memoizer, and the keys for which the callback was called, the last one first.
pub record Memory (Z : Type 0) : Type 0 where
  pub memo : Z
  pub called : List Text

module _ {Z X A : Type 0} (callback : Text → X → A) where
  abbrev pub call : Text → X → Memory Z → A × Memory Z
  call key args w = (callback key args, record w { called = key ∷ w.called })

  -- `runAndMemoize`
  unfoldable pub run_and_memoize : Memoizer Z A → Text → X → Memory Z → A × Memory Z
  run_and_memoize memoizer key args w =
      let (promise, w') = call key args w in
      (promise, record w' { memo = memoizer.set key promise w'.memo })

  -- `getMemoized`
  unfoldable pub get_memoized : Option (Memoizer Z A) → Text → X → Memory Z → A × Memory Z
  unfolding run_and_memoize
  get_memoized none key args w = call key args w
  get_memoized (some memoizer) key args w = elim (memoizer.get key w.memo) [
    | none ↦ run_and_memoize memoizer key args w
    | some result ↦ (result, w)
  ]
