-- ===== src/Graphs/Interface.antt =====
-- The contract of `SimpleList` (src/utils/graphs/graph-types.ts) that a traversal relies on.
use nodejs_proto_cache.Prelude.{◌≡◌, some, List, [], ◌∷◌, ◌++◌, length}
use nodejs_proto_cache.Graphs.{SimpleList}

abbrev pub at_end {ℓ} : {A : Type ℓ} → A → List A → List A
at_end a xs = xs ++ a ∷ []

-- The collection stands for a list, a push places an element in it by `place`, and a pop takes the
-- first element.
pub record IsListOf {ℓ} {A L : Type ℓ} (place : A → List A → List A) (list : SimpleList A L)
    (Holds : L → List A → Type ℓ) : Type ℓ where
  pub push_holds : (l : L) (xs : List A) (a : A) → Holds l xs → Holds (list.push l a) (place a xs)
  pub pop_first : (l : L) (a : A) (xs : List A) → Holds l (a ∷ xs) → (list.pop l).0 ≡ some a
  pub pop_holds : (l : L) (a : A) (xs : List A) → Holds l (a ∷ xs) → Holds (list.pop l).1 xs
  pub length_holds : (l : L) (xs : List A) → Holds l xs → list.length l ≡ length xs
