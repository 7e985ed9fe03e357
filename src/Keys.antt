-- ===== src/Keys.antt =====
-- Keys and chained keys: src/utils/build-key.ts, src/internal/get-key.ts and
-- src/internal/get-chained-key.ts, with `ChainedObject` of src/types/tree-type.ts.
-- A string is the list of its code units; `undefined` is `none`.
pub mod RoundTrip
pub mod Chain
use nodejs_proto_cache.Prelude.{
  ℕ, Bool, true, false, ◌&&◌, Option, none, some, List, [], ◌∷◌, ◌++◌, reverse, ◌==◌, if◌then◌else◌,
  get_elem?,
}

abbrev pub Text : Type 0
Text = List ℕ

unfoldable pub text_eq : Text → Text → Bool
text_eq [] [] = true
text_eq (a ∷ s) (b ∷ t) = a == b && text_eq s t
text_eq _ _ = false

-- A string is falsy when it is empty.
abbrev pub truthy_text : Text → Bool
truthy_text [] = false
truthy_text (c ∷ s) = true

abbrev pub colon : ℕ
colon = b':'

-- `ChainedObject`: a node with a key and a level, and the node above it, if any.
pub data ChainedObject : Type 0 where
  top : Text → ℕ → ChainedObject
  below : Text → ℕ → ChainedObject → ChainedObject

abbrev pub key_of : ChainedObject → Text
key_of (top k n) = k
key_of (below k n p) = k

abbrev pub level_of : ChainedObject → ℕ
level_of (top k n) = n
level_of (below k n p) = n

-- An object built from its `key`, `level` and `parentRef`.
abbrev pub chained : Text → ℕ → Option ChainedObject → ChainedObject
chained k n none = top k n
chained k n (some p) = below k n p

-- `keys.join(':')`
unfoldable pub join : List Text → Text
join [] = []
join (k ∷ []) = k
join (k ∷ l ∷ ks) = k ++ colon ∷ join (l ∷ ks)

-- `key.split(':')`: the first part grows until a colon closes it.
unfoldable pub split_from : Text → Text → List Text
split_from part [] = part ∷ []
split_from part (c ∷ s) =
    let closed = part ∷ split_from [] s in
    let open_part = split_from (part ++ c ∷ []) s in if c == colon then closed else open_part

unfoldable pub split_key : Text → List Text
unfolding split_from
split_key = split_from []

-- The `while (parent)` loop of `buildKey`: the keys pushed so far, then those above.
unfoldable pub push_parents : List Text → ChainedObject → List Text
push_parents keys (top k n) = keys ++ k ∷ []
push_parents keys (below k n p) = push_parents (keys ++ k ∷ []) p

-- `buildKey` of a chained object.
unfoldable pub build_key : ChainedObject → Text
unfolding push_parents join
build_key node = join (reverse (push_parents [] node))

-- What may go wrong: the errors that the library throws, a parser or a storage that throws, a
-- traversal that one of these ends, and a
-- consumer that leaves a generator before its end.
pub data Error : Type 0 where
  undefined_key : ℕ → Error
  inconsistent_storage unsupported_storage algorithm_error fixed_children : Error
  parse_error storage_error traversal_error stopped : Error

pub data Result {ℓ} (A : Type ℓ) : Type ℓ where
  ok : A → Result A
  throw : Error → Result A

infixl 5 ◌>>=◌
abbrev pub ◌>>=◌ {ℓ κ} : {A : Type ℓ} {B : Type κ} → Result A → (A → Result B) → Result B
ok a >>= f = f a
throw e >>= f = throw e

-- `getKey`
unfoldable pub get_key : List Text → ℕ → Result Text
get_key keys level = elim (get_elem? keys level) [
  | none ↦ throw (undefined_key level)
  | some k ↦ ok k
]

-- The chained key of the next level: an absent or empty prefix is dropped.
abbrev pub extend_key : Option Text → Text → Text
extend_key none key = key
extend_key (some prefix) key = if truthy_text prefix then prefix ++ colon ∷ key else key

-- `getChainedKey`: the chained key, and the key of the level.
unfoldable pub get_chained_key : List Text → ℕ → Option Text → Result (Text × Text)
unfolding get_key
get_chained_key keys level prefix = do key ← get_key keys level; ok (extend_key prefix key, key)
