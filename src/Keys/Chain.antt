-- ===== src/Keys/Chain.antt =====
-- The chained keys that the two ways of building them give: `buildKey` over a chain of nodes, and
-- `getChainedKey` level by level (src/internal/get-chained-key.ts).
use nodejs_proto_cache.Prelude.{
  Option, ℕ, zero, suc, ◌≡◌, ◌≢◌, ◌≤◌, none, get_elem?, true, refl, sym, ◌∙◌, ap, some, List, [],
  ◌∷◌, ◌++◌, append_assoc, reverse, arith, length,
}
use mathlib.Core.List.{reverse-append, reverse-reverse}
use nodejs_proto_cache.Keys.{
  level_of, chained, Text, ChainedObject, top, below, join, push_parents, build_key, ok, throw,
  undefined_key, get_key, extend_key, get_chained_key, colon, truthy_text,
}

-- The keys on the way from the root to the node.
unfoldable pub path_of : ChainedObject → List Text
path_of (top k n) = k ∷ []
path_of (below k n p) = path_of p ++ k ∷ []

-- The keys down to a node that may be absent.
abbrev pub keys_to : Option ChainedObject → List Text
keys_to none = []
keys_to (some p) = path_of p

pub path_of-chained :
    (k : Text) (n : ℕ) (p : Option ChainedObject) → path_of (chained k n p) ≡ keys_to p ++ k ∷ []
unfolding path_of
path_of-chained k n none = refl
path_of-chained k n (some p) = refl

pub level_of-chained : (k : Text) (n : ℕ) (p : Option ChainedObject) → level_of (chained k n p) ≡ n
level_of-chained k n none = refl
level_of-chained k n (some p) = refl

push_parents-path_of :
    (keys : List Text) (node : ChainedObject)
    → push_parents keys node ≡ keys ++ reverse (path_of node)
unfolding push_parents path_of
push_parents-path_of keys (top k n) = refl
push_parents-path_of keys (below k n p) =
    rw reverse-append
      (push_parents-path_of (keys ++ k ∷ []) p ∙ append_assoc keys (k ∷ []) (reverse (path_of p)))

-- The key of a chain of nodes is the keys on its way from the root, joined.
pub build_key-path_of : (node : ChainedObject) → build_key node ≡ join (path_of node)
unfolding build_key
build_key-path_of node =
    ap (λ (keys : List Text). join (reverse keys)) (push_parents-path_of [] node)
    ∙ ap join (reverse-reverse (path_of node))

pub join-snoc :
    (path : List Text) (k : Text) → path ≢ [] → join (path ++ k ∷ []) ≡ join path ++ colon ∷ k
unfolding join
join-snoc [] k h = absurd (h refl)
join-snoc (a ∷ []) k _ = refl
join-snoc (a ∷ b ∷ ks) k _ =
    rw (join-snoc (b ∷ ks) k (cc)) (sym (append_assoc a (colon ∷ join (b ∷ ks)) (colon ∷ k)))

-- A path whose first key is not empty.
abbrev pub HasHead : List Text → Type 0
HasHead [] = ⊥
HasHead (k ∷ ks) = k ≢ []

pub join-truthy : (path : List Text) → HasHead path → truthy_text (join path) ≡ true
unfolding join
join-truthy [] h = elim h [ ]
join-truthy ([] ∷ ks) h = absurd (h refl)
join-truthy ((c ∷ k) ∷ []) h = refl
join-truthy ((c ∷ k) ∷ l ∷ ks) h = refl

pub extend_key-join :
    (path : List Text) (k : Text)
    → HasHead path
    → extend_key (some (join path)) k ≡ join (path ++ k ∷ [])
extend_key-join [] k h = absurd h
extend_key-join (a ∷ path) k h = rw (join-truthy (a ∷ path) h, join-snoc (a ∷ path) k (cc))

pub get_elem?-length :
    (path : List Text) (k : Text) (rest : List Text)
    → get_elem? (path ++ k ∷ rest) (length path) ≡ some k
get_elem?-length [] k rest = refl
get_elem?-length (a ∷ path) k rest = get_elem?-length path k rest

pub get_elem?-ge : (keys : List Text) (n : ℕ) → length keys ≤ n → get_elem? keys n ≡ none
get_elem?-ge [] n h = refl
get_elem?-ge (k ∷ keys) zero h = absurd (omega arith)
get_elem?-ge (k ∷ keys) (suc n) h = get_elem?-ge keys n (omega arith)

-- One level down the path, the key of the level is added to the chained key of the levels above,
-- so that it stays the joined path; past the end of the path the level has no key, and it throws.
-- The first key must not be empty.
pub get_chained_key-join :
    (path : List Text) (k : Text) (rest : List Text)
    → HasHead path
    → (get_chained_key (path ++ k ∷ rest) (length path) (some (join path))
        ≡ ok (join (path ++ k ∷ []), k))
      × (get_chained_key path (length path) (some (join path))
          ≡ throw (undefined_key (length path)))
unfolding get_chained_key
get_chained_key-join path k rest h = (
  rw (get_elem?-length path k rest, get_key, extend_key-join path k h),
  rw (get_elem?-ge path (length path) (omega arith), get_key),
)

-- An empty first key is dropped: the loop over the levels and `buildKey` then name the second node
-- of the path by different keys.
pub get_chained_key_drops_empty_head :
    (k : Text) (rest : List Text)
    → (get_chained_key ([] ∷ k ∷ rest) 1 (some []) ≡ ok (k, k))
      × (build_key (below k 2 (top [] 1)) ≡ colon ∷ k)
unfolding get_chained_key build_key
get_chained_key_drops_empty_head k rest = (refl, refl)
