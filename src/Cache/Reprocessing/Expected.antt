-- ===== src/Cache/Reprocessing/Expected.antt =====
-- The registrations that `reprocessAllKeyLevelChildren` (src/tree-key-cache.ts) is to make for keys of
-- the storage.
use nodejs_proto_cache.Prelude.{
  suc, ◌≡◌, refl, sym, ◌∙◌, ap, Option, none, some, List, [], ◌∷◌, ◌++◌, map, append_assoc, length,
}
use nodejs_proto_cache.Keys.{Text, join, split_key, Result, ok, throw}
use nodejs_proto_cache.Cache.Reprocessing.{Registered, all_of}

unfoldable pub joined {ℓ} : {A : Type ℓ} → List (List A) → List A
joined [] = []
joined (xs ∷ xss) = xs ++ joined xss

pub joined-append {ℓ} :
    {A : Type ℓ} (xss yss : List (List A)) → joined (xss ++ yss) ≡ joined xss ++ joined yss
unfolding joined
joined-append [] yss = refl
joined-append (xs ∷ xss) yss =
    ap (λ (ys : List _). xs ++ ys) (joined-append xss yss)
    ∙ sym (append_assoc xs (joined xss) (joined yss))

-- The chained key of the keys above a key, if there are any.
abbrev pub chained_above : List Text → Option Text
chained_above [] = none
chained_above (k ∷ above) = some (join (k ∷ above))

-- Each key of a path, with the chained key of those above it.
unfoldable pub path_registrations : List Text → List Text → List Registered
path_registrations above [] = []
path_registrations above (k ∷ path) =
    (chained_above above, k) ∷ path_registrations (above ++ k ∷ []) path

unfoldable pub registrations : List Text → List Registered
registrations [] = []
registrations (key ∷ keys) = path_registrations [] (split_key key) ++ registrations keys

-- The storage after registrations, one after the other.
unfoldable pub registered_all :
    {S : Type 0} → (Option Text → Text → S → Result S) → List Registered → S → Result S
registered_all register [] s = ok s
registered_all register ((prefix, k) ∷ rs) s = elim (register prefix k s) [
  | ok s' ↦ registered_all register rs s'
  | throw e ↦ throw e
]

pub registered_all-snoc :
    {S : Type 0} (register : Option Text → Text → S → Result S) (rs : List Registered)
    (prefix : Option Text) (k : Text) (s t u : S)
    → registered_all register rs s ≡ ok t
    → register prefix k t ≡ ok u
    → registered_all register (rs ++ (prefix, k) ∷ []) s ≡ ok u
unfolding registered_all
registered_all-snoc register [] prefix k s t u e last =
    let same : s ≡ t = ap (λ (x : Result _). elim x [ ok y ↦ y | throw err ↦ s ]) e in
    ap (λ (x : Result _). elim x [ ok y ↦ ok y | throw err ↦ throw err ])
      (ap (register prefix k) same ∙ last)
registered_all-snoc {S} register ((p, j) ∷ rs) prefix k s t u e last =
    next (register p j s) (λ y h. registered_all-snoc register rs prefix k y t u h last) e
  where
    next :
        (x : Result S)
        → ((y : S)
            → registered_all register rs y ≡ ok t
            → registered_all register (rs ++ (prefix, k) ∷ []) y ≡ ok u)
        → (elim x [ ok y ↦ registered_all register rs y | throw err ↦ throw err ] ≡ ok t)
        → elim x [
          | ok y ↦ registered_all register (rs ++ (prefix, k) ∷ []) y
          | throw err ↦ throw err
        ]
          ≡ ok u
    next (ok y) later h = later y h
    next (throw err) later h = absurd (cc h)

pub length-map {ℓ κ} :
    {A : Type ℓ} {B : Type κ} (f : A → B) (xs : List A) → length (map f xs) ≡ length xs
length-map f [] = refl
length-map f (x ∷ xs) = ap suc (length-map f xs)

pub all_of-ok : (xs : List Registered) → all_of (map ok xs) ≡ ok xs
unfolding all_of
all_of-ok [] = refl
all_of-ok (x ∷ xs) = rw (all_of-ok xs, all_of) refl

pub chained_above-snoc :
    (above : List Text) (k : Text) → chained_above (above ++ k ∷ []) ≡ some (join (above ++ k ∷ []))
chained_above-snoc [] k = refl
chained_above-snoc (j ∷ above) k = refl
