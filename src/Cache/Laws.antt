-- ===== src/Cache/Laws.antt =====
-- What the cache relies on: the storage that it is given (src/types/key-tree-cache-storage.ts) and
-- the serializers of its options (src/types/key-tree-cache-options.ts), neither of which is part of
-- the library.
use nodejs_proto_cache.Prelude.{◌∙◌, ℕ, ◌≡◌, ◌≢◌, ap, true, Option, some, List}
use nodejs_proto_cache.Keys.{Text, Result, ok, throw}
use nodejs_proto_cache.Tree.{Tree}
use nodejs_proto_cache.Tree.Paths.{value_at}
use nodejs_proto_cache.Cache.{Options, Storage, World, M, ◌>>=◌, reading, writing}

-- The storage answers every call; it reads what was set last for a key, and a set of one key or a
-- registration of a child does not change what other keys hold.
pub record IsReliable {S R : Type 0} (storage : Storage S R) (lookup : S → Text → Option R)
    : Type 0 where
  pub get_lem : (k : Text) (s : S) → storage.get k s ≡ ok (lookup s k)
  pub set_lem :
      (k : Text) (r : R) (ttl : Option ℕ) (s : S)
      → (s' : S) × (storage.set k r ttl s ≡ ok s')
        × (lookup s' k ≡ some r)
        × ((j : Text) → j ≢ k → lookup s' j ≡ lookup s j)
  pub register_lem :
      (register : Option Text → Text → S → Result S) (parent : Option Text) (k : Text) (s : S)
      → storage.register_child ≡ some register
      → (s' : S) × (register parent k s ≡ ok s') × ((j : Text) → lookup s' j ≡ lookup s j)
  pub ttl_lem : (k : Text) (s : S) → (ttl : Option ℕ) × (storage.get_current_ttl k s ≡ ok ttl)

-- The serializers read what they wrote, a tree up to what its paths lead to, and what they write is
-- truthy; equal serialized values are the same.
pub record IsCodec {T R : Type 0} (options : Options T R) : Type 0 where
  pub value_read : (v : T) → options.deserialize (options.serialize v) ≡ some v
  pub value_truthy : (v : T) → options.truthy (options.serialize v) ≡ true
  pub same_eq : (q r : R) → options.same q r ≡ true → q ≡ r
  pub tree_truthy : (t : Tree R) → options.truthy (options.serialize_tree t) ≡ true
  pub tree_read :
      (t : Tree R)
      → (u : Tree R) × (options.deserialize_tree (options.serialize_tree t) ≡ some u)
        × ((now : ℕ) (path : List Text) → value_at now u path ≡ value_at now t path)

-- A step of a run that succeeds hands its result to the rest.
pub then-ok :
    {S T A B : Type 0} (m : M S T A) (f : A → M S T B) {w w' : World S T} {a : A}
    {r : Result B × World S T}
    → m w ≡ (ok a, w')
    → f a w' ≡ r
    → (m >>= f) w ≡ r
unfolding ◌>>=◌
then-ok m f e rest =
    ap (λ (p : Result _ × World _ _). elim p.0 [ ok x ↦ f x p.1 | throw err ↦ (throw err, p.1) ]) e
    ∙ rest

-- Reading a key.
pub reading-get :
    {S T R : Type 0} (storage : Storage S R) (lookup : S → Text → Option R)
    → IsReliable storage lookup
    → (k : Text) (w : World S T) → reading (storage.get k) w ≡ (ok (lookup w.store k), w)
reading-get storage lookup reliable k w =
    ap (λ (x : Result (Option _)). (x, w)) (reliable.get_lem k w.store)

-- Writing to the storage.
pub writing-ok :
    {S T : Type 0} (f : S → Result S) (w : World S T) (s : S)
    → f w.store ≡ ok s
    → writing f w ≡ (ok tt, record w { store = s })
writing-ok f w s e =
    ap
      (λ (x : Result _). elim x [
        | ok s' ↦ (ok tt, record w { store = s' })
        | throw err ↦ (throw err, w)
      ])
      e
