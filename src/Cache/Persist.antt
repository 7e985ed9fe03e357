-- ===== src/Cache/Persist.antt =====
-- What `getStep`, `persistStep` and `persistTree` of src/internal/tree-internal-control.ts do on a
-- storage that answers.
use nodejs_proto_cache.Prelude.{
  ℕ, ◌≡◌, ◌≢◌, refl, ◌∙◌, ap, false, ◌==◌, Option, none, some, ◌++◌, [], ◌∷◌, arith, inl, inr,
  Bool-cases, Option-cases,
}
use nodejs_proto_cache.Keys.{Text, ChainedObject, Result, ok, throw}
use nodejs_proto_cache.Tree.{Tree}
use nodejs_proto_cache.Cache.{Options, Storage, Step, StepTtl, World, ◌>>=◌, value_error, writing}
use nodejs_proto_cache.Cache.Values.{
  get_step, mount_step, deserialize_value, persist_step, is_undefined_or_null, differs, longer_ttl,
  persist_tree, tree_ttl, get_ttl,
}
use nodejs_proto_cache.Cache.Laws.{IsReliable, IsCodec, then-ok}

module _ {T R S : Type 0} (options : Options T R) where
  deserialize_value-ok :
      (r : R) (w : World S T)
      → (v : Option T) × (w' : World S T) × (deserialize_value options r w ≡ (ok v, w'))
        × (w'.store ≡ w.store)
  unfolding deserialize_value ◌>>=◌
  deserialize_value-ok r w = elim (Option-cases (options.deserialize r)) [
    | inl e ↦ (
      none,
      record w { events = w.events ++ value_error ∷ [] },
      rw (e, deserialize_value) refl,
      refl,
    )
    | inr (v, e) ↦ (some v, w, rw (e, deserialize_value) refl, refl)
  ]

  -- `getStep` gives a step of the node, and leaves the storage alone.
  pub get_step-mount_step :
      (current : Option R) (node : ChainedObject) (create_value : ChainedObject → Option T)
      (w : World S T)
      → (v : Option T) × (w' : World S T) × (get_step options current node create_value w
          ≡ (ok (mount_step node v), w'))
        × (w'.store ≡ w.store)
  unfolding get_step
  get_step-mount_step none node create_value w = (create_value node, w, refl, refl)
  get_step-mount_step (some r) node create_value w =
      let (v, w', runs, same) = deserialize_value-ok r w in (v, w', then-ok _ _ runs refl, same)

-- What does not differ from the current value is the current value.
pub differs-same :
    {T R : Type 0} (options : Options T R) (codec : IsCodec options) (current : Option R) (r : R)
    → differs options current r ≡ false
    → current ≡ some r
unfolding differs
differs-same options codec none r e = cc
differs-same options codec (some q) r e = ap some (codec.same_eq q r (ground arith))

module _ {T R S : Type 0} (options : Options T R) (storage : Storage S R)
    (lookup : S → Text → Option R) (reliable : IsReliable storage lookup) where
  -- A write to the storage, as the rest of the run sees it.
  writing-set :
      (k : Text) (r : R) (ttl : Option ℕ) (w : World S T)
      → (w' : World S T) × (writing (storage.set k r ttl) w ≡ (ok tt, w'))
        × (lookup w'.store k ≡ some r)
        × ((j : Text) → j ≢ k → lookup w'.store j ≡ lookup w.store j)
  writing-set k r ttl w =
      let (s, e, found, others) = reliable.set_lem k r ttl w.store in
      (
        record w { store = s },
        ap
            (λ (x : Result S). elim x [
              | ok s' ↦ (ok tt, record w { store = s' })
              | throw err ↦ (throw err, w)
            ])
            e,
        found,
        others,
      )

  -- The key holds the value of the step, if it has one and the key held `current` before.
  abbrev pub HoldsValue : Option T → Option R → Text → World S T → World S T → Type 0
  HoldsValue given current k w w' =
      (v : T)
      → IsCodec options
      → given ≡ some v
      → options.is_null v ≡ false
      → lookup w.store k ≡ current
      → lookup w'.store k ≡ some (options.serialize v)

  persist_value-runs :
      (given : Option T) (step : Step T) (current : Option R) (k : Text) (ttl : Option (StepTtl T))
      (w : World S T)
      → (w' : World S T) × (persist_step options storage
            (record step { value = given })
            current
            k
            ttl
            w
          ≡ (ok tt, w'))
        × ((j : Text) → j ≢ k → lookup w'.store j ≡ lookup w.store j)
        × HoldsValue given current k w w'
  unfolding persist_step
  persist_value-runs none step current k ttl w =
      (w, refl, λ j n. refl, λ v codec e z held. ground arith)
  persist_value-runs (some u) step current k ttl w = elim (Bool-cases (options.is_null u)) [
    | inl e ↦ (w, rw (e, is_undefined_or_null) refl, λ j n. refl, λ v codec p z. ground arith)
    | inr e ↦ elim (Bool-cases (differs options current (options.serialize u))) [
      | inr same ↦ (
        w,
        rw (e, is_undefined_or_null, same) refl,
        λ j n. refl,
        λ v codec p z held.
            held ∙ differs-same options codec current (options.serialize u) same ∙ (cc),
      )
      | inl new ↦
          let own = record step { value = some u } in
          let (w', runs, found, others) =
            writing-set k (options.serialize u) (get_ttl ttl own none).0 w in
          (w', rw (e, is_undefined_or_null, new) runs, others, λ v codec p z held. found ∙ (cc))
    ]
  ]

  -- `persistStep` ends, writes to no other key, and leaves the value under its key.
  pub persist_step-runs :
      (step : Step T) (current : Option R) (k : Text) (ttl : Option (StepTtl T)) (w : World S T)
      → (w' : World S T) × (persist_step options storage step current k ttl w ≡ (ok tt, w'))
        × ((j : Text) → j ≢ k → lookup w'.store j ≡ lookup w.store j)
        × HoldsValue step.value current k w w'
  persist_step-runs step current k ttl w = persist_value-runs step.value step current k ttl w

  tree_ttl-ok :
      (k : Text) (ttl : Option ℕ) (w : World S T)
      → (m : Option ℕ) × (tree_ttl options storage k ttl w ≡ (ok m, w))
  unfolding tree_ttl
  tree_ttl-ok k none w = (none, refl)
  tree_ttl-ok k (some n) w = elim (Bool-cases (n == 0)) [
    | inl e ↦ (none, rw e refl)
    | inr e ↦
        let (current, read) = reliable.ttl_lem k w.store in
        (
          some (longer_ttl current n),
          rw e (then-ok _ _ (ap (λ (x : Result (Option ℕ)). (x, w)) read) refl),
        )
  ]

  -- `persistTree` ends with the tree under its key.
  pub persist_tree-found :
      (k : Text) (ttl : Option ℕ) (t : Tree R) (w : World S T)
      → (w' : World S T) × (persist_tree options storage k ttl t w ≡ (ok tt, w'))
        × (lookup w'.store k ≡ some (options.serialize_tree t))
  unfolding persist_tree
  persist_tree-found k ttl t w =
      let (m, read) = tree_ttl-ok k ttl w in
      let (w', runs, found, others) = writing-set k (options.serialize_tree t) m w in
      (w', then-ok _ _ read runs, found)
