-- ===== src/Cache/Setting/Parts.antt =====
-- The parts of a run of `deepTreeSet` (src/tree-key-cache.ts), for any part or measure of the world
-- that does not see its errors and yields.
use nodejs_proto_cache.Prelude.{ℕ, zero, suc, Option, none, some, List, ◌==◌}
use nodejs_proto_cache.Keys.{Text, ChainedObject}
use nodejs_proto_cache.Tree.{Tree, current_value}
use nodejs_proto_cache.Cache.{
  Options, Storage, Step, StepTtl, value_error, yielded, World, Consumer, writing,
}
use nodejs_proto_cache.Cache.Values.{
  deserialize_value, get_step, persist_step, persist_tree, tree_ttl, is_undefined_or_null, differs,
  get_ttl,
}
use nodejs_proto_cache.Cache.DeepTreeSet.{parse_tree, set_key_level, set_last, set_tree_levels}
use nodejs_proto_cache.Cache.Keeps.{
  Keeps, Keeps-bind, Keeps-pure, Keeps-lift, Keeps-reading, Keeps-if, Keeps-option, Keeps-emit,
  Keeps-yield, Unseen,
}

module _ {T R S X : Type 0} (options : Options T R) (storage : Storage S R) (f : World S T → X)
    (error_unseen : Unseen f value_error)
    (yield_unseen : (step : Step T) → Unseen f (yielded step)) where
  pub Keeps-get_step :
      (current : Option R) (own : ChainedObject) (create_value : ChainedObject → Option T)
      → Keeps f (get_step options current own create_value)
  unfolding get_step deserialize_value
  Keeps-get_step none own create_value = Keeps-pure f
  Keeps-get_step (some r) own create_value =
      Keeps-bind f
        (Keeps-option f (options.deserialize r)
          (Keeps-bind f (Keeps-emit f value_error error_unseen) (λ _. Keeps-pure f))
          (λ v. Keeps-pure f))
        (λ value. Keeps-pure f)

  pub Keeps-parse_tree : (buffer : Option R) → Keeps f (parse_tree options storage buffer)
  unfolding parse_tree
  Keeps-parse_tree none = Keeps-pure f
  Keeps-parse_tree (some r) =
      Keeps-if f (options.truthy r)
        (Keeps-option f (options.deserialize_tree r) (Keeps-lift f) (λ t. Keeps-pure f))
        (Keeps-pure f)

  pub Keeps-persist_tree :
      (key : Text) (ttl : Option ℕ) (t : Tree R)
      → ((r : R) (m : Option ℕ) → Keeps f (writing (storage.set key r m)))
      → Keeps f (persist_tree options storage key ttl t)
  unfolding persist_tree
  Keeps-persist_tree key ttl t sets =
      Keeps-bind f (lasting ttl) (λ m. sets (options.serialize_tree t) m)
    where
      lasting : (o : Option ℕ) → Keeps f (tree_ttl options storage key o)
      lasting none = unfold tree_ttl in Keeps-pure f
      lasting (some n) =
          unfold tree_ttl in
          Keeps-if f (n == 0) (Keeps-pure f)
            (Keeps-bind f (Keeps-reading f (storage.get_current_ttl key)) (λ current. Keeps-pure f))

  Keeps-persist_value :
      (value : Option T) (step : Step T) (current : Option R) (key : Text)
      (ttl : Option (StepTtl T))
      → ((r : R) (m : Option ℕ) → Keeps f (writing (storage.set key r m)))
      → Keeps f (persist_step options storage (record step { value = value }) current key ttl)
  unfolding persist_step get_ttl
  Keeps-persist_value none step current key ttl sets = Keeps-pure f
  Keeps-persist_value (some v) step current key ttl sets =
      let own = record step { value = some v } in
      Keeps-if f (is_undefined_or_null options (some v)) (Keeps-pure f) (
        Keeps-if f (differs options current (options.serialize v))
          (sets (options.serialize v) (get_ttl ttl own none).0) (Keeps-pure f))

  module _ (create_value : ChainedObject → Option T) (ttl : Option (StepTtl T)) (now : ℕ)
      (path : List Text) (consumer : Consumer T) where
    pub Keeps-set_key_level :
        (key : Text) (own : ChainedObject)
        → ((r : R) (m : Option ℕ) → Keeps f (writing (storage.set key r m)))
        → Keeps f (set_key_level options storage create_value ttl now path consumer key own)
    unfolding set_key_level
    Keeps-set_key_level key own sets = Keeps-bind f (Keeps-reading f (storage.get key)) (λ current.
        Keeps-bind f (Keeps-get_step current own create_value) (λ step0.
          Keeps-bind f (Keeps-yield f consumer step0 (yield_unseen step0))
            (λ step. Keeps-persist_value step.value step current key ttl sets)))

    pub Keeps-set_tree_levels :
        (n level : ℕ) (key : Text) (parent : Option ChainedObject) (tree : Tree R)
        (max_ttl : Option ℕ)
        → Keeps f (
            set_tree_levels options storage create_value ttl now path consumer n level key parent
              tree max_ttl)
    unfolding set_tree_levels set_last get_ttl
    Keeps-set_tree_levels zero level key parent tree max_ttl =
        Keeps-bind f (Keeps-get_step (current_value tree now) _ create_value) (λ step0.
          Keeps-bind f (Keeps-yield f consumer step0 (yield_unseen step0)) (λ step. Keeps-pure f))
    Keeps-set_tree_levels (suc n) level key parent tree max_ttl =
        Keeps-bind f (Keeps-get_step (current_value tree now) _ create_value) (λ step0.
          Keeps-bind f (Keeps-yield f consumer step0 (yield_unseen step0)) (λ step.
            Keeps-bind f (Keeps-lift f) (λ next_key.
              Keeps-bind f (Keeps-set_tree_levels n (suc level) next_key _ _ _)
                (λ rest. Keeps-pure f))))
