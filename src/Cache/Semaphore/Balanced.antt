-- ===== src/Cache/Semaphore/Balanced.antt =====
-- The acquisitions and releases in a whole run of `deepTreeSet` and `setNode`
-- (src/tree-key-cache.ts).
use nodejs_proto_cache.Prelude.{
  ℕ, zero, suc, ◌+◌, ◌-◌, ◌≡◌, refl, Option, none, some, List, arith, ltb, leb, length, ◌==◌,
}
use nodejs_proto_cache.Keys.{Text, ChainedObject, truthy_text}
use nodejs_proto_cache.Tree.{Tree, current_value}
use nodejs_proto_cache.Cache.{Options, Storage, Step, StepTtl, World, Consumer}
use nodejs_proto_cache.Cache.Values.{
  deserialize_value, get_step, persist_step, persist_tree, tree_ttl, is_undefined_or_null, differs,
  get_ttl,
}
use nodejs_proto_cache.Cache.DeepTreeSet.{
  Reached, register_child, parse_tree, set_key_level, set_key_levels, set_last, set_tree_levels,
  set_tree, set_locked_tree, set_tree_part, deep_tree_set,
}
use nodejs_proto_cache.Cache.Semaphore.{
  acquisitions, releases, Off, Off-bind, Off-pure, Off-lift, Off-reading, Off-if, Off-option,
  Off-writing, Off-emit, Off-yield, Off-finally, Off-acquire,
}

module _ {T R S : Type 0} (options : Options T R) (storage : Storage S R) (k : Text) where
  Off-deserialize_value : (r : R) → Off {S = S} k 0 (deserialize_value options r)
  unfolding deserialize_value acquisitions releases
  Off-deserialize_value r =
      Off-option k (options.deserialize r) (Off-bind k (Off-emit k refl refl) (λ _. Off-pure k))
        (λ v. Off-pure k)

  Off-get_step :
      (current : Option R) (own : ChainedObject) (create_value : ChainedObject → Option T)
      → Off {S = S} k 0 (get_step options current own create_value)
  unfolding get_step
  Off-get_step none own create_value = Off-pure k
  Off-get_step (some r) own create_value =
      Off-bind k (Off-deserialize_value r) (λ value. Off-pure k)

  Off-persist_value :
      (value : Option T) (step : Step T) (current : Option R) (key : Text)
      (ttl : Option (StepTtl T))
      → Off k 0 (persist_step options storage (record step { value = value }) current key ttl)
  unfolding persist_step get_ttl
  Off-persist_value none step current key ttl = Off-pure k
  Off-persist_value (some v) step current key ttl =
      let own = record step { value = some v } in
      Off-if k (is_undefined_or_null options (some v)) (Off-pure k) (
        Off-if k (differs options current (options.serialize v))
          (Off-writing k (storage.set key (options.serialize v) (get_ttl ttl own none).0))
          (Off-pure k))

  Off-persist_step :
      (step : Step T) (current : Option R) (key : Text) (ttl : Option (StepTtl T))
      → Off k 0 (persist_step options storage step current key ttl)
  Off-persist_step step current key ttl = Off-persist_value step.value step current key ttl

  Off-tree_ttl :
      (key : Text) (ttl : Option ℕ) → Off {S = S} {T = T} k 0 (tree_ttl options storage key ttl)
  unfolding tree_ttl
  Off-tree_ttl key none = Off-pure k
  Off-tree_ttl key (some n) =
      Off-if k (n == 0) (Off-pure k) (Off-bind k (Off-reading k _) (λ current. Off-pure k))

  Off-persist_tree :
      (key : Text) (ttl : Option ℕ) (t : Tree R)
      → Off {S = S} {T = T} k 0 (persist_tree options storage key ttl t)
  unfolding persist_tree
  Off-persist_tree key ttl t = Off-bind k (Off-tree_ttl key ttl) (λ max_ttl. Off-writing k _)

  Off-parse_tree : (buffer : Option R) → Off {S = S} {T = T} k 0 (parse_tree options storage buffer)
  unfolding parse_tree
  Off-parse_tree none = Off-pure k
  Off-parse_tree (some r) =
      Off-if k (options.truthy r)
        (Off-option k (options.deserialize_tree r) (Off-lift k) (λ t. Off-pure k)) (Off-pure k)

  Off-register_child :
      (parent : Option Text) (key : Text)
      → Off {S = S} {T = T} k 0 (register_child options storage parent key)
  Off-register_child parent key =
      Off-option k storage.register_child (Off-pure k) (λ register. Off-writing k _)

  module _ (create_value : ChainedObject → Option T) (ttl : Option (StepTtl T)) (now : ℕ)
      (path : List Text) (consumer : Consumer T) where
    Off-set_key_level :
        (key : Text) (own : ChainedObject)
        → Off k 0 (set_key_level options storage create_value ttl now path consumer key own)
    unfolding set_key_level
    Off-set_key_level key own = Off-bind k (Off-reading k _) (λ current.
        Off-bind k (Off-get_step current own create_value) (λ step0.
          Off-bind k (Off-yield k consumer step0) (λ step. Off-persist_step step current key ttl)))

    Off-set_key_levels :
        (n min_level : ℕ) (at : Reached)
        → Off k 0 (set_key_levels options storage create_value ttl now path consumer n min_level at)
    unfolding set_key_levels
    Off-set_key_levels zero min_level at = Off-pure k
    Off-set_key_levels (suc n) min_level at = Off-bind k (Off-lift k) (λ keys.
        Off-bind k (Off-register_child at.chained_key keys.1) (λ _.
          Off-acquire k (leb min_level at.level) keys.0 (λ release.
            Off-bind k (Off-finally k release (Off-set_key_level keys.0 _))
              (λ _. Off-set_key_levels n min_level _))))

    Off-set_last :
        (own : ChainedObject) (tree : Tree R) (max_ttl : Option ℕ)
        → Off {S = S} k 0
            (set_last options storage create_value ttl now path consumer own tree max_ttl)
    unfolding set_last get_ttl
    Off-set_last own tree max_ttl =
        Off-bind k (Off-get_step (current_value tree now) own create_value)
          (λ step0. Off-bind k (Off-yield k consumer step0) (λ step. Off-pure k))

    Off-set_tree_levels :
        (n level : ℕ) (key : Text) (parent : Option ChainedObject) (tree : Tree R)
        (max_ttl : Option ℕ)
        → Off {S = S} k 0 (
            set_tree_levels options storage create_value ttl now path consumer n level key parent
              tree max_ttl)
    unfolding set_tree_levels
    Off-set_tree_levels zero level key parent tree max_ttl = Off-set_last _ tree max_ttl
    Off-set_tree_levels (suc n) level key parent tree max_ttl =
        Off-bind k (Off-get_step (current_value tree now) _ create_value) (λ step0.
          Off-bind k (Off-yield k consumer step0) (λ step. Off-bind k (Off-lift k) (λ next_key.
            Off-bind k (Off-set_tree_levels n (suc level) next_key _ _ _) (λ rest. Off-pure k))))

    Off-set_tree :
        (level : ℕ) (chained_key key : Text) (parent : Option ChainedObject)
        → Off {S = S} k 0 (
            set_tree options storage create_value ttl now path consumer level chained_key key
              parent)
    unfolding set_tree
    Off-set_tree level chained_key key parent = Off-bind k (Off-reading k _) (λ buffer.
        Off-bind k (Off-parse_tree buffer) (λ root.
          Off-bind k (Off-set_tree_levels (length path - level) level key parent root none)
            (λ e. Off-if k e.changed (Off-persist_tree chained_key e.max_ttl e.tree) (Off-pure k))))

    Off-set_locked_tree :
        (min_level : ℕ) (prefix : Text) (at : Reached)
        → Off {S = S} k 0
            (set_locked_tree options storage create_value ttl now path consumer min_level prefix at)
    unfolding set_locked_tree
    Off-set_locked_tree min_level prefix at = Off-bind k (Off-lift k) (λ keys.
        Off-acquire k (leb min_level (suc at.level)) keys.0 (λ release.
          Off-finally k release (Off-set_tree (suc at.level) keys.0 keys.1 at.node_ref)))

    Off-set_tree_part :
        (min_level : ℕ) (at : Reached)
        → Off {S = S} k 0
            (set_tree_part options storage create_value ttl now path consumer min_level at)
    unfolding set_tree_part
    Off-set_tree_part min_level at =
        Off-if k (ltb at.level (length path))
          (Off-option k at.chained_key (Off-lift k) (λ prefix.
            Off-if k (truthy_text prefix) (Off-set_locked_tree min_level prefix at) (Off-lift k)))
          (Off-pure k)

    Off-deep_tree_set :
        (previous : List Text) (min_level : ℕ)
        → Off {S = S} k 0
            (deep_tree_set options storage create_value ttl now path consumer previous min_level)
    unfolding deep_tree_set
    Off-deep_tree_set previous min_level =
        Off-bind k (Off-set_key_levels _ min_level _) (λ at. Off-set_tree_part min_level at)

-- Whatever the storage and the serializers do, whichever calls fail, and wherever the consumer
-- leaves the generator or gives another value, a run of `deepTreeSet` releases every key as often as
-- it acquires it.
pub deep_tree_set-Balanced :
    {T R S : Type 0} (options : Options T R) (storage : Storage S R)
    (create_value : ChainedObject → Option T) (ttl : Option (StepTtl T)) (now min_level : ℕ)
    (path previous : List Text) (consumer : Consumer T) (k : Text) (w : World S T)
    → let run =
        (deep_tree_set options storage create_value ttl now path consumer previous min_level w).1 in
      acquisitions k run.events + releases k w.events
      ≡ acquisitions k w.events + releases k run.events
deep_tree_set-Balanced options storage create_value ttl now min_level path previous consumer k w =
    omega (
      arith,
      (Off-deep_tree_set options storage k create_value ttl now path consumer previous
            min_level).law
          w,
    )
