-- ===== src/Cache/Values.antt =====
-- Values on their way between steps, trees and the storage: the methods of
-- src/internal/tree-internal-control.ts that set and get use, and src/internal/get-ttl.ts.
use nodejs_proto_cache.Prelude.{
  ℕ, ◌+◌, ◌*◌, max, Bool, true, false, not, ◌&&◌, ◌||◌, Option, none, some, ltb, ◌==◌,
  if◌then◌else◌,
}
use nodejs_proto_cache.Keys.{Text, ChainedObject, key_of, level_of}
use nodejs_proto_cache.Tree.{Tree, deadline_of, with_value}
use nodejs_proto_cache.Cache.{
  Options, Storage, Step, StepTtl, fixed, by_step, M, pure, ◌>>=◌, ◌>>◌, emit, value_error,
  tree_error, reading, writing,
}

-- A number that is set and not 0.
abbrev pub truthy_number : Option ℕ → Bool
truthy_number none = false
truthy_number (some n) = not (n == 0)

abbrev pub greater : Option ℕ → Option ℕ → Bool
greater (some a) (some b) = ltb b a
greater (some a) none = false
greater none b = false

abbrev pub step_ttl : {T : Type 0} → Option (StepTtl T) → Step T → Option ℕ
step_ttl none step = none
step_ttl (some (fixed n)) step = some n
step_ttl (some (by_step f)) step = f step

-- `currentTtl === undefined ? ttl : Math.max(currentTtl, ttl)`
abbrev pub longer_ttl : Option ℕ → ℕ → ℕ
longer_ttl none ttl = ttl
longer_ttl (some current) ttl = max current ttl

-- `getTtl`: the ttl of the step, and the new maximum.
unfoldable pub get_ttl : {T : Type 0} → Option (StepTtl T) → Step T → Option ℕ → Option ℕ × Option ℕ
get_ttl ttl step max_ttl =
    let current = step_ttl ttl step in
    (
      current,
      if truthy_number current && (not (truthy_number max_ttl) || greater current max_ttl)
          then current
          else max_ttl,
    )

-- `MILLISECOND_SCALE`
abbrev pub millisecond_scale : ℕ
millisecond_scale = 1000

abbrev pub mount_step : {T : Type 0} → ChainedObject → Option T → Step T
mount_step node value = record {
  value = value;
  key = key_of node;
  level = level_of node;
  node_ref = node;
}

-- The result of `enrichTree`, with the tree as it is left.
pub record Enriched (R : Type 0) : Type 0 where
  pub tree : Tree R
  pub changed : Bool
  pub max_ttl : Option ℕ

-- The deadline of a node whose value was written at `now`.
abbrev pub new_deadline : Option ℕ → ℕ → Option ℕ → Option ℕ
new_deadline none now old = if truthy_number old then none else old
new_deadline (some n) now old =
    if n == 0 then (if truthy_number old then none else old) else some (now + n * millisecond_scale)

module _ {T R : Type 0} (options : Options T R) where
  -- `isUndefinedOrNull` of a value
  unfoldable pub is_undefined_or_null : Option T → Bool
  is_undefined_or_null none = true
  is_undefined_or_null (some v) = options.is_null v

  -- `currentSerialized !== serialized`
  unfoldable pub differs : Option R → R → Bool
  differs none r = true
  differs (some q) r = not (options.same q r)

  -- `enrichTree`
  unfoldable pub enrich_tree :
      Step T → Option R → Tree R → Option (StepTtl T) → ℕ → Option ℕ → Enriched R
  unfolding get_ttl is_undefined_or_null differs
  enrich_tree step current tree ttl now max_ttl =
      let same_tree : Enriched R = record { tree = tree; changed = false; max_ttl = max_ttl } in
      elim step.value [
        | none ↦ same_tree
        | some v ↦
            let (current_ttl, max_ttl') = get_ttl ttl step max_ttl in
            let serialized = options.serialize v in
            if is_undefined_or_null (some v)
            then same_tree
            else if differs current serialized
            then record {
              tree =
                  with_value tree (some serialized)
                    (new_deadline current_ttl now (deadline_of tree));
              changed = true;
              max_ttl = max_ttl';
            }
            else same_tree
      ]

module _ {T R S : Type 0} (options : Options T R) where
  -- `deserializeValue` of a single value: a failure is emitted, and gives `undefined`.
  unfoldable pub deserialize_value : R → M S T (Option T)
  deserialize_value r = elim (options.deserialize r) [
    | none ↦ (do emit value_error; pure none)
    | some v ↦ pure (some v)
  ]

  -- `deserializeTree`
  unfoldable pub deserialize_tree : R → M S T (Option (Tree R))
  deserialize_tree r = elim (options.deserialize_tree r) [
    | none ↦ (do emit tree_error; pure none)
    | some t ↦ pure (some t)
  ]

  -- `getStep`
  unfoldable pub get_step : Option R → ChainedObject → (ChainedObject → Option T) → M S T (Step T)
  unfolding deserialize_value
  get_step none node create_value = pure (mount_step node (create_value node))
  get_step (some r) node create_value = do value ← deserialize_value r; pure (mount_step node value)

  module _ (storage : Storage S R) where
    -- `persistStep`
    unfoldable pub persist_step : Step T → Option R → Text → Option (StepTtl T) → M S T (Unit {0})
    unfolding get_ttl is_undefined_or_null differs
    persist_step step current chained_key ttl = elim step.value [
      | none ↦ pure tt
      | some v ↦
          let serialized = options.serialize v in
          let (current_ttl, _) = get_ttl ttl step none in
          if is_undefined_or_null options (some v)
          then pure tt
          else if differs options current serialized
          then writing (storage.set chained_key serialized current_ttl)
          else pure tt
    ]

    -- The ttl that a tree is stored with: never shorter than that of its key.
    unfoldable pub tree_ttl : Text → Option ℕ → M S T (Option ℕ)
    tree_ttl chained_key none = pure none
    tree_ttl chained_key (some ttl) = if ttl == 0 then pure none else do
      current ← reading (storage.get_current_ttl chained_key)
      pure (some (longer_ttl current ttl))

    -- `persistTree`
    unfoldable pub persist_tree : Text → Option ℕ → Tree R → M S T (Unit {0})
    unfolding tree_ttl
    persist_tree chained_key ttl tree = do
      max_ttl ← tree_ttl chained_key ttl
      writing (storage.set chained_key (options.serialize_tree tree) max_ttl)
