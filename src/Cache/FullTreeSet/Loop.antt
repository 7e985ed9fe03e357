-- ===== src/Cache/FullTreeSet/Loop.antt =====
-- The loop of `saveFullTreeValue` (src/internal/tree-internal-control.ts) with its array of
-- references, against the recursion on the tree that is set.
use nodejs_proto_cache.Prelude.{
  ℕ, zero, suc, ◌≤◌, ◌≡◌, refl, ◌∙◌, ap, Bool, false, Option, none, some, List, [], ◌∷◌, ◌++◌,
  arith, inl, inr, Bool-cases, Option-cases, ◌==◌, if◌then◌else◌,
}
use nodejs_proto_cache.Keys.{Text, ChainedObject, ok, algorithm_error}
use nodejs_proto_cache.Tree.{Tree, entries_of, get_entry, current_value}
use nodejs_proto_cache.Graphs.{Item}
use nodejs_proto_cache.TreeUtils.{found_or}
use nodejs_proto_cache.Cache.{
  Options, Storage, StepTtl, resume, M, pure, raise, ◌>>=◌, World, yielded, value_error,
}
use nodejs_proto_cache.Cache.Values.{deserialize_value}
use nodejs_proto_cache.Cache.Laws.{then-ok}
use nodejs_proto_cache.Cache.FullTreeSet.{
  FullSetItem, Saving, node_at, check_full_set_item_change, old_value, get_full_set_item,
  yield_item, place_below, place_item, checked, save_item, save_items,
}
use nodejs_proto_cache.Cache.FullTreeSet.Saved.{deserialized, full_of, left_by, written, new_node}

module _ {T R S : Type 0} (options : Options T R) (storage : Storage S R)
    (create_value : ChainedObject → Option T) (ttl : Option (StepTtl T))
    (given : FullSetItem T R → Option T) (root_level now later : ℕ) where
  old_value-runs :
      (o : Option R) (w : World S T)
      → (w' : World S T) × (old_value options o w ≡ (ok (deserialized options o), w'))
        × (w'.store ≡ w.store)
  unfolding deserialize_value ◌>>=◌
  old_value-runs none w = (w, refl, refl)
  old_value-runs (some r) w = elim (Bool-cases (options.truthy r)) [
    | inr falsy ↦ (w, rw falsy refl, refl)
    | inl full ↦ elim (Option-cases (options.deserialize r)) [
      | inl e ↦ (
        record w { events = w.events ++ value_error ∷ [] },
        rw (full, e, deserialize_value) refl,
        refl,
      )
      | inr (v, e) ↦ (w, rw (full, e, deserialize_value) refl, refl)
    ]
  ]

  abbrev pub edit : Item T → Tree R → Tree R
  edit = written options create_value given now later

  abbrev pub run : List (Item T) → Saving R → M S T (Saving R)
  run = save_items options storage create_value ttl (λ full. resume (given full)) root_level now

  get_full_set_item-runs :
      (item : Item T) (c : Tree R) (w : World S T)
      → (w' : World S T) × (get_full_set_item options c item now w
          ≡ (ok (full_of options now item c), w'))
        × (w'.store ≡ w.store)
  unfolding get_full_set_item
  get_full_set_item-runs item c w =
      let (w₁, reads, same) = old_value-runs (current_value c now) w in
      (w₁, then-ok _ _ reads refl, same)

  abbrev pub left : Item T → Tree R → FullSetItem T R
  left = left_by options create_value given now later

  pub unchanged-same :
      (full : FullSetItem T R) (c : Tree R)
      → (check_full_set_item_change options full c).1 ≡ false
      → (check_full_set_item_change options full c).0 ≡ c
  unfolding check_full_set_item_change
  unchanged-same full c e = ground arith

  -- From the placed node on.
  pub saves-placed :
      (item : Item T) (s s₁ : Saving R) (w : World S T)
      → place_item options storage create_value ttl (λ full. resume (given full)) root_level item s
        ≡ pure s₁
      → (w' : World S T) × (save_item options storage create_value ttl
            (λ full. resume (given full))
            root_level
            now
            item
            s
            w
          ≡ (
            ok (
                checked options storage create_value ttl
                  (λ full. resume (given full))
                  (left item (node_at s₁.tree s₁.current))
                  s₁),
            w',
          ))
        × (w'.store ≡ w.store)
  unfolding save_item yield_item
  saves-placed item s s₁ w placed =
      let at = node_at s₁.tree s₁.current in
      let (w₁, reads, same) = get_full_set_item-runs item at w in
      (
        record w₁ { events = w₁.events ++ yielded (full_of options now item at).step ∷ [] },
        then-ok _ _ (λ i. placed i w) (then-ok _ _ reads (then-ok _ _ refl refl)),
        same,
      )

  pub place_item-below :
      (item : Item T) (l : ℕ) (ref : List Text) (s : Saving R)
      → item.level ≡ suc l
      → root_level ≤ l
      → s.stack l ≡ some ref
      → place_item {S = S} options storage create_value ttl
          (λ full. resume (given full))
          root_level
          item
          s
        ≡ pure
            (place_below options storage create_value ttl (λ full. resume (given full)) item ref s)
  unfolding place_item
  place_item-below item l ref s level deep above =
      let other : (item.level == root_level) ≡ false = ground (arith, level) in
      let go_on : Option (List Text) → M S T (Saving R) = λ o. elim o [
        | none ↦ raise algorithm_error
        | some ref ↦
            pure (
              place_below options storage create_value ttl (λ full. resume (given full)) item ref s)
      ] in
      let at_level : ℕ → M S T (Saving R) =
        λ n. elim n [ zero ↦ raise algorithm_error | suc n ↦ go_on (s.stack n) ] in
      ap (λ (b : Bool). if b then pure s else at_level item.level) other
      ∙ ap at_level level
      ∙ ap go_on above

  abbrev pub child_of : Tree R → Item T → Option (Tree R)
  child_of u item = get_entry (entries_of u) item.key

  abbrev pub placed : Tree R → Item T → Tree R
  placed u item = found_or (new_node options create_value given now later item) (child_of u item)
