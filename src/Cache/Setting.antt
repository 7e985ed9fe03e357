-- ===== src/Cache/Setting.antt =====
-- What a whole run of `setNode` and `deepTreeSet` (src/tree-key-cache.ts) leaves in the storage.
pub mod Trees
pub mod Parts
pub mod Untouched
pub mod Frame
use nodejs_proto_cache.Prelude.{
  Bool, if◌then◌else◌, append-nil, lt→ltb, le→ltb, min, ◌-◌, ℕ, suc, ◌+◌, ◌-◌, ◌<◌, ◌≡◌, ◌≢◌, refl,
  sym, ◌∙◌, ap, true, false, leb, Option, none, some, List, [], ◌∷◌, ◌++◌, append_assoc, arith, inl,
  inr, Bool-cases, length, length-append, take,
}
use mathlib.Core.Path.{subst}
use nodejs_proto_cache.Keys.{
  truthy_text, inconsistent_storage, Text, ChainedObject, chained, join, get_chained_key, Result,
  ok,
}
use nodejs_proto_cache.Keys.Chain.{join-truthy, HasHead, get_chained_key-join}
use nodejs_proto_cache.Tree.{Tree, empty_tree, current_value, get_entry}
use nodejs_proto_cache.Tree.Paths.{value_at}
use nodejs_proto_cache.Cache.{
  raise, pure, release_events, Options, Storage, Step, StepTtl, World, Consumer, resume,
}
use nodejs_proto_cache.Cache.Values.{mount_step}
use nodejs_proto_cache.Cache.DeepTreeSet.{
  deep_tree_set, set_tree_part, set_key_levels, parse_tree, set_tree_levels, set_tree,
  set_locked_tree,
}
use nodejs_proto_cache.Cache.Laws.{IsReliable, IsCodec, then-ok, reading-get}
use nodejs_proto_cache.Cache.Persist.{persist_tree-found}
use nodejs_proto_cache.Cache.KeyLevels.{
  join-grows, acquire_if-ok, finally_release-ok, reached, set_key_levels-reached, chain_below,
}
use nodejs_proto_cache.Cache.TreeLevels.{set_tree_levels-runs}
use nodejs_proto_cache.Cache.Setting.Trees.{Gives, Parses, HoldsTree, set_locked_tree-holds}

take-append {ℓ} : {A : Type ℓ} (xs ys : List A) → take (length xs) (xs ++ ys) ≡ xs
take-append [] ys = refl
take-append (x ∷ xs) ys = ap (◌∷◌ x) (take-append xs ys)

HasHead-inhabited : (path : List Text) → HasHead path → path ≢ []
HasHead-inhabited [] h = absurd h
HasHead-inhabited (k ∷ path) h = cc

length-zero {ℓ} : {A : Type ℓ} (xs : List A) → length xs ≡ 0 → xs ≡ []
length-zero [] h = refl
length-zero (x ∷ xs) h = absurd (omega (arith, h))

module _ {T R S : Type 0} (options : Options T R) (storage : Storage S R)
    (lookup : S → Text → Option R) (reliable : IsReliable storage lookup) (codec : IsCodec options)
    (create_value : ChainedObject → Option T) (ttl : Option (StepTtl T)) (now : ℕ)
    (path : List Text) (given : Step T → Option T) (v : T) (z : options.is_null v ≡ false) where
  abbrev consumer : Consumer T
  consumer step = resume (given step)

  -- The first loop over the keys of a prefix of the path.
  set_key_levels-prefix :
      (min_level : ℕ) (above rest : List Text) (w : World S T)
      → path ≡ above ++ rest
      → HasHead path
      → (w' : World S T) × (set_key_levels options storage create_value ttl now path consumer
            (length above)
            min_level
            (reached [] none)
            w
          ≡ (ok (reached above (chain_below none 0 above)), w'))
        × ((j : Text) → length (join above) < length j → lookup w'.store j ≡ lookup w.store j)
        × (above ≢ []
            → Gives given v (length above)
            → lookup w'.store (join above) ≡ some (options.serialize v))
  set_key_levels-prefix min_level above rest w e h =
      let prefix : take (length above) path ≡ above =
        ap (take (length above)) e ∙ take-append above rest in
      let (w', runs, same, held) =
        set_key_levels-reached options storage lookup reliable create_value ttl now path given
          (length above) min_level [] path none w refl h
          (omega (arith, ap length e, length-append above rest)) in
      (
        w',
        runs ∙ λ i. (ok (reached (prefix i) (chain_below none 0 (prefix i))), w'),
        λ j longer. same j (omega (arith, longer, ap (λ (p : List Text). length (join p)) prefix)),
        λ some_left gives.
            ap (λ (p : List Text). lookup w'.store (join p)) (sym prefix)
            ∙ held v codec z
                (λ k p x.
                  ap (λ (m : ℕ). given (mount_step (chained k m p) x)) (omega arith) ∙ gives k p x)
                (λ none_left. absurd (some_left (length-zero above none_left))),
      )

  rounds-ok :
      (n min_level : ℕ) (above : List Text) (w w' : World S T) (parent : Option ChainedObject)
      → set_key_levels options storage create_value ttl now path consumer n min_level
          (reached [] none)
          w
        ≡ (ok (reached above parent), w')
      → min (options.key_level_nodes - 1) (length path) - 0 ≡ n
      → set_key_levels options storage create_value ttl now path consumer
          (min (options.key_level_nodes - 1) (length path) - 0)
          min_level
          (reached [] none)
          w
        ≡ (ok (reached above parent), w')
  rounds-ok n min_level above w w' parent runs e =
      ap
        (λ (m : ℕ).
          set_key_levels options storage create_value ttl now path consumer m min_level
            (reached [] none) w)
        e
      ∙ runs

  -- A path that ends above the trees: the value stands under its key.
  pub deep_tree_set-key :
      (min_level : ℕ) (w : World S T)
      → HasHead path
      → length path < options.key_level_nodes
      → Gives given v (length path)
      → (w' : World S T) × (deep_tree_set options storage create_value ttl now path consumer []
            min_level w
          ≡ (ok tt, w'))
        × (lookup w'.store (join path) ≡ some (options.serialize v))
  unfolding deep_tree_set set_tree_part
  deep_tree_set-key min_level w h low gives =
      let (w', runs, same, held) =
        set_key_levels-prefix min_level path [] w (sym (append-nil path)) h in
      (
        w',
        then-ok _ _
            (rounds-ok (length path) min_level path w w' (chain_below none 0 path) runs
              (omega (arith, low)))
            (rw (le→ltb (length path) (length path) (omega arith)) refl),
        held (HasHead-inhabited path h) gives,
      )

  set_tree_part-inside :
      (min_level : ℕ) (a : Text) (above : List Text) (parent : Option ChainedObject) (w : World S T)
      → HasHead (a ∷ above)
      → length (a ∷ above) < length path
      → set_tree_part options storage create_value ttl now path consumer min_level
          (reached (a ∷ above) parent)
          w
        ≡ set_locked_tree options storage create_value ttl now path consumer min_level
            (join (a ∷ above))
            (reached (a ∷ above) parent)
            w
  unfolding set_tree_part
  set_tree_part-inside min_level a above parent w h inside =
      ap
        (λ (b : Bool).
          (if b
              then (if truthy_text (join (a ∷ above))
                  then set_locked_tree options storage create_value ttl now path consumer min_level
                      (join (a ∷ above)) (reached (a ∷ above) parent)
                  else raise inconsistent_storage)
              else pure tt)
            w)
        (lt→ltb (length (a ∷ above)) (length path) inside)
      ∙ ap
          (λ (b : Bool).
            (if b
                then set_locked_tree options storage create_value ttl now path consumer min_level
                    (join (a ∷ above)) (reached (a ∷ above) parent)
                else raise inconsistent_storage)
              w)
          (join-truthy (a ∷ above) h)

  -- A path that ends in a tree: the tree under its key leads to the value.
  pub deep_tree_set-tree :
      (min_level : ℕ) (above rest : List Text) (k : Text) (w : World S T)
      → path ≡ above ++ k ∷ rest
      → HasHead above
      → suc (length above) ≡ options.key_level_nodes
      → Gives given v (length path)
      → Parses options (lookup w.store (join (above ++ k ∷ [])))
      → (w' : World S T) × (deep_tree_set options storage create_value ttl now path consumer []
            min_level w
          ≡ (ok tt, w'))
        × HoldsTree options now rest v (lookup w'.store (join (above ++ k ∷ [])))
  unfolding deep_tree_set set_tree_part
  deep_tree_set-tree min_level [] rest k w e h last gives parses = absurd h
  deep_tree_set-tree min_level (a ∷ above) rest k w e h last gives parses =
      let (w₁, runs, same, held) =
        set_key_levels-prefix min_level (a ∷ above) (k ∷ rest) w e (rw e h) in
      let inside : length (a ∷ above) < length path =
        omega (arith, ap length e, length-append (a ∷ above) (k ∷ rest)) in
      let kept = same (join (a ∷ above ++ k ∷ [])) (join-grows (a ∷ above) k (cc)) in
      let (w', sets, holds) =
        set_locked_tree-holds options storage lookup reliable codec create_value ttl now path given
          v z min_level (a ∷ above) rest k (chain_below none 0 (a ∷ above)) w₁ e h gives
          (subst (Parses options) (sym kept) parses) in
      (
        w',
        then-ok _ _
            (rounds-ok (length (a ∷ above)) min_level (a ∷ above) w w₁
              (chain_below none 0 (a ∷ above)) runs
              (omega (arith, last, ap length e, length-append (a ∷ above) (k ∷ rest))))
            (set_tree_part-inside min_level a above (chain_below none 0 (a ∷ above)) w₁ h inside
              ∙ sets),
        holds,
      )
