-- ===== src/Tests/WholeTrees.antt =====
-- Runs and instances for setting a whole tree, on a storage in memory.
use nodejs_proto_cache.Prelude.{ℕ, ◌≡◌, refl, none, some, List, [], ◌∷◌, false, arith}
use mathlib.Core.Path.{subst}
use nodejs_proto_cache.Keys.{Text, top, join, ok, text_eq}
use nodejs_proto_cache.Tree.{
  Tree, leaf, branch, nil, entry, deadline_of, expired, current_value, has_property,
}
use nodejs_proto_cache.Tree.Paths.{find_tree}
use nodejs_proto_cache.Graphs.{Item}
use nodejs_proto_cache.Prune.Spec.{Distinct}
use nodejs_proto_cache.Cache.{World, resume}
use nodejs_proto_cache.Cache.Setting.Trees.{Parses}
use nodejs_proto_cache.Cache.FullTreeSet.{save_full_tree_value}
use nodejs_proto_cache.Cache.FullTreeSet.SavesTree.{save_full_tree_value-held_value}
use nodejs_proto_cache.Cache.FullTreeSet.Held.{parsed, held_value}
use nodejs_proto_cache.Cache.FullTreeSet.Views.{find_held}
use nodejs_proto_cache.Tests.Memory.{
  Raw, number, options, Store, storage, lookup, storage-IsReliable, options-IsCodec, a, b, planted,
  garden, pack, read_tree-pack,
}

-- A value for the root and for one child, which the stored tree has.
abbrev gift : Tree ℕ
gift = branch (some 5) none (entry a (leaf (some 6) none) nil)

abbrev gift_root : Item ℕ
gift_root = record {
  key = b;
  level = 2;
  parent_ref = some (top a 1);
  value = some 5;
  tree_ref = gift;
}

gift-Distinct : Distinct gift
unfolding has_property
gift-Distinct = (refl, tt, tt)

garden-Parses : Parses options (garden.store (join (a ∷ b ∷ [])))
unfolding pack join text_eq
garden-Parses r e full =
    let held : pack planted ≡ r = ground (arith, e) in
    (
      planted,
      subst (λ (x : Raw). options.deserialize_tree x ≡ some planted) held (read_tree-pack planted),
    )

save_full_tree_value-held_value_example :
    (w' : World Store ℕ) × (save_full_tree_value options storage
        (λ n. none)
        none
        (λ full. resume full.step.value)
        1
        2
        gift_root
        (join (a ∷ b ∷ []))
        garden
      ≡ (ok tt, w'))
    × ((q : List Text) (t : Tree ℕ) (v : ℕ)
        → find_tree gift q ≡ some t
        → current_value t 2 ≡ some v
        → ((c : Tree Raw)
            → find_held (parsed options (lookup garden.store (join (a ∷ b ∷ [])))) q ≡ some c
            → expired (deadline_of c) 1 ≡ false)
        → held_value options 1 q (lookup w'.store (join (a ∷ b ∷ []))) ≡ some (number v))
    × ((q : List Text) (seen : ℕ)
        → find_tree gift q ≡ none
        → held_value options seen q (lookup w'.store (join (a ∷ b ∷ [])))
          ≡ held_value options seen q (lookup garden.store (join (a ∷ b ∷ []))))
save_full_tree_value-held_value_example =
    save_full_tree_value-held_value options storage lookup (λ n. none) none 1 2 gift_root
      (join (a ∷ b ∷ [])) garden storage-IsReliable options-IsCodec garden-Parses gift-Distinct
