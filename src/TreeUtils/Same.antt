-- ===== src/TreeUtils/Same.antt =====
-- Trees that lead to the same values (src/types/tree-type.ts), and a write of a child.
use nodejs_proto_cache.Prelude.{
  ℕ, ◌≡◌, refl, sym, ◌∙◌, ap, Option, none, some, List, [], ◌∷◌, inl, inr, Bool-cases,
}
use nodejs_proto_cache.Keys.{Text, text_eq}
use nodejs_proto_cache.Tree.{Tree, empty_tree, entries_of, get_entry, current_value}
use nodejs_proto_cache.Tree.Writes.{get_entry-set_entry, text_eq_iff}
use nodejs_proto_cache.Tree.Paths.{value_at}
use nodejs_proto_cache.TreeUtils.{found_or, put_child}

module _ {R : Type 0} where
  -- Two trees lead to the same values.
  abbrev pub Same : Tree R → Tree R → Type 0
  Same t u = (seen : ℕ) (q : List Text) → value_at seen t q ≡ value_at seen u q

  abbrev pub below : ℕ → List Text → Option (Tree R) → Option R
  below seen q o = elim o [ none ↦ none | some t ↦ value_at seen t q ]

  pub below-found_or :
      (seen : ℕ) (q : List Text) (o : Option (Tree R))
      → value_at seen (found_or empty_tree o) q ≡ below seen q o
  unfolding value_at current_value get_entry
  below-found_or seen [] none = refl
  below-found_or seen (k ∷ q) none = refl
  below-found_or seen q (some t) = refl

  -- A child that leads to the same values as the one before.
  pub Same-put_child :
      (u c : Tree R) (k : Text) (o : Option (Tree R))
      → get_entry (entries_of u) k ≡ o
      → Same c (found_or empty_tree o)
      → Same (put_child u k c) u
  unfolding value_at current_value
  Same-put_child u c k o e same seen [] = refl
  Same-put_child u c k o e same seen (j ∷ q) =
      ap (below seen q) (get_entry-set_entry k j c (entries_of u))
      ∙ elim (Bool-cases (text_eq k j)) [
        | inl eq ↦ rw eq (
            same seen q
            ∙ below-found_or seen q o
            ∙ ap (below seen q) (sym e ∙ ap (get_entry (entries_of u)) ((text_eq_iff k j).0 eq)))
        | inr ne ↦ rw ne refl
      ]
