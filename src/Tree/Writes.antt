-- ===== src/Tree/Writes.antt =====
-- What a children object holds after a write (src/types/tree-type.ts, `TreeChildren`).
use nodejs_proto_cache.Prelude.{
  ◌≡◌, refl, ◌↔◌, true, false, some, [], ◌∷◌, inl, inr, arith, if◌then◌else◌, Bool-cases,
}
use nodejs_proto_cache.Keys.{Text, text_eq}
use nodejs_proto_cache.Tree.{
  Tree, Entries, nil, entry, hole, get_entry, has_property, replace_entry, place_entry, set_entry,
}

pub text_eq_iff : (s t : Text) → (text_eq s t ≡ true) ↔ (s ≡ t)
unfolding text_eq
text_eq_iff [] [] = ground arith
text_eq_iff [] (b ∷ t) = ground arith
text_eq_iff (a ∷ s) [] = ground arith
text_eq_iff (a ∷ s) (b ∷ t) = ground (arith, text_eq_iff s t)

pub text_eq_refl : (s : Text) → text_eq s s ≡ true
text_eq_refl s = (text_eq_iff s s).1 refl

module _ {ℓ} {R : Type ℓ} (k j : Text) (u : Tree R) where
  get_entry-replace_entry :
      (es : Entries R)
      → has_property es k ≡ true
      → get_entry (replace_entry es k u) j ≡ (if text_eq k j then some u else get_entry es j)
  unfolding get_entry replace_entry has_property
  get_entry-replace_entry nil h = cc
  get_entry-replace_entry (entry i t es) h =
      ground (arith, get_entry-replace_entry es, text_eq_iff i k, text_eq_iff i j, text_eq_iff k j)
  get_entry-replace_entry (hole i es) h =
      ground (arith, get_entry-replace_entry es, text_eq_iff i k, text_eq_iff i j, text_eq_iff k j)

  get_entry-place_entry :
      (es : Entries R)
      → has_property es k ≡ false
      → get_entry (place_entry es k u) j ≡ (if text_eq k j then some u else get_entry es j)
  unfolding get_entry place_entry has_property
  get_entry-place_entry nil h = refl
  get_entry-place_entry (entry i t es) h =
      ground (arith, get_entry-place_entry es, text_eq_iff i k, text_eq_iff i j, text_eq_iff k j)
  get_entry-place_entry (hole i es) h =
      ground (arith, get_entry-place_entry es, text_eq_iff i k, text_eq_iff i j, text_eq_iff k j)

  -- A property reads what was written to it last, and every other one as before.
  pub get_entry-set_entry :
      (es : Entries R)
      → get_entry (set_entry es k u) j ≡ (if text_eq k j then some u else get_entry es j)
  unfolding set_entry
  get_entry-set_entry es = elim (Bool-cases (has_property es k)) [
    | inl e ↦ rw e (get_entry-replace_entry es e)
    | inr e ↦ rw e (get_entry-place_entry es e)
  ]
