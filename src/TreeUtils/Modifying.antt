-- ===== src/TreeUtils/Modifying.antt =====
-- Changes of a tree through references, as src/utils/deserialize-whole-tree.ts makes them.
use nodejs_proto_cache.Prelude.{
  ◌≡◌, refl, sym, ◌∙◌, ap, Option, none, some, List, [], ◌∷◌, ◌++◌, arith, inl, inr, true, false,
  Bool-cases, Option-cases,
}
use nodejs_proto_cache.Keys.{Text, text_eq}
use nodejs_proto_cache.Tree.{
  Tree, Entries, leaf, branch, nil, entry, hole, entries_of, get_entry, set_entry, has_property,
  replace_entry, place_entry,
}
use nodejs_proto_cache.Tree.Writes.{text_eq_iff}
use nodejs_proto_cache.TreeUtils.{put_child, modify}
use nodejs_proto_cache.Tree.Paths.{find_tree}
use nodejs_proto_cache.TreeUtils.Setting.{get_entry-put_child, find_tree-put_child}

module _ {ℓ} {R : Type ℓ} (k : Text) (u v : Tree R) where
  has_property-replace_entry :
      (es : Entries R) → has_property es k ≡ true → has_property (replace_entry es k u) k ≡ true
  unfolding has_property replace_entry
  has_property-replace_entry nil h = cc
  has_property-replace_entry (entry j t es) h = ground (arith, has_property-replace_entry es)
  has_property-replace_entry (hole j es) h = ground (arith, has_property-replace_entry es)

  has_property-place_entry : (es : Entries R) → has_property (place_entry es k u) k ≡ true
  unfolding has_property place_entry
  has_property-place_entry nil = ground (arith, text_eq_iff k k)
  has_property-place_entry (entry j t es) =
      ground (arith, has_property-place_entry es, text_eq_iff k k)
  has_property-place_entry (hole j es) =
      ground (arith, has_property-place_entry es, text_eq_iff k k)

  replace_entry-replace_entry :
      (es : Entries R) → replace_entry (replace_entry es k u) k v ≡ replace_entry es k v
  unfolding replace_entry
  replace_entry-replace_entry nil = refl
  replace_entry-replace_entry (entry j t es) = ground (arith, replace_entry-replace_entry es)
  replace_entry-replace_entry (hole j es) = ground (arith, replace_entry-replace_entry es)

  replace_entry-place_entry :
      (es : Entries R)
      → has_property es k ≡ false
      → replace_entry (place_entry es k u) k v ≡ place_entry es k v
  unfolding replace_entry place_entry has_property
  replace_entry-place_entry nil h = ground (arith, text_eq_iff k k)
  replace_entry-place_entry (entry j t es) h =
      ground (arith, replace_entry-place_entry es, text_eq_iff k k)
  replace_entry-place_entry (hole j es) h =
      ground (arith, replace_entry-place_entry es, text_eq_iff k k)

  -- The last write of a property counts.
  pub set_entry-set_entry : (es : Entries R) → set_entry (set_entry es k u) k v ≡ set_entry es k v
  unfolding set_entry
  set_entry-set_entry es = elim (Bool-cases (has_property es k)) [
    | inl e ↦ rw (e, has_property-replace_entry es e) (replace_entry-replace_entry es)
    | inr e ↦ rw (e, has_property-place_entry es) (replace_entry-place_entry es e)
  ]

module _ {ℓ} {R : Type ℓ} (k : Text) (u : Tree R) where
  property_of-get_entry : (es : Entries R) → get_entry es k ≡ some u → has_property es k ≡ true
  unfolding get_entry has_property
  property_of-get_entry nil h = cc
  property_of-get_entry (entry j t es) h = ground (arith, property_of-get_entry es)
  property_of-get_entry (hole j es) h = ground (arith, property_of-get_entry es)

  replace_entry-same : (es : Entries R) → get_entry es k ≡ some u → replace_entry es k u ≡ es
  unfolding get_entry replace_entry
  replace_entry-same nil h = refl
  replace_entry-same (entry j t es) h = elim (Bool-cases (text_eq j k)) [
    | inl e ↦ rw e (ap (λ (x : Tree R). entry j x es) (ground (arith, rw e at h)))
    | inr e ↦ rw e (ap (entry j t) (replace_entry-same es (rw e at h)))
  ]
  replace_entry-same (hole j es) h = elim (Bool-cases (text_eq j k)) [
    | inl e ↦ absurd (ground (arith, rw e at h))
    | inr e ↦ rw e (ap (hole j) (replace_entry-same es (rw e at h)))
  ]

  set_entry-same : (es : Entries R) → get_entry es k ≡ some u → set_entry es k u ≡ es
  unfolding set_entry
  set_entry-same es h = rw (property_of-get_entry es h) (replace_entry-same es h)

module _ {T : Type 0} where
  pub put_child-put_child :
      (t : Tree T) (k : Text) (u v : Tree T) → put_child (put_child t k u) k v ≡ put_child t k v
  put_child-put_child (leaf x d) k u v = ap (branch x d) (set_entry-set_entry k u v nil)
  put_child-put_child (branch x d es) k u v = ap (branch x d) (set_entry-set_entry k u v es)

  pub put_child-same :
      (t : Tree T) (k : Text) (u : Tree T)
      → get_entry (entries_of t) k ≡ some u
      → put_child t k u ≡ t
  unfolding get_entry
  put_child-same (leaf x d) k u e = cc
  put_child-same (branch x d es) k u e = ap (branch x d) (set_entry-same k u es e)

  abbrev modify_child : Text → List Text → (Tree T → Tree T) → Tree T → Option (Tree T) → Tree T
  modify_child k ref f t none = t
  modify_child k ref f t (some u) = put_child t k (modify ref f u)

  -- A change below a child.
  pub modify-child :
      (k : Text) (ref : List Text) (f : Tree T → Tree T) (t : Tree T) (o : Option (Tree T))
      → get_entry (entries_of t) k ≡ o
      → modify (k ∷ ref) f t ≡ modify_child k ref f t o
  unfolding modify
  modify-child k ref f t o e =
      ap (λ (x : Option (Tree T)). elim x [ none ↦ t | some u ↦ put_child t k (modify ref f u) ]) e
      ∙ modify_child-elim o
    where
      modify_child-elim :
          (x : Option (Tree T))
          → elim x [ none ↦ t | some u ↦ put_child t k (modify ref f u) ] ≡ modify_child k ref f t x
      modify_child-elim none = refl
      modify_child-elim (some u) = refl

  pub modify-put_child :
      (k : Text) (ref : List Text) (f : Tree T → Tree T) (t u : Tree T)
      → modify (k ∷ ref) f (put_child t k u) ≡ put_child t k (modify ref f u)
  modify-put_child k ref f t u =
      modify-child k ref f (put_child t k u) (some u) (get_entry-put_child t k u)
      ∙ put_child-put_child t k u (modify ref f u)

  -- Two changes through the same reference are one.
  pub modify-modify :
      (ref : List Text) (f g : Tree T → Tree T) (t : Tree T)
      → modify ref f (modify ref g t) ≡ modify ref (λ u. f (g u)) t
  unfolding modify
  modify-modify [] f g t = refl
  modify-modify (k ∷ ref) f g t = elim (Option-cases (get_entry (entries_of t) k)) [
    | inl e ↦
        ap (modify (k ∷ ref) f) (modify-child k ref g t none e)
        ∙ modify-child k ref f t none e
        ∙ sym (modify-child k ref (λ u. f (g u)) t none e)
    | inr (u, e) ↦
        ap (modify (k ∷ ref) f) (modify-child k ref g t (some u) e)
        ∙ modify-put_child k ref f t (modify ref g u)
        ∙ ap (put_child t k) (modify-modify ref f g u)
        ∙ sym (modify-child k ref (λ u. f (g u)) t (some u) e)
  ]

  -- A change below a reference, and below a node.
  pub modify-append :
      (ref rest : List Text) (f : Tree T → Tree T) (t : Tree T)
      → modify (ref ++ rest) f t ≡ modify ref (modify rest f) t
  unfolding modify
  modify-append [] rest f t = refl
  modify-append (k ∷ ref) rest f t = elim (Option-cases (get_entry (entries_of t) k)) [
    | inl e ↦
        modify-child k (ref ++ rest) f t none e ∙ sym (modify-child k ref (modify rest f) t none e)
    | inr (u, e) ↦
        modify-child k (ref ++ rest) f t (some u) e
        ∙ ap (put_child t k) (modify-append ref rest f u)
        ∙ sym (modify-child k ref (modify rest f) t (some u) e)
  ]

  -- A change to what is there already.
  pub modify-same : (ref : List Text) (t : Tree T) → modify ref (λ u. u) t ≡ t
  unfolding modify
  modify-same [] t = refl
  modify-same (k ∷ ref) t = elim (Option-cases (get_entry (entries_of t) k)) [
    | inl e ↦ modify-child k ref (λ u. u) t none e
    | inr (u, e) ↦
        modify-child k ref (λ u. u) t (some u) e
        ∙ ap (put_child t k) (modify-same ref u)
        ∙ put_child-same t k u e
  ]

  -- Only the node that the reference leads to counts.
  pub modify-found :
      (ref : List Text) (f g : Tree T → Tree T) (t u : Tree T)
      → find_tree t ref ≡ some u
      → f u ≡ g u
      → modify ref f t ≡ modify ref g t
  unfolding modify find_tree
  modify-found [] f g t u at e = let same : t ≡ u = cc in rw (same, e)
  modify-found (k ∷ ref) f g t u at e = elim (Option-cases (get_entry (entries_of t) k)) [
    | inl absent ↦ absurd (ground (arith, rw (absent, find_tree) at at))
    | inr (c, found) ↦
        modify-child k ref f t (some c) found
        ∙ ap (put_child t k) (modify-found ref f g c u (rw (found, find_tree) at at) e)
        ∙ sym (modify-child k ref g t (some c) found)
  ]

  -- The reference leads to the changed node.
  pub find_tree-modify :
      (ref : List Text) (f : Tree T → Tree T) (t u : Tree T)
      → find_tree t ref ≡ some u
      → find_tree (modify ref f t) ref ≡ some (f u)
  unfolding modify find_tree
  find_tree-modify [] f t u at = let same : t ≡ u = cc in ap (λ (x : Tree T). some (f x)) same
  find_tree-modify (k ∷ ref) f t u at = elim (Option-cases (get_entry (entries_of t) k)) [
    | inl absent ↦ absurd (ground (arith, rw (absent, find_tree) at at))
    | inr (c, found) ↦
        ap (λ (x : Tree T). find_tree x (k ∷ ref)) (modify-child k ref f t (some c) found)
        ∙ find_tree-put_child t k (modify ref f c) ref
        ∙ find_tree-modify ref f c u (rw (found, find_tree) at at)
  ]

  -- A step further down.
  pub find_tree-snoc :
      (ref : List Text) (k : Text) (t u : Tree T)
      → find_tree t ref ≡ some u
      → find_tree t (ref ++ k ∷ []) ≡ find_tree u (k ∷ [])
  unfolding find_tree
  find_tree-snoc [] k t u at =
      let same : t ≡ u = cc in ap (λ (x : Tree T). find_tree x (k ∷ [])) same
  find_tree-snoc (j ∷ ref) k t u at = elim (Option-cases (get_entry (entries_of t) j)) [
    | inl absent ↦ absurd (ground (arith, rw (absent, find_tree) at at))
    | inr (c, found) ↦
        ap (λ (o : Option (Tree T)). elim o [ none ↦ none | some x ↦ find_tree x (ref ++ k ∷ []) ])
          found
        ∙ find_tree-snoc ref k c u (rw (found, find_tree) at at)
  ]

  -- A child that is replaced.
  pub modify-put_child_const :
      (k : Text) (t c c' : Tree T) → modify (k ∷ []) (λ x. c') (put_child t k c) ≡ put_child t k c'
  unfolding modify
  modify-put_child_const k t c c' = modify-put_child k [] (λ x. c') t c
