-- ===== src/Prune/Views.antt =====
-- What a reader sees of a tree that was pruned (src/internal/prune-tree.ts).
use nodejs_proto_cache.Prelude.{
  ℕ, ◌≤◌, Bool, true, false, ◌&&◌, ◌≡◌, refl, sym, ◌∙◌, ap, Option, none, some, List, [], ◌∷◌,
  arith, if◌then◌else◌, inl, inr, Bool-cases, Option-cases,
}
use nodejs_proto_cache.Keys.{Text, ChainedObject}
use nodejs_proto_cache.Tree.{
  Tree, Entries, leaf, branch, nil, entry, hole, entries_of, get_entry, current_value,
}
use nodejs_proto_cache.Tree.Paths.{find_tree, value_at}
use nodejs_proto_cache.Prune.{prune_tree, is_undefined}
use nodejs_proto_cache.Prune.Spec.{
  gone, has_child, clean, tree_empty, entries_empty, pruned, kept, Distinct,
}
use nodejs_proto_cache.Prune.Refines.{prune_tree-pruned}

module _ {ℓ} {R : Type ℓ} where
  entries_of-clean : (b : Bool) (t : Tree R) → entries_of (clean b t) ≡ entries_of t
  unfolding clean
  entries_of-clean true (leaf v d) = refl
  entries_of-clean true (branch v d es) = refl
  entries_of-clean false t = refl

  unfold_pruned :
      (now : ℕ) (v : Option R) (d : Option ℕ) (es : Entries R)
      → pruned now (branch v d es)
        ≡ clean
            (gone now (branch v d es))
            (if has_child es && entries_empty now es then leaf v d else branch v d (kept now es))
  unfolding pruned
  unfold_pruned now v d es = refl

abbrev survivor {ℓ} : {R : Type ℓ} → ℕ → Option (Tree R) → Option (Tree R)
survivor now none = none
survivor now (some u) = if tree_empty now u then none else some (pruned now u)

module _ {ℓ} {R : Type ℓ} (now later : ℕ) (le : now ≤ later) where
  -- What has expired stays expired.
  current_value-gone : (t : Tree R) → gone now t ≡ true → current_value t later ≡ none
  unfolding gone current_value
  current_value-gone t h = ground arith

  current_value-cleared : (t : Tree R) → current_value (clean true t) later ≡ none
  unfolding clean current_value
  current_value-cleared (leaf v d) = refl
  current_value-cleared (branch v d es) = refl

  current_value-clean :
      (t : Tree R) → current_value (clean (gone now t) t) later ≡ current_value t later
  current_value-clean t = elim (Bool-cases (gone now t)) [
    | inl e ↦ rw e (current_value-cleared t ∙ sym (current_value-gone t e))
    | inr e ↦ rw e (unfold clean in refl)
  ]

  entries_empty-get :
      (es : Entries R) (k : Text) (u : Tree R)
      → entries_empty now es ≡ true
      → get_entry es k ≡ some u
      → tree_empty now u ≡ true
  unfolding entries_empty get_entry
  entries_empty-get nil k u h g = cc
  entries_empty-get (entry j t es) k u h g = ground (arith, entries_empty-get es k u)
  entries_empty-get (hole j es) k u h g = ground (arith, entries_empty-get es k u)

  tree_empty-value_at :
      (t : Tree R) (path : List Text) → tree_empty now t ≡ true → value_at later t path ≡ none
  unfolding value_at
  tree_empty-value_at (leaf v d) [] h = current_value-gone (leaf v d) (unfold tree_empty in h)
  tree_empty-value_at (branch v d es) [] h =
      current_value-gone (branch v d es) (unfold tree_empty in ground arith)
  tree_empty-value_at (leaf v d) (k ∷ path) h = unfold get_entry in refl
  tree_empty-value_at (branch v d es) (k ∷ path) h = elim (Option-cases (get_entry es k)) [
    | inl e ↦ rw (e, value_at) refl
    | inr (u, e) ↦
        rw (e, value_at)
          (tree_empty-value_at u path
            (entries_empty-get es k u (unfold tree_empty in ground arith) e))
  ]

  get_entry-kept :
      (es : Entries R) (k : Text) → get_entry (kept now es) k ≡ survivor now (get_entry es k)
  unfolding get_entry kept
  get_entry-kept nil k = refl
  get_entry-kept (entry j t es) k = ground (arith, get_entry-kept es k)
  get_entry-kept (hole j es) k = ground (arith, get_entry-kept es k)

  all_gone :
      (es : Entries R) (k : Text)
      → entries_empty now es ≡ true
      → none ≡ survivor now (get_entry es k)
  all_gone es k h = elim (Option-cases (get_entry es k)) [
    | inl e ↦ rw e
    | inr (u, e) ↦ rw (e, entries_empty-get es k u h e)
  ]

  -- A tree with the value and the deadline of a branch is read like the branch.
  current_value-swept :
      (b c : Bool) (v : Option R) (d : Option ℕ) (es fs : Entries R)
      → current_value (clean b (if c then leaf v d else branch v d fs)) later
        ≡ current_value (clean b (branch v d es)) later
  unfolding current_value clean
  current_value-swept true true v d es fs = refl
  current_value-swept true false v d es fs = refl
  current_value-swept false true v d es fs = refl
  current_value-swept false false v d es fs = refl

  get_entry-pruned :
      (t : Tree R) (k : Text)
      → get_entry (entries_of (pruned now t)) k ≡ survivor now (get_entry (entries_of t) k)
  unfolding get_entry
  get_entry-pruned (leaf v d) k = unfold pruned in rw entries_of-clean
  get_entry-pruned (branch v d es) k = elim (Bool-cases (has_child es && entries_empty now es)) [
    | inl e ↦ rw (unfold_pruned now v d es, entries_of-clean, e) (all_gone es k (ground arith))
    | inr e ↦ rw (unfold_pruned now v d es, entries_of-clean, e) (get_entry-kept es k)
  ]

  pub value_at-pruned :
      (t : Tree R) (path : List Text) → value_at later (pruned now t) path ≡ value_at later t path
  unfolding value_at
  value_at-pruned (leaf v d) [] = unfold pruned in current_value-clean (leaf v d)
  value_at-pruned (branch v d es) [] = rw (unfold_pruned now v d es) (
      current_value-swept (gone now (branch v d es)) (has_child es && entries_empty now es) v d es
        (kept now es)
      ∙ current_value-clean (branch v d es))
  value_at-pruned t (k ∷ path) = elim (Option-cases (get_entry (entries_of t) k)) [
    | inl e ↦ rw (get_entry-pruned t k, e, value_at) refl
    | inr (u, e) ↦
        rw (get_entry-pruned t k, e, value_at)
          (elim (Bool-cases (tree_empty now u)) [
            | inl dead ↦ rw dead (sym (tree_empty-value_at u path dead))
            | inr alive ↦ rw alive (value_at-pruned u path)
          ])
  ]

gone-pruned {ℓ} : {R : Type ℓ} (now : ℕ) (t : Tree R) → gone now (pruned now t) ≡ gone now t
unfolding gone
gone-pruned now t = ap is_undefined (unfold value_at in value_at-pruned now now (omega arith) t [])

tree_empty_lem {ℓ} :
    {R : Type ℓ} (now : ℕ) (t : Tree R)
    → tree_empty now t ≡ (gone now t && entries_empty now (entries_of t))
unfolding tree_empty
tree_empty_lem now (leaf v d) = ground arith
tree_empty_lem now (branch v d es) = refl

tree_empty-branch {ℓ} :
    {R : Type ℓ} (now : ℕ) (v : Option R) (d : Option ℕ) (es : Entries R)
    → entries_empty now (kept now es) ≡ entries_empty now es
    → tree_empty now (pruned now (branch v d es)) ≡ tree_empty now (branch v d es)
tree_empty-branch now v d es h =
    tree_empty_lem now (pruned now (branch v d es))
    ∙ rw gone-pruned (
        ap (λ (b : Bool). gone now (branch v d es) && b)
          (elim (Bool-cases (has_child es && entries_empty now es)) [
            | inl e ↦
                rw (unfold_pruned now v d es, entries_of-clean, e)
                  (unfold entries_empty in ground arith)
            | inr e ↦ rw (unfold_pruned now v d es, entries_of-clean, e) h
          ]))
    ∙ sym (tree_empty_lem now (branch v d es))

tree_empty-leaf {ℓ} :
    {R : Type ℓ} (now : ℕ) (v : Option R) (d : Option ℕ)
    → tree_empty now (pruned now (leaf v d)) ≡ tree_empty now (leaf v d)
tree_empty-leaf now v d =
    tree_empty_lem now (pruned now (leaf v d))
    ∙ rw gone-pruned (unfold pruned in rw entries_of-clean refl)
    ∙ sym (tree_empty_lem now (leaf v d))

mutual
  unfolding tree_empty kept

  tree_empty-pruned {ℓ} :
      {R : Type ℓ} (now : ℕ) (t : Tree R) → tree_empty now (pruned now t) ≡ tree_empty now t
  tree_empty-pruned now (leaf v d) = tree_empty-leaf now v d
  tree_empty-pruned now (branch v d es) = tree_empty-branch now v d es (entries_empty-kept now es)

  entries_empty-kept {ℓ} :
      {R : Type ℓ} (now : ℕ) (es : Entries R)
      → entries_empty now (kept now es) ≡ entries_empty now es
  entries_empty-kept now nil = refl
  entries_empty-kept now (entry k t es) =
      ground (arith, tree_empty-pruned now t, entries_empty-kept now es)
  entries_empty-kept now (hole k es) = entries_empty-kept now es

-- Started below a node, and with distinct properties in each children object, pruning hides nothing
-- that is live: read at any path, now or later, the pruned tree has the current value that the tree
-- had.
pub value_at-prune_tree {ℓ} :
    {R : Type ℓ} (now later : ℕ) (tree : Tree R) (p : ChainedObject) (path : List Text)
    → now ≤ later
    → Distinct tree
    → value_at later (prune_tree now tree (some p)).1 path ≡ value_at later tree path
value_at-prune_tree now later tree p path le distinct =
    rw (prune_tree-pruned now tree p distinct) (value_at-pruned now later le tree path)

find_tree-survivor {ℓ} :
    {R : Type ℓ} (now : ℕ) (o : Option (Tree R)) (u : Tree R) (path : List Text)
    → elim (survivor now o) [ none ↦ none | some w ↦ find_tree w path ] ≡ some u
    → (w : Tree R) × (tree_empty now w ≡ false) × (find_tree (pruned now w) path ≡ some u)
find_tree-survivor now none u path h = cc
find_tree-survivor now (some w) u path h = elim (Bool-cases (tree_empty now w)) [
  | inl dead ↦ cc (rw dead at h)
  | inr alive ↦ (w, alive, rw alive at h)
]

find_tree-pruned {ℓ} :
    {R : Type ℓ} (now : ℕ) (t u : Tree R) (k : Text) (path : List Text)
    → find_tree (pruned now t) (k ∷ path) ≡ some u
    → tree_empty now u ≡ false
unfolding find_tree
find_tree-pruned now t u k [] h =
    let (w, alive, e) =
      find_tree-survivor now (get_entry (entries_of t) k) u []
        (rw (get_entry-pruned now now (omega arith) t k, find_tree) at h) in
    ground (arith, tree_empty-pruned now w)
find_tree-pruned now t u k (j ∷ path) h =
    let (w, alive, e) =
      find_tree-survivor now (get_entry (entries_of t) k) u (j ∷ path)
        (rw (get_entry-pruned now now (omega arith) t k, find_tree) at h) in
    find_tree-pruned now w u j path e

-- Started below a node, and with distinct properties in each children object, pruning leaves no dead
-- branch: every node below the root of the pruned tree has a live value, or one is below it.
pub find_tree-prune_tree {ℓ} :
    {R : Type ℓ} (now : ℕ) (tree u : Tree R) (p : ChainedObject) (k : Text) (path : List Text)
    → Distinct tree
    → find_tree (prune_tree now tree (some p)).1 (k ∷ path) ≡ some u
    → tree_empty now u ≡ false
find_tree-prune_tree now tree u p k path distinct h =
    find_tree-pruned now tree u k path (rw (prune_tree-pruned now tree p distinct) at h)
