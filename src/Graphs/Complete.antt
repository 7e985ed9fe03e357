-- ===== src/Graphs/Complete.antt =====
-- The items of the nodes at the paths of a tree, in the breadth first search of src/utils/graphs.
pub mod Depth
use nodejs_proto_cache.Prelude.{
  ℕ, zero, suc, ◌+◌, ◌≤◌, ◌<◌, max, ◌≡◌, refl, sym, ◌∙◌, ap, ◌⊎◌, inl, inr, Bool, true, false,
  Bool-cases, Option, none, some, Option-cases, List, [], ◌∷◌, ◌++◌, map, reverse, append_assoc,
  append-nil, arith, if◌then◌else◌,
}
use mathlib.Core.Path.{subst}
use mathlib.Core.List.{reverse-append}
use nodejs_proto_cache.Keys.{Text, ChainedObject, chained, text_eq}
use nodejs_proto_cache.Keys.Chain.{path_of, keys_to, path_of-chained}
use nodejs_proto_cache.Tree.{Tree, Entries, leaf, branch, nil, entry, hole, entries_of, get_entry}
use nodejs_proto_cache.Tree.Paths.{find_tree}
use nodejs_proto_cache.Tree.Writes.{text_eq_iff}
use nodejs_proto_cache.Graphs.{Item, item_ref, create_traversal_item}
use nodejs_proto_cache.Graphs.Breadth.{
  tree_height, entries_height, child_items, next_level, breadth_order,
}

-- Some element of the list has the property.
unfoldable pub AnyOf {ℓ} : {A : Type ℓ} → (A → Type 0) → List A → Type 0
AnyOf P [] = ⊥
AnyOf P (x ∷ xs) = P x ⊎ AnyOf P xs

module _ {ℓ} {A : Type ℓ} (P : A → Type 0) where
  pub AnyOf-left : (xs ys : List A) → AnyOf P xs → AnyOf P (xs ++ ys)
  unfolding AnyOf
  AnyOf-left [] ys h = absurd h
  AnyOf-left (x ∷ xs) ys (inl h) = inl h
  AnyOf-left (x ∷ xs) ys (inr h) = inr (AnyOf-left xs ys h)

  pub AnyOf-right : (xs ys : List A) → AnyOf P ys → AnyOf P (xs ++ ys)
  unfolding AnyOf
  AnyOf-right [] ys h = h
  AnyOf-right (x ∷ xs) ys h = inr (AnyOf-right xs ys h)

  pub AnyOf-reverse : (xs : List A) → AnyOf P xs → AnyOf P (reverse xs)
  unfolding AnyOf
  AnyOf-reverse [] h = absurd h
  AnyOf-reverse (x ∷ xs) (inl h) =
      subst (AnyOf P) (sym (reverse-append (x ∷ []) xs)) (AnyOf-right (reverse xs) (x ∷ []) (inl h))
  AnyOf-reverse (x ∷ xs) (inr h) =
      subst (AnyOf P) (sym (reverse-append (x ∷ []) xs))
        (AnyOf-left (reverse xs) (x ∷ []) (AnyOf-reverse xs h))

pub AnyOf-map {ℓ κ} :
    {A : Type ℓ} {B : Type κ} (P : A → Type 0) (Q : B → Type 0) (f : A → B) (xs : List A)
    → ((x : A) → P x → Q (f x))
    → AnyOf P xs
    → AnyOf Q (map f xs)
unfolding AnyOf
AnyOf-map P Q f [] imp h = absurd h
AnyOf-map P Q f (x ∷ xs) imp (inl h) = inl (imp x h)
AnyOf-map P Q f (x ∷ xs) imp (inr h) = inr (AnyOf-map P Q f xs imp h)

module _ {R : Type 0} where
  -- The item is that of the node at the path, which holds the tree.
  abbrev pub At : List Text → Tree R → Item R → Type 0
  At path t i = (path_of (item_ref i) ≡ path) × (i.tree_ref ≡ t)

  pub At-create :
      (k : Text) (level : ℕ) (parent : Option ChainedObject) (t : Tree R) (now : ℕ)
      → At (keys_to parent ++ k ∷ []) t (create_traversal_item k level parent t now)
  unfolding create_traversal_item
  At-create k level parent t now = (path_of-chained k level parent, refl)

  -- The first step of a path.
  pub find_tree-cons :
      (t u : Tree R) (k : Text) (path : List Text)
      → find_tree t (k ∷ path) ≡ some u
      → (c : Tree R) × (get_entry (entries_of t) k ≡ some c) × (find_tree c path ≡ some u)
  unfolding find_tree
  find_tree-cons t u k path e = elim (Option-cases (get_entry (entries_of t) k)) [
    | inl absent ↦ absurd (ground (arith, rw (absent, find_tree) at e))
    | inr (c, found) ↦ (c, found, rw (found, find_tree) at e)
  ]

  pub some-tree : (t u : Tree R) → some t ≡ some u → t ≡ u
  some-tree t u e = ap (λ (o : Option (Tree R)). elim o [ none ↦ t | some x ↦ x ]) e

  pub find_tree-nil : (t u : Tree R) → find_tree t [] ≡ some u → t ≡ u
  unfolding find_tree
  find_tree-nil t u e = some-tree t u e

  module _ (now : ℕ) where
    child_items-At :
        (k : Text) (c : Tree R) (level : ℕ) (parent : Option ChainedObject) (es : Entries R)
        → get_entry es k ≡ some c
        → AnyOf (At (keys_to parent ++ k ∷ []) c) (child_items now level parent es)
    unfolding AnyOf child_items get_entry
    child_items-At k c level parent nil e = absurd (cc e)
    child_items-At k c level parent (entry j t es) e = elim (Bool-cases (text_eq j k)) [
      | inl same ↦
          let tree : t ≡ c =
            some-tree t c
              (sym (ap (λ (b : Bool). if b then some t else get_entry es k) same) ∙ e) in
          inl (
            subst
              (λ (i : Text).
                At (keys_to parent ++ i ∷ []) c (create_traversal_item j level parent t now))
              ((text_eq_iff j k).0 same)
              (subst
                (λ (u : Tree R).
                  At (keys_to parent ++ j ∷ []) u (create_traversal_item j level parent t now))
                tree (At-create j level parent t now)))
      | inr other ↦ inr (
          child_items-At k c level parent es
            (sym (ap (λ (b : Bool). if b then some t else get_entry es k) other) ∙ e))
    ]
    child_items-At k c level parent (hole j es) e = elim (Bool-cases (text_eq j k)) [
      | inl same ↦
          absurd (cc (sym (ap (λ (b : Bool). if b then none else get_entry es k) same) ∙ e))
      | inr other ↦
          child_items-At k c level parent es
            (sym (ap (λ (b : Bool). if b then none else get_entry es k) other) ∙ e)
    ]

    next_level-At :
        (k : Text) (path : List Text) (t c : Tree R) (items : List (Item R))
        → get_entry (entries_of t) k ≡ some c
        → AnyOf (At path t) items
        → AnyOf (At (path ++ k ∷ []) c) (next_level now items)
    unfolding AnyOf next_level
    next_level-At k path t c [] e h = absurd h
    next_level-At k path t c (i ∷ items) e (inl (same, tree)) =
        AnyOf-left (At (path ++ k ∷ []) c) _ (next_level now items) (
          subst
            (λ (q : List Text).
              AnyOf (At (q ++ k ∷ []) c)
                (child_items now (i.level + 1) (some (item_ref i)) (entries_of i.tree_ref)))
            same
            (child_items-At k c (i.level + 1) (some (item_ref i)) (entries_of i.tree_ref)
              (ap (λ (u : Tree R). get_entry (entries_of u) k) tree ∙ e)))
    next_level-At k path t c (i ∷ items) e (inr h) =
        AnyOf-right (At (path ++ k ∷ []) c) _ (next_level now items)
          (next_level-At k path t c items e h)

    tree_height-entries : (t : Tree R) → tree_height t ≡ suc (entries_height (entries_of t))
    unfolding tree_height
    tree_height-entries (leaf v d) = refl
    tree_height-entries (branch v d es) = refl

    height-get_entry :
        (es : Entries R) (k : Text) (c : Tree R)
        → get_entry es k ≡ some c
        → entries_height (entries_of c) < entries_height es
    unfolding get_entry entries_height
    height-get_entry nil k c e = absurd (cc e)
    height-get_entry (entry j t es) k c e = elim (Bool-cases (text_eq j k)) [
      | inl same ↦
          let tree : t ≡ c =
            some-tree t c
              (sym (ap (λ (b : Bool). if b then some t else get_entry es k) same) ∙ e) in
          let tall = ap (λ (u : Tree R). entries_height (entries_of u)) tree in
          omega (arith, tall, tree_height-entries t)
      | inr other ↦ omega (
        arith,
        height-get_entry es k c
            (sym (ap (λ (b : Bool). if b then some t else get_entry es k) other) ∙ e),
      )
    ]
    height-get_entry (hole j es) k c e = elim (Bool-cases (text_eq j k)) [
      | inl same ↦
          absurd (cc (sym (ap (λ (b : Bool). if b then none else get_entry es k) same) ∙ e))
      | inr other ↦
          height-get_entry es k c
            (sym (ap (λ (b : Bool). if b then none else get_entry es k) other) ∙ e)
    ]

    -- Below an item of a level, the levels that follow have the node at every path.
    breadth_order-At :
        (path above : List Text) (t u : Tree R) (levels : ℕ) (items : List (Item R))
        → AnyOf (At above t) items
        → find_tree t path ≡ some u
        → entries_height (entries_of t) < levels
        → AnyOf (At (above ++ path) u) (breadth_order now levels items)
    unfolding breadth_order
    breadth_order-At path above t u zero items h e low = absurd (omega arith)
    breadth_order-At [] above t u (suc levels) items h e low =
        AnyOf-left (At (above ++ []) u) items _ (
          subst (λ (x : Tree R). AnyOf (At (above ++ []) x) items) (find_tree-nil t u e)
            (subst (λ (q : List Text). AnyOf (At q t) items) (sym (append-nil above)) h))
    breadth_order-At (k ∷ path) above t u (suc levels) items h e low =
        let (c, found, rest) = find_tree-cons t u k path e in
        AnyOf-right (At (above ++ k ∷ path) u) items _ (
          subst
            (λ (q : List Text). AnyOf (At q u) (breadth_order now levels (next_level now items)))
            (append_assoc above (k ∷ []) path)
            (breadth_order-At path (above ++ k ∷ []) c u levels (next_level now items)
              (next_level-At k above t c items found h) rest
              (omega (arith, height-get_entry (entries_of t) k c found))))

    pub breadth_order-find_tree :
        (t u : Tree R) (k : Text) (path : List Text)
        → find_tree t (k ∷ path) ≡ some u
        → AnyOf (At (k ∷ path) u) (
            breadth_order now
              (entries_height (entries_of t))
              (child_items now 1 none (entries_of t)))
    breadth_order-find_tree t u k path e =
        let (c, found, rest) = find_tree-cons t u k path e in
        breadth_order-At path (k ∷ []) c u (entries_height (entries_of t))
          (child_items now 1 none (entries_of t)) (child_items-At k c 1 none (entries_of t) found)
          rest (height-get_entry (entries_of t) k c found)
