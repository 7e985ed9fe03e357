-- ===== src/Graphs/Invariant.antt =====
-- Properties of nodes that pass from a node to its children, for the items of the searches of
-- src/utils/graphs.
use nodejs_proto_cache.Prelude.{
  ℕ, zero, suc, ◌+◌, ◌≡◌, refl, ◌∙◌, ap, ◌⊎◌, inl, inr, Bool, true, false, ◌||◌, Bool-cases, Option,
  none, some, List, [], ◌∷◌, arith, All, All-append, if◌then◌else◌,
}
use mathlib.Core.Path.{subst}
use nodejs_proto_cache.Keys.{Text, ChainedObject, chained, text_eq}
use nodejs_proto_cache.Tree.{
  Tree, Entries, leaf, branch, nil, entry, hole, entries_of, get_entry, has_property, current_value,
}
use nodejs_proto_cache.Tree.Writes.{text_eq_iff}
use nodejs_proto_cache.Graphs.{Item, item_ref, create_traversal_item}
use nodejs_proto_cache.Graphs.Breadth.{child_items, next_level, breadth_order}
use nodejs_proto_cache.Graphs.Depth.{depth_order, depth_below}
use nodejs_proto_cache.Prune.Spec.{Distinct, DistinctEntries}

-- The children object has the child under the key.
unfoldable pub HasEntry : {R : Type 0} → Text → Tree R → Entries R → Type 0
HasEntry k u nil = ⊥
HasEntry k u (entry j t es) = ((j ≡ k) × (t ≡ u)) ⊎ HasEntry k u es
HasEntry k u (hole j es) = HasEntry k u es

has_property-HasEntry :
    {R : Type 0} (k : Text) (u : Tree R) (es : Entries R)
    → HasEntry k u es
    → has_property es k ≡ true
unfolding HasEntry has_property
has_property-HasEntry k u nil h = absurd h
has_property-HasEntry k u (entry j t es) (inl (same, _)) =
    ap (λ (b : Bool). b || has_property es k) ((text_eq_iff j k).1 same)
has_property-HasEntry k u (entry j t es) (inr h) = elim (Bool-cases (text_eq j k)) [
  | inl e ↦ ap (λ (b : Bool). b || has_property es k) e
  | inr e ↦ ap (λ (b : Bool). b || has_property es k) e ∙ has_property-HasEntry k u es h
]
has_property-HasEntry k u (hole j es) h = elim (Bool-cases (text_eq j k)) [
  | inl e ↦ ap (λ (b : Bool). b || has_property es k) e
  | inr e ↦ ap (λ (b : Bool). b || has_property es k) e ∙ has_property-HasEntry k u es h
]

-- A property that is not there again is another one.
other_property :
    {R : Type 0} (j k : Text) (u : Tree R) (es : Entries R)
    → has_property es j ≡ false
    → HasEntry k u es
    → text_eq j k ≡ false
other_property j k u es fresh h = elim (Bool-cases (text_eq j k)) [
  | inl e ↦
      let there : has_property es j ≡ true =
        ap (has_property es) ((text_eq_iff j k).0 e) ∙ has_property-HasEntry k u es h in
      absurd (ground (arith, there, fresh))
  | inr e ↦ e
]

pub get_entry-HasEntry :
    {R : Type 0} (k : Text) (u : Tree R) (es : Entries R)
    → DistinctEntries es
    → HasEntry k u es
    → get_entry es k ≡ some u
unfolding HasEntry get_entry
get_entry-HasEntry k u nil d h = absurd h
get_entry-HasEntry k u (entry j t es) d (inl (same, tree)) =
    ap (λ (b : Bool). if b then some t else get_entry es k) ((text_eq_iff j k).1 same)
    ∙ ap some tree
get_entry-HasEntry k u (entry j t es) d (inr h) =
    ap (λ (b : Bool). if b then some t else get_entry es k) (other_property j k u es d.0 h)
    ∙ get_entry-HasEntry k u es d.2 h
get_entry-HasEntry k u (hole j es) d h =
    ap (λ (b : Bool). if b then none else get_entry es k) (other_property j k u es d.0 h)
    ∙ get_entry-HasEntry k u es d.1 h

pub Distinct-HasEntry :
    {R : Type 0} (k : Text) (u : Tree R) (es : Entries R)
    → DistinctEntries es
    → HasEntry k u es
    → Distinct u
unfolding HasEntry
Distinct-HasEntry k u nil d h = absurd h
Distinct-HasEntry k u (entry j t es) d (inl (same, tree)) = subst Distinct tree d.1
Distinct-HasEntry k u (entry j t es) d (inr h) = Distinct-HasEntry k u es d.2 h
Distinct-HasEntry k u (hole j es) d h = Distinct-HasEntry k u es d.1 h

pub Distinct-entries_of : {R : Type 0} (t : Tree R) → Distinct t → DistinctEntries (entries_of t)
Distinct-entries_of (leaf v d) h = tt
Distinct-entries_of (branch v d es) h = h

module _ {R : Type 0} (Good : ChainedObject → Tree R → Type 0) where
  abbrev pub GoodBelow : ℕ → Option ChainedObject → Entries R → Type 0
  GoodBelow level parent es =
      (k : Text) (u : Tree R) → HasEntry k u es → Good (chained k level parent) u

  module _
      (pass : (k : Text) (level : ℕ) (parent : Option ChainedObject) (t : Tree R)
        → Good (chained k level parent) t
        → GoodBelow (level + 1) (some (chained k level parent)) (entries_of t))
      (now : ℕ) where
    abbrev pub GoodItem : Item R → Type 0
    GoodItem i = Good (item_ref i) i.tree_ref × (i.value ≡ current_value i.tree_ref now)

    pub GoodItem-create :
        (k : Text) (level : ℕ) (parent : Option ChainedObject) (t : Tree R)
        → Good (chained k level parent) t
        → GoodItem (create_traversal_item k level parent t now)
    unfolding create_traversal_item
    GoodItem-create k level parent t h = (h, refl)

    pub All-child_items :
        (level : ℕ) (parent : Option ChainedObject) (es : Entries R)
        → GoodBelow level parent es
        → All GoodItem (child_items now level parent es)
    unfolding child_items HasEntry
    All-child_items level parent nil h = tt
    All-child_items level parent (entry k t es) h = (
      GoodItem-create k level parent t (h k t (inl (refl, refl))),
      All-child_items level parent es (λ j u has. h j u (inr has)),
    )
    All-child_items level parent (hole k es) h = All-child_items level parent es h

    All-next_level :
        (items : List (Item R)) → All GoodItem items → All GoodItem (next_level now items)
    unfolding next_level
    All-next_level [] h = tt
    All-next_level (i ∷ items) h =
        All-append GoodItem _ _
          (All-child_items (i.level + 1) (some (item_ref i)) (entries_of i.tree_ref)
            (pass i.key i.level i.parent_ref i.tree_ref h.0.0))
          (All-next_level items h.1)

    pub All-breadth_order :
        (levels : ℕ) (items : List (Item R))
        → All GoodItem items
        → All GoodItem (breadth_order now levels items)
    unfolding breadth_order
    All-breadth_order zero items h = tt
    All-breadth_order (suc levels) items h =
        All-append GoodItem items _ h
          (All-breadth_order levels (next_level now items) (All-next_level items h))

    mutual
      unfolding depth_order depth_below HasEntry

      All-depth_order :
          (k : Text) (level : ℕ) (parent : Option ChainedObject) (t : Tree R)
          → Good (chained k level parent) t
          → All GoodItem (depth_order now k level parent t)
      All-depth_order k level parent (leaf v d) h =
          (GoodItem-create k level parent (leaf v d) h, tt)
      All-depth_order k level parent (branch v d es) h = (
        GoodItem-create k level parent (branch v d es) h,
        All-depth_below (level + 1) (some (chained k level parent)) es
            (pass k level parent (branch v d es) h),
      )

      pub All-depth_below :
          (level : ℕ) (parent : Option ChainedObject) (es : Entries R)
          → GoodBelow level parent es
          → All GoodItem (depth_below now level parent es)
      All-depth_below level parent nil h = tt
      All-depth_below level parent (entry k t es) h =
          All-append GoodItem _ _ (All-depth_below level parent es (λ j u has. h j u (inr has)))
            (All-depth_order k level parent t (h k t (inl (refl, refl))))
      All-depth_below level parent (hole k es) h = All-depth_below level parent es h
