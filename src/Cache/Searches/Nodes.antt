-- ===== src/Cache/Searches/Nodes.antt =====
-- The nodes below the root of src/internal/async-tree-ref.ts: each one is a key of the storage or
-- lies in a tree that the storage holds.
use nodejs_proto_cache.Prelude.{
  ℕ, zero, suc, ◌+◌, ◌≡◌, refl, sym, ◌∙◌, ap, ◌⊎◌, inl, inr, true, Option, none, some, List, [],
  ◌∷◌, ◌++◌, arith, length, length-append, le→ltb, Option-cases,
}
use mathlib.Core.Path.{subst}
use nodejs_proto_cache.Keys.{Text, ChainedObject, chained, level_of, join, build_key, Result, ok}
use nodejs_proto_cache.Keys.Chain.{path_of, keys_to, path_of-chained, build_key-path_of}
use nodejs_proto_cache.Tree.{Tree, entries_of, current_value}
use nodejs_proto_cache.Tree.Paths.{find_tree}
use nodejs_proto_cache.Prune.Spec.{Distinct}
use nodejs_proto_cache.Graphs.Async.{AnyTree, plain, deferred, yields, breaks}
use nodejs_proto_cache.Graphs.Async.Flat.{as_tree, as_entries, Steady, SteadyEntries}
use nodejs_proto_cache.Graphs.Invariant.{HasEntry}
use nodejs_proto_cache.Cache.{Options, Storage}
use nodejs_proto_cache.Cache.Laws.{IsReliable}
use nodejs_proto_cache.Cache.Searches.{
  GetChildren, Child, no_child, broken_child, child, key_entries, ref_children, key_under,
  tree_child, key_child,
}

-- The storage lists the keys below each key.
abbrev pub Lists : {S : Type 0} → GetChildren S → S → Type 0
Lists {S} get_children s =
    (children : Option Text → S → Result (List Text)) × (get_children ≡ some children)
    × ((parent : Option Text) → (keys : List Text) × (children parent s ≡ ok keys))

-- A value that is stored for a path of `keyLevelNodes` keys is a tree, with distinct keys.
abbrev pub HoldsTrees : {T R : Type 0} → Options T R → (Text → Option R) → Type 0
HoldsTrees {R = R} options look =
    (path : List Text) (r : R)
    → length path ≡ options.key_level_nodes
    → look (join path) ≡ some r
    → (options.truthy r ≡ true) × (t : Tree R) × (options.deserialize_tree r ≡ some t) × Distinct t

pub HasEntry-key_entries :
    {R : Type 0} (child_of : Text → Child R) (keys : List Text) (k : Text) (u : Tree R)
    → HasEntry k u (as_entries (key_entries child_of keys))
    → (c : AnyTree R) × (child_of k ≡ child c) × (as_tree c ≡ u)
unfolding key_entries HasEntry as_entries
HasEntry-key_entries child_of [] k u h = absurd h
HasEntry-key_entries {R = R} child_of (j ∷ keys) k u h =
    pick (child_of j) refl (HasEntry-key_entries child_of keys k u) h
  where
    pick :
        (x : Child R)
        → child_of j ≡ x
        → (HasEntry k u (as_entries (key_entries child_of keys))
            → (c : AnyTree R) × (child_of k ≡ child c) × (as_tree c ≡ u))
        → HasEntry k u (
            as_entries (elim x [
              | no_child ↦ key_entries child_of keys
              | broken_child ↦ breaks
              | child t ↦ yields j t (key_entries child_of keys)
            ]))
        → (c : AnyTree R) × (child_of k ≡ child c) × (as_tree c ≡ u)
    pick no_child e more has = more has
    pick broken_child e more has = absurd has
    pick (child t) e more (inl (same, tree)) = (t, ap child_of (sym same) ∙ e, tree)
    pick (child t) e more (inr has) = more has

unfoldable pub SteadyChild : {R : Type 0} → Child R → Type 0
SteadyChild no_child = Unit
SteadyChild broken_child = ⊥
SteadyChild (child t) = Steady t

Steady-key_entries :
    {R : Type 0} (child_of : Text → Child R) (keys : List Text)
    → ((k : Text) → SteadyChild (child_of k))
    → SteadyEntries (key_entries child_of keys)
unfolding key_entries SteadyEntries SteadyChild
Steady-key_entries child_of [] h = tt
Steady-key_entries {R = R} child_of (j ∷ keys) h =
    pick (child_of j) (h j) (Steady-key_entries child_of keys h)
  where
    pick :
        (x : Child R)
        → SteadyChild x
        → SteadyEntries (key_entries child_of keys)
        → SteadyEntries (elim x [
          | no_child ↦ key_entries child_of keys
          | broken_child ↦ breaks
          | child t ↦ yields j t (key_entries child_of keys)
        ])
    pick no_child g more = more
    pick broken_child g more = g
    pick (child t) g more = (g, more)

module _ {T R S : Type 0} (options : Options T R) (storage : Storage S R)
    (lookup : S → Text → Option R) (reliable : IsReliable storage lookup)
    (get_children : GetChildren S) (s : S) where
  -- A node with a key of its own, with a number of levels of keys below it.
  pub record KeyNode (own : ChainedObject) (t : Tree R) : Type 0 where
    pub levels : ℕ
    pub above : length (path_of own) + suc levels ≡ options.key_level_nodes
    pub counted : level_of own ≡ length (path_of own)
    pub held : (seen : ℕ) → current_value t seen ≡ lookup s (build_key own)
    pub children :
        entries_of t
        ≡ as_entries (
            ref_children options storage get_children s
              (key_child options storage get_children s levels (suc (level_of own)) (some own))
              (some own))

  -- A node of a tree that is stored.
  pub record TreeNode (own : ChainedObject) (t : Tree R) : Type 0 where
    pub front : List Text
    pub rest : List Text
    pub buffer : R
    pub root : Tree R
    pub split : path_of own ≡ front ++ rest
    pub above : length front ≡ options.key_level_nodes
    pub held : lookup s (join front) ≡ some buffer
    pub full : options.truthy buffer ≡ true
    pub parsed : options.deserialize_tree buffer ≡ some root
    pub there : find_tree root rest ≡ some t
    pub distinct : Distinct t

  abbrev pub Stored : ChainedObject → Tree R → Type 0
  Stored own t = KeyNode own t ⊎ TreeNode own t

  module _ (lists : Lists get_children s) (trees : HoldsTrees options (lookup s)) where
    pub ref_children-listed :
        (child_of : Text → Child R) (own : Option ChainedObject)
        → (keys : List Text) × (ref_children options storage get_children s child_of own
            ≡ key_entries child_of keys)
    unfolding ref_children
    ref_children-listed child_of own =
        let (children, there, listed) = lists in
        let (keys, e) = listed (key_under own) in (keys, rw (there, e, ref_children) refl)

    pub Steady-ref_children :
        (child_of : Text → Child R) (own : Option ChainedObject)
        → ((k : Text) → SteadyChild (child_of k))
        → SteadyEntries (ref_children options storage get_children s child_of own)
    Steady-ref_children child_of own h =
        let (keys, e) = ref_children-listed child_of own in
        subst SteadyEntries (sym e) (Steady-key_entries child_of keys h)

    -- The value that is read for a child.
    pub key_child-tree :
        (level : ℕ) (parent : Option ChainedObject) (k : Text)
        → key_child options storage get_children s zero level parent k
          ≡ tree_child options storage get_children s level
              (lookup s (build_key (chained k level parent)))
    unfolding key_child
    key_child-tree level parent k =
        rw (reliable.get_lem (build_key (chained k level parent)) s, key_child) refl

    pub key_child-key :
        (n level : ℕ) (parent : Option ChainedObject) (k : Text)
        → key_child options storage get_children s (suc n) level parent k
          ≡ child (
              deferred (lookup s (build_key (chained k level parent))) none (
                ref_children options storage get_children s
                  (key_child options storage get_children s n
                    (suc level)
                    (some (chained k level parent)))
                  (some (chained k level parent))))
    unfolding key_child
    key_child-key n level parent k =
        rw (reliable.get_lem (build_key (chained k level parent)) s, key_child) refl

    pub length-chained :
        (k : Text) (level : ℕ) (parent : Option ChainedObject)
        → length (path_of (chained k level parent)) ≡ suc (length (keys_to parent))
    length-chained k level parent =
        ap length (path_of-chained k level parent)
        ∙ omega (arith, length-append (keys_to parent) (k ∷ []))

    -- A value at the level of the trees gives a tree, or no child if there is none.
    pub tree_child-cases :
        (level : ℕ) (own : ChainedObject)
        → level ≡ options.key_level_nodes
        → length (path_of own) ≡ options.key_level_nodes
        → (tree_child options storage get_children s level (lookup s (build_key own)) ≡ no_child)
          ⊎ ((r : R) × (t : Tree R) × (tree_child options storage get_children s level
                  (lookup s (build_key own))
                ≡ child (plain t))
              × (lookup s (join (path_of own)) ≡ some r)
              × (options.truthy r ≡ true)
              × (options.deserialize_tree r ≡ some t)
              × Distinct t)
    unfolding tree_child
    tree_child-cases level own e long = elim (Option-cases (lookup s (build_key own))) [
      | inl absent ↦ inl (rw (absent, tree_child) refl)
      | inr (r, held) ↦
          let there : lookup s (join (path_of own)) ≡ some r =
            ap (lookup s) (sym (build_key-path_of own)) ∙ held in
          let (full, t, parsed, distinct) = trees (path_of own) r long there in
          inr (
            r,
            t,
            rw (held, tree_child, le→ltb options.key_level_nodes level (omega (arith, e)), parsed)
                refl,
            there,
            full,
            parsed,
            distinct,
          )
    ]
