-- ===== src/Cache/Searches/Listed.antt =====
-- The keys that `getChildren` lists, and the entries that they give a node of the storage's tree
-- (src/internal/async-tree-ref.ts).
use nodejs_proto_cache.Prelude.{
  ℕ, suc, ◌≡◌, refl, sym, ◌∙◌, ap, inl, inr, true, false, Bool-cases, Option, none, some, List, [],
  ◌∷◌,
}
use mathlib.Core.Path.{subst}
use nodejs_proto_cache.Keys.{Text, ChainedObject, chained, text_eq, Result, ok}
use nodejs_proto_cache.Tree.{Tree, entries_of, get_entry}
use nodejs_proto_cache.Tree.Paths.{find_tree}
use nodejs_proto_cache.Tree.Writes.{text_eq_iff, text_eq_refl}
use nodejs_proto_cache.Graphs.Async.{AnyTree, yields, breaks}
use nodejs_proto_cache.Graphs.Async.Flat.{as_tree, as_entries}
use nodejs_proto_cache.Graphs.Complete.{AnyOf}
use nodejs_proto_cache.Cache.{Options, Storage}
use nodejs_proto_cache.Cache.Searches.{
  GetChildren, Child, no_child, broken_child, child, key_under, key_entries, ref_children,
}
use nodejs_proto_cache.Cache.Searches.Nodes.{SteadyChild}

-- Each key of a path is among the keys that are listed below the keys before it.
unfoldable pub Listed :
    {S : Type 0}
    → (Option Text → S → Result (List Text))
    → S
    → ℕ
    → Option ChainedObject
    → List Text
    → Type 0
unfolding AnyOf key_under
Listed children s level parent [] = Unit
Listed children s level parent (k ∷ path) =
    (keys : List Text) × (children (key_under parent) s ≡ ok keys)
    × AnyOf (◌≡◌ k) keys
    × Listed children s (suc level) (some (chained k level parent)) path

-- The first entry of a listed key is the child that the key gives.
pub get_entry-key_entries :
    {R : Type 0} (child_of : Text → Child R) (keys : List Text) (k : Text) (c : AnyTree R)
    → ((j : Text) → SteadyChild (child_of j))
    → AnyOf (◌≡◌ k) keys
    → child_of k ≡ child c
    → get_entry (as_entries (key_entries child_of keys)) k ≡ some (as_tree c)
unfolding key_entries AnyOf as_entries get_entry SteadyChild
get_entry-key_entries child_of [] k c steady h e = absurd h
get_entry-key_entries {R} child_of (j ∷ keys) k c steady h e = elim (Bool-cases (text_eq j k)) [
  | inl same ↦
      subst
        (λ (x : Child R).
          get_entry
            (as_entries (elim x [
              | no_child ↦ key_entries child_of keys
              | broken_child ↦ breaks
              | child t ↦ yields j t (key_entries child_of keys)
            ]))
            k
          ≡ some (as_tree c))
        (sym (ap child_of ((text_eq_iff j k).0 same) ∙ e)) (first same)
  | inr other ↦ pick (child_of j) (steady j) other (elim h [
    | inl same ↦ absurd (cc (sym other ∙ ap (λ (x : Text). text_eq j x) same ∙ text_eq_refl j))
    | inr later ↦ get_entry-key_entries child_of keys k c steady later e
  ])
]
  where
    first :
        text_eq j k ≡ true
        → get_entry (as_entries (yields j c (key_entries child_of keys))) k ≡ some (as_tree c)
    first same = rw same refl

    pick :
        (x : Child R)
        → SteadyChild x
        → text_eq j k ≡ false
        → get_entry (as_entries (key_entries child_of keys)) k ≡ some (as_tree c)
        → get_entry
            (as_entries (elim x [
              | no_child ↦ key_entries child_of keys
              | broken_child ↦ breaks
              | child t ↦ yields j t (key_entries child_of keys)
            ]))
            k
          ≡ some (as_tree c)
    pick no_child g other more = more
    pick broken_child g other more = absurd g
    pick (child t) g other more = rw (other, get_entry) more

pub find_tree-entry :
    {R : Type 0} (t c u : Tree R) (k : Text) (path : List Text)
    → get_entry (entries_of t) k ≡ some c
    → find_tree c path ≡ some u
    → find_tree t (k ∷ path) ≡ some u
unfolding find_tree
find_tree-entry t c u k path e rest =
    ap (λ (o : Option (Tree _)). elim o [ none ↦ none | some x ↦ find_tree x path ]) e ∙ rest

pub ref_children-keys :
    {T R S : Type 0} (options : Options T R) (storage : Storage S R) (get_children : GetChildren S)
    (s : S) (children : Option Text → S → Result (List Text)) (child_of : Text → Child R)
    (own : Option ChainedObject) (keys : List Text)
    → get_children ≡ some children
    → children (key_under own) s ≡ ok keys
    → ref_children options storage get_children s child_of own ≡ key_entries child_of keys
unfolding ref_children
ref_children-keys options storage get_children s children child_of own keys there gives =
    rw (there, gives, ref_children) refl
