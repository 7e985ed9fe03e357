-- ===== src/Cache/FullTreeSet/Views.antt =====
-- What a path leads to in the tree that `saveFullTreeValue` (src/internal/tree-internal-control.ts)
-- leaves, for a consumer that takes every item as it is.
use nodejs_proto_cache.Prelude.{
  ℕ, ◌+◌, ◌≡◌, refl, sym, ◌∙◌, ap, Bool, true, false, Option, none, some, List, [], ◌∷◌, arith, inl,
  inr, Bool-cases, Option-cases, if◌then◌else◌,
}
use mathlib.Core.Path.{subst}
use nodejs_proto_cache.Keys.{Text, ChainedObject, chained, text_eq}
use nodejs_proto_cache.Tree.{
  Tree, Entries, leaf, branch, nil, entry, hole, empty_tree, deadline_of, entries_of, with_value,
  get_entry, current_value, expired,
}
use nodejs_proto_cache.Tree.Paths.{find_tree, value_at}
use nodejs_proto_cache.Graphs.{create_traversal_item}
use nodejs_proto_cache.Prune.Spec.{Distinct, DistinctEntries}
use nodejs_proto_cache.TreeUtils.{found_or}
use nodejs_proto_cache.TreeUtils.Same.{below}
use nodejs_proto_cache.Cache.{Options}
use nodejs_proto_cache.Cache.Values.{differs}
use nodejs_proto_cache.Cache.Laws.{IsCodec}
use nodejs_proto_cache.Cache.Persist.{differs-same}
use nodejs_proto_cache.Cache.TreeLevels.Enriching.{current_value-with_value}
use nodejs_proto_cache.Cache.FullTreeSet.{FullSetItem, check_full_set_item_change}
use nodejs_proto_cache.Cache.FullTreeSet.Saved.{
  written, saved_child, saved_below, saved_child-below, get_entry-saved_below, root-saved_below,
  stored, saved_entry, left_by,
}

-- The node at a path, in a tree that may not be there.
abbrev pub find_held : {R : Type 0} → Option (Tree R) → List Text → Option (Tree R)
find_held none q = none
find_held (some c) q = find_tree c q

find_tree-held :
    {R : Type 0} (t : Tree R) (j : Text) (q : List Text)
    → find_tree t (j ∷ q) ≡ find_held (get_entry (entries_of t) j) q
unfolding find_tree
find_tree-held {R} t j q = go (get_entry (entries_of t) j)
  where
    go : (o : Option (Tree R)) → elim o [ none ↦ none | some u ↦ find_tree u q ] ≡ find_held o q
    go none = refl
    go (some u) = refl

module _ {T R : Type 0} (options : Options T R) where
  -- A write of a value keeps the children and the deadline, and may change the value alone.
  kept-checked :
      (full : FullSetItem T R) (c : Tree R)
      → let c' = (check_full_set_item_change options full c).0 in
        (entries_of c' ≡ entries_of c) × (deadline_of c' ≡ deadline_of c)
  unfolding check_full_set_item_change
  kept-checked full (leaf x d) = ground arith
  kept-checked full (branch x d es) = ground arith

  checked-some :
      (full : FullSetItem T R) (c : Tree R) (v : T)
      → full.step.value ≡ some v
      → check_full_set_item_change options full c ≡ (
          if differs options full.current (options.serialize v)
          then (with_value c (some (options.serialize v)) (deadline_of c), true)
          else (c, false))
  unfolding check_full_set_item_change
  checked-some full c v e = rw (e, check_full_set_item_change) refl

  checked-none :
      (full : FullSetItem T R) (c : Tree R)
      → full.step.value ≡ none
      → (check_full_set_item_change options full c).0 ≡ c
  unfolding check_full_set_item_change
  checked-none full c e = rw (e, check_full_set_item_change) refl

  -- A value that is set is current from then on, as long as the node's deadline is not over.
  current-checked :
      (full : FullSetItem T R) (c : Tree R) (v : T) (now : ℕ)
      → IsCodec options
      → full.step.value ≡ some v
      → full.current ≡ current_value c now
      → expired (deadline_of c) now ≡ false
      → current_value (check_full_set_item_change options full c).0 now ≡ some (options.serialize v)
  current-checked full c v now codec e at live =
      let r = options.serialize v in
      ap (λ (p : Tree R × Bool). current_value p.0 now) (checked-some full c v e)
      ∙ elim (Bool-cases (differs options full.current r)) [
        | inl new ↦ rw new (current_value-with_value c (some r) (deadline_of c) now live)
        | inr same ↦ rw same (sym at ∙ differs-same options codec full.current r same)
      ]

module _ {T R : Type 0} (options : Options T R) (create_value : ChainedObject → Option T)
    (now later : ℕ) where
  abbrev given : FullSetItem T R → Option T
  given full = full.step.value

  abbrev child : Text → ℕ → Option ChainedObject → Tree T → Option (Tree R) → Tree R
  child = saved_child options create_value given now later

  abbrev beneath : ℕ → Option ChainedObject → Entries T → Tree R → Tree R
  beneath = saved_below options create_value given now later

  abbrev node : Text → ℕ → Option ChainedObject → Tree T → Option (Tree R) → Tree R
  node k level parent t o =
      written options create_value given now later (create_traversal_item k level parent t later)
        (stored options create_value given now later k level parent t o)

  Distinct-entries : (t : Tree T) → Distinct t → DistinctEntries (entries_of t)
  Distinct-entries (leaf v d) h = tt
  Distinct-entries (branch v d es) h = h

  Distinct-found :
      (es : Entries T) (k : Text) (t : Tree T)
      → DistinctEntries es
      → get_entry es k ≡ some t
      → Distinct t
  unfolding get_entry
  Distinct-found nil k t d e = cc
  Distinct-found (entry j u es) k t d e = elim (Bool-cases (text_eq j k)) [
    | inl same ↦ let found : u ≡ t = ground (arith, rw same at e) in subst Distinct found d.1
    | inr other ↦ Distinct-found es k t d.2 (rw other at e)
  ]
  Distinct-found (hole j es) k t d e = elim (Bool-cases (text_eq j k)) [
    | inl same ↦ absurd (ground (arith, rw same at e))
    | inr other ↦ Distinct-found es k t d.1 (rw other at e)
  ]

  -- The entries that a node has from the stored tree.
  abbrev held : Option (Tree R) → Text → Option (Tree R)
  held o j = get_entry (entries_of (found_or empty_tree o)) j

  entries-node :
      (k : Text) (level : ℕ) (parent : Option ChainedObject) (t : Tree T) (o : Option (Tree R))
      (j : Text)
      → get_entry (entries_of (node k level parent t o)) j ≡ held o j
  entries-node k level parent t none j =
      ap (λ (es : Entries R). get_entry es j) (kept-checked options _ _).0
  entries-node k level parent t (some c) j =
      ap (λ (es : Entries R). get_entry es j) (kept-checked options _ _).0

  -- The child under a key, from what the two trees have there.
  abbrev saved :
      ℕ → Option ChainedObject → Text → Option (Tree T) → Option (Tree R) → Option (Tree R)
  saved = saved_entry options create_value given now later

  -- A child of the saved child.
  entry-child :
      (k : Text) (level : ℕ) (parent : Option ChainedObject) (t : Tree T) (o : Option (Tree R))
      (j : Text)
      → Distinct t
      → get_entry (entries_of (child k level parent t o)) j
        ≡ saved
            (level + 1)
            (some (chained k level parent))
            j
            (get_entry (entries_of t) j)
            (held o j)
  entry-child k level parent t o j d =
      let own = some (chained k level parent) in
      ap (λ (x : Tree R). get_entry (entries_of x) j)
        (saved_child-below options create_value given now later k level parent t o)
      ∙ get_entry-saved_below options create_value given now later (level + 1) own (entries_of t)
          (node k level parent t o) j (Distinct-entries t d)
      ∙ ap (saved (level + 1) own j (get_entry (entries_of t) j))
          (entries-node k level parent t o j)

  current-child :
      (k : Text) (level : ℕ) (parent : Option ChainedObject) (t : Tree T) (o : Option (Tree R))
      (seen : ℕ)
      → current_value (child k level parent t o) seen ≡ current_value (node k level parent t o) seen
  unfolding current_value
  current-child k level parent t o seen =
      let own = some (chained k level parent) in
      let (value, deadline) =
        root-saved_below options create_value given now later (level + 1) own (entries_of t)
          (node k level parent t o) in
      ap (λ (x : Tree R). current_value x seen)
        (saved_child-below options create_value given now later k level parent t o)
      ∙ (λ i. if expired (deadline i) seen then none else value i)

  abbrev pub IsLive : Option (Tree R) → List Text → Type 0
  IsLive o q = (c : Tree R) → find_held o q ≡ some c → expired (deadline_of c) now ≡ false

  IsLive-below :
      (o : Option (Tree R)) (j : Text) (q : List Text) → IsLive o (j ∷ q) → IsLive (held o j) q
  unfolding get_entry
  IsLive-below none j q live c e = cc
  IsLive-below (some t) j q live c e = live c (find_tree-held t j q ∙ e)

  below-held :
      (seen : ℕ) (o : Option (Tree R)) (j : Text) (q : List Text)
      → below seen q (held o j) ≡ below seen (j ∷ q) o
  unfolding value_at get_entry
  below-held seen none j q = refl
  below-held seen (some c) j q = refl

  live-stored :
      (k : Text) (level : ℕ) (parent : Option ChainedObject) (t : Tree T) (o : Option (Tree R))
      → IsLive o []
      → expired (deadline_of (stored options create_value given now later k level parent t o)) now
        ≡ false
  unfolding find_tree
  live-stored k level parent t none live = refl
  live-stored k level parent t (some c) live = live c refl

  current-node :
      (k : Text) (level : ℕ) (parent : Option ChainedObject) (t : Tree T) (o : Option (Tree R))
      (v : T)
      → IsCodec options
      → current_value t later ≡ some v
      → IsLive o []
      → current_value (node k level parent t o) now ≡ some (options.serialize v)
  unfolding create_traversal_item
  current-node k level parent t o v codec e live =
      let item = create_traversal_item k level parent t later in
      let c = stored options create_value given now later k level parent t o in
      current-checked options (left_by options create_value given now later item c) c v now codec e
        refl (live-stored k level parent t o live)

  -- Where the given tree has a value, that value is current.
  pub value_at-found :
      (q : List Text) (k : Text) (level : ℕ) (parent : Option ChainedObject) (t t' : Tree T)
      (o : Option (Tree R)) (v : T)
      → IsCodec options
      → Distinct t
      → find_tree t q ≡ some t'
      → current_value t' later ≡ some v
      → IsLive o q
      → value_at now (child k level parent t o) q ≡ some (options.serialize v)
  unfolding find_tree value_at
  value_at-found [] k level parent t t' o v codec d at e live =
      let here : t ≡ t' = cc in
      current-child k level parent t o now
      ∙ current-node k level parent t o v codec
          (ap (λ (x : Tree T). current_value x later) here ∙ e) live
  value_at-found (j ∷ q) k level parent t t' o v codec d at e live =
      let own = some (chained k level parent) in
      let there = sym (find_tree-held t j q) ∙ at in
      elim (Option-cases (get_entry (entries_of t) j)) [
        | inl absent ↦ absurd (ground (arith, rw absent at there))
        | inr (u, found) ↦
            ap (below now q) (
              entry-child k level parent t o j d
              ∙ ap (λ (x : Option (Tree T)). saved (level + 1) own j x (held o j)) found)
            ∙ value_at-found q j (level + 1) own u t' (held o j) v codec
                (Distinct-found (entries_of t) j u (Distinct-entries t d) found) (rw found at there)
                e (IsLive-below o j q live)
      ]

  -- Where the given tree has no node, everything stays.
  pub value_at-kept :
      (q : List Text) (k : Text) (level : ℕ) (parent : Option ChainedObject) (t : Tree T)
      (o : Option (Tree R)) (seen : ℕ)
      → Distinct t
      → find_tree t q ≡ none
      → value_at seen (child k level parent t o) q ≡ below seen q o
  unfolding find_tree value_at
  value_at-kept [] k level parent t o seen d at = cc
  value_at-kept (j ∷ q) k level parent t o seen d at =
      let own = some (chained k level parent) in
      let there = sym (find_tree-held t j q) ∙ at in
      let step = ap (below seen q) (entry-child k level parent t o j d) in
      elim (Option-cases (get_entry (entries_of t) j)) [
        | inl absent ↦
            step
            ∙ ap (λ (x : Option (Tree T)). below seen q (saved (level + 1) own j x (held o j)))
                absent
            ∙ below-held seen o j q
        | inr (u, found) ↦
            step
            ∙ ap (λ (x : Option (Tree T)). below seen q (saved (level + 1) own j x (held o j)))
                found
            ∙ value_at-kept q j (level + 1) own u (held o j) seen
                (Distinct-found (entries_of t) j u (Distinct-entries t d) found) (rw found at there)
            ∙ below-held seen o j q
      ]
