-- ===== src/Cache/FullTreeSet/SavesTree.antt =====
-- What a run of `saveFullTreeValue` (src/internal/tree-internal-control.ts) leaves under its key.
use nodejs_proto_cache.Prelude.{
  ℕ, ◌+◌, ◌≡◌, refl, sym, ◌∙◌, ap, false, Option, none, some, List, [], ◌∷◌, arith,
}
use nodejs_proto_cache.Keys.{Text, ChainedObject, chained, key_of, level_of, ok}
use nodejs_proto_cache.Tree.{
  Tree, empty_tree, deadline_of, entries_of, current_value, expired, get_entry,
}
use nodejs_proto_cache.Tree.Paths.{find_tree, value_at}
use nodejs_proto_cache.Graphs.{Item, item_ref, parent_of}
use nodejs_proto_cache.Prune.Spec.{Distinct}
use nodejs_proto_cache.TreeUtils.{found_or}
use nodejs_proto_cache.TreeUtils.Same.{below-found_or}
use nodejs_proto_cache.Cache.{Options, Storage, StepTtl, resume, World}
use nodejs_proto_cache.Cache.Laws.{IsReliable, IsCodec}
use nodejs_proto_cache.Cache.Setting.Trees.{Parses}
use nodejs_proto_cache.Cache.FullTreeSet.{FullSetItem, save_full_tree_value}
use nodejs_proto_cache.Cache.FullTreeSet.Saved.{saved_child-below, saved_below}
use nodejs_proto_cache.Cache.FullTreeSet.Views.{find_held, IsLive, value_at-found, value_at-kept}
use nodejs_proto_cache.Cache.FullTreeSet.Held.{parsed, held_value}
use nodejs_proto_cache.Cache.FullTreeSet.SavedRun.{root_written, saves-held}

chained-parts : (p : ChainedObject) → chained (key_of p) (level_of p) (parent_of p) ≡ p
chained-parts (ChainedObject.top k n) = refl
chained-parts (ChainedObject.below k n p) = refl

-- What is live in a buffer is live in the tree that the run starts from.
found_or-IsLive :
    {T R : Type 0} (options : Options T R) (create_value : ChainedObject → Option T) (now later : ℕ)
    (o : Option (Tree R)) (q : List Text)
    → ((c : Tree R) → find_held o q ≡ some c → expired (deadline_of c) now ≡ false)
    → IsLive options create_value now later (some (found_or empty_tree o)) q
unfolding find_tree get_entry
found_or-IsLive options create_value now later none [] live c e =
    ap (λ (x : Option (Tree _)). expired (deadline_of (found_or empty_tree x)) now) (sym e)
found_or-IsLive options create_value now later none (j ∷ q) live c e = absurd (ground (arith, e))
found_or-IsLive options create_value now later (some t) q live c e = live c e

-- A run of `saveFullTreeValue` whose consumer takes every item as it is, on a storage whose key
-- holds a tree if it holds anything, ends. Afterwards the key holds a tree in which each path
-- that leads to a value in the given tree leads to that value, if the deadline of the stored node
-- is not over, and each path that leads to no node of the given tree leads at any time to what it
-- led to before. The properties of each children object of the given tree are distinct.
pub save_full_tree_value-held_value :
    {T R S : Type 0} (options : Options T R) (storage : Storage S R) (lookup : S → Text → Option R)
    (create_value : ChainedObject → Option T) (ttl : Option (StepTtl T)) (now later : ℕ)
    (root : Item T) (key : Text) (w : World S T)
    → IsReliable storage lookup
    → IsCodec options
    → Parses options (lookup w.store key)
    → Distinct root.tree_ref
    → (w' : World S T) × (save_full_tree_value options storage create_value ttl
          (λ full. resume full.step.value)
          now
          later
          root
          key
          w
        ≡ (ok tt, w'))
      × ((q : List Text) (t : Tree T) (v : T)
          → find_tree root.tree_ref q ≡ some t
          → current_value t later ≡ some v
          → ((c : Tree R)
              → find_held (parsed options (lookup w.store key)) q ≡ some c
              → expired (deadline_of c) now ≡ false)
          → held_value options now q (lookup w'.store key) ≡ some (options.serialize v))
      × ((q : List Text) (seen : ℕ)
          → find_tree root.tree_ref q ≡ none
          → held_value options seen q (lookup w'.store key)
            ≡ held_value options seen q (lookup w.store key))
save_full_tree_value-held_value options storage lookup create_value ttl now later root key w
      reliable codec parses distinct =
    let given : FullSetItem _ _ → Option _ = λ full. full.step.value in
    let p = item_ref root in
    let o = parsed options (lookup w.store key) in
    let (w', runs, holds) =
      saves-held options storage create_value ttl given now later lookup reliable codec root key w
        parses in
    let as_child = λ (seen : ℕ) (q : List Text).
      ap
        (λ (own : ChainedObject).
          value_at seen
            (saved_below options create_value given now later (level_of p + 1) (some own)
              (entries_of root.tree_ref)
              (root_written options storage create_value ttl given now later p root.tree_ref
                (found_or empty_tree o)))
            q)
        (sym (chained-parts p))
      ∙ ap (λ (x : Tree _). value_at seen x q)
          (sym (
            saved_child-below options create_value given now later (key_of p) (level_of p)
              (parent_of p) root.tree_ref (some (found_or empty_tree o)))) in
    (
      w',
      runs,
      λ q t v at e live.
          holds now q
          ∙ as_child now q
          ∙ value_at-found options create_value now later q (key_of p) (level_of p) (parent_of p)
              root.tree_ref t (some (found_or empty_tree o)) v codec distinct at e
              (found_or-IsLive options create_value now later o q live),
      λ q seen at.
          holds seen q
          ∙ as_child seen q
          ∙ value_at-kept options create_value now later q (key_of p) (level_of p) (parent_of p)
              root.tree_ref (some (found_or empty_tree o)) seen distinct at
          ∙ below-found_or seen q o,
    )
