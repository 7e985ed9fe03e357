-- ===== src/Cache/FullTreeSet/Held.antt =====
-- What a buffer of the storage holds, as `saveFullTreeValue` reads and writes it
-- (src/internal/tree-internal-control.ts).
use nodejs_proto_cache.Prelude.{
  ℕ, ◌≡◌, refl, ◌∙◌, ap, Bool, Option, none, some, List, inl, inr, Bool-cases, if◌then◌else◌,
}
use nodejs_proto_cache.Keys.{Text, ok}
use nodejs_proto_cache.Tree.{Tree, empty_tree}
use nodejs_proto_cache.Tree.Paths.{value_at}
use nodejs_proto_cache.TreeUtils.{found_or}
use nodejs_proto_cache.TreeUtils.Same.{below}
use nodejs_proto_cache.Cache.{Options, Storage, World}
use nodejs_proto_cache.Cache.DeepTreeSet.{parse_tree}
use nodejs_proto_cache.Cache.Laws.{IsCodec}
use nodejs_proto_cache.Cache.Setting.Trees.{Parses}

module _ {T R : Type 0} (options : Options T R) where
  -- The tree that a buffer holds, if it holds one.
  abbrev pub parsed : Option R → Option (Tree R)
  parsed none = none
  parsed (some r) = if options.truthy r then options.deserialize_tree r else none

  -- The value that a path leads to in what is held.
  abbrev pub held_value : ℕ → List Text → Option R → Option R
  held_value seen q buffer = below seen q (parsed buffer)

  pub parse_tree-parsed :
      {S : Type 0} (storage : Storage S R) (buffer : Option R) (w : World S T)
      → Parses options buffer
      → parse_tree options storage buffer w ≡ (ok (found_or empty_tree (parsed buffer)), w)
  unfolding parse_tree
  parse_tree-parsed storage none w parses = refl
  parse_tree-parsed storage (some r) w parses = elim (Bool-cases (options.truthy r)) [
    | inr falsy ↦ rw falsy refl
    | inl full ↦ let (t, read) = parses r refl full in rw (full, read) refl
  ]

  -- A tree that was written is read with the same values.
  pub held_value-serialized :
      (codec : IsCodec options) (t : Tree R) (seen : ℕ) (q : List Text)
      → held_value seen q (some (options.serialize_tree t)) ≡ value_at seen t q
  held_value-serialized codec t seen q =
      let (u, read, same) = codec.tree_read t in
      ap
        (λ (b : Bool).
          below seen q (if b then options.deserialize_tree (options.serialize_tree t) else none))
        (codec.tree_truthy t)
      ∙ ap (below seen q) read
      ∙ same seen q
