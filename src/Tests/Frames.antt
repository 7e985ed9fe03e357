-- ===== src/Tests/Frames.antt =====
-- A key of the storage in memory that a set of a path does not reach.
use nodejs_proto_cache.Prelude.{
  ℕ, ◌≡◌, ◌≢◌, refl, sym, ◌∙◌, ap, none, some, List, [], ◌∷◌, ◌++◌, ◌≤◌, arith, length, ◌==◌,
  if◌then◌else◌,
}
use nodejs_proto_cache.Keys.{Text, join}
use nodejs_proto_cache.Cache.{Consumer, leave, resume}
use nodejs_proto_cache.Cache.DeepTreeSet.{deep_tree_set, set_node}
use nodejs_proto_cache.Cache.Setting.Frame.{lookup-deep_tree_set, lookup-set_node}
use nodejs_proto_cache.Cache.Setting.Untouched.{written_path}
use nodejs_proto_cache.Tests.Memory.{options, storage, lookup, storage-IsReliable, a, b, garden}

abbrev first_unit : Text → ℕ
first_unit [] = 0
first_unit (c ∷ k) = c

abbrev first_key : List Text → Text
first_key [] = []
first_key (k ∷ ks) = k

first_unit-join : (q : List Text) → first_unit (join (a ∷ q)) ≡ b'a'
unfolding join
first_unit-join [] = refl
first_unit-join (k ∷ q) = refl

-- No path that begins with `a` has the chained key `b`.
b-apart :
    (front rest : List Text) → a ∷ b ∷ a ∷ [] ≡ front ++ rest → 1 ≤ length front → b ≢ join front
b-apart [] rest split long e = absurd (omega arith)
b-apart (k ∷ q) rest split long e =
    let same : k ≡ a = sym (ap first_key split) in
    let units : b'b' ≡ b'a' =
      ap first_unit (e ∙ ap (λ (x : Text). join (x ∷ q)) same) ∙ first_unit-join q in
    absurd (omega (arith, units))

-- It gives a value to every step, and leaves at the third.
abbrev writer : Consumer ℕ
writer step = if step.level == 3 then leave else resume (some step.level)

-- With the previous key `a`, the first key of the path is not read.
lookup-deep_tree_set_example :
    lookup
      (deep_tree_set options storage
        (λ own. none)
        none
        5
        (b ∷ b ∷ a ∷ [])
        writer
        (a ∷ [])
        0
        garden).1.store
      b
    ≡ lookup garden.store b
lookup-deep_tree_set_example =
    lookup-deep_tree_set options storage lookup (b ∷ b ∷ a ∷ []) none 5 b garden (λ own. none)
      (a ∷ []) writer 0 storage-IsReliable (unfold written_path in cc)
      (λ front rest split long most.
        b-apart front rest (unfold written_path in split) (omega (arith, long)))

lookup-set_node_example :
    lookup (set_node options storage (a ∷ b ∷ a ∷ []) (some 7) none 5 garden).1.store b
    ≡ lookup garden.store b
lookup-set_node_example =
    lookup-set_node options storage lookup (a ∷ b ∷ a ∷ []) none 5 b garden (some 7)
      storage-IsReliable (cc) (λ front rest split long most. b-apart front rest split long)
