-- ===== src/Tests/Searches.antt =====
-- The searches of the cache on a storage with two levels of keys and a tree.
use nodejs_proto_cache.Graphs.Async.Flat.{as_tree}
use nodejs_proto_cache.Graphs.Complete.{AnyOf}
use nodejs_proto_cache.Graphs.Loop.{tree_nodes}
use nodejs_proto_cache.Graphs.Async.Queue.{push_slot, pop_fuel, remove_node}
use nodejs_proto_cache.Graphs.Async.{
  async_pre_order_traversal, push_any, iterable_of, push_plain, any_start_item,
}
use nodejs_proto_cache.Graphs.Async.Searches.{async_pre_order_breadth_first_search}
use nodejs_proto_cache.Prelude.{
  ℕ, ◌≡◌, refl, sym, ◌∙◌, ap, Bool, inl, inr, Bool-cases, Option, none, some, List, [], ◌∷◌, arith,
  length, if◌then◌else◌,
}
use mathlib.Core.Path.{subst}
use nodejs_proto_cache.Keys.{Text, join, text_eq, Result, ok, build_key}
use nodejs_proto_cache.Tree.{has_property, leaf, get_entry}
use nodejs_proto_cache.Tree.Paths.{find_tree}
use nodejs_proto_cache.Prune.Spec.{Distinct}
use nodejs_proto_cache.Graphs.{Run, done, failed, out_of_fuel}
use nodejs_proto_cache.Cache.{Consumer, resume}
use nodejs_proto_cache.Cache.Searches.{
  GetChildren, Found, key_under, get_traversal_iterable, get_traversal_steps,
  pre_order_breadth_first, pre_order_depth_first, post_order_breadth_first, post_order_depth_first,
}
use nodejs_proto_cache.Cache.Searches.Listed.{Listed}
use nodejs_proto_cache.Cache.Searches.Every.{Yields, searches-Yields}
use nodejs_proto_cache.Cache.Searches.Nodes.{Lists, HoldsTrees}
use nodejs_proto_cache.Cache.Searches.Steps.{
  Patient, step_events, with_events, get_traversal_steps-events,
}
use nodejs_proto_cache.Cache.Searches.Whole.{FindsAll, searches-FindsAll}
use nodejs_proto_cache.Tests.Memory.{
  Raw, Store, options, storage, lookup, storage-IsReliable, a, b, number, planted, garden, pack,
  read_tree, read_tree-pack, unpack,
}

-- The keys below the root and below `a`; no other key has children.
abbrev children : Option Text → Store → Result (List Text)
children none s = ok (a ∷ [])
children (some k) s = ok (if text_eq k a then b ∷ [] else [])

abbrev get_children : GetChildren Store
get_children = some children

lists : Lists get_children garden.store
lists = (children, refl, listed)
  where
    listed : (parent : Option Text) → (keys : List Text) × (children parent garden.store ≡ ok keys)
    listed none = (_, refl)
    listed (some k) = (_, refl)

planted-Distinct : Distinct planted
unfolding has_property text_eq
planted-Distinct = (refl, tt, (refl, tt, tt))

trees : HoldsTrees options (lookup garden.store)
trees path r long held = elim (Bool-cases (text_eq (join (a ∷ b ∷ [])) (join path))) [
  | inl e ↦
      let same : pack planted ≡ r =
        ap (λ (o : Option Raw). elim o [ none ↦ r | some x ↦ x ])
          (sym (ap (λ (t : Bool). if t then some (pack planted) else none) e) ∙ held) in
      (
        refl,
        planted,
        subst (λ (x : Raw). read_tree x ≡ some planted) same (read_tree-pack planted),
        planted-Distinct,
      )
  | inr e ↦ absurd (cc (sym (ap (λ (t : Bool). if t then some (pack planted) else none) e) ∙ held))
]

searches-FindsAll_example :
    FindsAll options storage lookup storage-IsReliable get_children 9 garden
      (pre_order_breadth_first 9)
    × FindsAll options storage lookup storage-IsReliable get_children 9 garden
        (pre_order_depth_first 9)
    × FindsAll options storage lookup storage-IsReliable get_children 9 garden
        (post_order_breadth_first 9)
    × FindsAll options storage lookup storage-IsReliable get_children 9 garden
        (post_order_depth_first 9)
searches-FindsAll_example =
    searches-FindsAll options storage lookup storage-IsReliable get_children 9 garden lists trees
      (omega arith)

a-b-Listed : Listed children garden.store 1 none (a ∷ b ∷ [])
unfolding Listed key_under build_key text_eq AnyOf
a-b-Listed = (a ∷ [], refl, inl refl, (b ∷ [], refl, inl refl, tt))

searches-Yields_example :
    Yields options storage get_children garden.store (a ∷ b ∷ a ∷ []) (pre_order_breadth_first 9)
    × Yields options storage get_children garden.store (a ∷ b ∷ a ∷ []) (pre_order_depth_first 9)
    × Yields options storage get_children garden.store (a ∷ b ∷ a ∷ []) (post_order_breadth_first 9)
    × Yields options storage get_children garden.store (a ∷ b ∷ a ∷ []) (post_order_depth_first 9)
unfolding find_tree text_eq get_entry join
searches-Yields_example =
    searches-Yields options storage lookup storage-IsReliable get_children 9 garden lists trees
      (omega arith) children a (b ∷ []) (a ∷ []) refl a-b-Listed
      (inr (
        refl,
        pack planted,
        planted,
        leaf (some (number 1)) none,
        refl,
        read_tree-pack planted,
        refl,
      ))

abbrev run_items : Run (Found Raw) → List (Found Raw)
run_items (done items) = items
run_items (failed items) = []
run_items out_of_fuel = []

-- The search of the garden, by its items.
abbrev garden_items : List (Found Raw)
garden_items = run_items (
    get_traversal_iterable options storage get_children (pre_order_breadth_first 9) none
      garden.store)

garden_runs :
    get_traversal_iterable options storage get_children
      (pre_order_breadth_first 9)
      none
      garden.store
    ≡ done garden_items
unfolding get_traversal_iterable pre_order_breadth_first async_pre_order_breadth_first_search
    async_pre_order_traversal push_slot pop_fuel push_any tree_nodes as_tree remove_node iterable_of
    text_eq pack unpack push_plain
garden_runs = refl

garden_found : length garden_items ≡ 4
unfolding get_traversal_iterable pre_order_breadth_first async_pre_order_breadth_first_search
    async_pre_order_traversal push_slot pop_fuel push_any tree_nodes as_tree remove_node iterable_of
    text_eq pack unpack push_plain any_start_item
garden_found = refl

abbrev eager : Consumer ℕ
eager step = resume step.value

eager-Patient : Patient eager
eager-Patient step = (step.value, refl)

get_traversal_steps-events_example :
    get_traversal_steps options storage get_children eager (pre_order_breadth_first 9) none 9 garden
    ≡ (ok tt, with_events garden (step_events options garden_items))
get_traversal_steps-events_example =
    get_traversal_steps-events options eager eager-Patient storage get_children
      (pre_order_breadth_first 9) 9 garden garden_items garden_runs
