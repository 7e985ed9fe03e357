-- ===== src/Prune.antt =====
-- The pruning of a tree: src/internal/prune-tree.ts.
pub mod Spec
pub mod Sweep
pub mod Stacks
pub mod Refines
pub mod Views
pub mod Rootless
use nodejs_proto_cache.Prelude.{
  ℕ, zero, suc, ◌+◌, ◌-◌, max, Bool, true, false, ◌&&◌, ◌||◌, Option, none, some, List, [], ◌∷◌,
  ltb, ◌==◌, if◌then◌else◌,
}
use nodejs_proto_cache.Keys.{Text, ChainedObject, text_eq}
use nodejs_proto_cache.Tree.{
  Tree, Entries, leaf, branch, nil, entry, hole, value_of, deadline_of, children_of, with_value,
}
use nodejs_proto_cache.Graphs.{Item, level_or_zero}
use nodejs_proto_cache.Graphs.PostOrder.Visit.{visit_post_order}

-- `Map<string, boolean>`: for each key of a level, whether its node is empty.
abbrev pub LevelMap : Type 0
LevelMap = List (Text × Bool)

unfoldable pub map_get : LevelMap → Text → Option Bool
map_get [] k = none
map_get ((j, b) ∷ m) k = if text_eq j k then some b else map_get m k

unfoldable pub map_set : LevelMap → Text → Bool → LevelMap
map_set [] k b = (k, b) ∷ []
map_set ((j, c) ∷ m) k b =
    let rest = map_set m k b in if text_eq j k then (j, b) ∷ m else (j, c) ∷ rest

-- The array `stack`, whose slots may be empty.
pub record Stack : Type 0 where
  pub slots : ℕ → Option LevelMap
  pub length : ℕ

abbrev pub write_slot : (ℕ → Option LevelMap) → ℕ → Option LevelMap → ℕ → Option LevelMap
write_slot slots i m j = if i == j then m else slots j

abbrev pub empty_stack : Stack
empty_stack = record { slots = λ _. none; length = 0 }

-- `stack.pop()`
abbrev pub pop_level : Stack → Option LevelMap × Stack
pop_level s = elim s.length [
  | zero ↦ (none, s)
  | suc n ↦ (s.slots n, record { slots = write_slot s.slots n none; length = n })
]

-- `stack[level] ?? new Map()`, and the write of that slot.
abbrev pub level_map : Stack → ℕ → LevelMap
level_map s level = elim (s.slots level) [ none ↦ [] | some m ↦ m ]

abbrev pub put_level : Stack → ℕ → LevelMap → Stack
put_level s level m = record {
  slots = write_slot s.slots level (some m);
  length = max s.length (level + 1);
}

pub record PruneState : Type 0 where
  pub stack : Stack
  pub changed : Bool

-- `children[key] = undefined`
unfoldable pub clear_entry {ℓ} : {R : Type ℓ} → Entries R → Text → Entries R
clear_entry nil k = hole k nil
clear_entry (entry j t es) k =
    let rest = clear_entry es k in if text_eq j k then hole j es else entry j t rest
clear_entry (hole j es) k =
    let rest = clear_entry es k in if text_eq j k then hole j es else hole j rest

-- The variables of the loop over the map of the children.
pub record Sweeping {ℓ} (R : Type ℓ) : Type ℓ where
  pub children : Entries R
  pub remove_all : Bool
  pub state : PruneState

-- An empty child is removed; any other keeps the node and marks it as not empty.
unfoldable pub sweep_entry {ℓ} : {R : Type ℓ} → ℕ → Text → Sweeping R → Text × Bool → Sweeping R
sweep_entry level own w (key, empty) =
    let state = w.state in
    if empty
    then record w { children = clear_entry w.children key; state = record state { changed = true } }
    else record w {
      remove_all = false;
      state = record state {
        stack = put_level state.stack level (map_set (level_map state.stack level) own false);
      };
    }

unfoldable pub sweep {ℓ} : {R : Type ℓ} → ℕ → Text → Sweeping R → LevelMap → Sweeping R
unfolding sweep_entry
sweep level own w [] = w
sweep level own w (e ∷ m) = sweep level own (sweep_entry level own w e) m

-- `pos.get(key) !== false`
abbrev pub not_false : Option Bool → Bool
not_false none = true
not_false (some b) = b

module _ {ℓ} {R : Type ℓ} where
  -- The tree after the loop: it loses its children object if all children are removed.
  abbrev pub swept_tree : Tree R → Sweeping R → Tree R
  swept_tree tree w =
      if w.remove_all
      then leaf (value_of tree) (deadline_of tree)
      else branch (value_of tree) (deadline_of tree) w.children

  abbrev pub sweep_with :
      ℕ → Text → PruneState → Tree R → Option LevelMap → Option (Entries R) → PruneState × Tree R
  sweep_with level own s tree (some m) (some es) =
      let w = sweep level own (record { children = es; remove_all = true; state = s }) m in
      (w.state, swept_tree tree w)
  sweep_with level own s tree none es = (s, tree)
  sweep_with level own s tree (some m) none = (s, tree)

  -- `if (stack.length > level + 1) { … }`
  unfoldable pub sweep_children : ℕ → Text → PruneState → Tree R → PruneState × Tree R
  unfolding sweep
  sweep_children level own s tree =
      let (m, stack) = pop_level s.stack in
      if ltb (level + 1) s.stack.length
      then sweep_with level own (record s { stack = stack }) tree m (children_of tree)
      else (s, tree)

  abbrev pub is_undefined : Option R → Bool
  is_undefined none = true
  is_undefined (some r) = false

  -- The rest of the body: an expired or missing value is removed, and the node is noted.
  unfoldable pub note_node : ℕ → Item R → PruneState × Tree R → PruneState × Tree R
  note_node level item (s, tree) =
      let gone = is_undefined item.value in
      let pos = level_map s.stack level in
      let noted = map_set pos item.key gone in
      (
        record {
          stack = put_level s.stack level (if not_false (map_get pos item.key) then noted else pos);
          changed = gone || s.changed;
        },
        if gone then with_value tree none none else tree,
      )

  -- The body of the loop.
  unfoldable pub prune_step : ℕ → PruneState → Item R → PruneState × Tree R
  unfolding note_node sweep_children
  prune_step base s item =
      let level = item.level - base + 1 in
      note_node level item (sweep_children level item.key s item.tree_ref)

-- `pruneTree`: whether the tree was changed, and the tree as it is left.
unfoldable pub prune_tree {ℓ} : {R : Type ℓ} → ℕ → Tree R → Option ChainedObject → Bool × Tree R
unfolding prune_step
prune_tree now tree parent =
    let start : PruneState = record { stack = empty_stack; changed = false } in
    let (s, tree') = visit_post_order (prune_step (level_or_zero parent)) now start tree parent in
    (s.changed, tree')
