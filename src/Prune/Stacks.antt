-- ===== src/Prune/Stacks.antt =====
-- What the stack of maps of src/internal/prune-tree.ts holds on the way through a tree.
use nodejs_proto_cache.Prelude.{
  ℕ, suc, ◌+◌, ◌≤◌, ◌<◌, max, Bool, true, false, ◌||◌, ◌≡◌, refl, sym, ◌∙◌, ap, Option, none, some,
  [], ◌∷◌, ◌++◌, append-nil, append_assoc, arith, if◌then◌else◌, le→ltb, lt→ltb,
}
use mathlib.Core.Path.{ap₂}
use nodejs_proto_cache.Keys.{Text}
use nodejs_proto_cache.Tree.{Tree, Entries, leaf, branch, nil, entry, hole, with_value}
use nodejs_proto_cache.Graphs.{Item}
use nodejs_proto_cache.Prune.{
  LevelMap, map_get, map_set, Stack, level_map, write_slot, PruneState, sweep_children, note_node,
  is_undefined, not_false, pop_level, sweep_with,
}
use nodejs_proto_cache.Prune.Spec.{
  has_child, tree_empty, entries_empty, tree_changed, entries_changed, clean, kept, DistinctEntries,
}
use nodejs_proto_cache.Prune.Sweep.{
  flags, map_set-fresh, marked, map_get-map_set, level_map-put_level, write_slot-write_slot,
  visited, any_empty, sweep-swept, swept, clear_all-kept, all_empty-flags,
}

-- The stack has no slot above the level.
pub record Ready (s : PruneState) (c : ℕ) : Type 0 where
  pub short : s.stack.length ≤ c + 1
  pub clear : (i : ℕ) → c < i → s.stack.slots i ≡ none

-- The stack without the slots above the level.
abbrev pub lowered : PruneState → ℕ → Stack
lowered s c = record { slots = s.stack.slots; length = c + 1 }

-- The state after a map has been put in the slot of the level.
abbrev pub with_map : PruneState → ℕ → LevelMap → Bool → PruneState
with_map s c m ch = record {
  stack = record { slots = write_slot s.stack.slots c (some m); length = c + 1 };
  changed = s.changed || ch;
}

abbrev pub noted : PruneState → ℕ → Text → Bool → Bool → PruneState
noted s c k e ch = with_map s c (level_map s.stack c ++ (k, e) ∷ []) ch

pub Ready-noted :
    (s : PruneState) (c : ℕ) (k : Text) (e ch : Bool) → Ready s c → Ready (noted s c k e ch) c
Ready-noted s c k e ch r = record { short = omega arith; clear = λ i h. ground (arith, r.clear i) }

pub Ready-suc : (s : PruneState) (c : ℕ) → Ready s c → Ready s (c + 1)
Ready-suc s c r = record { short = omega (arith, r.short); clear = λ i h. r.clear i (omega arith) }

or_assoc : (x y z : Bool) → ((x || y) || z) ≡ (x || (y || z))
or_assoc x y z = ground arith

pub level_map-with_map :
    (s : PruneState) (c : ℕ) (m : LevelMap) (a : Bool) → level_map (with_map s c m a).stack c ≡ m
level_map-with_map s c m a = ground arith

pub level_map-Ready : (s : PruneState) (c : ℕ) → Ready s c → level_map s.stack (c + 1) ≡ []
level_map-Ready s c r = ground (arith, r.clear (c + 1) (omega arith))

pub with_map-with_map :
    (s : PruneState) (c : ℕ) (m n : LevelMap) (a b : Bool)
    → with_map (with_map s c m a) c n b ≡ with_map s c n (a || b)
with_map-with_map s c m n a b = λ i. record {
  stack = record { slots = λ j. slot j i; length = c + 1 };
  changed = or_assoc s.changed a b i;
}
  where
    slot :
        (j : ℕ)
        → write_slot (write_slot s.stack.slots c (some m)) c (some n) j
          ≡ write_slot s.stack.slots c (some n) j
    slot j = ground arith

noted-with_map :
    (s : PruneState) (c : ℕ) (m : LevelMap) (a : Bool) (k : Text) (e ch : Bool)
    → noted (with_map s c m a) c k e ch ≡ with_map s c (m ++ (k, e) ∷ []) (a || ch)
noted-with_map s c m a k e ch =
    rw (level_map-with_map s c m a) (with_map-with_map s c m (m ++ (k, e) ∷ []) a ch)

pop_level-suc :
    (s : Stack) (n : ℕ)
    → s.length ≡ suc n
    → pop_level s ≡ (s.slots n, record { slots = write_slot s.slots n none; length = n })
pop_level-suc s n h = rw h

pop_level-with_map :
    (s : PruneState) (c : ℕ) (m : LevelMap) (ch : Bool)
    → Ready s c
    → pop_level (with_map s (c + 1) m ch).stack ≡ (some m, lowered s c)
pop_level-with_map s c m ch r =
    pop_level-suc (with_map s (c + 1) m ch).stack (c + 1) (omega arith) ∙ λ i.
    (top_slot i, record { slots = λ j. slot j i; length = c + 1 })
  where
    top_slot : write_slot s.stack.slots (c + 1) (some m) (c + 1) ≡ some m
    top_slot = ground arith

    slot :
        (j : ℕ)
        → write_slot (write_slot s.stack.slots (c + 1) (some m)) (c + 1) none j ≡ s.stack.slots j
    slot j = ground (arith, r.clear (c + 1) (omega arith))

noted_pos :
    (pos : LevelMap) (k : Text) (b : Bool)
    → map_get pos k ≡ none
    → (if not_false (map_get pos k) then map_set pos k b else pos) ≡ pos ++ (k, b) ∷ []
noted_pos pos k b h = rw h (map_set-fresh pos k b h)

max-short : (a b : ℕ) → a ≤ b → max a b ≡ b
max-short a b h = omega arith

or_comm : (x y : Bool) → (x || y) ≡ (y || x)
or_comm x y = ground arith

module _ {ℓ} {R : Type ℓ} (now : ℕ) where
  -- The state after the children have been visited, each of which is noted.
  unfoldable pub after : PruneState → ℕ → Entries R → PruneState
  after s c nil = s
  after s c (entry k t es) = after (noted s c k (tree_empty now t) (tree_changed now t)) c es
  after s c (hole k es) = after s c es

  after-with_map :
      (s : PruneState) (c : ℕ) (m : LevelMap) (a : Bool) (es : Entries R)
      → after (with_map s c m a) c es
        ≡ with_map s c (m ++ flags now es) (a || entries_changed now es)
  unfolding after flags entries_changed
  after-with_map s c m a nil = ap₂ (with_map s c) (sym (append-nil m)) (ground arith)
  after-with_map s c m a (entry k t es) =
      let e = tree_empty now t in
      let ch = tree_changed now t in
      ap (λ (w : PruneState). after w c es) (noted-with_map s c m a k e ch)
      ∙ after-with_map s c (m ++ (k, e) ∷ []) (a || ch) es
      ∙ ap₂ (with_map s c) (append_assoc m ((k, e) ∷ []) (flags now es))
          (or_assoc a ch (entries_changed now es))
  after-with_map s c m a (hole k es) = after-with_map s c m a es

  pub after-flags :
      (s : PruneState) (c : ℕ) (es : Entries R)
      → has_child es ≡ true
      → after s c es ≡ with_map s c (level_map s.stack c ++ flags now es) (entries_changed now es)
  unfolding after flags entries_changed has_child
  after-flags s c nil h = cc
  after-flags s c (entry k t es) h =
      let e = tree_empty now t in
      let m = level_map s.stack c in
      after-with_map s c (m ++ (k, e) ∷ []) (tree_changed now t) es
      ∙ ap (λ (n : LevelMap). with_map s c n (tree_changed now t || entries_changed now es))
          (append_assoc m ((k, e) ∷ []) (flags now es))
  after-flags s c (hole k es) h = after-flags s c es h

  pub after-childless :
      (s : PruneState) (c : ℕ) (es : Entries R) → has_child es ≡ false → after s c es ≡ s
  unfolding after has_child
  after-childless s c nil h = refl
  after-childless s c (entry k t es) h = cc
  after-childless s c (hole k es) h = after-childless s c es h

  -- Where no map stands above the level, the node keeps its children.
  pub sweep_children-Ready :
      (s : PruneState) (c : ℕ) (k : Text) (t : Tree R) → Ready s c → sweep_children c k s t ≡ (s, t)
  unfolding sweep_children
  sweep_children-Ready s c k t r = rw (le→ltb (c + 1) s.stack.length r.short)

  pub note_node-fresh :
      (s : PruneState) (c : ℕ) (item : Item R) (t : Tree R)
      → Ready s c
      → map_get (level_map s.stack c) item.key ≡ none
      → note_node c item (s, t) ≡ (
        noted s c item.key (is_undefined item.value) (is_undefined item.value),
        clean (is_undefined item.value) t,
      )
  unfolding note_node clean
  note_node-fresh s c item t r fresh =
      let b = is_undefined item.value in
      let pos = level_map s.stack c in
      λ i. (
        record {
          stack = record {
            slots = write_slot s.stack.slots c (some (noted_pos pos item.key b fresh i));
            length = max-short s.stack.length (c + 1) r.short i;
          };
          changed = or_comm b s.changed i;
        },
        if b then with_value t none none else t,
      )

  sweep_with-flags :
      (low : PruneState) (c : ℕ) (k : Text) (v : Option R) (d : Option ℕ) (es : Entries R)
      → DistinctEntries es
      → sweep_with c k low
          (branch v d (visited now es))
          (some (flags now es))
          (some (visited now es))
        ≡ (
          record {
            stack = if entries_empty now es then low.stack else marked c k low.stack;
            changed = low.changed || any_empty (flags now es);
          },
          if entries_empty now es then leaf v d else branch v d (kept now es),
        )
  sweep_with-flags low c k v d es distinct =
      rw
        (sweep-swept c k (record { children = visited now es; remove_all = true; state = low })
          (flags now es))
        (unfold swept in rw (all_empty-flags now es, clear_all-kept now es distinct))

  -- The children of a node at level `c` have been visited: their map is taken off the stack, and
  -- the empty ones are removed.
  pub sweep_children-flags :
      (s : PruneState) (c : ℕ) (k : Text) (v : Option R) (d : Option ℕ) (es : Entries R) (ch : Bool)
      → Ready s c
      → DistinctEntries es
      → sweep_children c k (with_map s (c + 1) (flags now es) ch) (branch v d (visited now es)) ≡ (
        record {
          stack = if entries_empty now es then lowered s c else marked c k (lowered s c);
          changed = (s.changed || ch) || any_empty (flags now es);
        },
        if entries_empty now es then leaf v d else branch v d (kept now es),
      )
  unfolding sweep_children
  sweep_children-flags s c k v d es ch r distinct =
      let m = flags now es in
      let low : PruneState = record { stack = lowered s c; changed = s.changed || ch } in
      rw (lt→ltb (c + 1) (c + 1 + 1) (omega arith), pop_level-with_map s c m ch r)
        (sweep_with-flags low c k v d es distinct)

  pub note_node-marked :
      (s : PruneState) (c : ℕ) (item : Item R) (ch : Bool) (t : Tree R)
      → Ready s c
      → map_get (level_map s.stack c) item.key ≡ none
      → note_node c item (record { stack = marked c item.key (lowered s c); changed = ch }, t) ≡ (
        record {
          stack = (noted s c item.key false false).stack;
          changed = is_undefined item.value || ch;
        },
        clean (is_undefined item.value) t,
      )
  unfolding note_node clean marked
  note_node-marked s c item ch t r fresh =
      let m = level_map s.stack c in
      let m' = map_set m item.key false in
      let b = is_undefined item.value in
      rw (level_map-put_level (lowered s c) c m', map_get-map_set m item.key false)
        (ap₂
          (λ (slots : ℕ → Option LevelMap) (length : ℕ). (
            record { stack = record { slots = slots; length = length }; changed = b || ch },
            if b then with_value t none none else t,
          ))
          (write_slot-write_slot s.stack.slots c (some m') (some m')
            ∙ ap (λ (n : LevelMap). write_slot s.stack.slots c (some n))
                (map_set-fresh m item.key false fresh))
          (omega arith))
