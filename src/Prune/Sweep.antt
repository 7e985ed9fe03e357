-- ===== src/Prune/Sweep.antt =====
-- The inner loop of src/internal/prune-tree.ts, which removes the empty children of a node.
use nodejs_proto_cache.Prelude.{
  ℕ, Bool, true, false, ◌&&◌, ◌||◌, ◌≡◌, refl, ◌∙◌, ap, fun_ext, Option, none, some, [], ◌∷◌, ◌++◌,
  arith, if◌then◌else◌,
}
use nodejs_proto_cache.Keys.{Text, text_eq}
use nodejs_proto_cache.Tree.{Tree, Entries, leaf, branch, nil, entry, hole, has_property}
use nodejs_proto_cache.Tree.Writes.{text_eq_iff, text_eq_refl}
use nodejs_proto_cache.Prune.{
  LevelMap, map_get, map_set, Stack, level_map, put_level, write_slot, clear_entry, Sweeping,
  sweep_entry, sweep,
}
use nodejs_proto_cache.Prune.Spec.{
  tree_empty, entries_empty, tree_changed, entries_changed, pruned, kept, DistinctEntries,
}

pub map_set-fresh :
    (m : LevelMap) (k : Text) (b : Bool) → map_get m k ≡ none → map_set m k b ≡ m ++ (k, b) ∷ []
unfolding map_get map_set
map_set-fresh [] k b h = refl
map_set-fresh ((j, c) ∷ m) k b h = ground (arith, map_set-fresh m k b)

pub map_get-map_set : (m : LevelMap) (k : Text) (b : Bool) → map_get (map_set m k b) k ≡ some b
unfolding map_get map_set
map_get-map_set [] k b = rw text_eq_refl
map_get-map_set ((j, c) ∷ m) k b = ground (arith, map_get-map_set m k b, text_eq_iff j k)

map_set-map_set : (m : LevelMap) (k : Text) (b : Bool) → map_set (map_set m k b) k b ≡ map_set m k b
unfolding map_set
map_set-map_set [] k b = rw text_eq_refl
map_set-map_set ((j, c) ∷ m) k b = ground (arith, map_set-map_set m k b)

abbrev pub all_empty : LevelMap → Bool
all_empty [] = true
all_empty ((k, b) ∷ m) = b && all_empty m

abbrev pub any_empty : LevelMap → Bool
any_empty [] = false
any_empty ((k, b) ∷ m) = b || any_empty m

-- The node is marked as not empty in the map of its own level.
unfoldable pub marked : ℕ → Text → Stack → Stack
marked level own s = put_level s level (map_set (level_map s level) own false)

pub write_slot-write_slot :
    (f : ℕ → Option LevelMap) (i : ℕ) (m n : Option LevelMap)
    → write_slot (write_slot f i m) i n ≡ write_slot f i n
write_slot-write_slot f i m n = fun_ext λ j. ground arith

pub Stack-eq : {s t : Stack} → s.slots ≡ t.slots → s.length ≡ t.length → s ≡ t
Stack-eq p q = λ i. record { slots = p i; length = q i }

pub level_map-put_level :
    (s : Stack) (level : ℕ) (m : LevelMap) → level_map (put_level s level m) level ≡ m
level_map-put_level s level m = ground arith

marked-marked :
    (level : ℕ) (own : Text) (s : Stack)
    → marked level own (marked level own s) ≡ marked level own s
unfolding marked
marked-marked level own s =
    let m = map_set (level_map s level) own false in
    Stack-eq
      (rw (level_map-put_level s level m, map_set-map_set)
        (write_slot-write_slot s.slots level (some m) (some m)))
      (omega arith)

marked_if :
    (level : ℕ) (own : Text) (s : Stack) (b : Bool)
    → (if b then marked level own s else marked level own (marked level own s)) ≡ marked level own s
marked_if level own s true = refl
marked_if level own s false = marked-marked level own s

and_false : (a : Bool) → false ≡ (a && false)
and_false a = ground arith

-- The key is none of those of the map.
abbrev Absent : Text → LevelMap → Type 0
Absent k [] = Unit
Absent k ((j, b) ∷ m) = (text_eq k j ≡ false) × Absent k m

module _ {ℓ} {R : Type ℓ} where
  unfoldable pub clear_all : LevelMap → Entries R → Entries R
  clear_all [] es = es
  clear_all ((k, b) ∷ m) es = clear_all m (if b then clear_entry es k else es)

  unfoldable pub swept : ℕ → Text → Sweeping R → LevelMap → Sweeping R
  swept level own w m = record {
    children = clear_all m w.children;
    remove_all = w.remove_all && all_empty m;
    state = record {
      stack = if all_empty m then w.state.stack else marked level own w.state.stack;
      changed = w.state.changed || any_empty m;
    };
  }

  pub sweep-swept :
      (level : ℕ) (own : Text) (w : Sweeping R) (m : LevelMap)
      → sweep level own w m ≡ swept level own w m
  unfolding sweep swept clear_all marked
  sweep-swept level own w [] = ground arith
  sweep-swept level own w ((k, true) ∷ m) =
      sweep-swept level own (sweep_entry level own w (k, true)) m ∙ ground arith
  sweep-swept level own w ((k, false) ∷ m) =
      sweep-swept level own (sweep_entry level own w (k, false)) m ∙ λ i. record {
        children = clear_all m w.children;
        remove_all = and_false w.remove_all i;
        state = record {
          stack = marked_if level own w.state.stack (all_empty m) i;
          changed = w.state.changed || any_empty m;
        };
      }

module _ {ℓ} {R : Type ℓ} (now : ℕ) where
  -- The map of the children of a node, and the children as their own visits leave them.
  unfoldable pub flags : Entries R → LevelMap
  flags nil = []
  flags (entry k t es) = (k, tree_empty now t) ∷ flags es
  flags (hole k es) = flags es

  unfoldable pub visited : Entries R → Entries R
  visited nil = nil
  visited (entry k t es) = entry k (pruned now t) (visited es)
  visited (hole k es) = hole k (visited es)

  pub all_empty-flags : (es : Entries R) → all_empty (flags es) ≡ entries_empty now es
  unfolding flags entries_empty
  all_empty-flags nil = refl
  all_empty-flags (entry k t es) = rw (all_empty-flags es)
  all_empty-flags (hole k es) = all_empty-flags es

  tree_changed-tree_empty : (t : Tree R) → tree_empty now t ≡ true → tree_changed now t ≡ true
  unfolding tree_changed tree_empty
  tree_changed-tree_empty (leaf v d) h = h
  tree_changed-tree_empty (branch v d es) h = ground arith

  pub entries_changed-flags :
      (es : Entries R) → (entries_changed now es || any_empty (flags es)) ≡ entries_changed now es
  unfolding flags entries_changed
  entries_changed-flags nil = refl
  entries_changed-flags (entry k t es) =
      ground (arith, entries_changed-flags es, tree_changed-tree_empty t)
  entries_changed-flags (hole k es) = entries_changed-flags es

  Absent-flags : (k : Text) (es : Entries R) → has_property es k ≡ false → Absent k (flags es)
  unfolding flags has_property
  Absent-flags k nil h = tt
  Absent-flags k (entry j t es) h =
      (ground (arith, text_eq_iff k j, text_eq_iff j k), Absent-flags k es (ground arith))
  Absent-flags k (hole j es) h = Absent-flags k es (ground arith)

  clear_all-entry :
      (k : Text) (t : Tree R) (m : LevelMap) (es : Entries R)
      → Absent k m
      → clear_all m (entry k t es) ≡ entry k t (clear_all m es)
  unfolding clear_all clear_entry
  clear_all-entry k t [] es h = refl
  clear_all-entry k t ((j, true) ∷ m) es h = rw (h.0) (clear_all-entry k t m (clear_entry es j) h.1)
  clear_all-entry k t ((j, false) ∷ m) es h = clear_all-entry k t m es h.1

  clear_all-hole :
      (k : Text) (m : LevelMap) (es : Entries R)
      → Absent k m
      → clear_all m (hole k es) ≡ hole k (clear_all m es)
  unfolding clear_all clear_entry
  clear_all-hole k [] es h = refl
  clear_all-hole k ((j, true) ∷ m) es h = rw (h.0) (clear_all-hole k m (clear_entry es j) h.1)
  clear_all-hole k ((j, false) ∷ m) es h = clear_all-hole k m es h.1

  clear_all-own :
      (k : Text) (b : Bool) (t : Tree R) (m : LevelMap) (es : Entries R)
      → Absent k m
      → clear_all ((k, b) ∷ m) (entry k t es)
        ≡ (if b then hole k (clear_all m es) else entry k t (clear_all m es))
  unfolding clear_all clear_entry
  clear_all-own k true t m es h = rw text_eq_refl (clear_all-hole k m es h)
  clear_all-own k false t m es h = clear_all-entry k t m es h

  -- The loop removes exactly the empty children.
  pub clear_all-kept :
      (es : Entries R) → DistinctEntries es → clear_all (flags es) (visited es) ≡ kept now es
  unfolding flags visited kept
  clear_all-kept nil h = unfold clear_all in refl
  clear_all-kept (entry k t es) h =
      let t' = pruned now t in
      clear_all-own k (tree_empty now t) t' (flags es) (visited es) (Absent-flags k es h.0)
      ∙ ap (λ (rest : Entries R). if tree_empty now t then hole k rest else entry k t' rest)
          (clear_all-kept es h.2)
  clear_all-kept (hole k es) h =
      clear_all-hole k (flags es) (visited es) (Absent-flags k es h.0)
      ∙ ap (hole k) (clear_all-kept es h.1)
