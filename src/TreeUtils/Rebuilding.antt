-- ===== src/TreeUtils/Rebuilding.antt =====
-- The loop of `deserializeWholeTree` (src/utils/deserialize-whole-tree.ts) with its stack of
-- references, against the recursion on the tree that is read.
use nodejs_proto_cache.Prelude.{
  ℕ, zero, suc, ◌+◌, ◌-◌, ◌≤◌, ◌≡◌, refl, sym, ◌∙◌, ap, Option, none, some, List, [], ◌∷◌, ◌++◌,
  append_assoc, arith, le→ltb, Bool,
}
use nodejs_proto_cache.Keys.{Text, ChainedObject, chained}
use nodejs_proto_cache.Tree.{Tree, Entries, leaf, branch, nil, entry, hole, current_value}
use nodejs_proto_cache.Graphs.{Item, create_traversal_item}
use nodejs_proto_cache.Graphs.Depth.{depth_order, depth_below}
use nodejs_proto_cache.TreeUtils.{
  Attempt, gave, raised, Rebuild, modify, add_child, pop_levels, read_some, place_at, place_node,
  place_nodes, serializer_threw,
}
use nodejs_proto_cache.TreeUtils.Modifying.{modify-modify, modify-append, modify-same}

pop_levels-suc {ℓ} :
    {A : Type ℓ} (n : ℕ) (stack rest : List A) (x : A)
    → pop_levels n stack ≡ some (x ∷ rest)
    → pop_levels (suc n) stack ≡ some rest
unfolding pop_levels
pop_levels-suc zero [] rest x h = absurd (ground (arith, h))
pop_levels-suc zero (y ∷ stack) rest x h = ground (arith, h)
pop_levels-suc (suc n) [] rest x h = absurd (ground (arith, h))
pop_levels-suc (suc n) (y ∷ stack) rest x h = pop_levels-suc n stack rest x h

module _ {T R : Type 0} (now : ℕ) (read : R → T) where
  abbrev pub read_value : Option R → Option T
  read_value none = none
  read_value (some r) = some (read r)

  -- The new tree with the nodes of a tree below it: the last child first, each before those below.
  unfoldable mutual
    pub built_node : Text → Tree R → Tree T → Tree T
    built_node k (leaf v d) t = add_child k (read_value (current_value (leaf v d) now)) t
    built_node k (branch v d es) t =
        modify (k ∷ []) (built_below es)
          (add_child k (read_value (current_value (branch v d es) now)) t)

    pub built_below : Entries R → Tree T → Tree T
    built_below nil t = t
    built_below (entry k u es) t = built_node k u (built_below es t)
    built_below (hole k es) t = built_below es t

  module _ (deserialize_tree : R → Option (Tree R)) (deserialize : R → Option T) (truthy : R → Bool)
      (reads : (r : R) → deserialize r ≡ some (read r)) where
    -- The nodes of a level are placed below a reference, once the levels below it are popped.
    pub record Stands (level : ℕ) (ref : List Text) (stack : List (List Text)) (b : Rebuild T)
        : Type 0 where
      pub low : level ≤ b.current_level + 1
      pub popped : pop_levels (b.current_level + 1 - level) b.stack ≡ some (ref ∷ stack)

    abbrev placed : Text → Option T → ℕ → List Text → List (List Text) → Rebuild T → Rebuild T
    placed k v level ref stack b = record {
      tree = modify ref (add_child k v) b.tree;
      stack = (ref ++ k ∷ []) ∷ ref ∷ stack;
      current_level = level;
    }

    pub read_some-read_value :
        (o : Option R) → read_some deserialize_tree deserialize truthy o ≡ gave (read_value o)
    read_some-read_value none = refl
    read_some-read_value (some r) =
        ap (λ (x : Option T). elim x [ none ↦ raised serializer_threw | some v ↦ gave (some v) ])
          (reads r)

    place_node-placed :
        (item : Item R) (ref : List Text) (stack : List (List Text)) (b : Rebuild T)
        → Stands item.level ref stack b
        → place_node deserialize_tree deserialize truthy item b
          ≡ gave (placed item.key (read_value item.value) item.level ref stack b)
    unfolding place_node place_at
    place_node-placed item ref stack b s =
        rw
          (
            place_node,
            le→ltb (b.current_level + 1) item.level s.low,
            s.popped,
            place_at,
            read_some-read_value item.value,
          )
          refl

    Stands-placed :
        (k : Text) (v : Option T) (level : ℕ) (ref : List Text) (stack : List (List Text))
        (b : Rebuild T)
        → Stands (level + 1) (ref ++ k ∷ []) (ref ∷ stack) (placed k v level ref stack b)
    unfolding pop_levels
    Stands-placed k v level ref stack b =
        let none_left : level + 1 - (level + 1) ≡ 0 = omega arith in
        record {
          low = omega arith;
          popped = ap (λ (n : ℕ). pop_levels n ((ref ++ k ∷ []) ∷ ref ∷ stack)) none_left;
        }

    Stands-popped :
        (level : ℕ) (r ref : List Text) (stack : List (List Text)) (b : Rebuild T)
        → Stands (level + 1) r (ref ∷ stack) b
        → Stands level ref stack b
    Stands-popped level r ref stack b s =
        let counted : b.current_level + 1 - level ≡ suc (b.current_level + 1 - (level + 1)) =
          omega (arith, s.low) in
        record {
          low = omega (arith, s.low);
          popped =
              ap (λ (n : ℕ). pop_levels n b.stack) counted
              ∙ pop_levels-suc (b.current_level + 1 - (level + 1)) b.stack (ref ∷ stack) r s.popped;
        }

    abbrev run : List (Item R) → Rebuild T → Attempt (Rebuild T)
    run = place_nodes deserialize_tree deserialize truthy

    -- Nodes are placed, with the tree changed at the reference, and the next ones may follow.
    abbrev pub Places :
        List (Item R) → (Tree T → Tree T) → ℕ → List Text → List (List Text) → Rebuild T → Type 0
    Places items change level ref stack b =
        (rest : List (Item R))
        → (b' : Rebuild T) × (run (items ++ rest) b ≡ run rest b')
          × (b'.tree ≡ modify ref change b.tree)
          × Stands level ref stack b'

    Places-item :
        (k : Text) (level : ℕ) (parent : Option ChainedObject) (t : Tree R) (ref : List Text)
        (stack : List (List Text)) (b : Rebuild T) (rest : List (Item R))
        → Stands level ref stack b
        → run (create_traversal_item k level parent t now ∷ rest) b
          ≡ run rest (placed k (read_value (current_value t now)) level ref stack b)
    unfolding place_nodes create_traversal_item
    Places-item k level parent t ref stack b rest s =
        rw
          (
            place_nodes,
            place_node-placed (create_traversal_item k level parent t now) ref stack b s,
          )
          refl

    mutual
      unfolding depth_order depth_below built_node

      Places-depth_order :
          (t : Tree R) (k : Text) (level : ℕ) (parent : Option ChainedObject) (ref : List Text)
          (stack : List (List Text)) (b : Rebuild T)
          → Stands level ref stack b
          → Places (depth_order now k level parent t) (built_node k t) level ref stack b
      Places-depth_order (leaf v d) k level parent ref stack b s rest =
          let x = read_value (current_value (leaf v d) now) in
          (
            placed k x level ref stack b,
            Places-item k level parent (leaf v d) ref stack b rest s,
            refl,
            Stands-popped level (ref ++ k ∷ []) ref stack (placed k x level ref stack b)
                (Stands-placed k x level ref stack b),
          )
      Places-depth_order (branch v d es) k level parent ref stack b s rest =
          let x = read_value (current_value (branch v d es) now) in
          let b₁ = placed k x level ref stack b in
          let own = some (chained k level parent) in
          let (b₂, runs, tree, stands) =
            Places-depth_below es (level + 1) own (ref ++ k ∷ []) (ref ∷ stack) b₁
              (Stands-placed k x level ref stack b) rest in
          (
            b₂,
            Places-item k level parent (branch v d es) ref stack b
                  (depth_below now (level + 1) own es ++ rest) s
                ∙ runs,
            tree
                ∙ modify-append ref (k ∷ []) (built_below es) b₁.tree
                ∙ modify-modify ref (modify (k ∷ []) (built_below es)) (add_child k x) b.tree,
            Stands-popped level (ref ++ k ∷ []) ref stack b₂ stands,
          )

      pub Places-depth_below :
          (es : Entries R) (level : ℕ) (parent : Option ChainedObject) (ref : List Text)
          (stack : List (List Text)) (b : Rebuild T)
          → Stands level ref stack b
          → Places (depth_below now level parent es) (built_below es) level ref stack b
      Places-depth_below nil level parent ref stack b s rest =
          (b, refl, sym (modify-same ref b.tree), s)
      Places-depth_below (entry k t es) level parent ref stack b s rest =
          let front = depth_order now k level parent t in
          let (b₁, runs₁, tree₁, stands₁) =
            Places-depth_below es level parent ref stack b s (front ++ rest) in
          let (b₂, runs₂, tree₂, stands₂) =
            Places-depth_order t k level parent ref stack b₁ stands₁ rest in
          (
            b₂,
            ap (λ (items : List (Item R)). run items b)
                  (append_assoc (depth_below now level parent es) front rest)
                ∙ runs₁
                ∙ runs₂,
            tree₂
                ∙ ap (modify ref (built_node k t)) tree₁
                ∙ modify-modify ref (built_node k t) (built_below es) b.tree,
            stands₂,
          )
      Places-depth_below (hole k es) level parent ref stack b s rest =
          Places-depth_below es level parent ref stack b s rest
