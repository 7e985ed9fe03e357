-- ===== src/TreeUtils/Setting.antt =====
-- What `deepTreeSet` (src/utils/deep-tree-set.ts) leaves at the nodes of the path.
use nodejs_proto_cache.Prelude.{
  ℕ, suc, ◌+◌, ◌≡◌, refl, ◌∙◌, ap, Option, none, some, List, [], ◌∷◌, ◌++◌, append_assoc, arith,
  inl, inr, ◌⊎◌, length, get_elem?, Bool, if◌then◌else◌,
}
use nodejs_proto_cache.Keys.{Text, ChainedObject, chained}
use nodejs_proto_cache.Keys.Chain.{keys_to, path_of, path_of-chained}
use nodejs_proto_cache.Tree.{Tree, leaf, branch, value_of, deadline_of, entries_of, get_entry}
use nodejs_proto_cache.Tree.Writes.{get_entry-set_entry, text_eq_refl}
use nodejs_proto_cache.Tree.Paths.{find_tree}
use nodejs_proto_cache.Cache.{Step}
use nodejs_proto_cache.TreeUtils.{
  Answer, goes_on, leaves, found_or, write_value, put_child, memory_step, set_path,
  deep_tree_set_in_memory,
}

pub Answer-cases :
    {T : Type 0} (a : Answer T)
    → ((v : Option T) × (a ≡ leaves v)) ⊎ ((v : Option T) × (a ≡ goes_on v))
Answer-cases (leaves v) = inl (v, refl)
Answer-cases (goes_on v) = inr (v, refl)

module _ {T : Type 0} where
  pub value_of-write_value : (t : Tree T) (v : Option T) → value_of (write_value t v) ≡ v
  value_of-write_value (leaf _ d) v = refl
  value_of-write_value (branch _ d es) v = refl

  pub entries_of-write_value :
      (t : Tree T) (v : Option T) → entries_of (write_value t v) ≡ entries_of t
  entries_of-write_value (leaf _ d) v = refl
  entries_of-write_value (branch _ d es) v = refl

  pub get_entry-put_child :
      (t : Tree T) (k : Text) (u : Tree T) → get_entry (entries_of (put_child t k u)) k ≡ some u
  get_entry-put_child t k u =
      get_entry-set_entry k k u (entries_of t)
      ∙ ap (λ (b : Bool). if b then some u else get_entry (entries_of t) k) (text_eq_refl k)

  pub find_tree-put_child :
      (t : Tree T) (k : Text) (u : Tree T) (path : List Text)
      → find_tree (put_child t k u) (k ∷ path) ≡ find_tree u path
  unfolding find_tree
  find_tree-put_child t k u path =
      ap (λ (o : Option (Tree T)). elim o [ none ↦ none | some x ↦ find_tree x path ])
        (get_entry-put_child t k u)

module _ {T : Type 0} (create_value : ℕ → Option T) (consumer : Step T → Answer T) where
  -- The node of a key, which is made if it is not there, and its step.
  abbrev pub node_at : ℕ → Tree T → Text → Tree T
  node_at level tree key =
      found_or (leaf (create_value (suc level)) none) (get_entry (entries_of tree) key)

  abbrev pub step_at : ℕ → Option ChainedObject → Tree T → Text → Step T
  step_at level node_ref tree key =
      memory_step (node_at level tree key) key (suc level) (chained key (suc level) node_ref)

  pub set_path-leaves :
      (level : ℕ) (node_ref : Option ChainedObject) (tree : Tree T) (key : Text) (path : List Text)
      (v : Option T)
      → consumer (step_at level node_ref tree key) ≡ leaves v
      → set_path create_value consumer level node_ref tree (key ∷ path) ≡ (
        step_at level node_ref tree key ∷ [],
        put_child tree key (write_value (node_at level tree key) v),
      )
  unfolding set_path
  set_path-leaves level node_ref tree key path v e = rw (e, set_path) refl

  pub set_path-goes_on :
      (level : ℕ) (node_ref : Option ChainedObject) (tree : Tree T) (key : Text) (path : List Text)
      (v : Option T)
      → consumer (step_at level node_ref tree key) ≡ goes_on v
      → let below =
          set_path create_value consumer
            (suc level)
            (some (chained key (suc level) node_ref))
            (write_value (node_at level tree key) v)
            path in
        set_path create_value consumer level node_ref tree (key ∷ path)
        ≡ (step_at level node_ref tree key ∷ below.0, put_child tree key below.1)
  unfolding set_path
  set_path-goes_on level node_ref tree key path v e = rw (e, set_path) refl

  -- The root keeps its value and its deadline.
  pub root-set_path :
      (level : ℕ) (node_ref : Option ChainedObject) (tree : Tree T) (path : List Text)
      → let root = (set_path create_value consumer level node_ref tree path).1 in
        (value_of root ≡ value_of tree) × (deadline_of root ≡ deadline_of tree)
  unfolding set_path
  root-set_path level node_ref tree [] = (refl, refl)
  root-set_path level node_ref tree (key ∷ path) =
      elim (Answer-cases (consumer (step_at level node_ref tree key))) [
        | inl (v, e) ↦
            let run = set_path-leaves level node_ref tree key path v e in
            (λ i. value_of ((run i).1), λ i. deadline_of ((run i).1))
        | inr (v, e) ↦
            let run = set_path-goes_on level node_ref tree key path v e in
            (λ i. value_of ((run i).1), λ i. deadline_of ((run i).1))
      ]

module _ {T : Type 0} (create_value : ℕ → Option T) (given : Step T → Option T) where
  abbrev Reached : Option ChainedObject → ℕ → List Text → Text → List (Step T) → Tree T → Type 0
  Reached node_ref level front k steps tree =
      (s : Step T) × (u : Tree T) × (get_elem? steps (length front) ≡ some s)
      × (s.key ≡ k)
      × (s.level ≡ level + suc (length front))
      × (path_of s.node_ref ≡ keys_to node_ref ++ (front ++ k ∷ []))
      × (find_tree tree (front ++ k ∷ []) ≡ some u)
      × (value_of u ≡ given s)

  set_path-Reached :
      (front rest : List Text) (k : Text) (level : ℕ) (node_ref : Option ChainedObject)
      (tree : Tree T)
      → let run =
          set_path create_value (λ s. goes_on (given s)) level node_ref tree (front ++ k ∷ rest) in
        Reached node_ref level front k run.0 run.1
  unfolding set_path
  set_path-Reached [] rest k level node_ref tree =
      let own = chained k (suc level) node_ref in
      let node = found_or (leaf (create_value (suc level)) none) (get_entry (entries_of tree) k) in
      let step = memory_step node k (suc level) own in
      let below =
        (set_path create_value (λ s. goes_on (given s)) (suc level) (some own)
          (write_value node (given step)) rest).1 in
      (
        step,
        below,
        refl,
        refl,
        omega arith,
        path_of-chained k (suc level) node_ref,
        find_tree-put_child tree k below [] ∙ unfold find_tree in refl,
        (root-set_path create_value (λ s. goes_on (given s)) (suc level) (some own)
              (write_value node (given step)) rest).0
            ∙ value_of-write_value node (given step),
      )
  set_path-Reached (j ∷ front) rest k level node_ref tree =
      let own = chained j (suc level) node_ref in
      let node = found_or (leaf (create_value (suc level)) none) (get_entry (entries_of tree) j) in
      let step = memory_step node j (suc level) own in
      let edited = write_value node (given step) in
      let below =
        (set_path create_value (λ s. goes_on (given s)) (suc level) (some own) edited
          (front ++ k ∷ rest)).1 in
      let (s, u, at, key, lev, keys, found, value) =
        set_path-Reached front rest k (suc level) (some own) edited in
      (
        s,
        u,
        at,
        key,
        omega (arith, lev),
        keys
            ∙ ap (λ (ks : List Text). ks ++ (front ++ k ∷ []))
                (path_of-chained j (suc level) node_ref)
            ∙ append_assoc (keys_to node_ref) (j ∷ []) (front ++ k ∷ []),
        find_tree-put_child tree j below (front ++ k ∷ []) ∙ found,
        value,
      )

  -- One step for each key of the path.
  length-set_path :
      (path : List Text) (level : ℕ) (node_ref : Option ChainedObject) (tree : Tree T)
      → length (set_path create_value (λ s. goes_on (given s)) level node_ref tree path).0
        ≡ length path
  unfolding set_path
  length-set_path [] level node_ref tree = refl
  length-set_path (key ∷ path) level node_ref tree =
      ap suc (length-set_path path (suc level) (some (chained key (suc level) node_ref)) _)

  -- If the consumer takes every step, leaving a value in it, then there are as many steps as keys in
  -- the path, the step at each position is the node of the path that is that deep, with its key,
  -- level and chain, and afterwards each beginning of the path leads to a node with the value that
  -- was left in its step.
  pub deep_tree_set_in_memory-find_tree :
      (tree : Tree T) (front rest : List Text) (k : Text)
      → let run =
          deep_tree_set_in_memory create_value (λ s. goes_on (given s)) tree (front ++ k ∷ rest) in
        (s : Step T) × (u : Tree T) × (length run.0 ≡ length (front ++ k ∷ rest))
        × (get_elem? run.0 (length front) ≡ some s)
        × (s.key ≡ k)
        × (s.level ≡ suc (length front))
        × (path_of s.node_ref ≡ front ++ k ∷ [])
        × (find_tree run.1 (front ++ k ∷ []) ≡ some u)
        × (value_of u ≡ given s)
  unfolding deep_tree_set_in_memory
  deep_tree_set_in_memory-find_tree tree front rest k =
      let (s, u, at, key, level, keys, found, value) = set_path-Reached front rest k 0 none tree in
      (
        s,
        u,
        length-set_path (front ++ k ∷ rest) 0 none tree,
        at,
        key,
        omega (arith, level),
        keys,
        found,
        value,
      )
