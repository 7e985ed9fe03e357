-- ===== src/Cache/RoundTrip.antt =====
-- `setNode` and then `getNode` (src/tree-key-cache.ts).
use nodejs_proto_cache.Prelude.{
  ℕ, zero, suc, ◌-◌, ◌≤◌, ◌<◌, ◌≡◌, ◌≢◌, refl, sym, ◌∙◌, ap, false, Bool, ◌==◌, ==_iff, ltb, ltb→lt,
  Option, none, some, List, [], ◌∷◌, ◌++◌, append_assoc, arith, inl, inr, Bool-cases, length,
  length-append, take, if◌then◌else◌,
}
use mathlib.Core.Path.{subst}
use nodejs_proto_cache.Keys.{Text, ChainedObject, chained, join, ok}
use nodejs_proto_cache.Keys.Chain.{path_of, level_of-chained}
use nodejs_proto_cache.Cache.{Options, Storage, Step, StepTtl, World, ◌>>◌}
use nodejs_proto_cache.Cache.Values.{mount_step, is_undefined_or_null}
use nodejs_proto_cache.Cache.DeepTreeSet.{deep_tree_set, set_at, set_node}
use nodejs_proto_cache.Cache.Reads.{get_node}
use nodejs_proto_cache.Cache.Laws.{IsReliable, IsCodec, then-ok}
use nodejs_proto_cache.Cache.Setting.{deep_tree_set-key, deep_tree_set-tree}
use nodejs_proto_cache.Cache.Setting.Trees.{Parses}
use nodejs_proto_cache.Cache.Reading.{get_node-key, get_node-tree}

split_at :
    (n : ℕ) (xs : List Text)
    → n < length xs
    → (a : List Text) × (x : Text) × (b : List Text) × (xs ≡ a ++ x ∷ b)
      × (length a ≡ n)
      × (take (suc n) xs ≡ a ++ x ∷ [])
split_at n [] h = absurd (omega (arith, h))
split_at zero (x ∷ xs) h = ([], x, xs, refl, refl, refl)
split_at (suc n) (y ∷ xs) h =
    let (a, x, b, e, counted, taken) = split_at n xs (omega (arith, h)) in
    (y ∷ a, x, b, ap (◌∷◌ y) e, omega (arith, counted), ap (◌∷◌ y) taken)

module _ {T : Type 0} (v : T) where
  abbrev given : List Text → Step T → Option T
  given path step = if step.level == length path then some v else step.value

  given-value :
      (path : List Text) (k : Text) (p : Option ChainedObject) (x : Option T)
      → given path (mount_step (chained k (length path) p) x) ≡ some v
  given-value path k p x =
      ap (λ (m : ℕ). if m == length path then some v else x) (level_of-chained k (length path) p)
      ∙ ap (λ (b : Bool). if b then some v else x) ((==_iff (length path) (length path)).1 refl)

module _ {T R S : Type 0} (options : Options T R) (storage : Storage S R) (v : T)
    (ttl : Option (StepTtl T)) (now : ℕ) where
  pub set_node-deep_tree_set :
      (path : List Text) (w : World S T)
      → options.is_null v ≡ false
      → set_node options storage path (some v) ttl now w
        ≡ deep_tree_set options storage
            (λ own. none)
            ttl
            now
            path
            (set_at (length path) v)
            []
            (length path)
            w
  unfolding set_node
  set_node-deep_tree_set path w z = rw (z, is_undefined_or_null) refl

-- A set, then a get, that finds the value at the path.
abbrev pub Finds :
    {T R S : Type 0}
    → Options T R
    → Storage S R
    → List Text
    → T
    → Option (StepTtl T)
    → ℕ
    → World S T
    → Type 0
Finds options storage path v ttl now w =
    (s : Step _) × (w' : World _ _) × ((set_node options storage path (some v) ttl now
          >> get_node options storage path now)
        w
      ≡ (ok (some s), w'))
    × (s.value ≡ some v)
    × (path_of s.node_ref ≡ path)

module _ {T R S : Type 0} (options : Options T R) (storage : Storage S R)
    (lookup : S → Text → Option R) (reliable : IsReliable storage lookup) (codec : IsCodec options)
    (v : T) (z : options.is_null v ≡ false) (ttl : Option (StepTtl T)) (now : ℕ) (k : Text)
    (head : k ≢ []) (w : World S T) where
  Finds-key :
      (keys : List Text)
      → length (k ∷ keys) < options.key_level_nodes
      → Finds options storage (k ∷ keys) v ttl now w
  Finds-key keys low =
      let path = k ∷ keys in
      let (w', sets, held) =
        deep_tree_set-key options storage lookup reliable codec (λ own. none) ttl now path
          (given v path) v z (length path) w head low (given-value v path) in
      let (s, gets, value, ends) =
        get_node-key options storage lookup reliable codec k keys now v w' low held in
      (
        s,
        w',
        then-ok _ _ (set_node-deep_tree_set options storage v ttl now path w z ∙ sets) gets,
        value,
        ends,
      )

  Finds-tree :
      (a b : List Text) (x : Text)
      → suc (length (k ∷ a)) ≡ options.key_level_nodes
      → Parses options (lookup w.store (join (k ∷ a ++ x ∷ [])))
      → Finds options storage (k ∷ a ++ x ∷ b) v ttl now w
  Finds-tree a b x last parses =
      let path = k ∷ a ++ x ∷ b in
      let (w', sets, held) =
        deep_tree_set-tree options storage lookup reliable codec (λ own. none) ttl now path
          (given v path) v z (length path) (k ∷ a) b x w refl head last (given-value v path)
          parses in
      let (s, gets, value, ends) =
        get_node-tree options storage lookup reliable codec k (a ++ x ∷ []) b now v w'
          (omega (arith, last, length-append a (x ∷ []))) held in
      let assoc : k ∷ (a ++ x ∷ []) ++ b ≡ path = ap (◌∷◌ k) (append_assoc a (x ∷ []) b) in
      (
        s,
        w',
        then-ok _ _ (set_node-deep_tree_set options storage v ttl now path w z ∙ sets)
            (ap (λ (p : List Text). get_node options storage p now w') (sym assoc) ∙ gets),
        value,
        ends ∙ assoc,
      )

-- What `setNode` has set, `getNode` finds: on a storage and serializers that keep what they are
-- given, with two key levels or more, a first key that is not empty and a value that is not null, a
-- set of a path ends, and a get of the path at that time then ends with a step of that node and that
-- value, whether the node has a key of its own or stands in a tree, and whatever was stored before;
-- only, under the tree's key there must be nothing, or a tree.
pub set_node-get_node :
    {T R S : Type 0} (options : Options T R) (storage : Storage S R) (lookup : S → Text → Option R)
    (v : T) (k : Text) (keys : List Text) (ttl : Option (StepTtl T)) (now : ℕ) (w : World S T)
    → IsReliable storage lookup
    → IsCodec options
    → options.is_null v ≡ false
    → k ≢ []
    → 2 ≤ options.key_level_nodes
    → (options.key_level_nodes ≤ length (k ∷ keys)
        → Parses options (lookup w.store (join (take options.key_level_nodes (k ∷ keys)))))
    → Finds options storage (k ∷ keys) v ttl now w
set_node-get_node options storage lookup v k keys ttl now w reliable codec z head deep parses =
    let n = options.key_level_nodes in
    elim (Bool-cases (ltb (length (k ∷ keys)) n)) [
      | inl low ↦
          Finds-key options storage lookup reliable codec v z ttl now k head w keys
            (ltb→lt (length (k ∷ keys)) n low)
      | inr high ↦
          let level : n ≤ length (k ∷ keys) = ground (arith, high) in
          let (a, x, b, e, counted, taken) = split_at (n - 2) keys (omega (arith, level, deep)) in
          let rounds : n ≡ suc (suc (n - 2)) = omega (arith, deep) in
          let prefix : take n (k ∷ keys) ≡ k ∷ a ++ x ∷ [] =
            ap (λ (m : ℕ). take m (k ∷ keys)) rounds ∙ ap (◌∷◌ k) taken in
          subst (λ (p : List Text). Finds options storage (k ∷ p) v ttl now w) (sym e)
            (Finds-tree options storage lookup reliable codec v z ttl now k head w a b x
              (omega (arith, counted, deep))
              (subst (λ (p : List Text). Parses options (lookup w.store (join p))) prefix
                (parses level)))
    ]
