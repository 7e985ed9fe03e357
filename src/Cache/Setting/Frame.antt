-- ===== src/Cache/Setting/Frame.antt =====
-- The keys of the storage that `deepTreeSet` and `setNode` (src/tree-key-cache.ts) write to.
use nodejs_proto_cache.Prelude.{
  ℕ, zero, suc, ◌+◌, ◌-◌, ◌≤◌, ◌<◌, min, max, ◌≡◌, ◌≢◌, refl, sym, ◌∙◌, ap, Option, none, some,
  List, [], ◌∷◌, ◌++◌, arith, ltb, length, length-append,
}
use mathlib.Core.Path.{subst}
use nodejs_proto_cache.Keys.{
  Text, ChainedObject, Result, ok, throw, truthy_text, join, get_chained_key,
}
use nodejs_proto_cache.Keys.Chain.{HasHead}
use nodejs_proto_cache.Cache.{Options, Storage, StepTtl, World, Consumer, writing}
use nodejs_proto_cache.Cache.Laws.{IsReliable}
use nodejs_proto_cache.Cache.Values.{is_undefined_or_null}
use nodejs_proto_cache.Cache.DeepTreeSet.{
  Reached, set_key_levels, set_tree, set_locked_tree, set_tree_part, deep_tree_set, set_node,
  set_at, previous_key,
}
use nodejs_proto_cache.Cache.KeyLevels.{joined, reached, joined-snoc}
use nodejs_proto_cache.Cache.Setting.Parts.{
  Keeps-set_key_level, Keeps-parse_tree, Keeps-set_tree_levels, Keeps-persist_tree,
}
use nodejs_proto_cache.Cache.Keeps.{
  Gives, Gives-bind, Gives-bind_post, Keeps, Keeps-bind_post, Keeps-bind, Keeps-pure, Keeps-lift,
  Keeps-reading, Keeps-if,
}
use nodejs_proto_cache.Cache.Setting.Untouched.{
  NextKey, get_chained_key-NextKey, get_chained_key-SameFrom, written_path, written_path-SameFrom,
  written_path-split, Keeps-set, Keeps-register, Keeps-acquire, Keeps-finally, stored,
}

previous_key-joined : (keys : List Text) → previous_key keys ≡ joined keys
previous_key-joined [] = refl
previous_key-joined (k ∷ keys) = refl

module _ {T R S : Type 0} (options : Options T R) (storage : Storage S R)
    (lookup : S → Text → Option R) (reliable : IsReliable storage lookup) (j : Text) where
  abbrev held : World S T → Option R
  held = stored options storage lookup reliable j

  module _ (create_value : ChainedObject → Option T) (ttl : Option (StepTtl T)) (now : ℕ)
      (previous path : List Text) (consumer : Consumer T)
      (head : HasHead (written_path previous path))
      (other : (front rest : List Text)
        → written_path previous path ≡ front ++ rest
        → length previous < length front
        → length front ≤ max options.key_level_nodes (suc (length previous))
        → j ≢ join front) where
    abbrev whole : List Text
    whole = written_path previous path

    -- More keys than this are never chained.
    abbrev limit : ℕ
    limit = max options.key_level_nodes (suc (length previous))

    -- Where the first loop stands: after a number of levels of the path.
    abbrev OnPath : ℕ → Reached → Type 0
    OnPath levels at =
        (front : List Text) × (rest : List Text) × (own : Option ChainedObject) × (whole
          ≡ front ++ rest)
        × (length previous ≤ length front)
        × (at ≡ reached front own)
        × (length front ≡ levels)

    next-OnPath :
        (front : List Text) (keys : Text × Text) (own : ChainedObject)
        → NextKey whole front keys
        → length previous ≤ length front
        → OnPath
            (suc (length front))
            (record { level = suc (length front); chained_key = some keys.0; node_ref = some own })
    next-OnPath front keys own (k, rest, split, same) long =
        let longer : length (front ++ k ∷ []) ≡ suc (length front) =
          omega (arith, length-append front (k ∷ [])) in
        let chained : some keys.0 ≡ joined (front ++ k ∷ []) =
          ap some same ∙ sym (joined-snoc front k) in
        (
          front ++ k ∷ [],
          rest,
          some own,
          split,
          omega (arith, longer, long),
          λ i. record { level = sym longer i; chained_key = chained i; node_ref = some own },
          longer,
        )

    apart :
        (front : List Text) (keys : Text × Text)
        → NextKey whole front keys
        → length previous ≤ length front
        → length front < limit
        → j ≢ keys.0
    apart front keys (k, rest, split, same) long low e =
        other (front ++ k ∷ []) rest split (omega (arith, length-append front (k ∷ []), long))
          (omega (arith, length-append front (k ∷ []), low)) (e ∙ same)

    Gives-keys :
        (front rest : List Text)
        → whole ≡ front ++ rest
        → length previous ≤ length front
        → Gives {S = S} {T = T}
            (NextKey whole front)
            (λ w. (get_chained_key path (length front) (joined front), w))
    Gives-keys front rest split long = record {
      results = λ w keys e. get_chained_key-NextKey whole front rest keys head split (
          sym (
            get_chained_key-SameFrom (length previous) (length front) path whole (joined front)
              (written_path-SameFrom previous path) long)
          ∙ e);
    }

    Gives-set_key_levels :
        (n min_level levels most : ℕ) (at : Reached)
        → OnPath levels at
        → levels + n ≡ most
        → Gives
            (OnPath most)
            (set_key_levels options storage create_value ttl now path consumer n min_level at)
    unfolding set_key_levels
    Gives-set_key_levels zero min_level levels most at (front, rest, own, split, past, stands, long)
          low =
        record {
          results = λ w a e. (
            front,
            rest,
            own,
            split,
            past,
            ap (λ (r : Result Reached). elim r [ ok x ↦ x | throw err ↦ at ]) (sym e) ∙ stands,
            omega (arith, long, low),
          );
        }
    Gives-set_key_levels (suc n) min_level levels most at
          (front, rest, own, split, past, stands, long) low =
        subst
          (λ (from : Reached). Gives (OnPath most) (
            set_key_levels options storage create_value ttl now path consumer (suc n) min_level
              from))
          (sym stands)
          (Gives-bind_post (NextKey whole front) (OnPath most) _ (Gives-keys front rest split past)
            (λ keys known. Gives-bind (OnPath most) _ (λ _. Gives-bind (OnPath most) _ (λ release.
              Gives-bind (OnPath most) _ (λ _.
                Gives-set_key_levels n min_level (suc (length front)) most _
                  (next-OnPath front keys _ known past) (omega (arith, long, low)))))))

    sets_apart :
        (front : List Text) (keys : Text × Text)
        → NextKey whole front keys
        → length previous ≤ length front
        → length front < limit
        → (r : R) (m : Option ℕ) → Keeps held (writing (storage.set keys.0 r m))
    sets_apart front keys known long low r m =
        Keeps-set options storage lookup reliable j keys.0 r m (apart front keys known long low)

    Keeps-set_key_levels :
        (n min_level levels : ℕ) (at : Reached)
        → OnPath levels at
        → levels + n ≤ limit
        → Keeps held
            (set_key_levels options storage create_value ttl now path consumer n min_level at)
    unfolding set_key_levels
    Keeps-set_key_levels zero min_level levels at on low = Keeps-pure held
    Keeps-set_key_levels (suc n) min_level levels at (front, rest, own, split, past, stands, long)
          low =
        subst
          (λ (from : Reached). Keeps held (
            set_key_levels options storage create_value ttl now path consumer (suc n) min_level
              from))
          (sym stands)
          (Keeps-bind_post held (NextKey whole front) (Keeps-lift held)
            (Gives-keys front rest split past)
            (λ keys known.
              Keeps-bind held
                (Keeps-register options storage lookup reliable j (joined front) keys.1)
                (λ _.
                  Keeps-bind held (Keeps-acquire options storage lookup reliable j _ keys.0)
                    (λ release.
                      Keeps-bind held
                        (Keeps-finally options storage lookup reliable j release (
                          Keeps-set_key_level options storage held (λ w. refl) (λ step w. refl)
                            create_value ttl now path consumer keys.0 _
                            (sets_apart front keys known past (omega (arith, long, low)))))
                        (λ _.
                          Keeps-set_key_levels n min_level (suc (length front)) _
                            (next-OnPath front keys _ known past) (omega (arith, long, low)))))))

    Keeps-set_tree :
        (level : ℕ) (chained_key key : Text) (parent : Option ChainedObject)
        → ((r : R) (m : Option ℕ) → Keeps held (writing (storage.set chained_key r m)))
        → Keeps held (
            set_tree options storage create_value ttl now path consumer level chained_key key
              parent)
    unfolding set_tree
    Keeps-set_tree level chained_key key parent sets =
        Keeps-bind held (Keeps-reading held (storage.get chained_key)) (λ buffer.
          Keeps-bind held
            (Keeps-parse_tree options storage held (λ w. refl) (λ step w. refl) buffer)
            (λ root.
              Keeps-bind held
                (Keeps-set_tree_levels options storage held (λ w. refl) (λ step w. refl)
                  create_value ttl now path consumer (length path - level) level key parent root
                  none)
                (λ e.
                  Keeps-if held e.changed
                    (Keeps-persist_tree options storage held (λ w. refl) (λ step w. refl)
                      chained_key e.max_ttl e.tree sets)
                    (Keeps-pure held))))

    Keeps-set_tree_part :
        (min_level levels : ℕ) (at : Reached)
        → OnPath levels at
        → levels ≤ limit - 1
        → Keeps held (set_tree_part options storage create_value ttl now path consumer min_level at)
    unfolding set_tree_part set_locked_tree
    Keeps-set_tree_part min_level levels at (front, rest, own, split, past, stands, long) low =
        subst
          (λ (from : Reached).
            Keeps held
              (set_tree_part options storage create_value ttl now path consumer min_level from))
          (sym stands) (below front rest split past (omega (arith, long, low)))
      where
        below :
            (q rest : List Text)
            → whole ≡ q ++ rest
            → length previous ≤ length q
            → length q ≤ limit - 1
            → Keeps held (
                set_tree_part options storage create_value ttl now path consumer min_level
                  (reached q own))
        below [] rest split past low =
            Keeps-if held (ltb 0 (length path)) (Keeps-lift held) (Keeps-pure held)
        below (k ∷ q) rest split past low =
            Keeps-if held (ltb (length (k ∷ q)) (length path))
              (Keeps-if held (truthy_text (join (k ∷ q)))
                (Keeps-bind_post held (NextKey whole (k ∷ q)) (Keeps-lift held)
                  (Gives-keys (k ∷ q) rest split past)
                  (λ keys known.
                    Keeps-bind held (Keeps-acquire options storage lookup reliable j _ keys.0)
                      (λ release. Keeps-finally options storage lookup reliable j release (
                        Keeps-set_tree (suc (length (k ∷ q))) keys.0 keys.1 own
                          (sets_apart (k ∷ q) keys known past (omega (arith, low)))))))
                (Keeps-lift held))
              (Keeps-pure held)

    start-OnPath :
        OnPath
          (length previous)
          (record { level = length previous; chained_key = previous_key previous; node_ref = none })
    start-OnPath =
        let (rest, split) = written_path-split previous path in
        (
          previous,
          rest,
          none,
          split,
          omega arith,
          λ i. record {
            level = length previous;
            chained_key = previous_key-joined previous i;
            node_ref = none;
          },
          refl,
        )

    Keeps-deep_tree_set :
        (min_level : ℕ)
        → Keeps held
            (deep_tree_set options storage create_value ttl now path consumer previous min_level)
    unfolding deep_tree_set
    Keeps-deep_tree_set min_level =
        let n = min (options.key_level_nodes - 1) (length path) - length previous in
        Keeps-bind_post held (OnPath (length previous + n))
          (Keeps-set_key_levels n min_level (length previous) _ start-OnPath (omega arith))
          (Gives-set_key_levels n min_level (length previous) (length previous + n) _ start-OnPath
            refl)
          (λ at on. Keeps-set_tree_part min_level (length previous + n) at on (omega arith))

module _ {T R S : Type 0} (options : Options T R) (storage : Storage S R)
    (lookup : S → Text → Option R) (path : List Text) (ttl : Option (StepTtl T)) (now : ℕ)
    (j : Text) (w : World S T) where
  -- On a storage that answers, and wherever the consumer leaves and whatever cannot be read:
  -- `deepTreeSet` leaves under a key what it held, if it is not one of the chained keys that the
  -- path gives with the previous keys in place of its first ones, of more keys than the previous
  -- ones, and of at most `keyLevelNodes` keys or one more than the previous ones, whichever is more.
  -- The first key of that path must not be empty.
  pub lookup-deep_tree_set :
      (create_value : ChainedObject → Option T) (previous : List Text) (consumer : Consumer T)
      (min_level : ℕ)
      → IsReliable storage lookup
      → HasHead (written_path previous path)
      → ((front rest : List Text)
          → written_path previous path ≡ front ++ rest
          → length previous < length front
          → length front ≤ max options.key_level_nodes (suc (length previous))
          → j ≢ join front)
      → lookup
          (deep_tree_set options storage create_value ttl now path consumer previous min_level
            w).1.store
          j
        ≡ lookup w.store j
  lookup-deep_tree_set create_value previous consumer min_level reliable head other =
      (Keeps-deep_tree_set options storage lookup reliable j create_value ttl now previous path
          consumer head other min_level).law
        w

  -- On a storage that answers, and for a path whose first key is not empty: `setNode` leaves under a
  -- key what it held, if it is not the chained key of one of the first `keyLevelNodes` nodes of the
  -- path, or of the first one if that is 0, whatever cannot be read.
  pub lookup-set_node :
      (value : Option T)
      → IsReliable storage lookup
      → HasHead path
      → ((front rest : List Text)
          → path ≡ front ++ rest
          → 1 ≤ length front
          → length front ≤ max options.key_level_nodes 1
          → j ≢ join front)
      → lookup (set_node options storage path value ttl now w).1.store j ≡ lookup w.store j
  unfolding set_node
  lookup-set_node none reliable head other = refl
  lookup-set_node (some v) reliable head other =
      let held = stored options storage lookup reliable j in
      (Keeps-if held (is_undefined_or_null options (some v)) (Keeps-pure held) (
          Keeps-deep_tree_set options storage lookup reliable j (λ own. none) ttl now [] path
            (set_at (length path) v) (unfold written_path in head) (unfold written_path in other)
            (length path))).law
        w
