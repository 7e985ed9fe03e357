-- ===== src/Cache/Semaphore/Unlocked.antt =====
-- Which semaphore `setNode` (src/tree-key-cache.ts) takes.
use nodejs_proto_cache.Prelude.{
  ℕ, zero, suc, ◌+◌, ◌-◌, ◌≤◌, ◌<◌, min, ◌≡◌, ◌≢◌, refl, ◌∙◌, ap, true, false, Bool, Option, none,
  some, List, [], ◌∷◌, ◌++◌, arith, ltb, leb, ltb→lt, length,
}
use nodejs_proto_cache.Keys.{Text, ChainedObject, Result, ok, throw, truthy_text}
use nodejs_proto_cache.Cache.{
  Options, Storage, Step, StepTtl, Event, value_error, yielded, released, World, Consumer, M, ◌>>=◌,
  writing, acquire_if, finally_release, release_events,
}
use nodejs_proto_cache.Cache.Values.{is_undefined_or_null}
use nodejs_proto_cache.Cache.DeepTreeSet.{
  Reached, set_key_levels, set_tree, set_locked_tree, set_tree_part, deep_tree_set, set_node,
  set_at,
}
use nodejs_proto_cache.Cache.Setting.Parts.{
  Keeps-set_key_level, Keeps-parse_tree, Keeps-set_tree_levels, Keeps-persist_tree,
}
use nodejs_proto_cache.Cache.Keeps.{
  Gives, Gives-bind, Keeps, Keeps-bind_post, Keeps-bind, Keeps-pure, Keeps-lift, Keeps-reading,
  Keeps-if, Keeps-if_known, Keeps-option, Unseen,
}
use nodejs_proto_cache.Cache.Semaphore.{acquisitions, acquisitions-append}

-- How often the key has been acquired.
abbrev taken : {S T : Type 0} → Text → World S T → ℕ
taken k w = acquisitions k w.events

module _ {S T : Type 0} (k : Text) where
  unseen : (e : Event T) → acquisitions k (e ∷ []) ≡ 0 → Unseen (taken {S = S} k) e
  unseen e h w = omega (arith, h, acquisitions-append k w.events (e ∷ []))

  Keeps-writing : (g : S → Result S) → Keeps (taken {T = T} k) (writing g)
  Keeps-writing g = record { law = λ w. written w (g w.store) }
    where
      written :
          (w : World S T) (r : Result S)
          → let q : Result (Unit {0}) × World S T = elim r [
            | ok s ↦ (ok tt, record w { store = s })
            | throw e ↦ (throw e, w)
          ] in
            acquisitions k q.1.events ≡ acquisitions k w.events
      written w (ok s) = refl
      written w (throw e) = refl

  Keeps-finally :
      {A : Type 0} (release : Option Text) {body : M S T A}
      → Keeps (taken k) body
      → Keeps (taken k) (finally_release release body)
  unfolding finally_release acquisitions
  Keeps-finally release {body = body} h = record {
    law = λ w. released_last (body w).1 release ∙ h.law w;
  }
    where
      released_last :
          (w : World S T) (r : Option Text)
          → acquisitions k (w.events ++ release_events r) ≡ acquisitions k w.events
      released_last w none = omega (arith, acquisitions-append {T = T} k w.events [])
      released_last w (some key) =
          omega (arith, acquisitions-append {T = T} k w.events (released key ∷ []))

  Keeps-not_acquired :
      {B : Type 0} (b : Bool) (key : Text) {g : Option Text → M S T B}
      → b ≡ false
      → ((release : Option Text) → Keeps (taken k) (g release))
      → Keeps (taken k) (acquire_if b key >>= g)
  unfolding ◌>>=◌ acquire_if
  Keeps-not_acquired true key h rest = absurd (ground (arith, h))
  Keeps-not_acquired false key h rest = record { law = λ w. (rest none).law w }

abbrev level_reached : Result Reached → ℕ
level_reached (ok r) = r.level
level_reached (throw e) = 0

module _ {T R S : Type 0} (options : Options T R) (storage : Storage S R) (k : Text) where
  abbrev held : World S T → ℕ
  held = taken k

  error-Unseen : Unseen {S = S} {T = T} held value_error
  unfolding acquisitions
  error-Unseen = unseen k value_error refl

  yield-Unseen : (step : Step T) → Unseen {S = S} {T = T} held (yielded step)
  unfolding acquisitions
  yield-Unseen step = unseen k (yielded step) refl

  module _ (create_value : ChainedObject → Option T) (ttl : Option (StepTtl T)) (now : ℕ)
      (path : List Text) (consumer : Consumer T) where
    -- Below the level from which the semaphore is asked for, the first loop takes none.
    Keeps-set_key_levels :
        (n min_level : ℕ) (at : Reached)
        → at.level + n ≤ min_level
        → Keeps held
            (set_key_levels options storage create_value ttl now path consumer n min_level at)
    unfolding set_key_levels
    Keeps-set_key_levels zero min_level at low = Keeps-pure held
    Keeps-set_key_levels (suc n) min_level at low = Keeps-bind held (Keeps-lift held) (λ keys.
        Keeps-bind held
          (Keeps-option held storage.register_child (Keeps-pure held)
            (λ register. Keeps-writing k (register at.chained_key keys.1)))
          (λ _.
            Keeps-not_acquired k (leb min_level at.level) keys.0 (ground (arith, low)) (λ release.
              Keeps-bind held
                (Keeps-finally k release (
                  Keeps-set_key_level options storage held error-Unseen yield-Unseen create_value
                    ttl now path consumer keys.0 _
                    (λ r m. Keeps-writing k (storage.set keys.0 r m))))
                (λ _. Keeps-set_key_levels n min_level _ (omega (arith, low))))))

    -- The first loop ends at the level that its rounds lead to.
    Gives-set_key_levels :
        (n min_level level : ℕ) (at : Reached)
        → at.level + n ≡ level
        → Gives
            (λ (r : Reached). r.level ≡ level)
            (set_key_levels options storage create_value ttl now path consumer n min_level at)
    unfolding set_key_levels
    Gives-set_key_levels zero min_level level at e = record {
      results = λ w a h. omega (arith, e, ap level_reached h);
    }
    Gives-set_key_levels (suc n) min_level level at e = Gives-bind _ _ (λ keys. Gives-bind _ _ (λ _.
        Gives-bind _ _ (λ release.
          Gives-bind _ _ (λ _. Gives-set_key_levels n min_level level _ (omega (arith, e))))))

    Keeps-set_tree :
        (level : ℕ) (chained_key key : Text) (parent : Option ChainedObject)
        → Keeps held (
            set_tree options storage create_value ttl now path consumer level chained_key key
              parent)
    unfolding set_tree
    Keeps-set_tree level chained_key key parent =
        Keeps-bind held (Keeps-reading held (storage.get chained_key)) (λ buffer.
          Keeps-bind held (Keeps-parse_tree options storage held error-Unseen yield-Unseen buffer)
            (λ root.
              Keeps-bind held
                (Keeps-set_tree_levels options storage held error-Unseen yield-Unseen create_value
                  ttl now path consumer (length path - level) level key parent root none)
                (λ e.
                  Keeps-if held e.changed
                    (Keeps-persist_tree options storage held error-Unseen yield-Unseen chained_key
                      e.max_ttl e.tree (λ r m. Keeps-writing k (storage.set chained_key r m)))
                    (Keeps-pure held))))

    -- A tree above the level from which the semaphore is asked for.
    Keeps-set_tree_part :
        (min_level : ℕ) (at : Reached)
        → (at.level < length path → suc at.level < min_level)
        → Keeps held (set_tree_part options storage create_value ttl now path consumer min_level at)
    unfolding set_tree_part set_locked_tree
    Keeps-set_tree_part min_level at above =
        Keeps-if_known held (ltb at.level (length path))
          (λ inside. Keeps-option held at.chained_key (Keeps-lift held) (λ prefix.
            Keeps-if held (truthy_text prefix)
              (Keeps-bind held (Keeps-lift held) (λ keys.
                Keeps-not_acquired k (leb min_level (suc at.level)) keys.0
                  (ground (arith, above (ltb→lt at.level (length path) inside)))
                  (λ release.
                    Keeps-finally k release
                      (Keeps-set_tree (suc at.level) keys.0 keys.1 at.node_ref))))
              (Keeps-lift held)))
          (λ _. Keeps-pure held)

    Keeps-deep_tree_set :
        1 ≤ options.key_level_nodes
        → length path ≢ options.key_level_nodes
        → Keeps held
            (deep_tree_set options storage create_value ttl now path consumer [] (length path))
    unfolding deep_tree_set
    Keeps-deep_tree_set some_level other =
        let n = min (options.key_level_nodes - 1) (length path) - 0 in
        Keeps-bind_post held (λ (r : Reached). r.level ≡ n)
          (Keeps-set_key_levels n (length path) _ (omega arith))
          (Gives-set_key_levels n (length path) n _ (omega arith))
          (λ at e.
            Keeps-set_tree_part (length path) at
              (λ inside. omega (arith, inside, e, some_level, other)))

-- `setNode` takes the semaphore of no key at all, whatever happens during its run, unless the path has
-- exactly `keyLevelNodes` keys: also not where it changes a node deeper in a tree, which it reads and
-- writes as a whole. There must be a key level.
pub set_node-unlocked :
    {T R S : Type 0} (options : Options T R) (storage : Storage S R) (path : List Text)
    (value : Option T) (ttl : Option (StepTtl T)) (now : ℕ) (k : Text) (w : World S T)
    → 1 ≤ options.key_level_nodes
    → length path ≢ options.key_level_nodes
    → acquisitions k (set_node options storage path value ttl now w).1.events
      ≡ acquisitions k w.events
unfolding set_node
set_node-unlocked options storage path none ttl now k w some_level other = refl
set_node-unlocked options storage path (some v) ttl now k w some_level other =
    (Keeps-if (taken k) (is_undefined_or_null options (some v)) (Keeps-pure (taken k)) (
        Keeps-deep_tree_set options storage k (λ own. none) ttl now path (set_at (length path) v)
          some_level other)).law
      w
