-- ===== src/Cache/Setting/Trees.antt =====
-- What `deepTreeSet` (src/tree-key-cache.ts) leaves under the key of a tree.
use nodejs_proto_cache.Prelude.{
  ◌-◌, ℕ, suc, ◌+◌, ◌-◌, ◌≡◌, refl, sym, ◌∙◌, ap, true, false, leb, Option, none, some, List, [],
  ◌∷◌, ◌++◌, append_assoc, arith, inl, inr, Bool-cases, length, length-append,
}
use mathlib.Core.Path.{subst}
use nodejs_proto_cache.Keys.{Text, ChainedObject, chained, join, get_chained_key, Result, ok}
use nodejs_proto_cache.Keys.Chain.{HasHead, get_chained_key-join}
use nodejs_proto_cache.Tree.{Tree, empty_tree, current_value, get_entry}
use nodejs_proto_cache.Tree.Paths.{value_at}
use nodejs_proto_cache.Cache.{
  release_events, Options, Storage, Step, StepTtl, World, Consumer, resume,
}
use nodejs_proto_cache.Cache.Values.{mount_step}
use nodejs_proto_cache.Cache.DeepTreeSet.{parse_tree, set_tree_levels, set_tree, set_locked_tree}
use nodejs_proto_cache.Cache.Laws.{IsReliable, IsCodec, then-ok, reading-get}
use nodejs_proto_cache.Cache.Persist.{persist_tree-found}
use nodejs_proto_cache.Cache.KeyLevels.{acquire_if-ok, finally_release-ok, reached}
use nodejs_proto_cache.Cache.TreeLevels.{set_tree_levels-runs}

-- The consumer gives the value to every step of a level.
abbrev pub Gives : {T : Type 0} → (Step T → Option T) → T → ℕ → Type 0
Gives given v level =
    (k : Text) (p : Option ChainedObject) (x : Option _)
    → given (mount_step (chained k level p) x) ≡ some v

module _ {T R : Type 0} (options : Options T R) where
  -- What the storage holds under a tree's key is a tree, if it is anything.
  abbrev pub Parses : Option R → Type 0
  Parses buffer =
      (r : R)
      → buffer ≡ some r
      → options.truthy r ≡ true
      → (t : Tree R) × (options.deserialize_tree r ≡ some t)

  -- What is held is a tree that leads to the value at the path.
  abbrev pub HoldsTree : ℕ → List Text → T → Option R → Type 0
  HoldsTree now rest v held =
      (r : R) × (t : Tree R) × (held ≡ some r)
      × (options.truthy r ≡ true)
      × (options.deserialize_tree r ≡ some t)
      × (value_at now t rest ≡ some (options.serialize v))

  value_at-empty_tree : (now : ℕ) (rest : List Text) → value_at {R = R} now empty_tree rest ≡ none
  unfolding value_at current_value get_entry
  value_at-empty_tree now [] = refl
  value_at-empty_tree now (k ∷ rest) = refl

module _ {T R S : Type 0} (options : Options T R) (storage : Storage S R) where
  parse_tree-ok :
      (buffer : Option R) (w : World S T)
      → Parses options buffer
      → (t : Tree R) × (parse_tree options storage buffer w ≡ (ok t, w))
        × ((now : ℕ) (rest : List Text) (v : T)
            → value_at now t rest ≡ some (options.serialize v)
            → HoldsTree options now rest v buffer)
  unfolding parse_tree
  parse_tree-ok none w parses = (
    empty_tree,
    refl,
    λ now rest v e. absurd (ground (arith, e, value_at-empty_tree options now rest)),
  )
  parse_tree-ok (some r) w parses = elim (Bool-cases (options.truthy r)) [
    | inr falsy ↦ (
      empty_tree,
      rw falsy refl,
      λ now rest v e. absurd (ground (arith, e, value_at-empty_tree options now rest)),
    )
    | inl full ↦
        let (t, read) = parses r refl full in
        (t, rw (full, read) refl, λ now rest v e. (r, t, refl, full, read, e))
  ]

module _ {T R S : Type 0} (options : Options T R) (storage : Storage S R)
    (lookup : S → Text → Option R) (reliable : IsReliable storage lookup) (codec : IsCodec options)
    (create_value : ChainedObject → Option T) (ttl : Option (StepTtl T)) (now : ℕ)
    (path : List Text) (given : Step T → Option T) (v : T) (z : options.is_null v ≡ false) where
  abbrev consumer : Consumer T
  consumer step = resume (given step)

  set_tree-holds :
      (above rest : List Text) (chained_key key : Text) (parent : Option ChainedObject)
      (w : World S T)
      → path ≡ above ++ rest
      → Gives given v (length path)
      → Parses options (lookup w.store chained_key)
      → (w' : World S T) × (set_tree options storage create_value ttl now path consumer
            (length above)
            chained_key
            key
            parent
            w
          ≡ (ok tt, w'))
        × HoldsTree options now rest v (lookup w'.store chained_key)
  unfolding set_tree
  set_tree-holds above rest chained_key key parent w e gives parses =
      let (t, parsed, holds) =
        parse_tree-ok options storage (lookup w.store chained_key) w parses in
      let counted : length path ≡ length above + length rest =
        omega (arith, ap length e, length-append above rest) in
      let (r, w₁, runs, same, leads) =
        set_tree_levels-runs options storage create_value ttl now path given above rest key parent t
          none w e in
      let (found, kept) = leads v codec z (λ k p x.
        ap (λ (m : ℕ). given (mount_step (chained k m p) x)) (sym counted) ∙ gives k p x) in
      let left : length path - length above ≡ length rest = omega (arith, counted) in
      let levels =
        ap
          (λ (m : ℕ).
            set_tree_levels options storage create_value ttl now path consumer m (length above) key
              parent t none w)
          left
        ∙ runs in
      elim (Bool-cases r.changed) [
        | inl changed ↦
            let (w', persists, held) =
              persist_tree-found options storage lookup reliable chained_key r.max_ttl r.tree w₁ in
            let (u, read, same_view) = codec.tree_read r.tree in
            (
              w',
              then-ok _ _ (reading-get storage lookup reliable chained_key w)
                  (then-ok _ _ parsed (then-ok _ _ levels (rw changed persists))),
              (
                options.serialize_tree r.tree,
                u,
                held,
                codec.tree_truthy r.tree,
                read,
                same_view now rest ∙ found,
              ),
            )
        | inr unchanged ↦ (
          w₁,
          then-ok _ _ (reading-get storage lookup reliable chained_key w)
              (then-ok _ _ parsed (then-ok _ _ levels (rw unchanged refl))),
          subst (HoldsTree options now rest v) (ap (λ (s : S). lookup s chained_key) (sym same))
              (holds now rest v (kept unchanged)),
        )
      ]

  -- The tree's key, read and written under its semaphore.
  pub set_locked_tree-holds :
      (min_level : ℕ) (above rest : List Text) (k : Text) (parent : Option ChainedObject)
      (w : World S T)
      → path ≡ above ++ k ∷ rest
      → HasHead above
      → Gives given v (length path)
      → Parses options (lookup w.store (join (above ++ k ∷ [])))
      → (w' : World S T) × (set_locked_tree options storage create_value ttl now path consumer
            min_level
            (join above)
            (reached above parent)
            w
          ≡ (ok tt, w'))
        × HoldsTree options now rest v (lookup w'.store (join (above ++ k ∷ [])))
  unfolding set_locked_tree
  set_locked_tree-holds min_level above rest k parent w e h gives parses =
      let chained_key = join (above ++ k ∷ []) in
      let counted : length (above ++ k ∷ []) ≡ suc (length above) =
        omega (arith, length-append above (k ∷ [])) in
      let (release, w₁, acquires, same) =
        acquire_if-ok (leb min_level (suc (length above))) chained_key w in
      let (w₂, sets, holds) =
        set_tree-holds (above ++ k ∷ []) rest chained_key k parent w₁
          (e ∙ sym (append_assoc above (k ∷ []) rest)) gives
          (subst (λ (s : S). Parses options (lookup s chained_key)) (sym same) parses) in
      (
        record w₂ { events = w₂.events ++ release_events release },
        then-ok _ _
            (ap (λ (x : Result (Text × Text)). (x, w))
              (ap (λ (p : List Text). get_chained_key p (length above) (some (join above))) e
                ∙ (get_chained_key-join above k rest h).0))
            (then-ok _ _ acquires (
              finally_release-ok release
                (set_tree options storage create_value ttl now path consumer (suc (length above))
                  chained_key k parent)
                w₁ w₂ tt
                (ap
                    (λ (m : ℕ).
                      set_tree options storage create_value ttl now path consumer m chained_key k
                        parent w₁)
                    (sym counted)
                  ∙ sets))),
        holds,
      )
