-- ===== src/Cache/KeyLevels.antt =====
-- The first loop of `deepTreeSet` (src/tree-key-cache.ts), over the levels that have a key of their
-- own, run by a consumer that never leaves it, on a storage that answers.
use nodejs_proto_cache.Prelude.{
  ◌+◌, ℕ, zero, suc, ◌≤◌, ◌<◌, ◌≡◌, ◌≢◌, refl, sym, ◌∙◌, ap, true, false, Bool, Option, none, some,
  List, [], ◌∷◌, ◌++◌, append_assoc, append-nil, arith, inl, inr, Option-cases, length,
  length-append, take, leb,
}
use nodejs_proto_cache.Keys.{Text, ChainedObject, colon, chained, join, get_chained_key, Result, ok}
use nodejs_proto_cache.Keys.Chain.{HasHead, get_chained_key-join, join-snoc}
use nodejs_proto_cache.Cache.{
  Options, Storage, Step, StepTtl, World, Consumer, resume, M, yield_step, yielded, acquire_if,
  finally_release, release_events,
}
use nodejs_proto_cache.Cache.Values.{mount_step}
use nodejs_proto_cache.Cache.DeepTreeSet.{Reached, register_child, set_key_level, set_key_levels}
use nodejs_proto_cache.Cache.Laws.{IsCodec, IsReliable, reading-get, writing-ok, then-ok}
use nodejs_proto_cache.Cache.Persist.{get_step-mount_step, persist_step-runs}

-- The chain of nodes and the chained key of a path of keys.
unfoldable pub chain_below : Option ChainedObject → ℕ → List Text → Option ChainedObject
chain_below parent level [] = parent
chain_below parent level (k ∷ ks) = chain_below (some (chained k (suc level) parent)) (suc level) ks

abbrev pub joined : List Text → Option Text
joined [] = none
joined (k ∷ ks) = some (join (k ∷ ks))

-- Where the loop stands after the levels of a path.
abbrev pub reached : List Text → Option ChainedObject → Reached
reached path own = record { level = length path; chained_key = joined path; node_ref = own }

pub get_chained_key-joined :
    (path : List Text) (k : Text) (rest : List Text)
    → HasHead (path ++ k ∷ rest)
    → get_chained_key (path ++ k ∷ rest) (length path) (joined path) ≡ ok (join (path ++ k ∷ []), k)
unfolding get_chained_key
get_chained_key-joined [] k rest h = unfold join in refl
get_chained_key-joined (a ∷ path) k rest h = (get_chained_key-join (a ∷ path) k rest h).0

pub joined-snoc :
    (path : List Text) (k : Text) → joined (path ++ k ∷ []) ≡ some (join (path ++ k ∷ []))
joined-snoc [] k = refl
joined-snoc (a ∷ path) k = refl

-- A round adds a level to where the loop stands.
reached-snoc :
    (path : List Text) (k : Text) (own : Option ChainedObject)
    → record {
      level = suc (length path);
      chained_key = some (join (path ++ k ∷ []));
      node_ref = own;
    }
      ≡ reached (path ++ k ∷ []) own
reached-snoc path k own =
    λ i. record { level = level_path i; chained_key = sym (joined-snoc path k) i; node_ref = own }
  where
    level_path : suc (length path) ≡ length (path ++ k ∷ [])
    level_path = omega (arith, length-append path (k ∷ []))

-- Longer paths have longer keys.
pub join-grows :
    (path : List Text) (k : Text) → path ≢ [] → length (join path) < length (join (path ++ k ∷ []))
join-grows path k h = rw (join-snoc path k h) (omega (arith, length-append (join path) (colon ∷ k)))

snoc-inhabited : (path : List Text) (k : Text) → path ++ k ∷ [] ≢ []
snoc-inhabited [] k = cc
snoc-inhabited (a ∷ path) k = cc

join_mono : (path more : List Text) → path ≢ [] → length (join path) ≤ length (join (path ++ more))
join_mono path [] h = rw append-nil (omega arith)
join_mono path (k ∷ more) h = omega (
  arith,
  join-grows path k h,
  rw append_assoc at (join_mono (path ++ k ∷ []) more (snoc-inhabited path k)),
)

module _ {S T : Type 0} where
  pub acquire_if-ok :
      (b : Bool) (k : Text) (w : World S T)
      → (release : Option Text) × (w' : World S T) × (acquire_if b k w ≡ (ok release, w'))
        × (w'.store ≡ w.store)
  unfolding acquire_if
  acquire_if-ok true k w = (some k, _, refl, refl)
  acquire_if-ok false k w = (none, w, refl, refl)

  pub finally_release-ok :
      {A : Type 0} (release : Option Text) (body : M S T A) (w w' : World S T) (a : A)
      → body w ≡ (ok a, w')
      → finally_release release body w
        ≡ (ok a, record w' { events = w'.events ++ release_events release })
  unfolding finally_release
  finally_release-ok release body w w' a e =
      ap
        (λ (p : Result _ × World S T).
          (p.0, record p.1 { events = p.1.events ++ release_events release }))
        e

module _ {T R S : Type 0} (options : Options T R) (storage : Storage S R)
    (lookup : S → Text → Option R) (reliable : IsReliable storage lookup)
    (create_value : ChainedObject → Option T) (ttl : Option (StepTtl T)) (now : ℕ)
    (path : List Text) (given : Step T → Option T) where
  abbrev consumer : Consumer T
  consumer step = resume (given step)

  -- One level ends, writes to no other key, and leaves the value that the consumer gives.
  set_key_level-runs :
      (k : Text) (own : ChainedObject) (w : World S T)
      → (w' : World S T) × (set_key_level options storage create_value ttl now path consumer k own w
          ≡ (ok tt, w'))
        × ((j : Text) → j ≢ k → lookup w'.store j ≡ lookup w.store j)
        × ((v : T)
            → IsCodec options
            → options.is_null v ≡ false
            → ((x : Option T) → given (mount_step own x) ≡ some v)
            → lookup w'.store k ≡ some (options.serialize v))
  unfolding set_key_level yield_step
  set_key_level-runs k own w =
      let (v, w₁, gets, same) = get_step-mount_step options (lookup w.store k) own create_value w in
      let step = mount_step own v in
      let w₂ : World S T = record w₁ { events = w₁.events ++ yielded step ∷ [] } in
      let kept = λ (j : Text). ap (λ (s : S). lookup s j) same in
      let (w₃, runs, others, holds) =
        persist_step-runs options storage lookup reliable (record step { value = given step })
          (lookup w.store k) k ttl w₂ in
      (
        w₃,
        then-ok _ _ (reading-get storage lookup reliable k w)
            (then-ok _ _ gets (then-ok _ _ refl runs)),
        λ j n. others j n ∙ kept j,
        λ u codec z gives. holds u codec (gives v) z (kept k),
      )

  register_child-ok :
      (parent : Option Text) (k : Text) (w : World S T)
      → (w' : World S T) × (register_child options storage parent k w ≡ (ok tt, w'))
        × ((j : Text) → lookup w'.store j ≡ lookup w.store j)
  register_child-ok parent k w = elim (Option-cases storage.register_child) [
    | inl e ↦ (w, rw e refl, λ j. refl)
    | inr (register, e) ↦
        let (s, runs, same) = reliable.register_lem register parent k w.store e in
        (record w { store = s }, rw e (writing-ok (register parent k) w s runs), same)
  ]

  -- The rounds of the loop end where they should, and write only to the keys of the levels that
  -- they pass, which are no longer than the last of them.
  pub set_key_levels-reached :
      (n min_level : ℕ) (above rest : List Text) (parent : Option ChainedObject) (w : World S T)
      → path ≡ above ++ rest
      → HasHead path
      → n ≤ length rest
      → (w' : World S T) × (set_key_levels options storage create_value ttl now path consumer n
            min_level
            (reached above parent)
            w
          ≡ (
            ok (reached (above ++ take n rest) (chain_below parent (length above) (take n rest))),
            w',
          ))
        × ((j : Text)
            → length (join (above ++ take n rest)) < length j
            → lookup w'.store j ≡ lookup w.store j)
        × ((v : T)
            → IsCodec options
            → options.is_null v ≡ false
            → ((k : Text) (p : Option ChainedObject) (x : Option T)
                → given (mount_step (chained k (length above + n) p) x) ≡ some v)
            → (n ≡ 0 → lookup w.store (join above) ≡ some (options.serialize v))
            → lookup w'.store (join (above ++ take n rest)) ≡ some (options.serialize v))
  unfolding set_key_levels chain_below
  set_key_levels-reached zero min_level above rest parent w e h low =
      (w, rw append-nil refl, λ j longer. refl, λ v codec z gives held. rw append-nil (held refl))
  set_key_levels-reached (suc n) min_level above [] parent w e h low = absurd (omega arith)
  set_key_levels-reached (suc n) min_level above (k ∷ rest) parent w e h low =
      let key = join (above ++ k ∷ []) in
      let own = chained k (suc (length above)) parent in
      let assoc = append_assoc above (k ∷ []) (take n rest) in
      let counted : length (above ++ k ∷ []) ≡ suc (length above) =
        omega (arith, length-append above (k ∷ [])) in
      let shorter = ap (λ (p : List Text). length (join p)) assoc in
      let (w₁, registers, same₁) = register_child-ok (joined above) k w in
      let (release, w₂, acquires, same₂) = acquire_if-ok (leb min_level (length above)) key w₁ in
      let (w₃, sets, same₃, found) = set_key_level-runs key own w₂ in
      let w₄ : World S T = record w₃ { events = w₃.events ++ release_events release } in
      let (w', runs, same, held) =
        set_key_levels-reached n min_level (above ++ k ∷ []) rest (some own) w₄
          (e ∙ sym (append_assoc above (k ∷ []) rest)) h (omega arith) in
      (
        w',
        then-ok _ _
            (ap (λ (x : Result (Text × Text)). (x, w))
              (ap (λ (p : List Text). get_chained_key p (length above) (joined above)) e
                ∙ get_chained_key-joined above k rest (rw e at h)))
            (then-ok _ _ registers (
              then-ok _ _ acquires (
                then-ok _ _
                  (finally_release-ok release
                    (set_key_level options storage create_value ttl now path consumer key own) w₂ w₃
                    tt sets)
                  (ap
                      (λ (r : Reached).
                        set_key_levels options storage create_value ttl now path consumer n
                          min_level r w₄)
                      (reached-snoc above k (some own))
                    ∙ runs
                    ∙ λ i. (
                      ok (reached (assoc i) (chain_below (some own) (counted i) (take n rest))),
                      w',
                    ))))),
        λ j longer.
            same j (omega (arith, longer, shorter))
            ∙ same₃ j (λ q. omega (
              arith,
              longer,
              shorter,
              ap length q,
              join_mono (above ++ k ∷ []) (take n rest) (snoc-inhabited above k),
            ))
            ∙ ap (λ (s : S). lookup s j) same₂
            ∙ same₁ j,
        λ v codec z gives _.
            ap (λ (p : List Text). lookup w'.store (join p)) (sym assoc)
            ∙ held v codec z
                (λ (a : Text) (p : Option ChainedObject) (x : Option T).
                  ap (λ (m : ℕ). given (mount_step (chained a m p) x)) (omega (arith, counted))
                  ∙ gives a p x)
                (λ none_left. found v codec z (λ x.
                  ap (λ (m : ℕ). given (mount_step (chained k m parent) x)) (omega arith)
                  ∙ gives k parent x)),
      )
