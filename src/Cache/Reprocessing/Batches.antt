-- ===== src/Cache/Reprocessing/Batches.antt =====
-- The batches that `reprocessAllKeyLevelChildren` (src/tree-key-cache.ts) yields.
use nodejs_proto_cache.Prelude.{
  ℕ, suc, ◌<◌, max, ◌≡◌, refl, sym, ◌∙◌, ap, inl, inr, Bool, Bool-cases, Option, none, some, List,
  [], ◌∷◌, ◌++◌, map, map-append, append_assoc, append-nil, arith, leb, if◌then◌else◌, length,
  length-append, All, All-append,
}
use mathlib.Core.Path.{subst}
use nodejs_proto_cache.Keys.{Text, split_key, Result, ok, throw}
use nodejs_proto_cache.Cache.Reprocessing.{
  Registered, Registry, Pass, going, broke, yield_all, register_one, register_path, register_keys,
  yield_last, clear_first, reprocess_all_key_level_children,
}
use nodejs_proto_cache.Cache.Reprocessing.Expected.{
  joined, joined-append, chained_above, path_registrations, registrations, registered_all,
  registered_all-snoc, length-map, all_of-ok, chained_above-snoc,
}

module _ {S : Type 0} (partition : ℕ) (register : Option Text → Text → S → Result S)
    (cleared : S) where
  -- The run has registered what is expected, in batches of the size, and some are pending.
  record Going (pass : Pass S) (expected : List Registered) : Type 0 where
    state : S
    pending : List Registered
    out : List (List Registered)
    made : registered_all register expected cleared ≡ ok state
    runs : pass ≡ going state (map ok pending) out
    whole : joined out ++ pending ≡ expected
    short : length pending < max 1 partition
    full : All (λ batch. length batch ≡ max 1 partition) out

  module _
      (registers : (prefix : Option Text) (k : Text) (s : S)
        → (s' : S) × (register prefix k s ≡ ok s')) where
    register_one-going :
        (prefix : Option Text) (k : Text) (s s' : S) (ps : List Registered)
        (out : List (List Registered))
        → register prefix k s ≡ ok s'
        → register_one register partition prefix k (going s (map ok ps) out) ≡ (
            if leb partition (length (map ok (ps ++ (prefix, k) ∷ [])))
            then yield_all s' (map ok (ps ++ (prefix, k) ∷ [])) out
            else going s' (map ok (ps ++ (prefix, k) ∷ [])) out)
    unfolding register_one
    register_one-going prefix k s s' ps out e =
        ap
          (λ (a : Result Registered × S).
            if leb partition (length (map ok ps ++ a.0 ∷ []))
            then yield_all a.1 (map ok ps ++ a.0 ∷ []) out
            else going a.1 (map ok ps ++ a.0 ∷ []) out)
          (ap (λ (x : Result S). elim x [ ok t ↦ (ok (prefix, k), t) | throw err ↦ (throw err, s) ])
            e)
        ∙ ap
            (λ (pending : List (Result Registered)).
              if leb partition (length pending)
              then yield_all s' pending out
              else going s' pending out)
            (sym (map-append ok ps ((prefix, k) ∷ [])))

    register_one-Going :
        (prefix : Option Text) (k : Text) (pass : Pass S) (expected : List Registered)
        → Going pass expected
        → Going (register_one register partition prefix k pass) (expected ++ (prefix, k) ∷ [])
    unfolding yield_all
    register_one-Going prefix k pass expected h =
        let (s', e) = registers prefix k h.state in
        let ps = h.pending ++ (prefix, k) ∷ [] in
        let step =
          ap (register_one register partition prefix k) h.runs
          ∙ register_one-going prefix k h.state s' h.pending h.out e in
        let long : length (map ok ps) ≡ suc (length h.pending) =
          length-map ok ps ∙ omega (arith, length-append h.pending ((prefix, k) ∷ [])) in
        let all : joined h.out ++ ps ≡ expected ++ (prefix, k) ∷ [] =
          sym (append_assoc (joined h.out) h.pending ((prefix, k) ∷ []))
          ∙ ap (λ (xs : List Registered). xs ++ (prefix, k) ∷ []) h.whole in
        let made = registered_all-snoc register expected prefix k cleared h.state s' h.made e in
        elim (Bool-cases (leb partition (length (map ok ps)))) [
          | inl enough ↦ record {
            state = s';
            made = made;
            pending = [];
            out = h.out ++ ps ∷ [];
            runs =
                step
                ∙ ap
                    (λ (b : Bool).
                      if b then yield_all s' (map ok ps) h.out else going s' (map ok ps) h.out)
                    enough
                ∙ rw (all_of-ok ps, yield_all) refl;
            whole =
                append-nil (joined (h.out ++ ps ∷ []))
                ∙ joined-append h.out (ps ∷ [])
                ∙ (unfold joined in rw append-nil all);
            short = omega arith;
            full =
                All-append _ h.out (ps ∷ []) h.full
                  (ground (arith, long, h.short, enough, length-map ok ps), tt);
          }
          | inr few ↦ record {
            state = s';
            made = made;
            pending = ps;
            out = h.out;
            runs =
                step
                ∙ ap
                    (λ (b : Bool).
                      if b then yield_all s' (map ok ps) h.out else going s' (map ok ps) h.out)
                    few;
            whole = all;
            short = ground (arith, long, few, length-map ok ps);
            full = h.full;
          }
        ]

    register_path-Going :
        (above path : List Text) (pass : Pass S) (expected : List Registered)
        → Going pass expected
        → Going
            (register_path register partition (chained_above above) above path pass)
            (expected ++ path_registrations above path)
    unfolding register_path path_registrations
    register_path-Going above [] pass expected h = subst (Going pass) (sym (append-nil expected)) h
    register_path-Going above (k ∷ path) pass expected h =
        let first = register_one-Going (chained_above above) k pass expected h in
        let rest =
          register_path-Going (above ++ k ∷ []) path
            (register_one register partition (chained_above above) k pass)
            (expected ++ (chained_above above, k) ∷ []) first in
        subst
          (λ (prefix : Option Text).
            Going
              (register_path register partition prefix (above ++ k ∷ []) path
                (register_one register partition (chained_above above) k pass))
              (expected ++ (chained_above above, k) ∷ path_registrations (above ++ k ∷ []) path))
          (chained_above-snoc above k)
          (subst (Going _)
            (append_assoc expected ((chained_above above, k) ∷ [])
              (path_registrations (above ++ k ∷ []) path))
            rest)

    register_keys-Going :
        (keys : List Text) (pass : Pass S) (expected : List Registered)
        → Going pass expected
        → Going (register_keys register partition keys pass) (expected ++ registrations keys)
    unfolding register_keys registrations
    register_keys-Going [] pass expected h = subst (Going pass) (sym (append-nil expected)) h
    register_keys-Going (key ∷ keys) pass expected h =
        subst (Going _)
          (append_assoc expected (path_registrations [] (split_key key)) (registrations keys))
          (register_keys-Going keys (register_path register partition none [] (split_key key) pass)
            (expected ++ path_registrations [] (split_key key))
            (register_path-Going [] (split_key key) pass expected h))

-- The last batch, if any promise is left.
abbrev pub last_batch : List Registered → List (List Registered)
last_batch [] = []
last_batch (r ∷ rs) = (r ∷ rs) ∷ []

joined-last_batch : (ps : List Registered) → joined (last_batch ps) ≡ ps
unfolding joined
joined-last_batch [] = refl
joined-last_batch (r ∷ rs) = append-nil (r ∷ rs)

yield_last-going :
    {S : Type 0} (s : S) (ps : List Registered) (out : List (List Registered))
    → yield_last (going s (map ok ps) out) ≡ going s [] (out ++ last_batch ps)
unfolding yield_last yield_all
yield_last-going s [] out = ap (going s []) (sym (append-nil out))
yield_last-going s (r ∷ rs) out =
    ap
      (λ (x : Result (List Registered)). elim x [
        | ok batch ↦ going s [] (out ++ batch ∷ [])
        | throw e ↦ broke e s out
      ])
      (all_of-ok (r ∷ rs))

-- For a storage that lists its keys and registers whatever it is asked to: the run ends with the
-- storage that results, from the cleared one, from registering every key of every path, each under
-- the chained key of the keys above it, in order; the batches that are yielded, put together, are
-- these registrations; every batch has `partition` of them, or one if that is 0, but for the last
-- one, which has what is left.
pub reprocess_all_key_level_children-registrations :
    {S : Type 0} (registry : Registry S) (partition : ℕ) (s cleared : S)
    (iterate : Option Text → S → Result (List Text)) (keys : List Text)
    (register : Option Text → Text → S → Result S)
    → registry.random_iterate ≡ some iterate
    → registry.register ≡ some register
    → clear_first registry.clear_all s ≡ ok cleared
    → iterate none cleared ≡ ok keys
    → ((prefix : Option Text) (k : Text) (t : S) → (t' : S) × (register prefix k t ≡ ok t'))
    → (end : S) × (batches : List (List Registered)) × (rest : List Registered)
      × (reprocess_all_key_level_children registry partition s
          ≡ going end [] (batches ++ last_batch rest))
      × (registered_all register (registrations keys) cleared ≡ ok end)
      × (joined (batches ++ last_batch rest) ≡ registrations keys)
      × All (λ batch. length batch ≡ max 1 partition) batches
      × (length rest < max 1 partition)
unfolding reprocess_all_key_level_children joined registered_all
reprocess_all_key_level_children-registrations registry partition s cleared iterate keys register it
      reg clear gives registers =
    let start : Going partition register cleared (going cleared [] []) [] = record {
      state = cleared;
      made = refl;
      pending = [];
      out = [];
      runs = refl;
      whole = refl;
      short = omega arith;
      full = tt;
    } in
    let h =
      register_keys-Going partition register cleared registers keys (going cleared [] []) []
        start in
    (
      h.state,
      h.out,
      h.pending,
      rw (it, reg, clear, gives, reprocess_all_key_level_children)
          (ap yield_last h.runs ∙ yield_last-going h.state h.pending h.out),
      h.made,
      joined-append h.out (last_batch h.pending)
          ∙ ap (λ (xs : List Registered). joined h.out ++ xs) (joined-last_batch h.pending)
          ∙ h.whole,
      h.full,
      h.short,
    )
