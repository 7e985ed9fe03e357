-- ===== src/Cache/Semaphore.antt =====
-- The acquisitions and releases of the semaphore in `deepTreeSet` (src/tree-key-cache.ts), on every
-- way out of the generator.
pub mod Balanced
pub mod Unlocked
use nodejs_proto_cache.Prelude.{
  ℕ, zero, suc, ◌+◌, ◌-◌, ◌≡◌, refl, sym, ◌∙◌, ap, true, false, Bool, Option, none, some, List, [],
  ◌∷◌, ◌++◌, arith, if◌then◌else◌, ltb, leb, min, length,
}
use nodejs_proto_cache.Keys.{
  Text, text_eq, ChainedObject, chained, Error, Result, ok, throw, stopped, truthy_text, get_key,
  get_chained_key,
}
use nodejs_proto_cache.Tree.{Tree, empty_tree, current_value, entries_of, get_entry}
use nodejs_proto_cache.Cache.{
  Options, Storage, Step, StepTtl, Event, acquired, released, value_error, tree_error, yielded,
  World, Consumer, Reply, resume, leave, M, pure, raise, ◌>>=◌, ◌>>◌, lift, emit, reading, writing,
  yield_step, acquire_if, release_events, finally_release,
}
use nodejs_proto_cache.Cache.Values.{
  deserialize_value, get_step, persist_step, persist_tree, tree_ttl, Enriched, is_undefined_or_null,
  differs, get_ttl,
}
use nodejs_proto_cache.Cache.DeepTreeSet.{
  Reached, next_ref, register_child, parse_tree, set_key_level, set_key_levels, set_last,
  set_tree_levels, set_tree, set_locked_tree, set_tree_part, deep_tree_set, set_node,
}

-- How often a key is acquired, and released, in a list of events.
unfoldable pub acquisitions : {T : Type 0} → Text → List (Event T) → ℕ
acquisitions k [] = 0
acquisitions k (acquired j ∷ events) =
    let rest = acquisitions k events in if text_eq k j then suc rest else rest
acquisitions k (released j ∷ events) = acquisitions k events
acquisitions k (value_error ∷ events) = acquisitions k events
acquisitions k (tree_error ∷ events) = acquisitions k events
acquisitions k (yielded step ∷ events) = acquisitions k events

unfoldable pub releases : {T : Type 0} → Text → List (Event T) → ℕ
releases k [] = 0
releases k (acquired j ∷ events) = releases k events
releases k (released j ∷ events) =
    let rest = releases k events in if text_eq k j then suc rest else rest
releases k (value_error ∷ events) = releases k events
releases k (tree_error ∷ events) = releases k events
releases k (yielded step ∷ events) = releases k events

pub acquisitions-append :
    {T : Type 0} (k : Text) (xs ys : List (Event T))
    → acquisitions k (xs ++ ys) ≡ acquisitions k xs + acquisitions k ys
unfolding acquisitions
acquisitions-append k [] ys = omega arith
acquisitions-append k (acquired j ∷ xs) ys = ground (arith, acquisitions-append k xs ys)
acquisitions-append k (released j ∷ xs) ys = acquisitions-append k xs ys
acquisitions-append k (value_error ∷ xs) ys = acquisitions-append k xs ys
acquisitions-append k (tree_error ∷ xs) ys = acquisitions-append k xs ys
acquisitions-append k (yielded step ∷ xs) ys = acquisitions-append k xs ys

releases-append :
    {T : Type 0} (k : Text) (xs ys : List (Event T))
    → releases k (xs ++ ys) ≡ releases k xs + releases k ys
unfolding releases
releases-append k [] ys = omega arith
releases-append k (acquired j ∷ xs) ys = releases-append k xs ys
releases-append k (released j ∷ xs) ys = ground (arith, releases-append k xs ys)
releases-append k (value_error ∷ xs) ys = releases-append k xs ys
releases-append k (tree_error ∷ xs) ys = releases-append k xs ys
releases-append k (yielded step ∷ xs) ys = releases-append k xs ys

acquisitions-release :
    (T : Type 0) (k : Text) (release : Option Text)
    → acquisitions {T = T} k (release_events release) ≡ 0
unfolding acquisitions
acquisitions-release T k none = refl
acquisitions-release T k (some key) = refl

module _ {S T : Type 0} (k : Text) where
  -- A run releases the key `n` times more than it acquires it.
  pub record Off {A : Type 0} (n : ℕ) (m : M S T A) : Type 0 where
    pub law :
        (w : World S T)
        → acquisitions k (m w).1.events + releases k w.events + n
          ≡ acquisitions k w.events + releases k (m w).1.events

  -- Whatever happens, the run goes on to another that balances.
  Off-after :
      {A B : Type 0} (f : A → M S T B) (n a b : ℕ) (p : Result A × World S T)
      → ((x : A) → Off 0 (f x))
      → acquisitions k p.1.events + b + n ≡ a + releases k p.1.events
      → let q : Result B × World S T = elim p.0 [ ok x ↦ f x p.1 | throw e ↦ (throw e, p.1) ] in
        acquisitions k q.1.events + b + n ≡ a + releases k q.1.events
  Off-after f n a b (ok x, w) rest h = omega (arith, h, (rest x).law w)
  Off-after f n a b (throw e, w) rest h = h

  pub Off-bind :
      {A B : Type 0} {m : M S T A} {f : A → M S T B} {n : ℕ}
      → Off n m
      → ((x : A) → Off 0 (f x))
      → Off n (m >>= f)
  unfolding ◌>>=◌
  Off-bind {m = m} {f = f} {n = n} first rest = record {
    law =
        λ w. Off-after f n (acquisitions k w.events) (releases k w.events) (m w) rest (first.law w);
  }

  pub Off-pure : {A : Type 0} {a : A} → Off 0 (pure a)
  Off-pure = record { law = λ w. omega arith }

  pub Off-lift : {A : Type 0} {r : Result A} → Off 0 (lift r)
  Off-lift = record { law = λ w. omega arith }

  pub Off-reading : {A : Type 0} (f : S → Result A) → Off 0 (reading f)
  Off-reading f = record { law = λ w. omega arith }

  pub Off-if :
      {A : Type 0} (b : Bool) {x y : M S T A} {n : ℕ}
      → Off n x
      → Off n y
      → Off n (if b then x else y)
  Off-if true hx hy = hx
  Off-if false hx hy = hy

  pub Off-option :
      {A B : Type 0} (o : Option B) {x : M S T A} {f : B → M S T A} {n : ℕ}
      → Off n x
      → ((b : B) → Off n (f b))
      → Off n (elim o [ none ↦ x | some b ↦ f b ])
  Off-option none hx hf = hx
  Off-option (some b) hx hf = hf b

  pub Off-writing : (f : S → Result S) → Off 0 (writing f)
  Off-writing f = record { law = λ w. written w (f w.store) }
    where
      written :
          (w : World S T) (r : Result S)
          → let q : Result (Unit {0}) × World S T = elim r [
            | ok s ↦ (ok tt, record w { store = s })
            | throw e ↦ (throw e, w)
          ] in
            acquisitions k q.1.events + releases k w.events + 0
            ≡ acquisitions k w.events + releases k q.1.events
      written w (ok s) = omega arith
      written w (throw e) = omega arith

  pub Off-emit :
      {e : Event T} → acquisitions k (e ∷ []) ≡ 0 → releases k (e ∷ []) ≡ 0 → Off 0 (emit e)
  Off-emit {e = e} a r = record {
    law = λ w.
        omega (
          arith,
          a,
          r,
          acquisitions-append k w.events (e ∷ []),
          releases-append k w.events (e ∷ []),
        );
  }

  pub Off-yield : (consumer : Consumer T) (step : Step T) → Off 0 (yield_step consumer step)
  unfolding yield_step acquisitions releases
  Off-yield consumer step = record { law = λ w. replied w (consumer step) }
    where
      replied :
          (w : World S T) (r : Reply T)
          → let w' : World S T = record w { events = w.events ++ yielded step ∷ [] } in
            let q : Result (Step T) × World S T = elim r [
              | resume v ↦ (ok (record step { value = v }), w')
              | leave ↦ (throw stopped, w')
            ] in
            acquisitions k q.1.events + releases k w.events + 0
            ≡ acquisitions k w.events + releases k q.1.events
      replied w (resume v) = omega (
        arith,
        acquisitions-append k w.events (yielded step ∷ []),
        releases-append k w.events (yielded step ∷ []),
      )
      replied w leave = omega (
        arith,
        acquisitions-append k w.events (yielded step ∷ []),
        releases-append k w.events (yielded step ∷ []),
      )

  -- `finally` releases what was acquired, however the body ends.
  pub Off-finally :
      {A : Type 0} (release : Option Text) {body : M S T A}
      → Off 0 body
      → Off (releases k (release_events {T = T} release)) (finally_release release body)
  unfolding finally_release
  Off-finally release {body = body} h = record {
    law = λ w. omega (
      arith,
      h.law w,
      acquisitions-append k (body w).1.events (release_events release),
      releases-append k (body w).1.events (release_events release),
      acquisitions-release T k release,
    );
  }

  -- An acquisition, and what follows with its release.
  pub Off-acquire :
      {B : Type 0} (b : Bool) (key : Text) {f : Option Text → M S T B}
      → ((release : Option Text) → Off (releases k (release_events {T = T} release)) (f release))
      → Off 0 (acquire_if b key >>= f)
  unfolding ◌>>=◌ acquire_if acquisitions releases
  Off-acquire true key rest = record {
    law = λ w.
        let w' : World S T = record w { events = w.events ++ acquired key ∷ [] } in
        ground (
          arith,
          (rest (some key)).law w',
          acquisitions-append k w.events (acquired key ∷ []),
          releases-append k w.events (acquired key ∷ []),
        );
  }
  Off-acquire false key rest = record { law = λ w. omega (arith, (rest none).law w) }
