-- ===== src/Cache/Searches/Steps.antt =====
-- The steps that a search of the cache yields (`getTraversalStepsIterable` of
-- src/internal/tree-internal-control.ts).
use nodejs_proto_cache.Prelude.{
  ℕ, ◌≡◌, refl, sym, ◌∙◌, ap, inl, inr, Option, none, some, Option-cases, List, [], ◌∷◌, ◌++◌,
  append_assoc, append-nil,
}
use nodejs_proto_cache.Keys.{ChainedObject, ok}
use nodejs_proto_cache.Graphs.{done}
use nodejs_proto_cache.Cache.{
  Options, Storage, Step, Consumer, resume, World, Event, value_error, yielded, ◌>>=◌, yield_step,
}
use nodejs_proto_cache.Cache.Values.{get_step, deserialize_value, mount_step}
use nodejs_proto_cache.Cache.Laws.{then-ok}
use nodejs_proto_cache.Cache.Searches.{
  GetChildren, Search, Found, get_traversal_iterable, give_steps, give_run, get_traversal_steps,
}

-- The consumer takes every step.
abbrev pub Patient : {T : Type 0} → Consumer T → Type 0
Patient {T} consumer = (step : Step T) → (v : Option T) × (consumer step ≡ resume v)

module _ {T R : Type 0} (options : Options T R) where
  -- The value that a serialized value is read as, and the error that is emitted if it cannot be.
  abbrev pub read_value : Option R → Option T
  read_value none = none
  read_value (some r) = options.deserialize r

  abbrev pub errors_if : Option T → List (Event T)
  errors_if none = value_error ∷ []
  errors_if (some v) = []

  abbrev pub read_errors : Option R → List (Event T)
  read_errors none = []
  read_errors (some r) = errors_if (options.deserialize r)

  -- The events of the items that are found: one step for each, with its value.
  unfoldable pub step_events : List (Found R) → List (Event T)
  step_events [] = []
  step_events ((own, value) ∷ items) =
      (read_errors value ++ yielded (mount_step own (read_value value)) ∷ []) ++ step_events items

-- The world after more events.
abbrev pub with_events : {S T : Type 0} → World S T → List (Event T) → World S T
with_events w more = record w { events = w.events ++ more }

module _ {T R S : Type 0} (options : Options T R) where
  deserialize_value-failed :
      (r : R) (w : World S T)
      → options.deserialize r ≡ none
      → deserialize_value options r w ≡ (ok none, with_events w (value_error ∷ []))
  unfolding deserialize_value ◌>>=◌
  deserialize_value-failed r w failed = rw (failed, deserialize_value) refl

  deserialize_value-read :
      (r : R) (v : T) (w : World S T)
      → options.deserialize r ≡ some v
      → deserialize_value options r w ≡ (ok (some v), w)
  unfolding deserialize_value
  deserialize_value-read r v w read = rw (read, deserialize_value) refl

  get_step-read :
      (value : Option R) (own : ChainedObject) (w : World S T)
      → get_step options value own (λ _. none) w ≡ (
        ok (mount_step own (read_value options value)),
        with_events w (read_errors options value),
      )
  unfolding get_step
  get_step-read none own w =
      ap (λ (es : List (Event T)). (ok (mount_step own none), record w { events = es }))
        (sym (append-nil w.events))
  get_step-read (some r) own w = elim (Option-cases (options.deserialize r)) [
    | inl failed ↦ then-ok _ _ (deserialize_value-failed r w failed) (rw failed refl)
    | inr (v, read) ↦ then-ok _ _ (deserialize_value-read r v w read) (
        rw read (
          ap (λ (es : List (Event T)). (ok (mount_step own (some v)), record w { events = es }))
            (sym (append-nil w.events))))
  ]

  module _ (consumer : Consumer T) (patient : Patient consumer) where
    yield_step-patient :
        (step : Step T) (w : World S T)
        → (v : Option T) × (yield_step consumer step w
            ≡ (ok (record step { value = v }), with_events w (yielded step ∷ [])))
    unfolding yield_step
    yield_step-patient step w = let (v, e) = patient step in (v, rw (e, yield_step) refl)

    give_steps-events :
        (items : List (Found R)) (w : World S T)
        → give_steps options consumer items w ≡ (ok tt, with_events w (step_events options items))
    unfolding give_steps step_events
    give_steps-events [] w =
        ap (λ (es : List (Event T)). (ok tt, record w { events = es })) (sym (append-nil w.events))
    give_steps-events ((own, value) ∷ items) w =
        let step = mount_step own (read_value options value) in
        let errors = read_errors options value in
        let rest = step_events options items in
        let (v, gives) = yield_step-patient step (with_events w errors) in
        then-ok _ _ (get_step-read value own w) (
          then-ok _ _ gives (
            give_steps-events items (with_events (with_events w errors) (yielded step ∷ []))
            ∙ ap (λ (es : List (Event T)). (ok tt, record w { events = es }))
                (ap (λ (es : List (Event T)). es ++ rest)
                    (append_assoc w.events errors (yielded step ∷ []))
                  ∙ append_assoc w.events (errors ++ yielded step ∷ []) rest)))

    module _ (storage : Storage S R) (get_children : GetChildren S) where
      -- For a consumer that takes every step: a search from the root that ends yields, for the
      -- items that its traversal finds and in their order, one step each, with the value that the
      -- item's serialized value is read as, and `undefined` after an error event where it cannot be
      -- read; the storage stays as it is.
      pub get_traversal_steps-events :
          (traversal : Search R) (now : ℕ) (w : World S T) (items : List (Found R))
          → get_traversal_iterable options storage get_children traversal none w.store ≡ done items
          → get_traversal_steps options storage get_children consumer traversal none now w
            ≡ (ok tt, with_events w (step_events options items))
      unfolding get_traversal_steps give_run
      get_traversal_steps-events traversal now w items runs =
          ap (λ r. give_run options consumer r w) runs ∙ give_steps-events items w
