-- ===== src/Cache/TreeLevels/Enriching.antt =====
-- What `enrichTree` (src/internal/tree-internal-control.ts) and the write of a child leave in a tree.
use nodejs_proto_cache.Prelude.{
  ℕ, ◌≡◌, refl, sym, ◌∙◌, ap, false, Bool, Option, none, some, List, ◌∷◌, arith, inl, inr,
  Bool-cases, if◌then◌else◌,
}
use mathlib.Core.Path.{subst}
use nodejs_proto_cache.Keys.{Text}
use nodejs_proto_cache.Tree.{
  Tree, Entries, leaf, branch, entries_of, deadline_of, with_value, with_children, get_entry,
  set_entry, current_value, expired,
}
use nodejs_proto_cache.Tree.Writes.{get_entry-set_entry, text_eq_refl}
use nodejs_proto_cache.Tree.Paths.{value_at}
use nodejs_proto_cache.Cache.{Options, Step, StepTtl}
use nodejs_proto_cache.Cache.Values.{
  get_ttl, new_deadline, Enriched, enrich_tree, differs, is_undefined_or_null,
}
use nodejs_proto_cache.Cache.DeepTreeSet.{found_or_new, is_new}
use nodejs_proto_cache.Cache.Laws.{IsCodec}
use nodejs_proto_cache.Cache.Persist.{differs-same}

-- A value written at `now` is not expired at `now`.
expired-new_deadline :
    (ttl : Option ℕ) (now : ℕ) (old : Option ℕ) → expired (new_deadline ttl now old) now ≡ false
expired-new_deadline none now none = refl
expired-new_deadline none now (some d) = ground arith
expired-new_deadline (some n) now none = ground arith
expired-new_deadline (some n) now (some d) = ground arith

module _ {R : Type 0} where
  pub current_value-with_value :
      (t : Tree R) (v : Option R) (d : Option ℕ) (now : ℕ)
      → expired d now ≡ false
      → current_value (with_value t v d) now ≡ v
  unfolding current_value
  current_value-with_value (leaf _ _) v d now e = rw e refl
  current_value-with_value (branch _ _ es) v d now e = rw e refl

  entries_of-with_value :
      (t : Tree R) (v : Option R) (d : Option ℕ) → entries_of (with_value t v d) ≡ entries_of t
  entries_of-with_value (leaf _ _) v d = refl
  entries_of-with_value (branch _ _ es) v d = refl

  pub value_at-found :
      (now : ℕ) (found : Option (Tree R)) (rest : List Text)
      → is_new found ≡ false
      → elim found [ none ↦ none | some u ↦ value_at now u rest ]
        ≡ value_at now (found_or_new found) rest
  value_at-found now none rest h = cc
  value_at-found now (some u) rest h = refl

  -- A path into the children reads what was written there.
  pub value_at-with_children :
      (now : ℕ) (t sub : Tree R) (es : Entries R) (k : Text) (rest : List Text)
      → value_at now (with_children t (set_entry es k sub)) (k ∷ rest) ≡ value_at now sub rest
  unfolding value_at
  value_at-with_children now t sub es k rest =
      ap (λ (o : Option (Tree R)). elim o [ none ↦ none | some u ↦ value_at now u rest ])
        (get_entry-set_entry k k sub es
          ∙ ap (λ (b : Bool). if b then some sub else get_entry es k) (text_eq_refl k))

module _ {T R : Type 0} (options : Options T R) where
  enrich_value-entries :
      (given : Option T) (step : Step T) (current : Option R) (tree : Tree R)
      (ttl : Option (StepTtl T)) (now : ℕ) (max_ttl : Option ℕ)
      → entries_of
          (enrich_tree options (record step { value = given }) current tree ttl now max_ttl).tree
        ≡ entries_of tree
  unfolding enrich_tree
  enrich_value-entries none step current tree ttl now max_ttl = refl
  enrich_value-entries (some v) step current tree ttl now max_ttl =
      elim (Bool-cases (options.is_null v)) [
        | inl e ↦ rw (e, is_undefined_or_null) refl
        | inr e ↦ elim (Bool-cases (differs options current (options.serialize v))) [
          | inl new ↦ rw (e, is_undefined_or_null, new) (entries_of-with_value tree _ _)
          | inr same ↦ rw (e, is_undefined_or_null, same) refl
        ]
      ]

  -- `enrichTree` leaves the children alone.
  pub enrich_tree-entries :
      (step : Step T) (current : Option R) (tree : Tree R) (ttl : Option (StepTtl T)) (now : ℕ)
      (max_ttl : Option ℕ)
      → entries_of (enrich_tree options step current tree ttl now max_ttl).tree ≡ entries_of tree
  enrich_tree-entries step current tree ttl now max_ttl =
      enrich_value-entries step.value step current tree ttl now max_ttl

  -- Afterwards the node has the value of the step, and it had it before if nothing was changed.
  enrich_value-found :
      (codec : IsCodec options) (v : T) (step : Step T) (tree : Tree R) (ttl : Option (StepTtl T))
      (now : ℕ) (max_ttl : Option ℕ)
      → options.is_null v ≡ false
      → let e : Enriched R =
          enrich_tree options
            (record step { value = some v })
            (current_value tree now)
            tree
            ttl
            now
            max_ttl in
        (current_value e.tree now ≡ some (options.serialize v))
        × (e.changed ≡ false → current_value tree now ≡ some (options.serialize v))
  unfolding enrich_tree get_ttl
  enrich_value-found codec v step tree ttl now max_ttl e =
      elim (Bool-cases (differs options (current_value tree now) (options.serialize v))) [
        | inl new ↦
            let own_ttl = (get_ttl ttl (record step { value = some v }) max_ttl).0 in
            let deadline = new_deadline own_ttl now (deadline_of tree) in
            rw (e, is_undefined_or_null, new)
              (
                current_value-with_value tree (some (options.serialize v)) deadline now
                    (expired-new_deadline own_ttl now (deadline_of tree)),
                λ h. absurd (ground (arith, h)),
              )
        | inr same ↦
            let held =
              differs-same options codec (current_value tree now) (options.serialize v) same in
            rw (e, is_undefined_or_null, same) (held, λ h. held)
      ]

  pub enrich_tree-found :
      (codec : IsCodec options) (v : T) (step : Step T) (tree : Tree R) (ttl : Option (StepTtl T))
      (now : ℕ) (max_ttl : Option ℕ)
      → options.is_null v ≡ false
      → step.value ≡ some v
      → let e : Enriched R =
          enrich_tree options step (current_value tree now) tree ttl now max_ttl in
        (current_value e.tree now ≡ some (options.serialize v))
        × (e.changed ≡ false → current_value tree now ≡ some (options.serialize v))
  enrich_tree-found codec v step tree ttl now max_ttl z given =
      let result = λ (o : Option T).
        enrich_tree options (record step { value = o }) (current_value tree now) tree ttl now
          max_ttl in
      subst
        (λ (o : Option T).
          (current_value (result o).tree now ≡ some (options.serialize v))
          × ((result o).changed ≡ false → current_value tree now ≡ some (options.serialize v)))
        (sym given) (enrich_value-found codec v step tree ttl now max_ttl z)
