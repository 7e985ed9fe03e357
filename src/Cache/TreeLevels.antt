-- ===== src/Cache/TreeLevels.antt =====
-- The second loop of `deepTreeSet` (src/tree-key-cache.ts), over the levels that a tree holds, run by
-- a consumer that never leaves it.
pub mod Enriching
use nodejs_proto_cache.Prelude.{
  ℕ, suc, ◌+◌, ◌≡◌, refl, sym, ◌∙◌, ap, false, Bool, ◌||◌, Option, none, some, List, [], ◌∷◌, ◌++◌,
  append_assoc, arith, inl, inr, Bool-cases, length, length-append, if◌then◌else◌,
}
use mathlib.Core.Path.{subst}
use nodejs_proto_cache.Keys.{Text, ChainedObject, chained, get_key, Result, ok}
use nodejs_proto_cache.Keys.Chain.{get_elem?-length}
use nodejs_proto_cache.Tree.{
  Tree, Entries, leaf, branch, entries_of, deadline_of, with_value, with_children, get_entry,
  set_entry, current_value, expired,
}
use nodejs_proto_cache.Tree.Writes.{get_entry-set_entry, text_eq_refl}
use nodejs_proto_cache.Tree.Paths.{value_at}
use nodejs_proto_cache.Graphs.{create_traversal_item}
use nodejs_proto_cache.Cache.{
  Options, Storage, Step, StepTtl, World, Consumer, resume, yield_step, yielded,
}
use nodejs_proto_cache.Cache.Values.{
  mount_step, get_ttl, new_deadline, Enriched, enrich_tree, differs, is_undefined_or_null,
}
use nodejs_proto_cache.Cache.DeepTreeSet.{
  found_or_new, is_new, step_ttl_of, set_last, set_tree_levels,
}
use nodejs_proto_cache.Cache.Laws.{IsCodec, then-ok}
use nodejs_proto_cache.Cache.Persist.{get_step-mount_step, differs-same}
use nodejs_proto_cache.Cache.TreeLevels.Enriching.{
  value_at-found, value_at-with_children, enrich_tree-entries, enrich_tree-found,
}

module _ {T R S : Type 0} (options : Options T R) (storage : Storage S R)
    (create_value : ChainedObject → Option T) (ttl : Option (StepTtl T)) (now : ℕ)
    (path : List Text) (given : Step T → Option T) where
  abbrev consumer : Consumer T
  consumer step = resume (given step)

  -- The subtree leads to the value at the path, and it did before if nothing was changed.
  abbrev pub Leads : List Text → T → Tree R → Enriched R → Type 0
  Leads rest v tree e =
      (value_at now e.tree rest ≡ some (options.serialize v))
      × (e.changed ≡ false → value_at now tree rest ≡ some (options.serialize v))

  set_last-runs :
      (own : ChainedObject) (tree : Tree R) (max_ttl : Option ℕ) (w : World S T)
      → (e : Enriched R) × (w' : World S T) × (set_last options storage create_value ttl now path
            consumer own tree max_ttl w
          ≡ (ok e, w'))
        × (w'.store ≡ w.store)
        × ((v : T)
            → IsCodec options
            → options.is_null v ≡ false
            → ((x : Option T) → given (mount_step own x) ≡ some v)
            → Leads [] v tree e)
  unfolding set_last yield_step value_at get_ttl
  set_last-runs own tree max_ttl w =
      let current = current_value tree now in
      let (v, w₁, gets, same) = get_step-mount_step options current own create_value w in
      let step : Step T = mount_step own v in
      let w₂ : World S T = record w₁ { events = w₁.events ++ yielded step ∷ [] } in
      let kept : Step T = record step { value = given step } in
      let (own_ttl, max_ttl') = get_ttl ttl kept max_ttl in
      (
        enrich_tree options kept current tree (step_ttl_of own_ttl) now max_ttl',
        w₂,
        then-ok _ _ gets (then-ok _ _ refl refl),
        same,
        λ u codec z gives.
            enrich_tree-found options codec u kept tree (step_ttl_of own_ttl) now max_ttl' z
              (gives v),
      )

  -- The rounds of the loop end with the tree enriched along the path, and leave the storage alone.
  pub set_tree_levels-runs :
      (above rest : List Text) (key : Text) (parent : Option ChainedObject) (tree : Tree R)
      (max_ttl : Option ℕ) (w : World S T)
      → path ≡ above ++ rest
      → (e : Enriched R) × (w' : World S T) × (set_tree_levels options storage create_value ttl now
            path consumer
            (length rest)
            (length above)
            key
            parent
            tree
            max_ttl
            w
          ≡ (ok e, w'))
        × (w'.store ≡ w.store)
        × ((v : T)
            → IsCodec options
            → options.is_null v ≡ false
            → ((k : Text) (p : Option ChainedObject) (x : Option T)
                → given (mount_step (chained k (length above + length rest) p) x) ≡ some v)
            → Leads rest v tree e)
  unfolding set_tree_levels yield_step get_key create_traversal_item value_at
  set_tree_levels-runs above [] key parent tree max_ttl w e =
      let (r, w', runs, same, leads) =
        set_last-runs (chained key (length above) parent) tree max_ttl w in
      (
        r,
        w',
        runs,
        same,
        λ v codec z gives. leads v codec z (λ x.
            ap (λ (m : ℕ). given (mount_step (chained key m parent) x)) (omega arith)
            ∙ gives key parent x),
      )
  set_tree_levels-runs above (k ∷ rest) key parent tree max_ttl w e =
      let own = chained key (length above) parent in
      let current = current_value tree now in
      let (v, w₁, gets, same₁) = get_step-mount_step options current own create_value w in
      let step : Step T = mount_step own v in
      let w₂ : World S T = record w₁ { events = w₁.events ++ yielded step ∷ [] } in
      let kept : Step T = record step { value = given step } in
      let enriched = enrich_tree options kept current tree none now max_ttl in
      let found = get_entry (entries_of enriched.tree) k in
      let counted : suc (length above) ≡ length (above ++ k ∷ []) =
        omega (arith, length-append above (k ∷ [])) in
      let (r, w', runs, same, leads) =
        set_tree_levels-runs (above ++ k ∷ []) rest k (some own) (found_or_new found)
          enriched.max_ttl w₂ (e ∙ sym (append_assoc above (k ∷ []) rest)) in
      let keyed : get_key path (length above) ≡ ok k =
        ap (λ (p : List Text). get_key p (length above)) e
        ∙ rw (get_elem?-length above k rest, get_key) refl in
      (
        record {
          tree = with_children enriched.tree (set_entry (entries_of enriched.tree) k r.tree);
          changed = enriched.changed || is_new found || r.changed;
          max_ttl = r.max_ttl;
        },
        w',
        then-ok _ _ gets (
            then-ok _ _ refl (
              then-ok _ _ (ap (λ (x : Result Text). (x, w₂)) keyed) (
                then-ok _ _
                  (ap
                      (λ (m : ℕ).
                        set_tree_levels options storage create_value ttl now path consumer
                          (length rest) m k (some own) (found_or_new found) enriched.max_ttl w₂)
                      counted
                    ∙ runs)
                  refl))),
        same ∙ same₁,
        λ u codec z gives.
            let (now_leads, led) = leads u codec z (λ a p x.
              ap (λ (m : ℕ). given (mount_step (chained a m p) x)) (omega (arith, counted))
              ∙ gives a p x) in
            (
              value_at-with_children now enriched.tree r.tree (entries_of enriched.tree) k rest
                  ∙ now_leads,
              λ h.
                  ap
                    (λ (es : Entries R). elim (get_entry es k) [
                      | none ↦ none
                      | some t ↦ value_at now t rest
                    ])
                    (sym (enrich_tree-entries options kept current tree none now max_ttl))
                  ∙ value_at-found now found rest (ground (arith, h))
                  ∙ led (ground (arith, h)),
            ),
      )
