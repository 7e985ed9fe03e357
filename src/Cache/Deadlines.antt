-- ===== src/Cache/Deadlines.antt =====
-- Times to live: `enrichTree` and `persistTree` of src/internal/tree-internal-control.ts, with
-- src/internal/get-ttl.ts.
use nodejs_proto_cache.Prelude.{
  ℕ, ◌+◌, ◌*◌, ◌≤◌, ◌≡◌, ◌≢◌, refl, ap, ◌∙◌, true, false, not, ◌==◌, Option, none, some, arith, ltb,
  if◌then◌else◌,
}
use nodejs_proto_cache.Keys.{Text, Result, ok}
use nodejs_proto_cache.Tree.{Tree, leaf, branch, deadline_of, with_value, current_value, expired}
use nodejs_proto_cache.Cache.{Options, Storage, Step, fixed, World, writing}
use nodejs_proto_cache.Cache.Values.{
  get_ttl, new_deadline, enrich_tree, differs, is_undefined_or_null, millisecond_scale, longer_ttl,
  tree_ttl, persist_tree,
}
use nodejs_proto_cache.Cache.Laws.{then-ok}

expired-fixed :
    (n now later : ℕ) (old : Option ℕ)
    → n ≢ 0
    → expired (new_deadline (some n) now old) later ≡ not (ltb later (now + n * millisecond_scale))
expired-fixed n now later none h = ground arith
expired-fixed n now later (some d) h = ground arith

module _ {R : Type 0} where
  current_value-written :
      (t : Tree R) (r : R) (d : Option ℕ) (later : ℕ)
      → current_value (with_value t (some r) d) later ≡ (if expired d later then none else some r)
  unfolding current_value
  current_value-written (leaf _ _) r d later = refl
  current_value-written (branch _ _ es) r d later = refl

-- A value that is neither null nor equal to the one that a node of a tree holds, set with a ttl of
-- `n` seconds, where `n` is not 0, is what the node holds at every time before `now + 1000 n`, and
-- at no time from then on.
pub enrich_tree-current_value :
    {T R : Type 0} (options : Options T R) (step : Step T) (v : T) (current : Option R)
    (tree : Tree R) (n now later : ℕ) (max_ttl : Option ℕ)
    → step.value ≡ some v
    → options.is_null v ≡ false
    → differs options current (options.serialize v) ≡ true
    → n ≢ 0
    → current_value (enrich_tree options step current tree (some (fixed n)) now max_ttl).tree later
      ≡ (if ltb later (now + n * 1000) then some (options.serialize v) else none)
unfolding enrich_tree get_ttl
enrich_tree-current_value options step v current tree n now later max_ttl e z new h =
    ap
      (λ (o : Option _).
        current_value
          (enrich_tree options (record step { value = o }) current tree (some (fixed n)) now
            max_ttl).tree
          later)
      e
    ∙ rw (z, is_undefined_or_null, new)
        (current_value-written tree (options.serialize v)
            (new_deadline (some n) now (deadline_of tree)) later
          ∙ ground (arith, expired-fixed n now later (deadline_of tree) h))

longer_ttl-ge :
    (current : Option ℕ) (n : ℕ)
    → (n ≤ longer_ttl current n) × ((c : ℕ) → current ≡ some c → c ≤ longer_ttl current n)
longer_ttl-ge none n = (omega arith, λ c e. absurd (ground (arith, e)))
longer_ttl-ge (some m) n = (omega arith, λ c e. ground (arith, e))

-- Given a ttl that is not 0, `persistTree` writes the tree with a ttl that is no shorter than it, and
-- no shorter than the one that the key has left; nothing else is written. The storage must tell the
-- key's current ttl.
pub persist_tree-longer_ttl :
    {T R S : Type 0} (options : Options T R) (storage : Storage S R) (k : Text) (n : ℕ) (t : Tree R)
    (current : Option ℕ) (w : World S T)
    → n ≢ 0
    → storage.get_current_ttl k w.store ≡ ok current
    → (m : ℕ) × (persist_tree options storage k (some n) t w
        ≡ writing (storage.set k (options.serialize_tree t) (some m)) w)
      × (n ≤ m)
      × ((c : ℕ) → current ≡ some c → c ≤ m)
unfolding persist_tree tree_ttl
persist_tree-longer_ttl options storage k n t current w h read =
    let (own, left) = longer_ttl-ge current n in
    let set_ttl : (n == 0) ≡ false = ground (arith, h) in
    (
      longer_ttl current n,
      then-ok _ _ (rw set_ttl (then-ok _ _ (ap (λ (x : Result (Option ℕ)). (x, w)) read) refl))
          refl,
      own,
      left,
    )
