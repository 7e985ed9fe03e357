-- ===== src/Cache/Setting/Untouched.antt =====
-- A key of the storage next to the effects of `deepTreeSet` (src/tree-key-cache.ts), and the keys
-- that its loops go through.
use nodejs_proto_cache.Prelude.{
  ℕ, zero, suc, ◌≤◌, get_elem?, ◌≡◌, ◌≢◌, refl, sym, ◌∙◌, ap, true, false, Bool, Option, none, some,
  List, [], ◌∷◌, ◌++◌, append_assoc, append-nil, arith, length, inl, inr, Option-cases,
}
use mathlib.Core.Path.{subst}
use nodejs_proto_cache.Keys.{
  Text, Result, ok, throw, join, get_chained_key, get_key, extend_key, undefined_key, ◌>>=◌,
}
use nodejs_proto_cache.Keys.Chain.{HasHead, get_elem?-ge}
use nodejs_proto_cache.Cache.{Options, Storage, World, M, writing, acquire_if, finally_release}
use nodejs_proto_cache.Cache.Laws.{IsReliable, writing-ok}
use nodejs_proto_cache.Cache.KeyLevels.{joined, get_chained_key-joined}
use nodejs_proto_cache.Cache.Keeps.{Keeps}

-- A key that a round gives: that of the path of the levels above and one more.
abbrev pub NextKey : List Text → List Text → Text × Text → Type 0
NextKey path front keys =
    (k : Text) × (rest : List Text) × (path ≡ (front ++ k ∷ []) ++ rest)
    × (keys.0 ≡ join (front ++ k ∷ []))

key_of_result : Text → Result (Text × Text) → Text
key_of_result key (ok keys) = keys.0
key_of_result key (throw e) = key

-- From a number of keys on, the paths have the same keys.
abbrev pub SameFrom : ℕ → List Text → List Text → Type 0
SameFrom from path whole = (n : ℕ) → from ≤ n → get_elem? path n ≡ get_elem? whole n

-- From there on, they have the same chained keys.
pub get_chained_key-SameFrom :
    (from n : ℕ) (path whole : List Text) (chained_key : Option Text)
    → SameFrom from path whole
    → from ≤ n
    → get_chained_key path n chained_key ≡ get_chained_key whole n chained_key
unfolding get_chained_key get_key
get_chained_key-SameFrom from n path whole chained_key same le =
    ap
      (λ (o : Option Text). elim o [ none ↦ throw (undefined_key n) | some k ↦ ok k ] >>= λ key.
        ok (extend_key chained_key key, key))
      (same n le)

-- The keys that `deepTreeSet` goes through: the previous ones in place of the first ones of the path.
unfoldable pub written_path : List Text → List Text → List Text
written_path [] path = path
written_path (p ∷ previous) [] = p ∷ previous
written_path (p ∷ previous) (k ∷ path) = p ∷ written_path previous path

pub written_path-SameFrom :
    (previous path : List Text) → SameFrom (length previous) path (written_path previous path)
unfolding written_path
written_path-SameFrom [] path n le = refl
written_path-SameFrom (p ∷ previous) [] zero le = absurd (omega arith)
written_path-SameFrom (p ∷ previous) [] (suc n) le = sym (get_elem?-ge previous n (omega arith))
written_path-SameFrom (p ∷ previous) (k ∷ path) zero le = absurd (omega arith)
written_path-SameFrom (p ∷ previous) (k ∷ path) (suc n) le =
    written_path-SameFrom previous path n (omega arith)

pub written_path-split :
    (previous path : List Text)
    → (rest : List Text) × (written_path previous path ≡ previous ++ rest)
unfolding written_path
written_path-split [] path = (path, refl)
written_path-split (p ∷ previous) [] = ([], ap (◌∷◌ p) (sym (append-nil previous)))
written_path-split (p ∷ previous) (k ∷ path) =
    let (rest, e) = written_path-split previous path in (rest, ap (◌∷◌ p) e)

pub get_chained_key-NextKey :
    (path front rest : List Text) (keys : Text × Text)
    → HasHead path
    → path ≡ front ++ rest
    → get_chained_key path (length front) (joined front) ≡ ok keys
    → NextKey path front keys
unfolding get_chained_key key_of_result
get_chained_key-NextKey path front [] keys head split e =
    let same : path ≡ front = split ∙ append-nil front in
    let past : get_chained_key front (length front) (joined front) ≡ ok keys =
      ap (λ (q : List Text). get_chained_key q (length front) (joined front)) (sym same) ∙ e in
    absurd (cc (sym (rw (get_elem?-ge front (length front) (omega arith), get_key) at past)))
get_chained_key-NextKey path front (k ∷ rest) keys head split e = (
  k,
  rest,
  split ∙ sym (append_assoc front (k ∷ []) rest),
  ap (key_of_result keys.0) (
      sym e
      ∙ ap (λ (q : List Text). get_chained_key q (length front) (joined front)) split
      ∙ get_chained_key-joined front k rest (subst HasHead split head)),
)

module _ {T R S : Type 0} (options : Options T R) (storage : Storage S R)
    (lookup : S → Text → Option R) (reliable : IsReliable storage lookup) (j : Text) where
  -- What the key holds.
  abbrev pub stored : World S T → Option R
  stored w = lookup w.store j

  pub Keeps-set :
      (key : Text) (r : R) (m : Option ℕ) → j ≢ key → Keeps stored (writing (storage.set key r m))
  Keeps-set key r m other = record {
    law = λ w.
        let (s, sets, reads, frame) = reliable.set_lem key r m w.store in
        ap (λ (p : Result (Unit {0}) × World S T). stored p.1)
          (writing-ok (storage.set key r m) w s sets)
        ∙ frame j other;
  }

  pub Keeps-register :
      (parent : Option Text) (key : Text)
      → Keeps stored (elim storage.register_child [
        | none ↦ λ w. (ok tt, w)
        | some register ↦ writing (register parent key)
      ])
  Keeps-register parent key = record {
    law = λ w. elim (Option-cases storage.register_child) [
      | inl absent ↦
          ap (λ (o : Option (Option Text → Text → S → Result S)). stored (run o w).1) absent
      | inr (register, there) ↦
          let (s, registers, same) = reliable.register_lem register parent key w.store there in
          ap (λ (o : Option (Option Text → Text → S → Result S)). stored (run o w).1) there
          ∙ ap (λ (p : Result (Unit {0}) × World S T). stored p.1)
              (writing-ok (register parent key) w s registers)
          ∙ same j
    ];
  }
    where
      run : Option (Option Text → Text → S → Result S) → M S T (Unit {0})
      run o = elim o [ none ↦ λ w. (ok tt, w) | some register ↦ writing (register parent key) ]

  pub Keeps-acquire : (b : Bool) (key : Text) → Keeps stored (acquire_if b key)
  unfolding acquire_if
  Keeps-acquire true key = record { law = λ w. refl }
  Keeps-acquire false key = record { law = λ w. refl }

  pub Keeps-finally :
      {A : Type 0} (release : Option Text) {body : M S T A}
      → Keeps stored body
      → Keeps stored (finally_release release body)
  unfolding finally_release
  Keeps-finally release h = record { law = h.law }
