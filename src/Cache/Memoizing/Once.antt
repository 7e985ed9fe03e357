-- ===== src/Cache/Memoizing/Once.antt =====
-- A memoized callback (src/internal/get-memoized.ts) over a sequence of calls.
use nodejs_proto_cache.Prelude.{
  ◌≡◌, ◌≢◌, refl, sym, ◌∙◌, ap, inl, inr, Bool, false, ◌||◌, Bool-cases, Option, none, some,
  Option-cases, List, [], ◌∷◌, if◌then◌else◌,
}
use mathlib.Core.Path.{subst}
use nodejs_proto_cache.Keys.{Text, text_eq}
use nodejs_proto_cache.Tree.Writes.{text_eq_iff, text_eq_refl}
use nodejs_proto_cache.Cache.Memoizing.{Memoizer, Memory, get_memoized, run_and_memoize}

-- The memoizer gives what was set last for a key, and a set does not touch other keys.
pub record Memoizes {Z A : Type 0} (memoizer : Memoizer Z A) : Type 0 where
  pub same_key : (k : Text) (a : A) (z : Z) → memoizer.get k (memoizer.set k a z) ≡ some a
  pub other_key :
      (j k : Text) (a : A) (z : Z) → j ≢ k → memoizer.get j (memoizer.set k a z) ≡ memoizer.get j z

abbrev pub mapped : {X A : Type 0} → (X → A) → Option X → Option A
mapped f none = none
mapped f (some x) = some (f x)

abbrev pub key_in : Text → List Text → Bool
key_in k [] = false
key_in k (j ∷ keys) = text_eq j k || key_in k keys

-- No key stands twice in the list.
abbrev pub Unrepeated : List Text → Type 0
Unrepeated [] = Unit
Unrepeated (k ∷ keys) = (key_in k keys ≡ false) × Unrepeated keys

module _ {Z X A : Type 0} (callback : Text → X → A) (memoizer : Memoizer Z A) where
  -- The results of the calls, and the memory after them.
  unfoldable pub results : List (Text × X) → Memory Z → List A
  unfolding get_memoized
  results [] w = []
  results ((k, x) ∷ calls) w =
      (get_memoized callback (some memoizer) k x w).0
      ∷ results calls (get_memoized callback (some memoizer) k x w).1

  unfoldable pub memory_after : List (Text × X) → Memory Z → Memory Z
  unfolding get_memoized
  memory_after [] w = w
  memory_after ((k, x) ∷ calls) w =
      memory_after calls (get_memoized callback (some memoizer) k x w).1

  -- The arguments of the first call for the key.
  abbrev pub first_args : List (Text × X) → Text → Option X
  first_args [] k = none
  first_args ((j, x) ∷ seen) k = if text_eq j k then some x else first_args seen k

  -- The results where each call gets what the first call for its key gave.
  unfoldable pub first_results : List (Text × X) → List (Text × X) → List A
  first_results seen [] = []
  first_results seen ((k, x) ∷ calls) = elim (first_args seen k) [
    | none ↦ callback k x ∷ first_results ((k, x) ∷ seen) calls
    | some y ↦ callback k y ∷ first_results seen calls
  ]

  abbrev first_result : Text → X → List (Text × X) → List (Text × X) → Option X → List A
  first_result k x seen calls none = callback k x ∷ first_results ((k, x) ∷ seen) calls
  first_result k x seen calls (some y) = callback k y ∷ first_results seen calls

  abbrev keys_of : List (Text × X) → List Text
  keys_of [] = []
  keys_of ((k, x) ∷ seen) = k ∷ keys_of seen

  -- The memory holds the results of the first calls, which are all that were made.
  record Remembers (w : Memory Z) (seen : List (Text × X)) : Type 0 where
    held : (k : Text) → memoizer.get k w.memo ≡ mapped (callback k) (first_args seen k)
    called : w.called ≡ keys_of seen
    unrepeated : Unrepeated (keys_of seen)

  key_in-fresh :
      (k : Text) (seen : List (Text × X))
      → first_args seen k ≡ none
      → key_in k (keys_of seen) ≡ false
  key_in-fresh k [] e = refl
  key_in-fresh k ((j, x) ∷ seen) e = elim (Bool-cases (text_eq j k)) [
    | inl same ↦
        absurd (cc (sym (ap (λ (b : Bool). if b then some x else first_args seen k) same) ∙ e))
    | inr other ↦
        ap (λ (b : Bool). b || key_in k (keys_of seen)) other
        ∙ key_in-fresh k seen
            (sym (ap (λ (b : Bool). if b then some x else first_args seen k) other) ∙ e)
  ]

  missed :
      (k : Text) (x : X) (w : Memory Z)
      → memoizer.get k w.memo ≡ none
      → get_memoized callback (some memoizer) k x w ≡ (
        callback k x,
        record { memo = memoizer.set k (callback k x) w.memo; called = k ∷ w.called },
      )
  unfolding get_memoized run_and_memoize
  missed k x w e = rw (e, get_memoized) refl

  remembered :
      (k : Text) (x : X) (w : Memory Z) (a : A)
      → memoizer.get k w.memo ≡ some a
      → get_memoized callback (some memoizer) k x w ≡ (a, w)
  unfolding get_memoized
  remembered k x w a e = rw (e, get_memoized) refl

  module _ (memoizes : Memoizes memoizer) where
    held-set :
        (w : Memory Z) (seen : List (Text × X)) (k : Text) (x : X)
        → Remembers w seen
        → (j : Text)
        → memoizer.get j (memoizer.set k (callback k x) w.memo)
          ≡ mapped (callback j) (first_args ((k, x) ∷ seen) j)
    held-set w seen k x h j = elim (Bool-cases (text_eq k j)) [
      | inl same ↦
          let e : k ≡ j = (text_eq_iff k j).0 same in
          ap (λ (i : Text). memoizer.get i (memoizer.set k (callback k x) w.memo)) (sym e)
          ∙ memoizes.same_key k (callback k x) w.memo
          ∙ ap (λ (i : Text). some (callback i x)) e
          ∙ sym (
              ap (λ (b : Bool). mapped (callback j) (if b then some x else first_args seen j)) same)
      | inr other ↦
          memoizes.other_key j k (callback k x) w.memo
            (λ e. cc (sym (ap (text_eq k) e ∙ text_eq_refl k) ∙ other))
          ∙ h.held j
          ∙ sym (
              ap (λ (b : Bool). mapped (callback j) (if b then some x else first_args seen j))
                other)
    ]

    Remembers-results :
        (calls seen : List (Text × X)) (w : Memory Z)
        → Remembers w seen
        → (results calls w ≡ first_results seen calls)
          × (all : List (Text × X)) × Remembers (memory_after calls w) all
    unfolding results first_results memory_after
    Remembers-results [] seen w h = (refl, seen, h)
    Remembers-results ((k, x) ∷ calls) seen w h = elim (Option-cases (first_args seen k)) [
      | inl fresh ↦
          let w' : Memory Z = record {
            memo = memoizer.set k (callback k x) w.memo;
            called = k ∷ w.called;
          } in
          let step = missed k x w (h.held k ∙ ap (mapped (callback k)) fresh) in
          let (same, all, after) = Remembers-results calls ((k, x) ∷ seen) w' (record {
            held = held-set w seen k x h;
            called = ap (◌∷◌ k) h.called;
            unrepeated = (key_in-fresh k seen fresh, h.unrepeated);
          }) in
          (
            ap (λ (r : A × Memory Z). r.0 ∷ results calls r.1) step
                ∙ ap (◌∷◌ (callback k x)) same
                ∙ sym (ap (first_result k x seen calls) fresh),
            all,
            subst (λ (r : A × Memory Z). Remembers (memory_after calls r.1) all) (sym step) after,
          )
      | inr (y, known) ↦
          let step = remembered k x w (callback k y) (h.held k ∙ ap (mapped (callback k)) known) in
          let (same, all, after) = Remembers-results calls seen w h in
          (
            ap (λ (r : A × Memory Z). r.0 ∷ results calls r.1) step
                ∙ ap (◌∷◌ (callback k y)) same
                ∙ sym (ap (first_result k x seen calls) known),
            all,
            subst (λ (r : A × Memory Z). Remembers (memory_after calls r.1) all) (sym step) after,
          )
    ]

    -- From a memoizer that is empty and keeps what is set: every call gives what the first call for
    -- its key gave, whatever the later calls pass besides the key, and the callback is called once
    -- at most for each key.
    pub results-first_results :
        (z : Z) (calls : List (Text × X))
        → ((k : Text) → memoizer.get k z ≡ none)
        → (results calls (record { memo = z; called = [] }) ≡ first_results [] calls)
          × Unrepeated (memory_after calls (record { memo = z; called = [] })).called
    results-first_results z calls empty =
        let (same, all, h) =
          Remembers-results calls [] (record { memo = z; called = [] })
            (record { held = empty; called = refl; unrepeated = tt }) in
        (same, subst Unrepeated (sym h.called) h.unrepeated)
