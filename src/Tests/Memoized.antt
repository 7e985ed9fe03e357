-- ===== src/Tests/Memoized.antt =====
-- A memoizer that is a function from keys, and calls that it remembers.
use nodejs_proto_cache.Prelude.{
  ℕ, ◌+◌, ◌≡◌, refl, ap, Bool, Option, none, some, List, [], ◌∷◌, arith, if◌then◌else◌, length,
}
use nodejs_proto_cache.Keys.{Text, text_eq}
use nodejs_proto_cache.Tree.Writes.{text_eq_iff, text_eq_refl}
use nodejs_proto_cache.Cache.Memoizing.{Memoizer}
use nodejs_proto_cache.Cache.Memoizing.Once.{
  Memoizes, Unrepeated, results, memory_after, first_results, results-first_results,
}

abbrev Memo : Type 0
Memo = Text → Option ℕ

abbrev memoizer : Memoizer Memo ℕ
memoizer = record { get = λ k z. z k; set = λ k a z j. if text_eq k j then some a else z j }

memoizer-Memoizes : Memoizes memoizer
memoizer-Memoizes = record {
  same_key = λ k a z. ap (λ (b : Bool). if b then some a else z k) (text_eq_refl k);
  other_key = λ j k a z apart. ground (arith, text_eq_iff k j, apart);
}

abbrev a : Text
a = b'a' ∷ []

abbrev b : Text
b = b'b' ∷ []

-- The result depends on the key and on the further argument.
abbrev measure : Text → ℕ → ℕ
measure k n = length k + n

abbrev calls : List (Text × ℕ)
calls = (a, 1) ∷ (b, 5) ∷ (a, 8) ∷ []

first_is_kept :
    results measure memoizer calls (record { memo = λ k. none; called = [] }) ≡ 2 ∷ 6 ∷ 2 ∷ []
unfolding results text_eq
first_is_kept = refl

results-first_results_example :
    (results measure memoizer calls (record { memo = λ k. none; called = [] })
      ≡ first_results measure memoizer [] calls)
    × Unrepeated
        (memory_after measure memoizer calls (record { memo = λ k. none; called = [] })).called
results-first_results_example =
    results-first_results measure memoizer memoizer-Memoizes (λ k. none) calls (λ k. refl)
