-- ===== src/Cache/Reprocessing.antt =====
-- `reprocessAllKeyLevelChildren` of src/tree-key-cache.ts: every key of the storage registers each
-- key of its path as a child of the keys above it, a number of registrations at a time.
pub mod Expected
pub mod Batches
use nodejs_proto_cache.Prelude.{
  ℕ, zero, suc, Option, none, some, List, [], ◌∷◌, ◌++◌, leb, if◌then◌else◌, length,
}
use nodejs_proto_cache.Keys.{Text, join, split_key, Error, Result, ok, throw, unsupported_storage}

-- What a registration resolves to: the chained key above, and the key.
abbrev pub Registered : Type 0
Registered = Option Text × Text

-- The optional methods of the storage that the method needs.
pub record Registry (S : Type 0) : Type 0 where
  pub random_iterate : Option (Option Text → S → Result (List Text))
  pub register : Option (Option Text → Text → S → Result S)
  pub clear_all : Option (S → Result S)

-- The generator on its way: the storage, the promises that are pending, and what was yielded; or
-- the exception it ended with.
pub data Pass (S : Type 0) : Type 0 where
  going : S → List (Result Registered) → List (List Registered) → Pass S
  broke : Error → S → List (List Registered) → Pass S

-- `Promise.all`
unfoldable pub all_of : List (Result Registered) → Result (List Registered)
all_of [] = ok []
all_of (throw e ∷ rs) = throw e
all_of (ok r ∷ rs) = elim (all_of rs) [ ok done ↦ ok (r ∷ done) | throw e ↦ throw e ]

-- `yield Promise.all(promises)`, after which no promise is pending.
unfoldable pub yield_all :
    {S : Type 0} → S → List (Result Registered) → List (List Registered) → Pass S
unfolding all_of
yield_all s pending out = elim (all_of pending) [
  | ok batch ↦ going s [] (out ++ batch ∷ [])
  | throw e ↦ broke e s out
]

module _ {S : Type 0} (register : Option Text → Text → S → Result S) (partition : ℕ) where
  -- The registration is started, and its promise is pending.
  abbrev pub attempt : Option Text → Text → S → Result Registered × S
  attempt prefix k s = elim (register prefix k s) [
    | ok s' ↦ (ok (prefix, k), s')
    | throw e ↦ (throw e, s)
  ]

  unfoldable pub register_one : Option Text → Text → Pass S → Pass S
  unfolding yield_all
  register_one prefix k (broke e s out) = broke e s out
  register_one prefix k (going s pending out) =
      let (r, s') = attempt prefix k s in
      let pending' = pending ++ r ∷ [] in
      if leb partition (length pending') then yield_all s' pending' out else going s' pending' out

  -- The loop over the keys of a path, given those that were processed and their chained key.
  unfoldable pub register_path : Option Text → List Text → List Text → Pass S → Pass S
  unfolding register_one join
  register_path prefix processed [] pass = pass
  register_path prefix processed (k ∷ path) pass =
      register_path (some (join (processed ++ k ∷ []))) (processed ++ k ∷ []) path
        (register_one prefix k pass)

  -- The loop over the keys of the storage.
  unfoldable pub register_keys : List Text → Pass S → Pass S
  unfolding split_key register_path
  register_keys [] pass = pass
  register_keys (key ∷ keys) pass = register_keys keys (register_path none [] (split_key key) pass)

-- The promises that are left are yielded at the end.
unfoldable pub yield_last : {S : Type 0} → Pass S → Pass S
unfolding yield_all
yield_last (broke e s out) = broke e s out
yield_last (going s [] out) = going s [] out
yield_last (going s (r ∷ pending) out) = yield_all s (r ∷ pending) out

unfoldable pub clear_first : {S : Type 0} → Option (S → Result S) → S → Result S
clear_first none s = ok s
clear_first (some clear) s = clear s

-- `reprocessAllKeyLevelChildren`
unfoldable pub reprocess_all_key_level_children : {S : Type 0} → Registry S → ℕ → S → Pass S
unfolding register_keys yield_last clear_first
reprocess_all_key_level_children registry partition s = elim registry.random_iterate [
  | none ↦ broke unsupported_storage s []
  | some iterate ↦ elim registry.register [
    | none ↦ broke unsupported_storage s []
    | some register ↦ elim (clear_first registry.clear_all s) [
      | throw e ↦ broke e s []
      | ok cleared ↦ elim (iterate none cleared) [
        | throw e ↦ broke e cleared []
        | ok keys ↦ yield_last (register_keys register partition keys (going cleared [] []))
      ]
    ]
  ]
]
