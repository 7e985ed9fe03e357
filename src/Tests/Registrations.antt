-- ===== src/Tests/Registrations.antt =====
-- The registrations of the keys of a storage.
use nodejs_proto_cache.Prelude.{
  ◌<◌, max, ◌≡◌, refl, Option, none, some, List, [], ◌∷◌, ◌++◌, All, length,
}
use nodejs_proto_cache.Keys.{Text, Result, ok}
use nodejs_proto_cache.Cache.Reprocessing.{
  Registered, Registry, going, clear_first, reprocess_all_key_level_children, clear_first,
}
use nodejs_proto_cache.Cache.Reprocessing.Expected.{joined, registrations, registered_all}
use nodejs_proto_cache.Cache.Reprocessing.Batches.{
  last_batch, reprocess_all_key_level_children-registrations,
}

abbrev a : Text
a = b'a' ∷ []

abbrev keys : List Text
keys = (b'a' ∷ b':' ∷ b'b' ∷ []) ∷ a ∷ []

-- The storage is the list of what was registered.
abbrev iterate : Option Text → List Registered → Result (List Text)
iterate pattern s = ok keys

abbrev register : Option Text → Text → List Registered → Result (List Registered)
register prefix k s = ok (s ++ (prefix, k) ∷ [])

abbrev registry : Registry (List Registered)
registry = record {
  random_iterate = some iterate;
  register = some register;
  clear_all = some (λ s. ok []);
}

registered_keys :
    reprocess_all_key_level_children registry 2 []
    ≡ going
        ((none, a) ∷ (some a, b'b' ∷ []) ∷ (none, a) ∷ [])
        []
        (((none, a) ∷ (some a, b'b' ∷ []) ∷ []) ∷ ((none, a) ∷ []) ∷ [])
unfolding reprocess_all_key_level_children
registered_keys = refl

reprocess_all_key_level_children-registrations_example :
    (end : List Registered) × (batches : List (List Registered)) × (rest : List Registered)
    × (reprocess_all_key_level_children registry 2 [] ≡ going end [] (batches ++ last_batch rest))
    × (registered_all register (registrations keys) [] ≡ ok end)
    × (joined (batches ++ last_batch rest) ≡ registrations keys)
    × All (λ batch. length batch ≡ max 1 2) batches
    × (length rest < max 1 2)
unfolding clear_first
reprocess_all_key_level_children-registrations_example =
    reprocess_all_key_level_children-registrations registry 2 [] [] iterate keys register refl refl
      refl refl (λ prefix k t. (t ++ (prefix, k) ∷ [], refl))
