-- ===== src/Cache/Reading/Parsed.antt =====
-- `getMemoizedTree` (src/internal/tree-internal-control.ts) of a key that holds a tree.
use nodejs_proto_cache.Prelude.{◌≡◌, refl, ◌∙◌, ap, true, Option, some}
use nodejs_proto_cache.Keys.{Text, ok}
use nodejs_proto_cache.Tree.{Tree}
use nodejs_proto_cache.Cache.{Options, Storage, World}
use nodejs_proto_cache.Cache.Values.{deserialize_tree}
use nodejs_proto_cache.Cache.Reads.{get_tree}
use nodejs_proto_cache.Cache.Laws.{IsReliable, then-ok, reading-get}

pub get_tree-found :
    {T R S : Type 0} (options : Options T R) (storage : Storage S R) (lookup : S → Text → Option R)
    (reliable : IsReliable storage lookup) (key : Text) (w : World S T) (r : R) (t : Tree R)
    → lookup w.store key ≡ some r
    → options.truthy r ≡ true
    → options.deserialize_tree r ≡ some t
    → get_tree options storage key w ≡ (ok (some t), w)
unfolding get_tree
get_tree-found options storage lookup reliable key w r t held full read =
    then-ok _ _ (reading-get storage lookup reliable key w ∙ ap (λ (o : Option _). (ok o, w)) held)
      (rw full (unfold deserialize_tree in rw (read, deserialize_tree) refl))
