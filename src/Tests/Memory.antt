-- ===== src/Tests/Memory.antt =====
-- A storage that keeps what it is given and serializers that read what they wrote, for the interfaces
-- of src/types/key-tree-cache-storage.ts and src/types/key-tree-cache-options.ts.
use nodejs_proto_cache.Prelude.{
  ℕ, ◌≡◌, refl, ap, Bool, true, false, Option, none, some, [], ◌∷◌, ◌==◌, ==_iff, arith,
  if◌then◌else◌,
}
use nodejs_proto_cache.Keys.{join, Text, text_eq, ok}
use nodejs_proto_cache.Tree.{Tree, Entries, leaf, branch, nil, entry, hole}
use nodejs_proto_cache.Tree.Writes.{text_eq_iff, text_eq_refl}
use nodejs_proto_cache.Cache.{Options, Storage, World}
use nodejs_proto_cache.Cache.Laws.{IsReliable, IsCodec}

-- Serialized values: numbers, and trees of serialized values.
mutual
  pub data Raw : Type 0 where
    number : ℕ → Raw
    bare : RawValue → Option ℕ → Raw
    full : RawValue → Option ℕ → RawEntries → Raw

  pub data RawValue : Type 0 where
    absent : RawValue
    present : Raw → RawValue

  pub data RawEntries : Type 0 where
    no_entry : RawEntries
    raw_entry : Text → Raw → RawEntries → RawEntries
    raw_hole : Text → RawEntries → RawEntries

abbrev pub pack_value : Option Raw → RawValue
pack_value none = absent
pack_value (some r) = present r

abbrev pub unpack_value : RawValue → Option Raw
unpack_value absent = none
unpack_value (present r) = some r

unfoldable mutual
  pub pack : Tree Raw → Raw
  pack (leaf v d) = bare (pack_value v) d
  pack (branch v d es) = full (pack_value v) d (pack_entries es)

  pub pack_entries : Entries Raw → RawEntries
  pack_entries nil = no_entry
  pack_entries (entry k t es) = raw_entry k (pack t) (pack_entries es)
  pack_entries (hole k es) = raw_hole k (pack_entries es)

unfoldable mutual
  pub unpack : Raw → Tree Raw
  unpack (number n) = leaf none none
  unpack (bare v d) = leaf (unpack_value v) d
  unpack (full v d es) = branch (unpack_value v) d (unpack_entries es)

  pub unpack_entries : RawEntries → Entries Raw
  unpack_entries no_entry = nil
  unpack_entries (raw_entry k r es) = entry k (unpack r) (unpack_entries es)
  unpack_entries (raw_hole k es) = hole k (unpack_entries es)

pub unpack-pack_value : (v : Option Raw) → unpack_value (pack_value v) ≡ v
unpack-pack_value none = refl
unpack-pack_value (some r) = refl

mutual
  unfolding pack unpack

  pub unpack-pack : (t : Tree Raw) → unpack (pack t) ≡ t
  unpack-pack (leaf v d) = ap (λ (x : Option Raw). leaf x d) (unpack-pack_value v)
  unpack-pack (branch v d es) = λ i. branch (unpack-pack_value v i) d (unpack-pack_entries es i)

  pub unpack-pack_entries : (es : Entries Raw) → unpack_entries (pack_entries es) ≡ es
  unpack-pack_entries nil = refl
  unpack-pack_entries (entry k t es) = λ i. entry k (unpack-pack t i) (unpack-pack_entries es i)
  unpack-pack_entries (hole k es) = ap (hole k) (unpack-pack_entries es)

abbrev pub read_tree : Raw → Option (Tree Raw)
read_tree (number n) = none
read_tree (bare v d) = some (unpack (bare v d))
read_tree (full v d es) = some (unpack (full v d es))

pub read_tree-pack : (t : Tree Raw) → read_tree (pack t) ≡ some t
unfolding pack
read_tree-pack (leaf v d) = ap some (unfold pack in unpack-pack (leaf v d))
read_tree-pack (branch v d es) = ap some (unfold pack in unpack-pack (branch v d es))

abbrev pub read_number : Raw → Option ℕ
read_number (number n) = some n
read_number (bare v d) = none
read_number (full v d es) = none

abbrev pub same_raw : Raw → Raw → Bool
same_raw (number m) (number n) = m == n
same_raw _ _ = false

pub same_raw-eq : (q r : Raw) → same_raw q r ≡ true → q ≡ r
same_raw-eq (number m) (number n) h = ap number ((==_iff m n).0 h)
same_raw-eq (number m) (bare v d) h = cc
same_raw-eq (number m) (full v d es) h = cc
same_raw-eq (bare v d) r h = cc
same_raw-eq (full v d es) r h = cc

-- Two key levels, and values that are numbers.
abbrev pub options : Options ℕ Raw
options = record {
  key_level_nodes = 2;
  serialize = number;
  deserialize = read_number;
  serialize_tree = pack;
  deserialize_tree = read_tree;
  same = same_raw;
  truthy = λ r. true;
  is_null = λ n. false;
}

abbrev pub Store : Type 0
Store = Text → Option Raw

abbrev pub put : Text → Raw → Store → Store
put k r s j = if text_eq k j then some r else s j

-- Children are not registered, and no ttl is kept.
abbrev pub storage : Storage Store Raw
storage = record {
  get = λ k s. ok (s k);
  set = λ k r ttl s. ok (put k r s);
  get_current_ttl = λ k s. ok none;
  register_child = none;
}

abbrev pub lookup : Store → Text → Option Raw
lookup s k = s k

pub storage-IsReliable : IsReliable storage lookup
storage-IsReliable = record {
  get_lem = λ k s. refl;
  set_lem = λ k r ttl s. (
    put k r s,
    refl,
    ap (λ (b : Bool). if b then some r else s k) (text_eq_refl k),
    λ j other. ground (arith, text_eq_iff k j, other),
  );
  register_lem = λ register parent k s h. absurd (ground (arith, h));
  ttl_lem = λ k s. (none, refl);
}

pub options-IsCodec : IsCodec options
options-IsCodec = record {
  value_read = λ v. refl;
  value_truthy = λ v. refl;
  same_eq = same_raw-eq;
  tree_truthy = λ t. refl;
  tree_read = λ t. (t, read_tree-pack t, λ now path. refl);
}

abbrev pub start : World Store ℕ
start = record { store = λ k. none; events = [] }

abbrev pub a : Text
a = b'a' ∷ []

abbrev pub b : Text
b = b'b' ∷ []

-- A tree under the key `a:b`, with a value that expires at 5.
abbrev pub planted : Tree Raw
planted =
    branch none none
      (entry a (leaf (some (number 1)) none) (entry b (leaf (some (number 2)) (some 5)) nil))

abbrev pub garden : World Store ℕ
garden = record { store = put (join (a ∷ b ∷ [])) (pack planted) start.store; events = [] }
