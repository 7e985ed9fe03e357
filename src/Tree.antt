-- ===== src/Tree.antt =====
-- Trees in memory: `Tree`, `TreeChildren` and `TreeKeys` of src/types/tree-type.ts, and
-- src/internal/get-tree-current-serialized-value.ts. A children object is the list of its own
-- properties in the order in which `for … in` visits them: the array indices ascending, then the
-- other names in order of creation. A property may hold `undefined`, a `hole`.
pub mod Writes
pub mod Paths
use nodejs_proto_cache.Prelude.{
  ℕ, ◌+◌, ◌-◌, ◌*◌, Bool, true, false, not, ◌&&◌, ◌||◌, Option, none, some, [], ◌∷◌, ltb, leb, ◌==◌,
  if◌then◌else◌,
}
use nodejs_proto_cache.Keys.{Text, text_eq}

-- A tree without children object, or with one; with its value and its deadline.
mutual
  pub data Tree {ℓ} (R : Type ℓ) : Type ℓ where
    leaf : Option R → Option ℕ → Tree R
    branch : Option R → Option ℕ → Entries R → Tree R

  pub data Entries {ℓ} (R : Type ℓ) : Type ℓ where
    nil : Entries R
    entry : Text → Tree R → Entries R → Entries R
    hole : Text → Entries R → Entries R

-- The value of a decimal numeral read after `n`.
unfoldable pub digits_value : ℕ → Text → Option ℕ
digits_value n [] = some n
digits_value n (c ∷ s) =
    let rest = digits_value (n * 10 + (c - b'0')) s in
    if leb b'0' c && leb c b'9' then rest else none

abbrev pub max_index : ℕ
max_index = 4294967294

abbrev pub bounded_index : Option ℕ → Option ℕ
bounded_index none = none
bounded_index (some n) = if leb n max_index then some n else none

-- The array index that a property name spells, if it does.
unfoldable pub array_index : Text → Option ℕ
unfolding digits_value
array_index [] = none
array_index (c ∷ []) = bounded_index (digits_value 0 (c ∷ []))
array_index (c ∷ d ∷ s) = if c == b'0' then none else bounded_index (digits_value 0 (c ∷ d ∷ s))

abbrev pub index_before : Option ℕ → Option ℕ → Bool
index_before none j = false
index_before (some i) none = true
index_before (some i) (some j) = ltb i j

-- Whether a new property of the first name is visited before one of the second.
unfoldable pub visited_before : Text → Text → Bool
unfolding array_index
visited_before k j = index_before (array_index k) (array_index j)

-- A deadline is missed if it is set, not 0, and not after `now`.
abbrev pub expired : Option ℕ → ℕ → Bool
expired none now = false
expired (some d) now = not (d == 0) && leb d now

module _ {ℓ} {R : Type ℓ} where
  abbrev pub empty_tree : Tree R
  empty_tree = leaf none none

  -- `tree[TreeKeys.value]`, `tree[TreeKeys.deadline]`, `tree[TreeKeys.children]`
  abbrev pub value_of : Tree R → Option R
  value_of (leaf v d) = v
  value_of (branch v d es) = v

  abbrev pub deadline_of : Tree R → Option ℕ
  deadline_of (leaf v d) = d
  deadline_of (branch v d es) = d

  abbrev pub children_of : Tree R → Option (Entries R)
  children_of (leaf v d) = none
  children_of (branch v d es) = some es

  -- `tree[TreeKeys.children] ?? {}`
  abbrev pub entries_of : Tree R → Entries R
  entries_of (leaf v d) = nil
  entries_of (branch v d es) = es

  -- Writing the value and the deadline, and the children object.
  abbrev pub with_value : Tree R → Option R → Option ℕ → Tree R
  with_value (leaf _ _) v d = leaf v d
  with_value (branch _ _ es) v d = branch v d es

  abbrev pub with_children : Tree R → Entries R → Tree R
  with_children t es = branch (value_of t) (deadline_of t) es

  -- `children[key]`
  unfoldable pub get_entry : Entries R → Text → Option (Tree R)
  get_entry nil k = none
  get_entry (entry j t es) k = if text_eq j k then some t else get_entry es k
  get_entry (hole j es) k = if text_eq j k then none else get_entry es k

  unfoldable pub has_property : Entries R → Text → Bool
  has_property nil k = false
  has_property (entry j t es) k = text_eq j k || has_property es k
  has_property (hole j es) k = text_eq j k || has_property es k

  -- A write to a property that is there.
  unfoldable pub replace_entry : Entries R → Text → Tree R → Entries R
  replace_entry nil k u = nil
  replace_entry (entry j t es) k u =
      let rest = replace_entry es k u in if text_eq j k then entry j u es else entry j t rest
  replace_entry (hole j es) k u =
      let rest = replace_entry es k u in if text_eq j k then entry j u es else hole j rest

  -- A new property, in its place in the order of visits.
  unfoldable pub place_entry : Entries R → Text → Tree R → Entries R
  place_entry nil k u = entry k u nil
  place_entry (entry j t es) k u =
      let rest = place_entry es k u in
      if visited_before k j then entry k u (entry j t es) else entry j t rest
  place_entry (hole j es) k u =
      let rest = place_entry es k u in
      if visited_before k j then entry k u (hole j es) else hole j rest

  -- `children[key] = tree`
  unfoldable pub set_entry : Entries R → Text → Tree R → Entries R
  set_entry es k u = if has_property es k then replace_entry es k u else place_entry es k u

  -- `getTreeCurrentSerializedValue`
  unfoldable pub current_value : Tree R → ℕ → Option R
  current_value tree now = if expired (deadline_of tree) now then none else value_of tree
