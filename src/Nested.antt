-- ===== src/Nested.antt =====
-- path.go: reading, writing and deleting by dotted path, the deep copy of a value, emptiness.
-- A panic (a write into a nil map) is `none`.
pub mod Segments
pub mod Laws
pub mod Panics
pub mod Deletes
pub mod Copies
use schemix.Prelude.{
  ℕ, ℤ, pos, Text, Bool, true, false, Option, none, some, List, [], ◌∷◌, not, eqb_ℤ, ◌==◌,
  if◌then◌else◌,
}
use schemix.Value.{
  Value, null, bool, str, number, float64, float32, bytes, list, object, nil_map, other, Items, nil,
  cons, Entries, end, entry, GoMap, lookup, insert, remove, IntKind, int, int64,
}
use schemix.Value.Float.{float_eq}
use schemix.Nested.Segments.{segments}

-- `m[part]` of a value that is asserted to be a map: nil if it is none, or the key is missing
unfoldable pub index : Value → Text → Value
unfolding lookup
index (object m) part = elim (lookup part m) [ none ↦ null | some v ↦ v ]
index _ part = null

-- The loop of `getNestedValue`, over the parts that it cuts off its path.
unfoldable pub get_at : Value → List Text → Value
unfolding index
get_at current [] = current
get_at current (part ∷ path) = get_at (index current part) path

unfoldable pub get_nested : GoMap → Text → Value
unfolding get_at segments
get_nested none path = get_at nil_map (segments path)
get_nested (some input) path = get_at (object input) (segments path)

-- The maps made on the way to a key that has no map yet.
unfoldable pub fresh : List Text → Value → Value
fresh [] value = value
fresh (part ∷ path) value = object (entry part (fresh path value) end)

-- `current[part].(map[string]any)`
pub data MapAt : Type 0 where
  found : Entries → MapAt
  found_nil : MapAt
  absent : MapAt

unfoldable pub map_at : Option Value → MapAt
map_at (some (object m)) = found m
map_at (some nil_map) = found_nil
map_at _ = absent

abbrev pub put_back : Text → Entries → Option Entries → Option Entries
put_back part current none = none
put_back part current (some next) = some (insert part (object next) current)

-- The loop of `setNestedValue` in the map `current`, with one part of the path at least. Go writes
-- through the pointer `next`; here the changed map is put back under its key.
unfoldable pub set_at : Entries → Text → List Text → Value → Option Entries
unfolding lookup insert fresh map_at
set_at current part [] value = some (insert part value current)
set_at current part (key ∷ path) value = elim (map_at (lookup part current)) [
  | found next ↦ put_back part current (set_at next key path value)
  | found_nil ↦ none
  | absent ↦ some (insert part (fresh (key ∷ path) value) current)
]

abbrev set_segments : Entries → List Text → Value → Option Entries
set_segments input [] value = some input
set_segments input (part ∷ path) value = set_at input part path value

unfoldable pub set_nested : Entries → Text → Value → Option Entries
unfolding set_at segments
set_nested input path value = set_segments input (segments path) value

-- The loop of `deleteNestedKey`.
unfoldable pub delete_at : Entries → Text → List Text → Entries
unfolding lookup insert remove map_at
delete_at current part [] = remove part current
delete_at current part (key ∷ path) = elim (map_at (lookup part current)) [
  | found next ↦ insert part (object (delete_at next key path)) current
  | found_nil ↦ current
  | absent ↦ current
]

abbrev delete_segments : Entries → List Text → Entries
delete_segments input [] = input
delete_segments input (part ∷ path) = delete_at input part path

unfoldable pub delete_nested : Entries → Text → Entries
unfolding delete_at segments
delete_nested input path = delete_segments input (segments path)

unfoldable mutual
  -- deepCopyValue
  pub deep_copy_value : Value → Value
  deep_copy_value (object m) = object (deep_copy_entries m)
  deep_copy_value (list items) = list (deep_copy_items items)
  deep_copy_value (bytes b) = bytes b
  deep_copy_value v = v

  pub deep_copy_items : Items → Items
  deep_copy_items nil = nil
  deep_copy_items (cons v items) = cons (deep_copy_value v) (deep_copy_items items)

  -- the loop of `deepCopy`
  pub deep_copy_entries : Entries → Entries
  deep_copy_entries end = end
  deep_copy_entries (entry k v m) = entry k (deep_copy_value v) (deep_copy_entries m)

unfoldable pub deep_copy : GoMap → GoMap
unfolding deep_copy_entries
deep_copy none = none
deep_copy (some m) = some (deep_copy_entries m)

-- isEmpty: only `int` and `int64` zeros count, not those of the narrower types or of float32
unfoldable pub is_empty : Value → Bool
unfolding float_eq
is_empty null = true
is_empty (str []) = true
is_empty (number int n) = eqb_ℤ n (pos 0)
is_empty (number int64 n) = eqb_ℤ n (pos 0)
is_empty (float64 f) = float_eq f 0
is_empty (bool b) = not b
is_empty (list nil) = true
is_empty (object end) = true
is_empty nil_map = true
is_empty _ = false
