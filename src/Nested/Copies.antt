-- ===== src/Nested/Copies.antt =====
-- deepCopy of path.go, compared with its source.
use schemix.Prelude.{◌≡◌, refl, ap, ap₂, none, some}
use schemix.Value.{Value, bytes, list, object, Items, nil, cons, Entries, end, entry, GoMap}
use schemix.Nested.{deep_copy, deep_copy_value, deep_copy_items, deep_copy_entries}

mutual
  unfolding deep_copy_value deep_copy_items deep_copy_entries

  value_copy : (v : Value) → deep_copy_value v ≡ v
  value_copy (object m) = ap object (entries_copy m)
  value_copy (list items) = ap list (items_copy items)
  value_copy (bytes b) = refl
  value_copy _ = refl

  items_copy : (items : Items) → deep_copy_items items ≡ items
  items_copy nil = refl
  items_copy (cons v items) = ap₂ cons (value_copy v) (items_copy items)

  entries_copy : (m : Entries) → deep_copy_entries m ≡ m
  entries_copy end = refl
  entries_copy (entry k v m) = ap₂ (entry k) (value_copy v) (entries_copy m)

-- The deep copy of a map equals the map in value, with every type kept: a nil map gives a nil map.
pub deep_copy-eq : (m : GoMap) → deep_copy m ≡ m
unfolding deep_copy
deep_copy-eq none = refl
deep_copy-eq (some m) = ap some (entries_copy m)
