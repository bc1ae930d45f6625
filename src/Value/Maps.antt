-- ===== src/Value/Maps.antt =====
-- The laws of lookup, insertion and removal in a map.
use schemix.Prelude.{
  Text, text_eq, text_eq_iff, text_eq_refl, ◌≡◌, refl, none, some, arith, if◌then◌else◌,
}
use schemix.Value.{Value, Entries, end, entry, lookup, insert, remove}

pub lookup-insert :
    (k j : Text) (v : Value) (m : Entries)
    → lookup j (insert k v m) ≡ (if text_eq k j then some v else lookup j m)
unfolding lookup insert
lookup-insert k j v end = refl
lookup-insert k j v (entry i w m) =
    ground (arith, lookup-insert k j v m, text_eq_iff k j, text_eq_iff i k, text_eq_iff i j)

pub lookup-remove :
    (k j : Text) (m : Entries) → lookup j (remove k m) ≡ (if text_eq k j then none else lookup j m)
unfolding lookup remove
lookup-remove k j end = ground arith
lookup-remove k j (entry i w m) =
    ground (arith, lookup-remove k j m, text_eq_iff k j, text_eq_iff i k, text_eq_iff i j)

pub lookup-insert_self : (k : Text) (v : Value) (m : Entries) → lookup k (insert k v m) ≡ some v
lookup-insert_self k v m = ground (arith, lookup-insert k k v m, text_eq_refl k)
