-- ===== src/Builtin/Lengths.antt =====
-- builtin_methods.go: the methods with parameters, on numbers and on lengths.
use schemix.Prelude.{ℕ, suc, ℤ, pos, Bool, false, ◌&&◌, Option, none, some, length, leb_ℤ}
use schemix.GoLib.{GoLib}
use schemix.Value.{Value, str, list, object, nil_map, Items, nil, cons, Entries, end, entry}
use schemix.Value.Float.{float_le}
use schemix.Fast.Number.{to_float64}

abbrev item_count : Items → ℕ
item_count nil = 0
item_count (cons v items) = suc (item_count items)

abbrev entry_count : Entries → ℕ
entry_count end = 0
entry_count (entry k v m) = suc (entry_count m)

-- The length of a string in bytes, of a slice, of a map (without repeated keys); -1 is `none`.
unfoldable pub value_len : Value → Option ℕ
value_len (str s) = some (length s)
value_len (list items) = some (item_count items)
value_len (object m) = some (entry_count m)
value_len nil_map = some 0
value_len _ = none

-- The test of a length, false without one.
abbrev on_length : (ℤ → Bool) → Option ℕ → Bool
on_length test none = false
on_length test (some l) = test (pos l)

unfoldable pub len_between : ℤ → ℤ → Value → Bool
unfolding value_len
len_between min max v = on_length (λ l. leb_ℤ min l && leb_ℤ l max) (value_len v)

unfoldable pub min_len : ℤ → Value → Bool
unfolding value_len
min_len n v = on_length (λ l. leb_ℤ n l) (value_len v)

unfoldable pub max_len : ℤ → Value → Bool
unfolding value_len
max_len n v = on_length (λ l. leb_ℤ l n) (value_len v)

unfoldable pub str_len : GoLib → ℤ → ℤ → Value → Bool
str_len go min max (str s) = let l = pos (length (go.runes s)) in leb_ℤ min l && leb_ℤ l max
str_len go min max v = false

abbrev on_float : (ℕ → Bool) → Option ℕ → Bool
on_float test none = false
on_float test (some n) = test n

-- The bounds are the bits of float64s.
unfoldable pub between : ℕ → ℕ → Value → Bool
unfolding to_float64 float_le
between min max v = on_float (λ n. float_le min n && float_le n max) (to_float64 v)
