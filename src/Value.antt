-- ===== src/Value.antt =====
-- The dynamic values of the library: Go's `any` as it reaches path.go, fastpath.go and process.go,
-- and the map type `map[string]any`.
pub mod Float
pub mod Maps
use schemix.Prelude.{ℕ, ℤ, Text, text_eq, Bool, true, false, Option, none, some, if◌then◌else◌}

-- The signed integer types of Go.
pub data IntKind : Type 0 where
  int int8 int16 int32 int64 : IntKind

mutual
  -- `float64` holds the bits of the value; `float32` the bits of the same number as a float64.
  -- `nil_map` is a nil `map[string]any` stored as `any`. `other` is a value of any other type, of
  -- which the code looks at nothing but the type's name: unsigned integers, typed slices, structs.
  pub data Value : Type 0 where
    null : Value
    bool : Bool → Value
    str : Text → Value
    number : IntKind → ℤ → Value
    float64 : ℕ → Value
    float32 : ℕ → Value
    bytes : Text → Value
    list : Items → Value
    object : Entries → Value
    nil_map : Value
    other : Text → Value

  pub data Items : Type 0 where
    nil : Items
    cons : Value → Items → Items

  -- The entries of a map that is not nil. Lookup takes the first entry of a key.
  pub data Entries : Type 0 where
    end : Entries
    entry : Text → Value → Entries → Entries

-- `map[string]any`, where `none` is the nil map
abbrev pub GoMap : Type 0
GoMap = Option Entries

-- `v, ok := m[key]`
unfoldable pub lookup : Text → Entries → Option Value
lookup key end = none
lookup key (entry k v m) = if text_eq k key then some v else lookup key m

abbrev pub lookup_map : Text → GoMap → Option Value
lookup_map key none = none
lookup_map key (some m) = lookup key m

-- `m[key] = v`
unfoldable pub insert : Text → Value → Entries → Entries
insert key v end = entry key v end
insert key v (entry k w m) = if text_eq k key then entry k v m else entry k w (insert key v m)

-- `delete(m, key)`
unfoldable pub remove : Text → Entries → Entries
remove key end = end
remove key (entry k w m) = let rest = remove key m in if text_eq k key then rest else entry k w rest
