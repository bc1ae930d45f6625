-- ===== src/Convert.antt =====
-- convert.go: from what a caller passes to the map that is validated. The caller's value is seen as
-- the code's tests see it; reflection and encoding/json are parameters.
use schemix.Prelude.{ℕ, ℤ, Text, text, Bool, Option, none, some, [], ◌∷◌, ◌++◌}
use schemix.Value.{
  Value, null, bool, str, number, float64, list, object, GoMap, Entries, end, entry, Items, nil,
  cons, int64,
}

mutual
  -- What the decoder makes of JSON with `UseNumber`: a number keeps its text.
  pub data Json : Type 0 where
    json_null : Json
    json_bool : Bool → Json
    json_string : Text → Json
    json_number : Text → Json
    json_array : Elements → Json
    json_object : Members → Json

  pub data Elements : Type 0 where
    no_elements : Elements
    element : Json → Elements → Elements

  pub data Members : Type 0 where
    no_members : Members
    member : Text → Json → Members → Members

-- `decode` is the decoder on a `map[string]any`: an error, the nil map (for `null`), or a map.
-- `parse_int` is `strconv.ParseInt(s, 10, 64)`; `parse_float` is `Number.Float64` without its
-- error. `marshal_error` and `decode_error` are the texts that the errors are wrapped into.
pub record JsonLib : Type 0 where
  pub decode : Text → Option (Option Members)
  pub decode_error : Text → Text
  pub parse_int : Text → Option ℤ
  pub parse_float : Text → ℕ

-- The argument `data any`. A struct, or a pointer to one, is what `json.Marshal` makes of it.
pub data Input : Type 0 where
  nil_input : Input
  map_input : GoMap → Input
  processable : GoMap → Input
  json_bytes : Text → Input
  nil_pointer : Input
  struct_bytes : Text → Input
  struct_error : Text → Input
  unsupported : Text → Input

-- `(map[string]any, error)`
pub data Conversion : Type 0 where
  converted : GoMap → Conversion
  refused : Text → Conversion

module _ (json : JsonLib) where
  abbrev pub native_number : Option ℤ → Text → Value
  native_number (some n) digits = number int64 n
  native_number none digits = float64 (json.parse_float digits)

  unfoldable pub json_number_to_native : Text → Value
  json_number_to_native digits = native_number (json.parse_int digits) digits

  -- The code replaces numbers in place.
  unfoldable mutual
    unfolding json_number_to_native

    pub convert_value : Json → Value
    convert_value json_null = null
    convert_value (json_bool b) = bool b
    convert_value (json_string s) = str s
    convert_value (json_number digits) = json_number_to_native digits
    convert_value (json_array elements) = list (convert_json_numbers_slice elements)
    convert_value (json_object members) = object (convert_json_numbers members)

    pub convert_json_numbers_slice : Elements → Items
    convert_json_numbers_slice no_elements = nil
    convert_json_numbers_slice (element e elements) =
        cons (convert_value e) (convert_json_numbers_slice elements)

    pub convert_json_numbers : Members → Entries
    convert_json_numbers no_members = end
    convert_json_numbers (member key e members) =
        entry key (convert_value e) (convert_json_numbers members)

  abbrev pub converted_map : Option (Option Members) → Text → Conversion
  converted_map none b = refused (text "schemix: invalid JSON input: " ++ json.decode_error b)
  converted_map (some none) b = converted none
  converted_map (some (some members)) b = converted (some (convert_json_numbers members))

  unfoldable pub unmarshal_json_to_map : Text → Conversion
  unfolding convert_json_numbers
  unmarshal_json_to_map [] = refused (text "schemix: empty JSON input")
  unmarshal_json_to_map (c ∷ b) = converted_map (json.decode (c ∷ b)) (c ∷ b)

  unfoldable pub to_map_any : Input → Conversion
  unfolding unmarshal_json_to_map
  to_map_any nil_input = refused (text "schemix: input data is nil")
  to_map_any (map_input m) = converted m
  to_map_any (processable m) = converted m
  to_map_any (json_bytes b) = unmarshal_json_to_map b
  to_map_any nil_pointer = refused (text "schemix: input is nil pointer")
  to_map_any (struct_bytes b) = unmarshal_json_to_map b
  to_map_any (struct_error e) = refused (text "schemix: failed to marshal struct: " ++ e)
  to_map_any (unsupported name) = refused (
      text "schemix: unsupported input type "
      ++ name
      ++ text "; expected map[string]any, struct, *struct, []byte (JSON), or Processable")
