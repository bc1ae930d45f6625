-- ===== src/GoLib.antt =====
-- Functions of Go's standard library that the code calls. Those that are a parameter of the model
-- are the fields of `GoLib`; decimal printing, TrimSpace (over ASCII white space) and the search
-- for a substring are defined.
use schemix.Prelude.{
  ℕ, zero, suc, ◌+◌, ◌/◌, ◌%◌, ℤ, pos, negsuc, Text, text, Bool, ◌&&◌, ◌||◌, leb, ◌==◌,
  if◌then◌else◌, Option, none, some, List, [], ◌∷◌, has_prefix,
}
use schemix.Value.{
  Value, null, bool, str, number, float64, float32, bytes, list, object, nil_map, other, IntKind,
  int, int8, int16, int32, int64,
}

pub record GoLib : Type 0 where
  -- strconv.Quote, strconv.Unquote (an error is `none`)
  pub quote : Text → Text
  pub unquote : Text → Option Text
  -- `%v` of a float64 and of a float32; strconv.AppendFloat(…, 'g', -1, 64)
  pub print_float64 : ℕ → Text
  pub print_float32 : ℕ → Text
  pub append_float : ℕ → Text
  -- strings.ToLower
  pub to_lower : Text → Text
  -- the runes that `range s` visits; unicode.ToLower
  pub runes : Text → List ℕ
  pub to_lower_rune : ℕ → ℕ
  -- regexp: does the pattern match the text
  pub match_string : Text → Text → Bool

-- The decimal digits of `n` in front of `rest`, with fuel.
unfoldable pub digits_before : ℕ → ℕ → Text → Text
digits_before zero n rest = rest
digits_before (suc f) n rest =
    let here = (b'0' + n % 10) ∷ rest in
    let more = digits_before f (n / 10) here in if n / 10 == 0 then here else more

unfoldable pub decimal : ℕ → Text
unfolding digits_before
decimal n = digits_before (suc n) n []

-- `%d`, strconv.AppendInt(…, 10), strconv.FormatInt(…, 10)
unfoldable pub print_int : ℤ → Text
unfolding decimal
print_int (pos n) = decimal n
print_int (negsuc n) = b'-' ∷ decimal (suc n)

abbrev pub kind_name : IntKind → Text
kind_name int = text "int"
kind_name int8 = text "int8"
kind_name int16 = text "int16"
kind_name int32 = text "int32"
kind_name int64 = text "int64"

-- `%T`
unfoldable pub type_name : Value → Text
type_name null = text "<nil>"
type_name (bool b) = text "bool"
type_name (str s) = text "string"
type_name (number k n) = kind_name k
type_name (float64 f) = text "float64"
type_name (float32 f) = text "float32"
type_name (bytes b) = text "[]uint8"
type_name (list items) = text "[]interface {}"
type_name (object m) = text "map[string]interface {}"
type_name nil_map = text "map[string]interface {}"
type_name (other name) = name

-- `%v` of a number
unfoldable pub print_number : GoLib → Value → Text
unfolding print_int
print_number go (number k n) = print_int n
print_number go (float64 f) = go.print_float64 f
print_number go (float32 f) = go.print_float32 f
print_number go _ = []

abbrev pub is_space : ℕ → Bool
is_space c = c == 32 || (leb 9 c && leb c 13)

unfoldable pub trim_left : Text → Text
trim_left [] = []
trim_left (c ∷ s) = let rest = trim_left s in if is_space c then rest else c ∷ s

unfoldable pub trim_right : Text → Text
trim_right [] = []
trim_right (c ∷ s) = elim (trim_right s) [
  | [] ↦ if is_space c then [] else c ∷ []
  | d ∷ r ↦ c ∷ d ∷ r
]

-- strings.TrimSpace
unfoldable pub trim_space : Text → Text
unfolding trim_left trim_right
trim_space s = trim_right (trim_left s)

abbrev pub drop_prefix : Text → Text → Text
drop_prefix s [] = s
drop_prefix [] (c ∷ p) = []
drop_prefix (d ∷ s) (c ∷ p) = drop_prefix s p

-- What follows the first occurrence of `marker`: `s[strings.Index(s, marker)+len(marker):]`
unfoldable pub after : Text → Text → Option Text
unfolding has_prefix
after marker [] = if has_prefix [] marker then some [] else none
after marker (c ∷ s) =
    let rest = after marker s in
    if has_prefix (c ∷ s) marker then some (drop_prefix (c ∷ s) marker) else rest

-- `s[:strings.IndexByte(s, c)]`, or all of `s` if there is no `c`
unfoldable pub up_to : ℕ → Text → Text
up_to c [] = []
up_to c (d ∷ s) = let rest = up_to c s in if d == c then [] else d ∷ rest
