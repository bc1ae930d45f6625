-- ===== src/Fast/Enum.antt =====
-- The enum checks of fastpath.go, the membership sets and the text of a violation.
use schemix.Prelude.{
  ℕ, ℤ, Text, text, text_eq, Bool, ◌||◌, Option, none, some, List, [], ◌∷◌, ◌++◌, map, any, length,
  ltb, eqb_ℤ, if◌then◌else◌,
}
use schemix.Value.{Value, str, number, float64, float32}
use schemix.Value.Float.{is_nan, is_inf, float_eq}
use schemix.Errors.{type_mismatch}
use schemix.GoLib.{GoLib, print_int, print_number}
use schemix.Suggest.{suggest_closest}
use schemix.Fast.{Descriptor, FastResult, fallback_to_cue, pass, fail, fail_enum, expected_got}
use schemix.Fast.Number.{to_float64, reject_int_on_float}

abbrev pub enum_set_threshold : ℕ
enum_set_threshold = 8

-- A map with empty values, by its keys: `set[e] = struct{}{}` adds a key once.
abbrev pub add_key {ℓ} : {A : Type ℓ} → (A → A → Bool) → A → List A → List A
add_key eq e set = if any (eq e) set then set else e ∷ set

abbrev pub key_set {ℓ} : {A : Type ℓ} → (A → A → Bool) → List A → List A
key_set eq [] = []
key_set eq (e ∷ enums) = add_key eq e (key_set eq enums)

unfoldable pub new_string_enum_set : List Text → Option (List Text)
new_string_enum_set enums =
    if ltb (length enums) enum_set_threshold then none else some (key_set text_eq enums)

unfoldable pub new_int_enum_set : List ℤ → Option (List ℤ)
new_int_enum_set enums =
    if ltb (length enums) enum_set_threshold then none else some (key_set eqb_ℤ enums)

-- the candidates, separated by ", "
unfoldable pub comma_list : List Text → Text
comma_list [] = []
comma_list (e ∷ []) = e
comma_list (e ∷ f ∷ es) = e ++ text ", " ++ comma_list (f ∷ es)

abbrev pub enum_detail : Text → List Text → Text
enum_detail got options =
    text "value " ++ got ++ text " not in enum [" ++ comma_list options ++ text "]"

module _ (go : GoLib) where
  unfoldable pub string_enum_detail : Text → List Text → Text
  unfolding comma_list
  string_enum_detail got enums = enum_detail (go.quote got) (map go.quote enums)

  unfoldable pub int64_enum_detail : ℤ → List ℤ → Text
  unfolding comma_list
  int64_enum_detail got enums = enum_detail (print_int got) (map print_int enums)

  unfoldable pub float64_enum_detail : ℕ → List ℕ → Text
  unfolding comma_list
  float64_enum_detail got enums = enum_detail (go.append_float got) (map go.append_float enums)

-- Membership by the set where there is one, by a scan of the candidates otherwise.
abbrev pub member {ℓ} : {A : Type ℓ} → (A → A → Bool) → Option (List A) → List A → A → Bool
member eq (some set) enums v = any (eq v) set
member eq none enums v = any (eq v) enums

module _ (go : GoLib) where
  abbrev check_string_enum : Option (List Text) → List Text → Value → FastResult
  check_string_enum set enums (str s) =
      if member text_eq set enums s
      then pass
      else fail_enum (string_enum_detail go s enums) (suggest_closest go s enums)
  check_string_enum set enums val = expected_got (text "string") val

  abbrev check_int_enum : Option (List ℤ) → List ℤ → Value → FastResult
  check_int_enum set enums (number k n) =
      if member eqb_ℤ set enums n then pass else fail_enum (int64_enum_detail go n enums) []
  check_int_enum set enums (float64 f) = expected_got (text "int") (float64 f)
  check_int_enum set enums (float32 f) = expected_got (text "int") (float32 f)
  check_int_enum set enums _ = fallback_to_cue

  abbrev check_float_enum : List ℕ → Value → ℕ → FastResult
  check_float_enum enums val n =
      if is_nan n || is_inf n
      then fail type_mismatch (text "expected finite number, got " ++ print_number go val)
      else if any (float_eq n) enums
      then pass
      else fail_enum (float64_enum_detail go n enums) []

  unfoldable pub validate_fast_enum : Descriptor → Value → FastResult
  unfolding is_nan is_inf float_eq to_float64 reject_int_on_float
  validate_fast_enum fc val = elim fc.string_enums [
    | some enums ↦ check_string_enum fc.string_enum_set enums val
    | none ↦ elim fc.int_enums [
      | some enums ↦ check_int_enum fc.int_enum_set enums val
      | none ↦ elim fc.float_enums [
        | none ↦ pass
        | some enums ↦ elim (reject_int_on_float go fc val) [
          | some fr ↦ fr
          | none ↦ elim (to_float64 val) [
            | none ↦ expected_got (text "number") val
            | some n ↦ check_float_enum enums val n
          ]
        ]
      ]
    ]
  ]

  -- enumOptionsOf, of a descriptor that is not nil
  unfoldable pub enum_options_of : Descriptor → List Text
  enum_options_of fc = elim fc.string_enums [
    | some enums ↦ enums
    | none ↦ elim fc.int_enums [
      | some enums ↦ map print_int enums
      | none ↦ elim fc.float_enums [ some enums ↦ map go.append_float enums | none ↦ [] ]
    ]
  ]
