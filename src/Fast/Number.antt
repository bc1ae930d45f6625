-- ===== src/Fast/Number.antt =====
-- The checks of types and numeric ranges in fastpath.go.
use schemix.Prelude.{
  ℕ, ℤ, Text, text, ◌&&◌, not, Option, none, some, ◌++◌, if◌then◌else◌, ltb_ℤ, leb_ℤ,
}
use schemix.Value.{Value, bool, str, number, float64, float32}
use schemix.Value.Float.{is_nan, is_inf, float_of_int, float_lt, float_le}
use schemix.Errors.{type_mismatch, range_violation, format_mismatch}
use schemix.GoLib.{GoLib, print_int, print_number}
use schemix.Fast.{Descriptor, FastResult, fallback_to_cue, pass, fail, expected_got}

unfoldable pub to_int64 : Value → Option ℤ
to_int64 (number k n) = some n
to_int64 _ = none

unfoldable pub to_float64 : Value → Option ℕ
unfolding float_of_int
to_float64 (number k n) = some (float_of_int n)
to_float64 (float64 f) = some f
to_float64 (float32 f) = some f
to_float64 _ = none

unfoldable pub validate_fast_int_type : Value → FastResult
validate_fast_int_type (number k n) = pass
validate_fast_int_type (float64 f) = expected_got (text "int") (float64 f)
validate_fast_int_type (float32 f) = expected_got (text "int") (float32 f)
validate_fast_int_type _ = fallback_to_cue

module _ (go : GoLib) where
  unfoldable pub validate_finite_float : ℕ → Value → Text → FastResult
  unfolding is_nan is_inf
  validate_finite_float n original expected =
      if is_nan n
      then fail type_mismatch
          (text "expected finite " ++ expected ++ text ", got " ++ print_number go original)
      else if is_inf n
      then fail range_violation
          (expected ++ text " value out of finite range: " ++ print_number go original)
      else pass

  unfoldable pub validate_fast_float_type : Value → FastResult
  unfolding validate_finite_float
  validate_fast_float_type (float64 f) = validate_finite_float f (float64 f) (text "float")
  validate_fast_float_type (float32 f) = validate_finite_float f (float32 f) (text "float")
  validate_fast_float_type val = expected_got (text "float") val

  unfoldable pub validate_fast_number_type : Value → FastResult
  unfolding validate_finite_float
  validate_fast_number_type (float64 f) = validate_finite_float f (float64 f) (text "number")
  validate_fast_number_type (float32 f) = validate_finite_float f (float32 f) (text "number")
  validate_fast_number_type (number k n) = pass
  validate_fast_number_type val = expected_got (text "number") val

  abbrev string_type : Value → FastResult
  string_type (str s) = pass
  string_type val = expected_got (text "string") val

  abbrev bool_type : Value → FastResult
  bool_type (bool b) = pass
  bool_type val = expected_got (text "bool") val

  unfoldable pub validate_fast_type : Descriptor → Value → FastResult
  unfolding validate_fast_int_type validate_fast_float_type validate_fast_number_type
  validate_fast_type fc val =
      if fc.expect_string
      then string_type val
      else if fc.expect_int
      then validate_fast_int_type val
      else if fc.expect_float
      then validate_fast_float_type val
      else if fc.expect_number
      then validate_fast_number_type val
      else if fc.expect_bool
      then bool_type val
      else pass

  unfoldable pub validate_fast_regex : Descriptor → Value → FastResult
  validate_fast_regex fc (str s) =
      if go.match_string fc.regex s
      then pass
      else fail format_mismatch (text "does not match " ++ fc.regex)
  validate_fast_regex fc val = expected_got (text "string") val

  -- the result where the value is rejected
  unfoldable pub reject_int_on_float : Descriptor → Value → Option FastResult
  reject_int_on_float fc (number k n) =
      if fc.expect_float then some (expected_got (text "float") (number k n)) else none
  reject_int_on_float fc _ = none

-- `fmt.Sprintf("value %d out of bound >%d", n, bound)` and its like
abbrev pub out_of_bound : Text → Text → Text → FastResult
out_of_bound val op bound =
    fail range_violation (text "value " ++ val ++ text " out of bound " ++ op ++ bound)

unfoldable pub validate_fast_int64_range : Descriptor → ℤ → FastResult
validate_fast_int64_range fc n =
    if not fc.use_int64
    then fallback_to_cue
    else if fc.has_min && fc.min_excl && leb_ℤ n fc.min_int64
    then out_of_bound (print_int n) (text ">") (print_int fc.min_int64)
    else if fc.has_min && not fc.min_excl && ltb_ℤ n fc.min_int64
    then out_of_bound (print_int n) (text ">=") (print_int fc.min_int64)
    else if fc.has_max && fc.max_excl && leb_ℤ fc.max_int64 n
    then out_of_bound (print_int n) (text "<") (print_int fc.max_int64)
    else if fc.has_max && not fc.max_excl && ltb_ℤ fc.max_int64 n
    then out_of_bound (print_int n) (text "<=") (print_int fc.max_int64)
    else pass

module _ (go : GoLib) where
  -- the part of validateFastRange behind `toFloat64`
  unfoldable pub validate_float_range : Descriptor → Value → ℕ → FastResult
  unfolding is_nan is_inf float_lt float_le
  validate_float_range fc val n =
      if is_nan n
      then fail type_mismatch (text "expected finite number, got " ++ print_number go val)
      else if is_inf n
      then fail range_violation
          (text "value " ++ print_number go val ++ text " out of finite range")
      else if fc.has_min && fc.min_excl && float_le n fc.min_float
      then out_of_bound (print_number go val) (text ">") (go.print_float64 fc.min_float)
      else if fc.has_min && not fc.min_excl && float_lt n fc.min_float
      then out_of_bound (print_number go val) (text ">=") (go.print_float64 fc.min_float)
      else if fc.has_max && fc.max_excl && float_le fc.max_float n
      then out_of_bound (print_number go val) (text "<") (go.print_float64 fc.max_float)
      else if fc.has_max && not fc.max_excl && float_lt fc.max_float n
      then out_of_bound (print_number go val) (text "<=") (go.print_float64 fc.max_float)
      else pass

  unfoldable pub validate_fast_int_range : Descriptor → Value → FastResult
  unfolding validate_fast_int64_range
  validate_fast_int_range fc (number k n) = validate_fast_int64_range fc n
  validate_fast_int_range fc (float64 f) = expected_got (text "int") (float64 f)
  validate_fast_int_range fc (float32 f) = expected_got (text "int") (float32 f)
  validate_fast_int_range fc _ = fallback_to_cue

  unfoldable pub validate_fast_range : Descriptor → Value → FastResult
  unfolding validate_fast_int_range validate_float_range to_float64 reject_int_on_float
  validate_fast_range fc val =
      if fc.expect_int
      then validate_fast_int_range fc val
      else elim (reject_int_on_float go fc val) [
        | some fr ↦ fr
        | none ↦ elim (to_float64 val) [
          | none ↦ expected_got (text "number") val
          | some n ↦ validate_float_range fc val n
        ]
      ]
