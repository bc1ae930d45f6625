-- ===== src/Fast.antt =====
-- fastpath.go at run time: a field's descriptor, and the checks that it makes of a value.
-- The extraction of descriptors from a CUE schema is not in this part.
pub mod Enum
pub mod Number
pub mod Check
pub mod IntRange
pub mod Sets
pub mod Elements
use schemix.Prelude.{ℕ, ℤ, Text, text, Bool, true, false, Option, none, some, List, [], ◌++◌}
use schemix.Errors.{ErrorCode, no_code, type_mismatch, enum_invalid}
use schemix.Value.{Value}
use schemix.GoLib.{type_name}

-- constraintKind
pub data ConstraintKind : Type 0 where
  constraint_none constraint_type constraint_regex constraint_range : ConstraintKind
  constraint_enum constraint_list : ConstraintKind

-- fastConstraint but for its field `elem`. `regex` is the pattern; a slice or a set is `none`
-- where Go has nil; floats are the bits of a float64.
pub record Descriptor : Type 0 where
  pub kind : ConstraintKind
  pub expect_string : Bool
  pub expect_int : Bool
  pub expect_float : Bool
  pub expect_bool : Bool
  pub expect_number : Bool
  pub regex : Text
  pub has_min : Bool
  pub has_max : Bool
  pub min_float : ℕ
  pub max_float : ℕ
  pub min_int64 : ℤ
  pub max_int64 : ℤ
  pub use_int64 : Bool
  pub min_excl : Bool
  pub max_excl : Bool
  pub string_enums : Option (List Text)
  pub int_enums : Option (List ℤ)
  pub float_enums : Option (List ℕ)
  pub string_enum_set : Option (List Text)
  pub int_enum_set : Option (List ℤ)

-- fastConstraint. The descriptor of an element is never itself that of a list, so it has no
-- `elem` of its own.
pub record FastConstraint : Type 0 where
  pub own : Descriptor
  pub open own use *
  pub elem : Option Descriptor

-- fastResult; `code` and `detail` mean nothing unless it is handled and not valid
pub record FastResult : Type 0 where
  pub handled : Bool
  pub valid : Bool
  pub code : ErrorCode
  pub detail : Text
  pub suggestion : Text

abbrev pub fallback_to_cue : FastResult
fallback_to_cue = record {
  handled = false;
  valid = false;
  code = no_code;
  detail = [];
  suggestion = [];
}

abbrev pub pass : FastResult
pass = record { handled = true; valid = true; code = no_code; detail = []; suggestion = [] }

abbrev pub fail : ErrorCode → Text → FastResult
fail c d = record { handled = true; valid = false; code = c; detail = d; suggestion = [] }

abbrev pub fail_enum : Text → Text → FastResult
fail_enum d s = record {
  handled = true;
  valid = false;
  code = enum_invalid;
  detail = d;
  suggestion = s;
}

-- `fmt.Sprintf("expected …, got %T", val)`
abbrev pub expected_got : Text → Value → FastResult
expected_got expected val =
    fail type_mismatch (text "expected " ++ expected ++ text ", got " ++ type_name val)

-- fastElemFailure
pub record ElemFailure : Type 0 where
  pub index : ℕ
  pub code : ErrorCode
  pub detail : Text
  pub suggestion : Text
