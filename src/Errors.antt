-- ===== src/Errors.antt =====
-- errors.go: the error codes, a validation error, the result of a call and its queries.
-- The pointer from a result to its validator, which only the localizer reads, is left out.
pub mod Queries
use schemix.Prelude.{
  Text, text, text_eq, Bool, true, false, Option, none, some, List, [], ◌∷◌, ◌++◌, keep_if, any,
  map,
}
use schemix.Value.{GoMap}

-- ErrorCode, a string type: besides the constants below, a caller's own code is one too. `no_code`
-- is the zero value.
abbrev pub ErrorCode : Type 0
ErrorCode = Text

abbrev pub no_code : ErrorCode
no_code = []

abbrev pub format_mismatch : ErrorCode
format_mismatch = text "E1F01"

abbrev pub type_mismatch : ErrorCode
type_mismatch = text "E1T01"

abbrev pub enum_invalid : ErrorCode
enum_invalid = text "E1E01"

abbrev pub range_violation : ErrorCode
range_violation = text "E1R01"

abbrev pub required_missing : ErrorCode
required_missing = text "E1M01"

abbrev pub array_element : ErrorCode
array_element = text "E1A01"

abbrev pub cue_other : ErrorCode
cue_other = text "E1X01"

abbrev pub biz_rule_failed : ErrorCode
biz_rule_failed = text "E2B01"

abbrev pub expr_exec_error : ErrorCode
expr_exec_error = text "E2X01"

abbrev pub blob_type_mismatch : ErrorCode
blob_type_mismatch = text "E2T01"

abbrev pub cond_required : ErrorCode
cond_required = text "E3C01"

abbrev pub meta_runtime_error : ErrorCode
meta_runtime_error = text "E3X01"

abbrev pub config_error : ErrorCode
config_error = text "E0C01"

-- `a == b` on codes
abbrev pub code_eq : ErrorCode → ErrorCode → Bool
code_eq a b = text_eq a b

-- ErrorType, a string type as well.
abbrev pub ErrorType : Type 0
ErrorType = Text

abbrev pub cue : ErrorType
cue = text "cue"

abbrev pub bloblang : ErrorType
bloblang = text "bloblang"

abbrev pub meta : ErrorType
meta = text "meta"

abbrev pub config : ErrorType
config = text "config"

pub record ValidationError : Type 0 where
  pub code : ErrorCode
  pub path : Text
  pub error_type : ErrorType
  pub field_type : Text
  pub message : Text
  pub suggestion : Text
  pub enum_options : List Text
  pub bound : Text

-- The fields that the Go literal gives; the others are zero.
abbrev pub plain_error : ErrorCode → Text → ErrorType → Text → ValidationError
plain_error c p t m = record {
  code = c;
  path = p;
  error_type = t;
  field_type = [];
  message = m;
  suggestion = [];
  enum_options = [];
  bound = [];
}

pub record Result : Type 0 where
  pub valid : Bool
  pub errors : List ValidationError
  pub output : GoMap

-- (ValidationError).Error
unfoldable pub error_text : ValidationError → Text
error_text e = text "[" ++ e.code ++ text "] " ++ e.path ++ text ": " ++ e.message

-- Result.Err: nil, or all errors joined
unfoldable pub err : Result → Option (List ValidationError)
err r = elim r.valid [ true ↦ none | false ↦ elim r.errors [ [] ↦ none | e ∷ es ↦ some (e ∷ es) ] ]

unfoldable pub first_error : Result → Option ValidationError
first_error r = elim r.errors [ [] ↦ none | e ∷ es ↦ some e ]

unfoldable pub errors_by_path : Result → Text → List ValidationError
errors_by_path r path = keep_if (λ e. text_eq e.path path) r.errors

unfoldable pub has_code : Result → ErrorCode → Bool
has_code r code = any (λ e. code_eq e.code code) r.errors

unfoldable pub errors_by_code : Result → ErrorCode → List ValidationError
errors_by_code r code = keep_if (λ e. code_eq e.code code) r.errors

unfoldable pub errors_by_type : Result → ErrorType → List ValidationError
errors_by_type r t = keep_if (λ e. text_eq e.error_type t) r.errors

unfoldable pub has_errors_at : Result → Text → Bool
has_errors_at r path = any (λ e. text_eq e.path path) r.errors

-- `strings.Join(msgs, "\n")`
join_lines : List Text → Text
join_lines [] = []
join_lines (m ∷ []) = m
join_lines (m ∷ n ∷ ms) = m ++ b'\n' ∷ join_lines (n ∷ ms)

unfoldable pub error_messages : Result → Text
unfolding join_lines error_text
error_messages r = join_lines (map error_text r.errors)
