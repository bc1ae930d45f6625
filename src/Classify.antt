-- ===== src/Classify.antt =====
-- classify.go: the code of an error that CUE reports, and the errors of a failed disjunction
-- merged into one. A CUE error is its format string, its arguments as `%v` prints them, its
-- message and its path.
pub mod Disjunction
use schemix.Prelude.{
  Text, text, text_eq, Bool, true, false, ◌&&◌, ◌||◌, not, any, all, List, [], ◌∷◌, has_prefix,
  contains, if◌then◌else◌,
}
use schemix.GoLib.{GoLib}
use schemix.Errors.{
  ErrorCode, no_code, format_mismatch, type_mismatch, enum_invalid, range_violation,
  required_missing, cue_other, code_eq,
}

pub record CueError : Type 0 where
  pub format : Text
  pub args : List Text
  pub message : Text
  pub segments : List Text

abbrev is_pattern_bound : List Text → Bool
is_pattern_bound (a ∷ b ∷ args) = has_prefix b (text "=~") || has_prefix b (text "!~")
is_pattern_bound _ = false

-- The lookup in `formatCodes` comes first.
unfoldable pub classify_by_format : Text → List Text → ErrorCode
classify_by_format format args =
    if text_eq format (text "conflicting values %s and %s (mismatched types %s and %s)")
    then type_mismatch
    else if text_eq format (text "conflicting values %s and %s")
    then enum_invalid
    else if text_eq format (text "%d errors in empty disjunction:")
    then enum_invalid
    else if text_eq format (text "incomplete value %v")
    then required_missing
    else if text_eq format (text "invalid value %v (out of bound %s)")
    then (if is_pattern_bound args then format_mismatch else range_violation)
    else if has_prefix format (text "cannot use")
    then type_mismatch
    else if contains format (text "field is required")
    then required_missing
    else no_code

pub record MsgRule : Type 0 where
  pub code : ErrorCode
  pub must : List Text
  pub any_of : List Text
  pub none_of : List Text

abbrev rule : ErrorCode → List Text → List Text → List Text → MsgRule
rule c m a n = record { code = c; must = m; any_of = a; none_of = n }

abbrev pub msg_rules : List MsgRule
msg_rules =
    rule format_mismatch (text "does not match" ∷ []) [] []
    ∷ rule type_mismatch (text "cannot use value" ∷ []) [] []
    ∷ rule enum_invalid (text "empty disjunction" ∷ []) [] []
    ∷ rule enum_invalid (text "conflicting values" ∷ text "|" ∷ []) [] []
    ∷ rule enum_invalid (text "conflicting values" ∷ []) []
        (text "string" ∷ text "int" ∷ text "bool" ∷ text "number" ∷ text "float" ∷ [])
    ∷ rule type_mismatch (text "conflicting values" ∷ []) [] []
    ∷ rule format_mismatch (text "out of bound" ∷ text "=~" ∷ []) [] []
    ∷ rule range_violation (text "out of bound" ∷ []) [] []
    ∷ rule range_violation (text "invalid value" ∷ [])
        (text ">=" ∷ text "<=" ∷ text "> " ∷ text "< " ∷ []) []
    ∷ rule required_missing (text "incomplete value" ∷ []) [] []
    ∷ rule required_missing (text "field is required" ∷ []) [] []
    ∷ []

unfoldable pub contains_all : Text → List Text → Bool
contains_all msg subs = all (contains msg) subs

unfoldable pub contains_any : Text → List Text → Bool
contains_any msg [] = true
contains_any msg (sub ∷ subs) = any (contains msg) (sub ∷ subs)

unfoldable pub contains_none : Text → List Text → Bool
contains_none msg subs = all (λ sub. not (contains msg sub)) subs

unfoldable pub match_msg : MsgRule → Text → Bool
unfolding contains_all contains_any contains_none contains
match_msg r msg =
    contains_all msg r.must && contains_any msg r.any_of && contains_none msg r.none_of

unfoldable pub first_match : List MsgRule → Text → ErrorCode
unfolding match_msg
first_match [] msg = cue_other
first_match (r ∷ rules) msg =
    let rest = first_match rules msg in if match_msg r msg then r.code else rest

module _ (go : GoLib) where
  unfoldable pub classify_by_message : Text → ErrorCode
  unfolding first_match
  classify_by_message msg = first_match msg_rules (go.to_lower msg)

  unfoldable pub classify_cue_error : CueError → ErrorCode
  unfolding classify_by_format classify_by_message
  classify_cue_error e =
      let code = classify_by_format e.format e.args in
      if code_eq code no_code then classify_by_message e.message else code
