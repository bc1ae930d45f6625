-- ===== src/Examples.antt =====
-- Concrete parameters and inputs, on which the definitions run.
mod Processing
mod Paths
mod Checks
mod Texts
mod Orders
mod Calls
mod Messages
mod Controls
use schemix.Prelude.{
  ℕ, ◌+◌, ℤ, pos, Text, text, Bool, true, false, ◌&&◌, not, leb, has_prefix, Option, none, some,
  List, [], ◌∷◌, ◌++◌, if◌then◌else◌,
}
use schemix.GoLib.{GoLib}
use schemix.Value.{
  Value, null, bool, str, number, float64, object, list, nil_map, GoMap, Entries, end, entry, int,
  Items, nil, cons,
}
use schemix.Nested.{index}
use schemix.Classify.{CueError}
use schemix.Schema.{
  Cue, CueKind, string_kind, int_kind, bool_kind, struct_kind, other_kind, float_kind, list_kind,
  NonEmpty, ReportsErrors, FieldDescr, CueFields, no_fields, field, QueryResult, value, query_error,
  Executor, FieldMeta, BlobRule, Validator,
}

-- The functions of Go on plain ASCII texts; the regular expressions are literal prefixes.
abbrev pub lower : ℕ → ℕ
lower c = if leb 65 c && leb c 90 then c + 32 else c

abbrev pub lower_all : Text → Text
lower_all [] = []
lower_all (c ∷ s) = lower c ∷ lower_all s

abbrev pub ascii : GoLib
ascii = record {
  quote = λ s. text "'" ++ s ++ text "'";
  unquote = λ s. none;
  print_float64 = λ f. text "0.5";
  print_float32 = λ f. text "0.5";
  append_float = λ f. text "0.5";
  to_lower = lower_all;
  runes = λ s. s;
  to_lower_rune = lower;
  match_string = λ pattern s. has_prefix s pattern;
}

-- A CUE whose schemas are kinds and whose data are the values themselves.
abbrev kind_of_value : Value → CueKind
kind_of_value (str s) = string_kind
kind_of_value (number k n) = int_kind
kind_of_value (bool b) = bool_kind
kind_of_value (float64 f) = float_kind
kind_of_value (object m) = struct_kind
kind_of_value (list items) = list_kind
kind_of_value _ = other_kind

abbrev map_value : GoMap → Value
map_value none = nil_map
map_value (some m) = object m

abbrev is_present : Value → Bool
is_present null = false
is_present _ = true

abbrev conflict : CueError
conflict = record {
  format = text "conflicting values";
  args = [];
  message = text "mismatch";
  segments = [];
}

abbrev is_of : CueKind → Value → Bool
is_of string_kind (str s) = true
is_of int_kind (number k n) = true
is_of bool_kind (bool b) = true
is_of _ v = false

abbrev errors_by : Bool → Option (List CueError)
errors_by true = none
errors_by false = some (conflict ∷ [])

abbrev pub kinds : Cue CueKind Value
kinds = record {
  encode = map_value;
  encode_value = λ v. v;
  lookup_path = index;
  exists = is_present;
  kind_of = kind_of_value;
  schema_kind = λ s. s;
  validate = λ s c. errors_by (is_of s c);
}

errors_by-NonEmpty : (b : Bool) → NonEmpty (errors_by b)
errors_by-NonEmpty true = tt
errors_by-NonEmpty false = tt

pub kinds-ReportsErrors : ReportsErrors kinds
kinds-ReportsErrors s c = errors_by-NonEmpty (is_of s c)

abbrev pub required_field : Text → CueKind → ℤ → FieldDescr CueKind
required_field name kind p = record {
  name = name;
  path = name;
  schema = kind;
  optional = false;
  nullable = false;
  has_blob = false;
  is_struct = false;
  is_list = false;
  priority = p;
  field_type = [];
  fast = none;
}

abbrev pub plain_meta : ℤ → FieldMeta
plain_meta p = record {
  priority = p;
  optional = false;
  conditional = false;
  skip_empty = false;
  fail_fast = false;
  omit_if_skip = false;
  omit_empty = false;
  skip_if = none;
  skip_if_expr = [];
  required_if = none;
  required_if_expr = [];
}

abbrev pub rule_at : Text → ℤ → Executor → BlobRule
rule_at path p exec = record {
  path = path;
  exec = some exec;
  expr = text "this";
  meta = plain_meta p;
  result_kind = string_kind;
}

abbrev pub rejecting : BlobRule
rejecting = rule_at (text "age") (pos 1) λ input. value (bool false)

-- Two fields, and two rules that reject every input, in the groups 1 and 2.
abbrev pub two_groups : Validator CueKind
two_groups = record {
  cue_fields =
      field (required_field (text "age") int_kind (pos 1)) no_fields
        (field (required_field (text "name") string_kind (pos 2)) no_fields no_fields);
  blob_rules =
      rejecting
      ∷ rule_at (text "name") (pos 2) (λ input. query_error (text "no such function"))
      ∷ [];
  error_formatter = none;
}

abbrev pub person : Entries
person = entry (text "age") (number int (pos 3)) (entry (text "name") (str (text "Ann")) end)

-- The age is of the wrong type.
abbrev pub stranger : Entries
stranger = entry (text "age") (str (text "three")) (entry (text "name") (str (text "Ann")) end)
