-- ===== src/Schema.antt =====
-- The compiled validator: the field descriptors of compile.go, the @blob rules with their @meta
-- controls, and what CUE and Bloblang are asked at run time.
use schemix.Prelude.{ℤ, Text, text, Bool, true, false, Option, none, some, List, [], ◌∷◌}
use schemix.Value.{Value, GoMap}
use schemix.Errors.{ErrorCode}
use schemix.Classify.{CueError}
use schemix.Fast.{FastConstraint}

-- The kinds of CUE that the code tells apart; `other_kind` is any other, such as a union.
pub data CueKind : Type 0 where
  string_kind int_kind float_kind number_kind bool_kind struct_kind list_kind other_kind : CueKind

unfoldable pub cue_kind_to_string : CueKind → Text
cue_kind_to_string string_kind = text "string"
cue_kind_to_string int_kind = text "int"
cue_kind_to_string float_kind = text "float"
cue_kind_to_string number_kind = text "number"
cue_kind_to_string bool_kind = text "bool"
cue_kind_to_string struct_kind = text "struct"
cue_kind_to_string list_kind = text "list"
cue_kind_to_string other_kind = text "unknown"

abbrev pub is_struct_kind : CueKind → Bool
is_struct_kind struct_kind = true
is_struct_kind _ = false

abbrev pub is_list_kind : CueKind → Bool
is_list_kind list_kind = true
is_list_kind _ = false

-- CUE, over the types of its schemas and of its encoded data. `validate` unifies a schema with
-- data and validates the result as concrete: `none` is the nil error, else the errors that
-- `cueerrors.Errors` lists.
pub record Cue (S C : Type 0) : Type 0 where
  pub encode : GoMap → C
  pub encode_value : Value → C
  pub lookup_path : C → Text → C
  pub exists : C → Bool
  pub kind_of : C → CueKind
  pub schema_kind : S → CueKind
  pub validate : S → C → Option (List CueError)

abbrev pub NonEmpty : Option (List CueError) → Type 0
NonEmpty none = Unit
NonEmpty (some []) = ⊥
NonEmpty (some (e ∷ es)) = Unit

-- An error that is not nil lists one error at least.
abbrev pub ReportsErrors : {S C : Type 0} → Cue S C → Type 0
ReportsErrors {S} {C} rt = (s : S) (c : C) → NonEmpty (rt.validate s c)

-- cueField but for its children; the lookup path is that of `name`.
pub record FieldDescr (S : Type 0) : Type 0 where
  pub name : Text
  pub path : Text
  pub schema : S
  pub optional : Bool
  pub nullable : Bool
  pub has_blob : Bool
  pub is_struct : Bool
  pub is_list : Bool
  pub priority : ℤ
  pub field_type : Text
  pub fast : Option FastConstraint

-- `[]cueField`: a field, its children, and the fields behind it
pub data CueFields (S : Type 0) : Type 0 where
  no_fields : CueFields S
  field : FieldDescr S → CueFields S → CueFields S → CueFields S

-- An executor's answer to `Query`.
pub data QueryResult : Type 0 where
  value : Value → QueryResult
  query_error : Text → QueryResult

-- A compiled Bloblang expression, by what it answers.
abbrev pub Executor : Type 0
Executor = GoMap → QueryResult

pub record FieldMeta : Type 0 where
  pub priority : ℤ
  pub optional : Bool
  pub conditional : Bool
  pub skip_empty : Bool
  pub fail_fast : Bool
  pub omit_if_skip : Bool
  pub omit_empty : Bool
  pub skip_if : Option Executor
  pub skip_if_expr : Text
  pub required_if : Option Executor
  pub required_if_expr : Text

pub record BlobRule : Type 0 where
  pub path : Text
  pub exec : Option Executor
  pub expr : Text
  pub meta : FieldMeta
  pub result_kind : CueKind

-- The parts of Validator that validation reads.
pub record Validator (S : Type 0) : Type 0 where
  pub cue_fields : CueFields S
  pub blob_rules : List BlobRule
  pub error_formatter : Option (ErrorCode → Text → Text → Text)

module _ {S : Type 0} where
  unfoldable pub format_message : Validator S → ErrorCode → Text → Text → Text
  format_message v code path detail = elim v.error_formatter [
    | some f ↦ f code path detail
    | none ↦ detail
  ]
