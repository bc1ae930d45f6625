-- ===== src/CueLayer.antt =====
-- cue_layer.go: the walk over the compiled fields, with the Go-native check first and CUE behind
-- it. The result that the code changes in place is passed along. The metrics calls are left out.
pub mod Locations
pub mod Growth
pub mod Walk
pub mod Blind
use schemix.Prelude.{
  ℕ, Text, text, text_eq, Bool, true, false, ◌&&◌, ◌||◌, not, Option, none, some, List, [], ◌∷◌,
  ◌++◌, map, if◌then◌else◌,
}
use schemix.GoLib.{GoLib, type_name}
use schemix.Value.{Value, null, object, nil_map, GoMap, lookup_map, lookup}
use schemix.Errors.{
  ErrorCode, type_mismatch, required_missing, array_element, cue_other, code_eq, cue,
  ValidationError, Result, plain_error,
}
use schemix.Classify.{CueError, classify_cue_error}
use schemix.Classify.Disjunction.{collapse_disjunction_errors}
use schemix.Detail.{attach_structured_fields}
use schemix.Fast.{
  FastConstraint, Descriptor, FastResult, ElemFailure, constraint_list, ConstraintKind,
}
use schemix.Fast.Check.{validate_fast, validate_fast_elements}
use schemix.Schema.{
  Cue, FieldDescr, CueFields, no_fields, field, Validator, format_message, is_struct_kind,
  is_list_kind,
}
use schemix.CueLayer.Locations.{indexed_path, format_cue_error_path}

-- lazyCUEValue: a map that is not encoded yet, or a CUE value.
pub data LazyCueValue (C : Type 0) : Type 0 where
  deferred : GoMap → LazyCueValue C
  encoded : C → LazyCueValue C

unfoldable pub lazy_value : {S C : Type 0} → Cue S C → LazyCueValue C → C
lazy_value rt (deferred raw) = rt.encode raw
lazy_value rt (encoded c) = c

-- `result.Valid = false; result.Errors = append(result.Errors, errs...)`
abbrev pub reject : List ValidationError → Result → Result
reject errs r = record r { valid = false; errors = r.errors ++ errs }

abbrev pub own_descriptor : Option FastConstraint → Option Descriptor
own_descriptor none = none
own_descriptor (some fc) = some fc.own

abbrev pub is_list_constraint : ConstraintKind → Bool
is_list_constraint constraint_list = true
is_list_constraint _ = false

module _ (go : GoLib) {S : Type 0} (v : Validator S) where
  -- An error as the CUE layer builds it: its structured fields before the message is formatted.
  abbrev pub field_error :
      FieldDescr S → Option Descriptor → ErrorCode → Text → Text → Text → ValidationError
  field_error f fc code path detail suggestion =
      let e : ValidationError = record (plain_error code path cue []) {
        field_type = f.field_type;
        suggestion = suggestion;
      } in
      record (attach_structured_fields go e fc detail) {
        message = format_message v code path detail;
      }

  unfoldable pub record_field_error : FieldDescr S → ErrorCode → Text → Text → Result → Result
  unfolding attach_structured_fields format_message
  record_field_error f code path detail r =
      reject (field_error f (own_descriptor f.fast) code path detail [] ∷ []) r

  unfoldable pub record_missing_field : FieldDescr S → Result → Result
  unfolding record_field_error
  record_missing_field f r =
      record_field_error f required_missing f.path
        (text "required field " ++ go.quote f.name ++ text " is missing") r

  unfoldable pub record_non_nullable_nil : FieldDescr S → Result → Result
  unfolding record_field_error
  record_non_nullable_nil f r =
      record_field_error f required_missing f.path
        (text "field " ++ go.quote f.path ++ text " is nil but not nullable") r

  abbrev pub element_error : FieldDescr S → Option Descriptor → ElemFailure → ValidationError
  element_error f elem ef =
      field_error f elem ef.code (indexed_path f.path ef.index) ef.detail ef.suggestion

  abbrev pub reject_elements : FieldDescr S → Option Descriptor → List ElemFailure → Result → Result
  reject_elements f elem [] r = r
  reject_elements f elem (ef ∷ efs) r = reject (map (element_error f elem) (ef ∷ efs)) r

  abbrev pub element_verdict :
      FieldDescr S → Descriptor → Option (List ElemFailure) → Result → Option Result
  element_verdict f elem none r = none
  element_verdict f elem (some failures) r = some (reject_elements f (some elem) failures r)

  -- The descriptor of a list has one for its elements: extraction sets `elem` wherever it makes a list
  -- constraint. The clause for nil is not reached.
  abbrev pub check_elements : FieldDescr S → Option Descriptor → Value → Result → Option Result
  check_elements f none val r = none
  check_elements f (some elem) val r = element_verdict f elem (validate_fast_elements go elem val) r

  -- the new result if the check decides the field
  unfoldable pub check_fast_list : FieldDescr S → FastConstraint → Value → Result → Option Result
  unfolding attach_structured_fields format_message validate_fast_elements
  check_fast_list f fc val r = check_elements f fc.elem val r

  abbrev pub fast_verdict : FieldDescr S → FastConstraint → FastResult → Result → Option Result
  fast_verdict f fc fr r =
      if not fr.handled
      then none
      else if fr.valid
      then some r
      else some (reject (field_error f (some fc.own) fr.code f.path fr.detail fr.suggestion ∷ []) r)

  unfoldable pub check_fast : FieldDescr S → FastConstraint → Value → Result → Option Result
  unfolding attach_structured_fields format_message validate_fast check_fast_list
  check_fast f fc val r =
      if is_list_constraint fc.kind
      then check_fast_list f fc val r
      else fast_verdict f fc (validate_fast go fc.own val) r

  abbrev list_code : ErrorCode → ErrorCode
  list_code code = if code_eq code cue_other then array_element else code

  abbrev pub list_error : FieldDescr S → CueError → ValidationError
  list_error f e =
      plain_error (list_code (classify_cue_error go e)) (format_cue_error_path f.path e.segments)
        cue e.message

  abbrev pub formatted : ValidationError → ValidationError
  formatted e =
      let a = attach_structured_fields go e none e.message in
      record a { message = format_message v a.code a.path a.message }

  unfoldable pub list_errors : FieldDescr S → List CueError → List ValidationError
  unfolding classify_cue_error collapse_disjunction_errors attach_structured_fields format_message
  list_errors f errs = map formatted (collapse_disjunction_errors go (map (list_error f) errs))

  -- the loop of validateScalarField
  unfoldable pub record_scalar_errors : FieldDescr S → List CueError → Result → Result
  unfolding record_field_error classify_cue_error
  record_scalar_errors f [] r = r
  record_scalar_errors f (e ∷ errs) r =
      record_scalar_errors f errs
        (record_field_error f (classify_cue_error go e) f.path e.message r)

  abbrev pub reject_listed : FieldDescr S → Option (List CueError) → Result → Result
  reject_listed f none r = r
  reject_listed f (some errs) r = reject (list_errors f errs) r

  abbrev pub record_scalar_verdict : FieldDescr S → Option (List CueError) → Result → Result
  record_scalar_verdict f none r = r
  record_scalar_verdict f (some errs) r = record_scalar_errors f errs r

  module _ {C : Type 0} (rt : Cue S C) where
    unfoldable pub validate_list_field : FieldDescr S → C → Value → Result → Result
    unfolding record_field_error list_errors
    validate_list_field f field_data val r =
        if not (is_list_kind (rt.kind_of field_data))
        then record_field_error f type_mismatch f.path
            (text "field " ++ go.quote f.path ++ text " expects list, got " ++ type_name val) r
        else reject_listed f (rt.validate f.schema field_data) r

    unfoldable pub validate_scalar_field : FieldDescr S → C → Result → Result
    unfolding record_scalar_errors
    validate_scalar_field f field_data r =
        record_scalar_verdict f (rt.validate f.schema field_data) r

    -- The walk over the children, where the field has any and the value is a map that is not nil.
    -- `walk` is `validateCUEFields` at the children.
    abbrev pub validate_children :
        CueFields S → (LazyCueValue C → GoMap → Result → Result) → C → Value → Result → Result
    validate_children no_fields walk field_data val r = r
    validate_children (field _ _ _) walk field_data (object m) r =
        walk (encoded field_data) (some m) r
    validate_children (field _ _ _) walk field_data val r = r

    unfoldable pub validate_struct_field :
        FieldDescr S
        → CueFields S
        → (LazyCueValue C → GoMap → Result → Result)
        → C
        → Value
        → Result
        → Result
    unfolding record_field_error
    validate_struct_field f children walk field_data val r =
        if not (is_struct_kind (rt.kind_of field_data))
        then record_field_error f type_mismatch f.path
            (text "field " ++ go.quote f.path ++ text " expects struct, got " ++ type_name val) r
        else validate_children children walk field_data val r

    unfoldable pub validate_via_cue :
        FieldDescr S
        → CueFields S
        → (LazyCueValue C → GoMap → Result → Result)
        → LazyCueValue C
        → Value
        → Result
        → Result
    unfolding lazy_value validate_struct_field validate_list_field validate_scalar_field
    validate_via_cue f children walk input val r =
        let field_data = rt.lookup_path (lazy_value rt input) f.name in
        if not (rt.exists field_data)
        then r
        else if f.is_struct
        then validate_struct_field f children walk field_data val r
        else if f.is_list
        then validate_list_field f field_data val r
        else validate_scalar_field f field_data r

    abbrev pub decided_or : Option Result → Result → Result
    decided_or (some r) fallback = r
    decided_or none fallback = fallback

    abbrev pub check_or_cue :
        FieldDescr S → Option FastConstraint → Value → Result → Result → Result
    check_or_cue f none val r by_cue = by_cue
    check_or_cue f (some fc) val r by_cue = decided_or (check_fast f fc val r) by_cue

    -- A value that is present: nil, or one to check.
    abbrev pub check_value :
        FieldDescr S
        → CueFields S
        → (LazyCueValue C → GoMap → Result → Result)
        → LazyCueValue C
        → Value
        → Result
        → Result
    check_value f children walk input null r = if f.nullable then r else record_non_nullable_nil f r
    check_value f children walk input val r =
        check_or_cue f f.fast val r (validate_via_cue f children walk input val r)

    -- The field of the input, or its absence.
    abbrev pub check_presence :
        FieldDescr S
        → CueFields S
        → (LazyCueValue C → GoMap → Result → Result)
        → LazyCueValue C
        → Option Value
        → Result
        → Result
    check_presence f children walk input none r =
        if not f.optional && not f.has_blob then record_missing_field f r else r
    check_presence f children walk input (some val) r = check_value f children walk input val r

    -- One round of the loop, behind the early return.
    unfoldable pub validate_field :
        FieldDescr S
        → CueFields S
        → (LazyCueValue C → GoMap → Result → Result)
        → LazyCueValue C
        → GoMap
        → Result
        → Result
    unfolding lookup record_missing_field record_non_nullable_nil check_fast validate_via_cue
    validate_field f children walk input raw r =
        check_presence f children walk input (lookup_map f.name raw) r

    unfoldable pub validate_cue_fields :
        Bool → CueFields S → LazyCueValue C → GoMap → Result → Result
    unfolding validate_field
    validate_cue_fields stop_early no_fields input raw r = r
    validate_cue_fields stop_early (field f children rest) input raw r =
        let more =
          validate_cue_fields stop_early rest input raw
            (validate_field f children (validate_cue_fields stop_early children) input raw r) in
        if stop_early && not r.valid then r else more
