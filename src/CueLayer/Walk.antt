-- ===== src/CueLayer/Walk.antt =====
-- What the steps of the walk in cue_layer.go do to a result.
use schemix.Prelude.{
  Text, ◌≢◌, refl, Bool, true, false, ◌&&◌, not, Option, none, some, List, [], ◌∷◌, map, text, ◌++◌,
  if◌then◌else◌,
}
use schemix.GoLib.{GoLib, type_name}
use schemix.Value.{Value, null, bool, object, GoMap, lookup_map}
use schemix.Errors.{type_mismatch, ErrorCode, ValidationError, Result}
use schemix.Classify.{CueError, classify_cue_error}
use schemix.Classify.Disjunction.{collapse-ne-nil}
use schemix.Fast.{FastConstraint, FastResult, Descriptor, ElemFailure}
use schemix.Fast.Check.{validate_fast}
use schemix.Schema.{
  is_struct_kind, is_list_kind, Cue, FieldDescr, CueFields, no_fields, field, Validator, NonEmpty,
  ReportsErrors,
}
use schemix.CueLayer.{
  LazyCueValue, reject, field_error, record_field_error, record_missing_field, lazy_value,
  record_non_nullable_nil, reject_elements, element_verdict, check_elements, reject_listed,
  record_scalar_verdict, check_presence, fast_verdict, check_fast, list_errors,
  record_scalar_errors, validate_list_field, validate_scalar_field, validate_children, list_error,
  validate_struct_field, validate_via_cue, check_or_cue, check_value, validate_field, formatted,
  validate_cue_fields, decided_or, is_list_constraint,
}
use schemix.CueLayer.Growth.{Grows, Grows-refl, Grows-trans, Grows-reject, Grows-one}

Grows-if : (b : Bool) (r s t : Result) → Grows r s → Grows r t → Grows r (if b then s else t)
Grows-if true r s t h k = h
Grows-if false r s t h k = k

map-ne-nil {ℓ κ} : {A : Type ℓ} {B : Type κ} (f : A → B) (xs : List A) → xs ≢ [] → map f xs ≢ []
map-ne-nil f [] h = absurd (h refl)
map-ne-nil f (x ∷ xs) h = cc

module _ (go : GoLib) {S : Type 0} (v : Validator S) where
  pub record_field_error-Grows :
      (f : FieldDescr S) (code : ErrorCode) (path detail : Text) (r : Result)
      → Grows r (record_field_error go v f code path detail r)
  unfolding record_field_error
  record_field_error-Grows f code path detail r = Grows-one _ r

  non_nullable-Grows : (f : FieldDescr S) (r : Result) → Grows r (record_non_nullable_nil go v f r)
  unfolding record_non_nullable_nil
  non_nullable-Grows f r = Grows-one _ r

  missing-Grows : (f : FieldDescr S) (r : Result) → Grows r (record_missing_field go v f r)
  unfolding record_missing_field
  missing-Grows f r = Grows-one _ r

  elements-Grows :
      (f : FieldDescr S) (elem : Option Descriptor) (efs : List ElemFailure) (r : Result)
      → Grows r (reject_elements go v f elem efs r)
  elements-Grows f elem [] r = Grows-refl r
  elements-Grows f elem (ef ∷ efs) r = Grows-reject _ r (cc)

  -- The result of a check that decides.
  abbrev GrowsIf : Result → Option Result → Type 0
  GrowsIf r none = Unit
  GrowsIf r (some r') = Grows r r'

  element_verdict-Grows :
      (f : FieldDescr S) (elem : Descriptor) (o : Option (List ElemFailure)) (r : Result)
      → GrowsIf r (element_verdict go v f elem o r)
  element_verdict-Grows f elem none r = tt
  element_verdict-Grows f elem (some failures) r = elements-Grows f (some elem) failures r

  check_elements-Grows :
      (f : FieldDescr S) (o : Option Descriptor) (val : Value) (r : Result)
      → GrowsIf r (check_elements go v f o val r)
  check_elements-Grows f none val r = tt
  check_elements-Grows f (some elem) val r = element_verdict-Grows f elem _ r

  GrowsIf-if :
      (b : Bool) (r : Result) (s t : Option Result)
      → GrowsIf r s
      → GrowsIf r t
      → GrowsIf r (if b then s else t)
  GrowsIf-if true r s t h k = h
  GrowsIf-if false r s t h k = k

  fast_verdict-Grows :
      (f : FieldDescr S) (fc : FastConstraint) (fr : FastResult) (r : Result)
      → GrowsIf r (fast_verdict go v f fc fr r)
  fast_verdict-Grows f fc fr r =
      let e : ValidationError =
        field_error go v f (some fc.own) fr.code f.path fr.detail fr.suggestion in
      let rejected : Option Result = some (reject (e ∷ []) r) in
      GrowsIf-if (not fr.handled) r none (if fr.valid then some r else rejected) tt
        (GrowsIf-if fr.valid r (some r) rejected (Grows-refl r) (Grows-one e r))

  check_fast-Grows :
      (f : FieldDescr S) (fc : FastConstraint) (val : Value) (r : Result)
      → GrowsIf r (check_fast go v f fc val r)
  unfolding check_fast
  check_fast-Grows f fc val r =
      GrowsIf-if (is_list_constraint fc.kind) r _ _ (check_elements-Grows f fc.elem val r)
        (fast_verdict-Grows f fc (validate_fast go fc.own val) r)

  scalar_errors-Grows :
      (f : FieldDescr S) (errs : List CueError) (r : Result)
      → Grows r (record_scalar_errors go v f errs r)
  unfolding record_scalar_errors
  scalar_errors-Grows f [] r = Grows-refl r
  scalar_errors-Grows f (e ∷ errs) r =
      let s : Result = record_field_error go v f (classify_cue_error go e) f.path e.message r in
      Grows-trans r s (record_scalar_errors go v f errs s)
        (record_field_error-Grows f (classify_cue_error go e) f.path e.message r)
        (scalar_errors-Grows f errs s)

  list_errors-ne-nil :
      (f : FieldDescr S) (errs : List CueError) → errs ≢ [] → list_errors go v f errs ≢ []
  unfolding list_errors
  list_errors-ne-nil f errs h =
      map-ne-nil (formatted go v) _ (collapse-ne-nil go _ (map-ne-nil (list_error go v f) errs h))

  module _ {C : Type 0} (rt : Cue S C) (reports : ReportsErrors rt) where
    listed-Grows :
        (f : FieldDescr S) (o : Option (List CueError)) (r : Result)
        → NonEmpty o
        → Grows r (reject_listed go v f o r)
    listed-Grows f none r h = Grows-refl r
    listed-Grows f (some []) r h = absurd h
    listed-Grows f (some (e ∷ errs)) r h = Grows-reject _ r (list_errors-ne-nil f (e ∷ errs) (cc))

    scalar_verdict-Grows :
        (f : FieldDescr S) (o : Option (List CueError)) (r : Result)
        → Grows r (record_scalar_verdict go v f o r)
    scalar_verdict-Grows f none r = Grows-refl r
    scalar_verdict-Grows f (some errs) r = scalar_errors-Grows f errs r

    abbrev WalkGrows : (LazyCueValue C → GoMap → Result → Result) → Type 0
    WalkGrows walk =
        (input : LazyCueValue C) (raw : GoMap) (r : Result) → Grows r (walk input raw r)

    module _ (f : FieldDescr S) (walk : LazyCueValue C → GoMap → Result → Result)
        (grows : WalkGrows walk) where
      children-Grows :
          (children : CueFields S) (c : C) (val : Value) (r : Result)
          → Grows r (validate_children go v rt children walk c val r)
      children-Grows no_fields c val r = Grows-refl r
      children-Grows (field _ _ _) c (object m) r = grows _ _ r
      children-Grows (field _ _ _) c null r = Grows-refl r
      children-Grows (field _ _ _) c _ r = Grows-refl r

      struct-Grows :
          (children : CueFields S) (c : C) (val : Value) (r : Result)
          → Grows r (validate_struct_field go v rt f children walk c val r)
      unfolding validate_struct_field
      struct-Grows children c val r =
          let detail =
            text "field " ++ go.quote f.path ++ text " expects struct, got " ++ type_name val in
          Grows-if (not (is_struct_kind (rt.kind_of c))) r
            (record_field_error go v f type_mismatch f.path detail r)
            (validate_children go v rt children walk c val r)
            (record_field_error-Grows f type_mismatch f.path detail r)
            (children-Grows children c val r)

      list-Grows :
          (c : C) (val : Value) (r : Result) → Grows r (validate_list_field go v rt f c val r)
      unfolding validate_list_field
      list-Grows c val r =
          let detail =
            text "field " ++ go.quote f.path ++ text " expects list, got " ++ type_name val in
          Grows-if (not (is_list_kind (rt.kind_of c))) r
            (record_field_error go v f type_mismatch f.path detail r)
            (reject_listed go v f (rt.validate f.schema c) r)
            (record_field_error-Grows f type_mismatch f.path detail r)
            (listed-Grows f (rt.validate f.schema c) r (reports f.schema c))

      scalar-Grows : (c : C) (r : Result) → Grows r (validate_scalar_field go v rt f c r)
      unfolding validate_scalar_field
      scalar-Grows c r = scalar_verdict-Grows f (rt.validate f.schema c) r

      via_cue-Grows :
          (children : CueFields S) (input : LazyCueValue C) (val : Value) (r : Result)
          → Grows r (validate_via_cue go v rt f children walk input val r)
      unfolding validate_via_cue
      via_cue-Grows children input val r =
          let c : C = rt.lookup_path (lazy_value rt input) f.name in
          let by_list = validate_list_field go v rt f c val r in
          let by_scalar = validate_scalar_field go v rt f c r in
          let by_struct = validate_struct_field go v rt f children walk c val r in
          let by_kind = if f.is_list then by_list else by_scalar in
          Grows-if (not (rt.exists c)) r r (if f.is_struct then by_struct else by_kind)
            (Grows-refl r)
            (Grows-if f.is_struct r by_struct by_kind (struct-Grows children c val r)
              (Grows-if f.is_list r by_list by_scalar (list-Grows c val r) (scalar-Grows c r)))

      decided_or-Grows :
          (o : Option Result) (r fallback : Result)
          → GrowsIf r o
          → Grows r fallback
          → Grows r (decided_or go v rt o fallback)
      decided_or-Grows none r fallback h k = k
      decided_or-Grows (some s) r fallback h k = h

      check_or_cue-Grows :
          (o : Option FastConstraint) (val : Value) (r by_cue : Result)
          → Grows r by_cue
          → Grows r (check_or_cue go v rt f o val r by_cue)
      check_or_cue-Grows none val r by_cue h = h
      check_or_cue-Grows (some fc) val r by_cue h =
          decided_or-Grows (check_fast go v f fc val r) r by_cue (check_fast-Grows f fc val r) h

      check_value-Grows :
          (children : CueFields S) (input : LazyCueValue C) (val : Value) (r : Result)
          → Grows r (check_value go v rt f children walk input val r)
      check_value-Grows children input null r =
          Grows-if f.nullable r r (record_non_nullable_nil go v f r) (Grows-refl r)
            (non_nullable-Grows f r)
      check_value-Grows children input (bool b) r =
          check_or_cue-Grows f.fast (bool b) r _ (via_cue-Grows children input (bool b) r)
      check_value-Grows children input val r =
          check_or_cue-Grows f.fast val r _ (via_cue-Grows children input val r)

      presence-Grows :
          (children : CueFields S) (input : LazyCueValue C) (o : Option Value) (r : Result)
          → Grows r (check_presence go v rt f children walk input o r)
      presence-Grows children input none r =
          Grows-if (not f.optional && not f.has_blob) r (record_missing_field go v f r) r
            (missing-Grows f r) (Grows-refl r)
      presence-Grows children input (some val) r = check_value-Grows children input val r

      validate_field-Grows :
          (children : CueFields S) (input : LazyCueValue C) (raw : GoMap) (r : Result)
          → Grows r (validate_field go v rt f children walk input raw r)
      unfolding validate_field
      validate_field-Grows children input raw r =
          presence-Grows children input (lookup_map f.name raw) r

    -- If the runtime of CUE reports an error whenever it rejects a value, the walk over the fields
    -- only adds errors behind those that are there; the result is invalid once it has added one,
    -- and the output stays.
    pub validate_cue_fields-Grows :
        (stop_early : Bool) (fields : CueFields S) (input : LazyCueValue C) (raw : GoMap)
        (r : Result)
        → Grows r (validate_cue_fields go v rt stop_early fields input raw r)
    unfolding validate_cue_fields
    validate_cue_fields-Grows stop_early no_fields input raw r = Grows-refl r
    validate_cue_fields-Grows stop_early (field f children rest) input raw r =
        let walk = validate_cue_fields go v rt stop_early children in
        let s = validate_field go v rt f children walk input raw r in
        let more = validate_cue_fields go v rt stop_early rest input raw s in
        Grows-if (stop_early && not r.valid) r r more (Grows-refl r) (
          Grows-trans r s more
            (validate_field-Grows f walk (validate_cue_fields-Grows stop_early children) children
              input raw r)
            (validate_cue_fields-Grows stop_early rest input raw s))
