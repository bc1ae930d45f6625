-- ===== src/CueLayer/Blind.antt =====
-- The walk in cue_layer.go on a result with its output and without.
use schemix.Prelude.{
  ◌≡◌, refl, ap, ◌∙◌, Bool, true, false, ◌&&◌, not, Option, none, some, List, [], ◌∷◌, text, ◌++◌,
  if◌then◌else◌,
}
use schemix.GoLib.{GoLib, type_name}
use schemix.Value.{Value, null, bool, object, GoMap, lookup_map}
use schemix.Errors.{type_mismatch, Result}
use schemix.Classify.{CueError, classify_cue_error}
use schemix.Fast.{FastConstraint, FastResult, Descriptor, ElemFailure}
use schemix.Fast.Check.{validate_fast, validate_fast_elements}
use schemix.Schema.{
  is_struct_kind, is_list_kind, Cue, FieldDescr, CueFields, no_fields, field, Validator,
}
use schemix.CueLayer.{
  LazyCueValue, record_field_error, record_missing_field, lazy_value, record_non_nullable_nil,
  reject_elements, element_verdict, check_elements, reject_listed, record_scalar_verdict,
  check_presence, fast_verdict, check_fast, record_scalar_errors, validate_list_field,
  validate_scalar_field, validate_children, validate_struct_field, validate_via_cue, check_or_cue,
  check_value, validate_field, validate_cue_fields, decided_or, is_list_constraint,
}

-- The result without its output.
abbrev pub forget : Result → Result
forget r = record r { output = none }

abbrev forget_some : Option Result → Option Result
forget_some none = none
forget_some (some r) = some (forget r)

-- A test between two functions that take no notice of the output.
pub if-forget :
    (b : Bool) (f g : Result → Result) (r : Result)
    → f (forget r) ≡ forget (f r)
    → g (forget r) ≡ forget (g r)
    → (if b then f (forget r) else g (forget r)) ≡ forget (if b then f r else g r)
if-forget true f g r h k = h
if-forget false f g r h k = k

if-forget_some :
    (b : Bool) (x y x' y' : Option Result)
    → x' ≡ forget_some x
    → y' ≡ forget_some y
    → (if b then x' else y') ≡ forget_some (if b then x else y)
if-forget_some true x y x' y' h k = h
if-forget_some false x y x' y' h k = k

module _ (go : GoLib) {S : Type 0} (v : Validator S) where
  elements-forget :
      (f : FieldDescr S) (elem : Option Descriptor) (efs : List ElemFailure) (r : Result)
      → reject_elements go v f elem efs (forget r) ≡ forget (reject_elements go v f elem efs r)
  elements-forget f elem [] r = refl
  elements-forget f elem (ef ∷ efs) r = refl

  element_verdict-forget :
      (f : FieldDescr S) (elem : Descriptor) (o : Option (List ElemFailure)) (r : Result)
      → element_verdict go v f elem o (forget r) ≡ forget_some (element_verdict go v f elem o r)
  element_verdict-forget f elem none r = refl
  element_verdict-forget f elem (some failures) r =
      ap some (elements-forget f (some elem) failures r)

  check_elements-forget :
      (f : FieldDescr S) (o : Option Descriptor) (val : Value) (r : Result)
      → check_elements go v f o val (forget r) ≡ forget_some (check_elements go v f o val r)
  check_elements-forget f none val r = refl
  check_elements-forget f (some elem) val r =
      element_verdict-forget f elem (validate_fast_elements go elem val) r

  fast_verdict-forget :
      (f : FieldDescr S) (fc : FastConstraint) (fr : FastResult) (r : Result)
      → fast_verdict go v f fc fr (forget r) ≡ forget_some (fast_verdict go v f fc fr r)
  fast_verdict-forget f fc fr r =
      if-forget_some (not fr.handled) none _ none _ refl
        (if-forget_some fr.valid (some r) _ (some (forget r)) _ refl refl)

  check_fast-forget :
      (f : FieldDescr S) (fc : FastConstraint) (val : Value) (r : Result)
      → check_fast go v f fc val (forget r) ≡ forget_some (check_fast go v f fc val r)
  unfolding check_fast
  check_fast-forget f fc val r =
      if-forget_some (is_list_constraint fc.kind) _ _ _ _ (check_elements-forget f fc.elem val r)
        (fast_verdict-forget f fc (validate_fast go fc.own val) r)

  scalar_errors-forget :
      (f : FieldDescr S) (errs : List CueError) (r : Result)
      → record_scalar_errors go v f errs (forget r) ≡ forget (record_scalar_errors go v f errs r)
  unfolding record_scalar_errors
  scalar_errors-forget f [] r = refl
  scalar_errors-forget f (e ∷ errs) r =
      scalar_errors-forget f errs
        (record_field_error go v f (classify_cue_error go e) f.path e.message r)

  scalar_verdict-forget :
      (f : FieldDescr S) (o : Option (List CueError)) (r : Result)
      → record_scalar_verdict go v f o (forget r) ≡ forget (record_scalar_verdict go v f o r)
  scalar_verdict-forget f none r = refl
  scalar_verdict-forget f (some errs) r = scalar_errors-forget f errs r

  listed-forget :
      (f : FieldDescr S) (o : Option (List CueError)) (r : Result)
      → reject_listed go v f o (forget r) ≡ forget (reject_listed go v f o r)
  listed-forget f none r = refl
  listed-forget f (some errs) r = refl

  module _ {C : Type 0} (rt : Cue S C) where
    abbrev Blind : (LazyCueValue C → GoMap → Result → Result) → Type 0
    Blind walk =
        (input : LazyCueValue C) (raw : GoMap) (r : Result)
        → walk input raw (forget r) ≡ forget (walk input raw r)

    module _ (f : FieldDescr S) (walk : LazyCueValue C → GoMap → Result → Result)
        (blind : Blind walk) where
      children-forget :
          (children : CueFields S) (c : C) (val : Value) (r : Result)
          → validate_children go v rt children walk c val (forget r)
            ≡ forget (validate_children go v rt children walk c val r)
      children-forget no_fields c val r = refl
      children-forget (field _ _ _) c (object m) r = blind _ _ r
      children-forget (field _ _ _) c null r = refl
      children-forget (field _ _ _) c _ r = refl

      struct-forget :
          (children : CueFields S) (c : C) (val : Value) (r : Result)
          → validate_struct_field go v rt f children walk c val (forget r)
            ≡ forget (validate_struct_field go v rt f children walk c val r)
      unfolding validate_struct_field
      struct-forget children c val r =
          if-forget (not (is_struct_kind (rt.kind_of c)))
            (record_field_error go v f type_mismatch f.path
              (text "field " ++ go.quote f.path ++ text " expects struct, got " ++ type_name val))
            (validate_children go v rt children walk c val) r refl
            (children-forget children c val r)

      list-forget :
          (c : C) (val : Value) (r : Result)
          → validate_list_field go v rt f c val (forget r)
            ≡ forget (validate_list_field go v rt f c val r)
      unfolding validate_list_field
      list-forget c val r =
          if-forget (not (is_list_kind (rt.kind_of c)))
            (record_field_error go v f type_mismatch f.path
              (text "field " ++ go.quote f.path ++ text " expects list, got " ++ type_name val))
            (reject_listed go v f (rt.validate f.schema c)) r refl
            (listed-forget f (rt.validate f.schema c) r)

      via_cue-forget :
          (children : CueFields S) (input : LazyCueValue C) (val : Value) (r : Result)
          → validate_via_cue go v rt f children walk input val (forget r)
            ≡ forget (validate_via_cue go v rt f children walk input val r)
      unfolding validate_via_cue validate_scalar_field
      via_cue-forget children input val r =
          let c : C = rt.lookup_path (lazy_value rt input) f.name in
          let by_struct = validate_struct_field go v rt f children walk c val in
          let by_list = validate_list_field go v rt f c val in
          let by_scalar = validate_scalar_field go v rt f c in
          if-forget (not (rt.exists c)) (λ s. s)
            (λ s. if f.is_struct then by_struct s else if f.is_list then by_list s else by_scalar s)
            r refl
            (if-forget f.is_struct by_struct (λ s. if f.is_list then by_list s else by_scalar s) r
              (struct-forget children c val r)
              (if-forget f.is_list by_list by_scalar r (list-forget c val r)
                (scalar_verdict-forget f (rt.validate f.schema c) r)))

      decided_or-forget :
          (o o' : Option Result) (by_cue by_cue' : Result)
          → o' ≡ forget_some o
          → by_cue' ≡ forget by_cue
          → decided_or go v rt o' by_cue' ≡ forget (decided_or go v rt o by_cue)
      decided_or-forget none none by_cue by_cue' h k = k
      decided_or-forget none (some s) by_cue by_cue' h k = absurd (cc)
      decided_or-forget (some r) none by_cue by_cue' h k = absurd (cc)
      decided_or-forget (some r) (some s) by_cue by_cue' h k = cc

      check_or_cue-forget :
          (o : Option FastConstraint) (val : Value) (r by_cue by_cue' : Result)
          → by_cue' ≡ forget by_cue
          → check_or_cue go v rt f o val (forget r) by_cue'
            ≡ forget (check_or_cue go v rt f o val r by_cue)
      check_or_cue-forget none val r by_cue by_cue' h = h
      check_or_cue-forget (some fc) val r by_cue by_cue' h =
          decided_or-forget (check_fast go v f fc val r) (check_fast go v f fc val (forget r))
            by_cue by_cue' (check_fast-forget f fc val r) h

      check_value-forget :
          (children : CueFields S) (input : LazyCueValue C) (val : Value) (r : Result)
          → check_value go v rt f children walk input val (forget r)
            ≡ forget (check_value go v rt f children walk input val r)
      unfolding record_non_nullable_nil record_field_error
      check_value-forget children input null r =
          if-forget f.nullable (λ s. s) (record_non_nullable_nil go v f) r refl refl
      check_value-forget children input (bool b) r =
          check_or_cue-forget f.fast (bool b) r _ _ (via_cue-forget children input (bool b) r)
      check_value-forget children input val r =
          check_or_cue-forget f.fast val r _ _ (via_cue-forget children input val r)

      presence-forget :
          (children : CueFields S) (input : LazyCueValue C) (o : Option Value) (r : Result)
          → check_presence go v rt f children walk input o (forget r)
            ≡ forget (check_presence go v rt f children walk input o r)
      unfolding record_missing_field record_field_error
      presence-forget children input none r =
          if-forget (not f.optional && not f.has_blob) (record_missing_field go v f) (λ s. s) r refl
            refl
      presence-forget children input (some val) r = check_value-forget children input val r

      validate_field-forget :
          (children : CueFields S) (input : LazyCueValue C) (raw : GoMap) (r : Result)
          → validate_field go v rt f children walk input raw (forget r)
            ≡ forget (validate_field go v rt f children walk input raw r)
      unfolding validate_field
      validate_field-forget children input raw r =
          presence-forget children input (lookup_map f.name raw) r

    -- The walk over the fields takes no notice of the output.
    pub validate_cue_fields-forget :
        (stop_early : Bool) (fields : CueFields S)
        → Blind (validate_cue_fields go v rt stop_early fields)
    unfolding validate_cue_fields
    validate_cue_fields-forget stop_early no_fields input raw r = refl
    validate_cue_fields-forget stop_early (field f children rest) input raw r =
        let walk = validate_cue_fields go v rt stop_early children in
        let one = validate_field go v rt f children walk input raw in
        let more = validate_cue_fields go v rt stop_early rest input raw in
        if-forget (stop_early && not r.valid) (λ s. s) (λ s. more (one s)) r refl
          (ap more (
              validate_field-forget f walk (validate_cue_fields-forget stop_early children) children
                input raw r)
            ∙ validate_cue_fields-forget stop_early rest input raw (one r))
