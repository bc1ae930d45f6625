-- ===== src/Process/Priority.antt =====
-- findCUEField, fieldPriorityByPath and keepLowestFailedPriority of process.go.
use schemix.Prelude.{
  ◌-◌, ◌^◌, ℤ, pos, Text, text_eq, Bool, true, false, Option, none, some, List, [], ◌∷◌, keep_if,
  ltb_ℤ, eqb_ℤ, if◌then◌else◌,
}
use schemix.Nested.Segments.{segments}
use schemix.Errors.{ValidationError, Result}
use schemix.Schema.{FieldDescr, CueFields, no_fields, field}

-- math.MaxInt
abbrev pub max_int : ℤ
max_int = pos (2 ^ 63 - 1)

-- The rest of the path behind a dot is empty, or there is none.
abbrev pub ends : List Text → Bool
ends [] = true
ends ([] ∷ []) = true
ends _ = false

module _ {S : Type 0} where
  -- the first field of that name, and its children
  unfoldable pub find_name : Text → CueFields S → Option (FieldDescr S × CueFields S)
  find_name part no_fields = none
  find_name part (field f children rest) =
      if text_eq f.name part then some (f, children) else find_name part rest

  -- At the last segment the field is found; before it the search goes on among its children.
  abbrev pub descend :
      Bool
      → (CueFields S → Option (FieldDescr S))
      → Option (FieldDescr S × CueFields S)
      → Option (FieldDescr S)
  descend last next none = none
  descend true next (some (f, children)) = some f
  descend false next (some (f, children)) = next children

  unfoldable pub find_at : CueFields S → List Text → Option (FieldDescr S)
  unfolding find_name
  find_at tree [] = none
  find_at tree (part ∷ path) =
      descend (ends path) (λ children. find_at children path) (find_name part tree)

  unfoldable pub find_cue_field : CueFields S → Text → Option (FieldDescr S)
  unfolding find_at segments
  find_cue_field tree path = find_at tree (segments path)

  abbrev pub priority_or_zero : Option (FieldDescr S) → ℤ
  priority_or_zero none = pos 0
  priority_or_zero (some f) = f.priority

  unfoldable pub field_priority_by_path : CueFields S → Text → ℤ
  unfolding find_cue_field
  field_priority_by_path tree path = priority_or_zero (find_cue_field tree path)

  unfoldable pub lowest_priority : CueFields S → ℤ → List ValidationError → ℤ
  unfolding field_priority_by_path
  lowest_priority tree lowest [] = lowest
  lowest_priority tree lowest (e ∷ errors) =
      let p = field_priority_by_path tree e.path in
      lowest_priority tree (if ltb_ℤ p lowest then p else lowest) errors

  unfoldable pub keep_lowest_failed_priority : CueFields S → Result → Result × ℤ
  unfolding lowest_priority
  keep_lowest_failed_priority tree r =
      let lowest = lowest_priority tree max_int r.errors in
      (
        record r {
          errors = keep_if (λ e. eqb_ℤ (field_priority_by_path tree e.path) lowest) r.errors;
        },
        lowest,
      )
