-- ===== src/Fast/Check.antt =====
-- validateFast and validateFastElements of fastpath.go.
use schemix.Prelude.{ℕ, suc, Option, none, some, List, [], ◌∷◌, if◌then◌else◌}
use schemix.Value.{Value, list, Items, nil, cons}
use schemix.GoLib.{GoLib}
use schemix.Fast.{
  Descriptor, FastResult, ElemFailure, fallback_to_cue, pass, constraint_none, constraint_type,
  constraint_regex, constraint_range, constraint_enum, constraint_list,
}
use schemix.Fast.Number.{validate_fast_type, validate_fast_regex, validate_fast_range}
use schemix.Fast.Enum.{validate_fast_enum}

abbrev pub failure_at : ℕ → FastResult → ElemFailure
failure_at i er = record {
  index = i;
  code = er.code;
  detail = er.detail;
  suggestion = er.suggestion;
}

-- One round of the loop: `none` is the return with handled = false.
abbrev pub add_element : ℕ → FastResult → Option (List ElemFailure) → Option (List ElemFailure)
add_element i er none = none
add_element i er (some failures) =
    if er.handled
    then (if er.valid then some failures else some (failure_at i er ∷ failures))
    else none

module _ (go : GoLib) where
  unfoldable pub validate_fast : Descriptor → Value → FastResult
  unfolding validate_fast_type validate_fast_regex validate_fast_range validate_fast_enum
  validate_fast fc val = elim fc.kind [
    | constraint_type ↦ validate_fast_type go fc val
    | constraint_regex ↦ validate_fast_regex go fc val
    | constraint_range ↦ validate_fast_range go fc val
    | constraint_enum ↦ validate_fast_enum go fc val
    | constraint_list ↦ fallback_to_cue
    | constraint_none ↦ pass
  ]

  -- The loop of validateFastElements from index `i`.
  unfoldable pub validate_elements_from : ℕ → Descriptor → Items → Option (List ElemFailure)
  validate_elements_from i elem nil = some []
  validate_elements_from i elem (cons item items) =
      add_element i (validate_fast elem item) (validate_elements_from (suc i) elem items)

  -- The failures if the list is handled.
  unfoldable pub validate_fast_elements : Descriptor → Value → Option (List ElemFailure)
  validate_fast_elements elem (list items) = validate_elements_from 0 elem items
  validate_fast_elements elem _ = none
