-- ===== src/Examples/Processing.antt =====
-- Whole validations of two people.
use schemix.Prelude.{
  ◌↔◌, ℕ, ℤ, pos, negsuc, ◌≤ℤ◌, ◌≤◌, ◌≡◌, ◌≢◌, refl, Text, text, Bool, true, false, Option, none,
  some, List, [], ◌∷◌, ◌++◌, All, length,
}
use schemix.Value.{GoMap}
use schemix.Errors.{err, first_error, Result, ValidationError, plain_error, type_mismatch, cue}
use schemix.CueLayer.{deferred, validate_cue_fields}
use schemix.CueLayer.Growth.{Grows}
use schemix.CueLayer.Walk.{validate_cue_fields-Grows}
use schemix.Process.Priority.{keep_lowest_failed_priority}
use schemix.Process.Picked.{Picked}
use schemix.Process.Lowest.{priority_of, keep_lowest-minimum}
use schemix.Process.Rules.{run_stages}
use schemix.Process.Effects.{run_stages-Effect}
use schemix.Process.Presence.{Effect}
use schemix.FailMode.{FailMode, fail_all, fail_fast, fail_priority}
use schemix.Process.{initial_state, start, cue_layer, process_internal}
use schemix.Process.Loop.{Raised, Clean}
use schemix.Process.Outcome.{Consistent, process_internal-Consistent}
use schemix.Process.Modes.{
  GroupErrors, cut_down, process_internal-one_error, process_internal-all_errors,
  process_internal-one_group,
}
use schemix.Process.Verdicts.{err-process_internal}
use schemix.Process.Returns.{process_internal-returns}
use schemix.Examples.{ascii, kinds, kinds-ReportsErrors, two_groups, rejecting, person, stranger}

abbrev run : FailMode → GoMap → Bool → Option Result
run mode input need_output = process_internal ascii kinds two_groups mode input need_output

abbrev returned : Option Result → Result
returned none = record { valid = false; errors = []; output = none }
returned (some r) = r

abbrev paths_of : List ValidationError → List Text
paths_of [] = []
paths_of (e ∷ es) = e.path ∷ paths_of es

abbrev all_of : Result
all_of = returned (run fail_all (some person) true)

all_returned : run fail_all (some person) true ≡ some all_of
unfolding process_internal schemix.Prelude.text_eq schemix.Nested.index
all_returned = refl

two_rules_fail : paths_of all_of.errors ≡ text "age" ∷ text "name" ∷ []
unfolding process_internal schemix.Prelude.text_eq schemix.Nested.index
two_rules_fail = refl

abbrev fast_of : Result
fast_of = returned (run fail_fast (some person) true)

fast_returned : run fail_fast (some person) true ≡ some fast_of
unfolding process_internal schemix.Prelude.text_eq schemix.Nested.index
fast_returned = refl

first_rule_fails : paths_of fast_of.errors ≡ text "age" ∷ []
unfolding process_internal schemix.Prelude.text_eq schemix.Nested.index
first_rule_fails = refl

abbrev group_of : Result
group_of = returned (run fail_priority (some stranger) false)

group_returned : run fail_priority (some stranger) false ≡ some group_of
unfolding process_internal schemix.Prelude.text_eq schemix.Nested.index
group_returned = refl

-- The age fails in the CUE layer, so its rule does not run, nor does that of the next group.
lower_group_fails : paths_of group_of.errors ≡ text "age" ∷ []
unfolding process_internal schemix.Prelude.text_eq schemix.Nested.index
lower_group_fails = refl

process_internal-Consistent_example : Consistent all_of
process_internal-Consistent_example =
    process_internal-Consistent ascii kinds two_groups (some person) kinds-ReportsErrors
      (refl, tt, (refl, tt, tt)) fail_all true all_of all_returned

process_internal-one_error_example : length fast_of.errors ≤ 1
process_internal-one_error_example =
    process_internal-one_error ascii kinds two_groups (some person) kinds-ReportsErrors true fast_of
      fast_returned

process_internal-all_errors_example :
    (es : List ValidationError) × (all_of.errors
      ≡ (cue_layer ascii kinds two_groups fail_all (some person) true).errors ++ es)
    × Raised
        (Clean (cue_layer ascii kinds two_groups fail_all (some person) true).errors)
        two_groups.blob_rules
        es
process_internal-all_errors_example =
    process_internal-all_errors ascii kinds two_groups (some person) true all_of all_returned

process_internal-one_group_example :
    GroupErrors ascii kinds two_groups
      (some stranger)
      (cut_down ascii kinds two_groups
        (some stranger)
        (cue_layer ascii kinds two_groups fail_priority (some stranger) false))
      group_of
process_internal-one_group_example =
    process_internal-one_group ascii kinds two_groups (some stranger) (refl, (refl, tt)) false
      group_of group_returned

process_internal-returns_example : (r : Result) × (run fail_priority (some stranger) false ≡ some r)
process_internal-returns_example =
    process_internal-returns ascii kinds two_groups fail_priority (some stranger)
      kinds-ReportsErrors

abbrev two_errors : Result
two_errors = record {
  valid = false;
  errors =
      plain_error type_mismatch (text "name") cue []
      ∷ plain_error type_mismatch (text "age") cue []
      ∷ [];
  output = none;
}

keep_lowest-minimum_example :
    let (remaining, lowest) = keep_lowest_failed_priority two_groups.cue_fields two_errors in
    (remaining.errors ≢ [])
    × Picked (λ e. priority_of two_groups.cue_fields e ≡ lowest) two_errors.errors remaining.errors
    × All (λ e. lowest ≤ℤ priority_of two_groups.cue_fields e) two_errors.errors
    × (remaining.valid ≡ false)
    × (remaining.output ≡ none)
keep_lowest-minimum_example =
    keep_lowest-minimum two_groups.cue_fields two_errors (refl, tt, (refl, tt, tt)) cc

run_stages-Effect_example :
    Effect fail_fast (text "age") (initial_state (start (some person) true)) (
      run_stages ascii kinds two_groups fail_fast
        (some person)
        rejecting
        (initial_state (start (some person) true)))
run_stages-Effect_example =
    run_stages-Effect two_groups fail_fast rejecting ascii kinds (some person)
      (initial_state (start (some person) true))

validate_cue_fields-Grows_example : Grows (start (some stranger) false) (
    validate_cue_fields ascii two_groups kinds false two_groups.cue_fields
      (deferred (some stranger))
      (some stranger)
      (start (some stranger) false))
validate_cue_fields-Grows_example =
    validate_cue_fields-Grows ascii two_groups kinds kinds-ReportsErrors false two_groups.cue_fields
      (deferred (some stranger)) (some stranger) (start (some stranger) false)

err-process_internal_example :
    ((err all_of ≡ none) ↔ (all_of.valid ≡ true))
    × ((first_error all_of ≡ none) ↔ (all_of.valid ≡ true))
err-process_internal_example =
    err-process_internal ascii kinds two_groups (some person) kinds-ReportsErrors
      (refl, tt, (refl, tt, tt)) fail_all true all_of all_returned
