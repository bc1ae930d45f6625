-- ===== src/Process.antt =====
-- process.go: the two layers of a validation. The CUE layer runs first, then the loop over the
-- @blob and @meta rules. The result that the code changes in place is passed along. A write into
-- a nil map panics: a stage says so, the loop ends, and the whole call has no result (`none`).
-- Metrics, traces and the context change no result and are left out.
pub mod Priority
pub mod Rules
pub mod Presence
pub mod Effects
pub mod Visits
pub mod Loop
pub mod Picked
pub mod Lowest
pub mod Groups
pub mod Outcome
pub mod Modes
pub mod Verdicts
pub mod Blind
pub mod Agree
pub mod Total
pub mod Returns
use schemix.Prelude.{
  ℕ, ℤ, pos, negsuc, Text, text, text_eq, Bool, true, false, ◌&&◌, ◌||◌, not, Option, none, some,
  List, [], ◌∷◌, ◌++◌, any, take, length, ltb_ℤ, if◌then◌else◌,
}
use schemix.GoLib.{GoLib}
use schemix.Value.{GoMap}
use schemix.Nested.{deep_copy}
use schemix.Errors.{ValidationError, Result}
use schemix.FailMode.{FailMode, is_fail_fast, is_fail_priority}
use schemix.CueLayer.{LazyCueValue, deferred, validate_cue_fields}
use schemix.CueLayer.Locations.{at_or_below}
use schemix.Schema.{Cue, Validator, BlobRule, FieldMeta}
use schemix.Process.Priority.{max_int, keep_lowest_failed_priority}
use schemix.Process.Rules.{
  LoopState, RuleAction, rule_run, rule_skip, rule_abort, rule_panic, run_stages,
}

unfoldable pub has_validation_error_at_path : List ValidationError → Text → Bool
unfolding at_or_below
has_validation_error_at_path errors path = any (λ e. at_or_below path e.path) errors

-- What a round of the loop does: end the loop (with a panic or not), or go on with the current
-- priority and the state.
pub data Visit : Type 0 where
  stop : LoopState → Bool → Visit
  go_on : ℤ → LoopState → Visit

abbrev pub after_stages : ℤ → LoopState × RuleAction → Visit
after_stages current (st, rule_run) = go_on current st
after_stages current (st, rule_skip) = go_on current st
after_stages current (st, rule_abort) = stop st false
after_stages current (st, rule_panic) = stop st true

-- The rounds that follow, unless the round ended the loop.
abbrev pub then_rules : Visit → (ℤ → LoopState → LoopState × Bool) → LoopState × Bool
then_rules (stop st panicked) next = (st, panicked)
then_rules (go_on current st) next = next current st

-- the deferred function: no output beside errors
abbrev pub clear_output : Result → Result
clear_output r = if r.valid then r else record r { output = none }

abbrev pub first_only : List ValidationError → List ValidationError
first_only [] = []
first_only (e ∷ es) = e ∷ []

abbrev pub initial_state : Result → LoopState
initial_state r = record { result = r; failed_paths = []; priority_has_error = false }

abbrev pub finish : LoopState × Bool → Option Result
finish (st, panicked) = if panicked then none else some (clear_output st.result)

abbrev pub start : GoMap → Bool → Result
start input need_output = record {
  valid = true;
  errors = [];
  output = if need_output then deep_copy input else none;
}

module _ (go : GoLib) {S C : Type 0} (rt : Cue S C) (v : Validator S) (mode : FailMode) where
  -- The group's boundary is crossed: the rule has a higher priority number than the current one.
  abbrev pub enters_group : ℤ → BlobRule → Bool
  enters_group current rule = is_fail_priority mode && ltb_ℤ current rule.meta.priority

  abbrev pub beyond_failed : ℤ → BlobRule → Bool
  beyond_failed min_failed rule =
      is_fail_priority mode && ltb_ℤ min_failed max_int && ltb_ℤ min_failed rule.meta.priority

  -- A round for a rule whose path has no error of the CUE layer.
  unfoldable pub visit_clean : GoMap → ℤ → ℤ → BlobRule → LoopState → Visit
  unfolding run_stages
  visit_clean input min_failed current rule st =
      let current' = if enters_group current rule then rule.meta.priority else current in
      if enters_group current rule && st.priority_has_error
      then stop st false
      else if beyond_failed min_failed rule
      then stop st false
      else if rule.meta.fail_fast && any (text_eq rule.path) st.failed_paths
      then go_on current' st
      else after_stages current' (run_stages go rt v mode input rule st)

  unfoldable pub visit : GoMap → ℕ → ℤ → ℤ → BlobRule → LoopState → Visit
  unfolding has_validation_error_at_path visit_clean
  visit input n_cue_errors min_failed current rule st =
      if has_validation_error_at_path (take n_cue_errors st.result.errors) rule.path
      then go_on current (record st { failed_paths = rule.path ∷ st.failed_paths })
      else visit_clean input min_failed current rule st

  -- The loop over the rules; the second part says whether it panicked.
  unfoldable pub run_rules : GoMap → ℕ → ℤ → ℤ → List BlobRule → LoopState → LoopState × Bool
  unfolding visit
  run_rules input n_cue_errors min_failed current [] st = (st, false)
  run_rules input n_cue_errors min_failed current (rule ∷ rules) st =
      then_rules (visit input n_cue_errors min_failed current rule st)
        λ current' st'. run_rules input n_cue_errors min_failed current' rules st'

  unfoldable pub blob_layer : GoMap → ℤ → Result → Option Result
  unfolding run_rules
  blob_layer input min_failed r =
      finish
        (run_rules input (length r.errors) min_failed (negsuc 0) v.blob_rules (initial_state r))

  unfoldable pub cue_layer : GoMap → Bool → Result
  unfolding validate_cue_fields deep_copy
  cue_layer input need_output =
      validate_cue_fields go v rt (is_fail_fast mode) v.cue_fields (deferred input) input
        (start input need_output)

  -- What follows the CUE layer.
  unfoldable pub continue_from : GoMap → Result → Option Result
  unfolding keep_lowest_failed_priority blob_layer
  continue_from input r =
      if is_fail_fast mode && not r.valid
      then some (clear_output (record r { errors = first_only r.errors }))
      else if is_fail_priority mode && not r.valid
      then (let (r', lowest) = keep_lowest_failed_priority v.cue_fields r in
          blob_layer input lowest r')
      else blob_layer input max_int r

  unfoldable pub process_internal : GoMap → Bool → Option Result
  unfolding cue_layer continue_from
  process_internal input need_output = continue_from input (cue_layer input need_output)
