-- ===== src/Process/Rules.antt =====
-- The stages of one rule: skip_if, the rules on presence, the @blob expression (process.go).
use schemix.Prelude.{
  Text, text, Bool, true, false, ◌&&◌, ◌||◌, not, Option, none, some, List, [], ◌∷◌, ◌++◌,
  if◌then◌else◌,
}
use schemix.GoLib.{GoLib, type_name}
use schemix.Value.{Value, null, bool, str, number, float64, float32, GoMap, Entries}
use schemix.Nested.{get_nested, set_nested, delete_nested, is_empty}
use schemix.Errors.{
  ErrorCode, biz_rule_failed, expr_exec_error, blob_type_mismatch, cond_required,
  meta_runtime_error, ErrorType, bloblang, meta, Result, plain_error,
}
use schemix.FailMode.{FailMode, is_fail_fast}
use schemix.Schema.{
  Cue, CueKind, string_kind, int_kind, float_kind, number_kind, bool_kind, FieldDescr,
  cue_kind_to_string, QueryResult, value, query_error, Executor, BlobRule, Validator,
  format_message,
}
use schemix.Classify.{CueError}
use schemix.CueLayer.{reject}
use schemix.Process.Priority.{find_cue_field}

-- blobLoopState but for the mode; `failed_paths` lists the keys of the map.
pub record LoopState : Type 0 where
  pub result : Result
  pub failed_paths : List Text
  pub priority_has_error : Bool

-- ruleAction; `rule_panic` is a panic in the stage.
pub data RuleAction : Type 0 where
  rule_run rule_skip rule_abort rule_panic : RuleAction

unfoldable pub mark_failed : Text → LoopState → LoopState
mark_failed path st = record st { failed_paths = path ∷ st.failed_paths; priority_has_error = true }

-- `if output != nil { deleteNestedKey(output, path) }`
abbrev pub delete_in : Text → GoMap → GoMap
delete_in path none = none
delete_in path (some m) = some (delete_nested m path)

abbrev pub delete_output : Text → Result → Result
delete_output path r = record r { output = delete_in path r.output }

abbrev pub with_result : LoopState → Result → LoopState
with_result st r = record st { result = r }

abbrev pub delete_if : Bool → Text → LoopState → LoopState
delete_if true path st = with_result st (delete_output path st.result)
delete_if false path st = st

module _ {S : Type 0} (v : Validator S) (mode : FailMode) where
  abbrev pub abort_if_fast : RuleAction → RuleAction
  abort_if_fast action = if is_fail_fast mode then rule_abort else action

  -- recordRuleError; its answer, whether to stop at once, is `is_fail_fast mode`
  unfoldable pub record_rule_error : ErrorCode → ErrorType → Text → Text → LoopState → LoopState
  unfolding mark_failed format_message
  record_rule_error code t path detail st = mark_failed path (
      with_result st
        (reject (plain_error code path t (format_message v code path detail) ∷ []) st.result))

  -- the answer of the skip_if expression; one that is no Boolean does not skip
  abbrev pub skip_answer : BlobRule → QueryResult → LoopState → LoopState × RuleAction
  skip_answer rule (query_error err) st = (
    record_rule_error meta_runtime_error meta rule.path
        (text "skip_if expression error (" ++ rule.meta.skip_if_expr ++ text "): " ++ err) st,
    abort_if_fast rule_skip,
  )
  skip_answer rule (value (bool true)) st =
      (delete_if rule.meta.omit_if_skip rule.path st, rule_skip)
  skip_answer rule (value val) st = (st, rule_run)

  abbrev pub skip_by : BlobRule → Option Executor → GoMap → LoopState → LoopState × RuleAction
  skip_by rule none input st = (st, rule_run)
  skip_by rule (some exec) input st = skip_answer rule (exec input) st

  unfoldable pub apply_skip_if : GoMap → BlobRule → LoopState → LoopState × RuleAction
  unfolding record_rule_error delete_nested
  apply_skip_if input rule st = skip_by rule rule.meta.skip_if input st

  abbrev pub required_answer : BlobRule → QueryResult → LoopState → LoopState × RuleAction
  required_answer rule (query_error err) st = (
    record_rule_error meta_runtime_error meta rule.path
        (text "required_if expression error (" ++ rule.meta.required_if_expr ++ text "): " ++ err)
        st,
    abort_if_fast rule_skip,
  )
  required_answer rule (value (bool true)) st = (
    record_rule_error cond_required meta rule.path
        (text "conditional required (" ++ rule.meta.required_if_expr ++ text ")") st,
    abort_if_fast rule_skip,
  )
  required_answer rule (value val) st = (st, rule_skip)

  abbrev pub required_by : BlobRule → Option Executor → GoMap → LoopState → LoopState × RuleAction
  required_by rule none input st = (st, rule_skip)
  required_by rule (some exec) input st = required_answer rule (exec input) st

  -- required_if of an optional field that is absent
  unfoldable pub check_required_if : GoMap → BlobRule → LoopState → LoopState × RuleAction
  unfolding record_rule_error
  check_required_if input rule st = required_by rule rule.meta.required_if input st

  abbrev pub is_nil : Value → Bool
  is_nil null = true
  is_nil _ = false

  -- The rules on presence, given whether the field's value is empty and whether it is nil.
  abbrev pub presence_by : GoMap → BlobRule → Bool → Bool → LoopState → LoopState × RuleAction
  presence_by input rule empty absent st =
      if empty && rule.meta.skip_empty
      then (delete_if (rule.meta.omit_if_skip || rule.meta.omit_empty) rule.path st, rule_skip)
      else if not rule.meta.optional || not absent
      then (delete_if (empty && rule.meta.omit_empty) rule.path st, rule_run)
      else check_required_if input rule (
          delete_if rule.meta.omit_empty rule.path
            (delete_if (empty && rule.meta.omit_empty) rule.path st))

  unfoldable pub apply_presence_rules : GoMap → BlobRule → LoopState → LoopState × RuleAction
  unfolding delete_nested check_required_if
  apply_presence_rules input rule st =
      let field_val = get_nested input rule.path in
      presence_by input rule (is_empty field_val) (is_nil field_val) st

  abbrev is_string_value : Value → Bool
  is_string_value (str s) = true
  is_string_value _ = false

  abbrev is_int_value : Value → Bool
  is_int_value (number k n) = true
  is_int_value _ = false

  abbrev is_float_value : Value → Bool
  is_float_value (float64 f) = true
  is_float_value (float32 f) = true
  is_float_value _ = false

  abbrev is_bool_value : Value → Bool
  is_bool_value (bool b) = true
  is_bool_value _ = false

  -- The verdict of the type switch on a scalar kind; `none` for the kinds that it leaves to CUE.
  unfoldable pub scalar_fits : CueKind → Value → Option Bool
  scalar_fits string_kind val = some (is_string_value val)
  scalar_fits int_kind val = some (is_int_value val)
  scalar_fits float_kind val = some (is_float_value val)
  scalar_fits number_kind val = some (is_int_value val || is_float_value val)
  scalar_fits bool_kind val = some (is_bool_value val)
  scalar_fits _ val = none

  abbrev pub mismatch : BlobRule → Value → Text → Result → Result
  mismatch rule val expected r =
      let detail =
        text "@blob result type mismatch: computed "
        ++ type_name val
        ++ text ", field expects "
        ++ expected in
      reject
        (plain_error blob_type_mismatch rule.path bloblang
            (format_message v blob_type_mismatch rule.path detail)
          ∷ [])
        r

  module _ (go : GoLib) {C : Type 0} (rt : Cue S C) where
    abbrev pub check_validated :
        BlobRule → Value → FieldDescr S → Option (List CueError) → Result → Result × Bool
    check_validated rule val f none r = (r, true)
    check_validated rule val f (some errs) r =
        (mismatch rule val (cue_kind_to_string (rt.schema_kind f.schema)) r, false)

    -- the slow path: unify with the schema of the field, if the rule's path has a field
    abbrev pub check_by_cue : BlobRule → Value → Option (FieldDescr S) → Result → Result × Bool
    check_by_cue rule val none r = (r, true)
    check_by_cue rule val (some f) r =
        check_validated rule val f (rt.validate f.schema (rt.encode_value val)) r

    abbrev pub check_fit : BlobRule → Value → Option Bool → Result → Result × Bool
    check_fit rule val (some true) r = (r, true)
    check_fit rule val (some false) r =
        (mismatch rule val (cue_kind_to_string rule.result_kind) r, false)
    check_fit rule val none r = check_by_cue rule val (find_cue_field v.cue_fields rule.path) r

    -- the new result, and whether the value has the type
    unfoldable pub check_blob_result_type : BlobRule → Value → Result → Result × Bool
    unfolding scalar_fits find_cue_field cue_kind_to_string format_message
    check_blob_result_type rule val r = check_fit rule val (scalar_fits rule.result_kind val) r

    abbrev pub written : Option Entries → LoopState → LoopState × RuleAction
    written none st = (st, rule_panic)
    written (some m) st = (with_result st (record st.result { output = some m }), rule_run)

    abbrev pub write_to : Text → Value → GoMap → LoopState → LoopState × RuleAction
    write_to path val none st = (st, rule_run)
    write_to path val (some m) st = written (set_nested m path val) st

    -- `if output != nil { setNestedValue(output, path, val) }`
    unfoldable pub write_output : Text → Value → LoopState → LoopState × RuleAction
    unfolding set_nested
    write_output path val st = write_to path val st.result.output st

    abbrev pub store_checked : BlobRule → Value → LoopState → Result × Bool → LoopState × RuleAction
    store_checked rule val st (r, true) = write_output rule.path val (with_result st r)
    store_checked rule val st (r, false) =
        (mark_failed rule.path (with_result st r), abort_if_fast rule_run)

    -- the answer of the expression
    unfoldable pub apply_answer : BlobRule → QueryResult → LoopState → LoopState × RuleAction
    unfolding record_rule_error check_blob_result_type write_output mark_failed
    apply_answer rule (query_error err) st = (
      record_rule_error expr_exec_error bloblang rule.path (text "expression error: " ++ err) st,
      abort_if_fast rule_run,
    )
    apply_answer rule (value (bool true)) st = (st, rule_run)
    apply_answer rule (value (bool false)) st = (
      record_rule_error biz_rule_failed bloblang rule.path (text "failed: " ++ rule.expr) st,
      abort_if_fast rule_run,
    )
    apply_answer rule (value val) st =
        store_checked rule val st (check_blob_result_type rule val st.result)

    abbrev pub exec_by : BlobRule → Option Executor → GoMap → LoopState → LoopState × RuleAction
    exec_by rule none input st = (st, rule_run)
    exec_by rule (some exec) input st = apply_answer rule (exec input) st

    unfoldable pub exec_blob_rule : GoMap → BlobRule → LoopState → LoopState × RuleAction
    unfolding apply_answer
    exec_blob_rule input rule st = exec_by rule rule.exec input st

    -- The next stage, unless the one before ended the rule.
    abbrev pub then_stage :
        LoopState × RuleAction → (LoopState → LoopState × RuleAction) → LoopState × RuleAction
    then_stage (st, rule_run) next = next st
    then_stage (st, action) next = (st, action)

    abbrev pub guarded_presence : GoMap → BlobRule → LoopState → LoopState × RuleAction
    guarded_presence input rule st =
        if rule.meta.skip_empty || rule.meta.omit_empty || rule.meta.optional
        then apply_presence_rules input rule st
        else (st, rule_run)

unfoldable pub run_stages :
    {S C : Type 0}
    → GoLib
    → Cue S C
    → Validator S
    → FailMode
    → GoMap
    → BlobRule
    → LoopState
    → LoopState × RuleAction
unfolding apply_skip_if apply_presence_rules exec_blob_rule
run_stages go rt v mode input rule st =
    then_stage v mode go rt
      (then_stage v mode go rt (apply_skip_if v mode input rule st)
        (guarded_presence v mode go rt input rule))
      (exec_blob_rule v mode go rt input rule)
