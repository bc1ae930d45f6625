-- ===== src/Process/Total.antt =====
-- The stages of a rule in process.go without an output: whether they panic.
use schemix.Prelude.{
  Text, ◌≡◌, ◌≢◌, ap, Bool, true, false, ◌&&◌, ◌||◌, not, Option, none, some, List, if-case,
  if◌then◌else◌,
}
use schemix.GoLib.{GoLib}
use schemix.Value.{Value, null, bool, GoMap}
use schemix.Nested.{get_nested, is_empty}
use schemix.Errors.{ErrorCode, ErrorType, Result}
use schemix.FailMode.{FailMode, is_fail_fast}
use schemix.Classify.{CueError}
use schemix.Schema.{Cue, Validator, FieldDescr, BlobRule, QueryResult, value, query_error, Executor}
use schemix.Process.Priority.{find_cue_field}
use schemix.Process.Rules.{
  LoopState, RuleAction, rule_run, rule_skip, rule_abort, rule_panic, delete_in, delete_if,
  abort_if_fast, record_rule_error, mark_failed, with_result, skip_answer, skip_by, apply_skip_if,
  required_answer, required_by, check_required_if, presence_by, apply_presence_rules, is_nil,
  scalar_fits, check_validated, check_by_cue, check_fit, check_blob_result_type, write_to,
  write_output, store_checked, apply_answer, exec_by, exec_blob_rule, then_stage, guarded_presence,
  run_stages,
}

abbrev pub NoOutput : LoopState → Type 0
NoOutput st = st.result.output ≡ none

abbrev pub Safe : LoopState × RuleAction → Type 0
Safe out = NoOutput out.0 × (out.1 ≢ rule_panic)

delete_if-NoOutput :
    (b : Bool) (path : Text) (st : LoopState) → NoOutput st → NoOutput (delete_if b path st)
delete_if-NoOutput true path st h = ap (delete_in path) h
delete_if-NoOutput false path st h = h

module _ {S : Type 0} (v : Validator S) (mode : FailMode) (rule : BlobRule) where
  abort-ne-panic :
      (action : RuleAction) → action ≢ rule_panic → abort_if_fast v mode action ≢ rule_panic
  abort-ne-panic action h =
      if-case (λ a. a ≢ rule_panic) (is_fail_fast mode) rule_abort action (λ _. cc) (λ _. h)

  record_rule_error-NoOutput :
      (code : ErrorCode) (t : ErrorType) (path detail : Text) (st : LoopState)
      → NoOutput st
      → NoOutput (record_rule_error v mode code t path detail st)
  unfolding record_rule_error mark_failed
  record_rule_error-NoOutput code t path detail st h = h

  skip_answer-Safe :
      (q : QueryResult) (st : LoopState) → NoOutput st → Safe (skip_answer v mode rule q st)
  skip_answer-Safe (query_error err) st h =
      (record_rule_error-NoOutput _ _ rule.path _ st h, abort-ne-panic rule_skip (cc))
  skip_answer-Safe (value (bool true)) st h =
      (delete_if-NoOutput rule.meta.omit_if_skip rule.path st h, cc)
  skip_answer-Safe (value (bool false)) st h = (h, cc)
  skip_answer-Safe (value null) st h = (h, cc)
  skip_answer-Safe (value _) st h = (h, cc)

  skip_by-Safe :
      (o : Option Executor) (input : GoMap) (st : LoopState)
      → NoOutput st
      → Safe (skip_by v mode rule o input st)
  skip_by-Safe none input st h = (h, cc)
  skip_by-Safe (some exec) input st h = skip_answer-Safe (exec input) st h

  required_answer-Safe :
      (q : QueryResult) (st : LoopState) → NoOutput st → Safe (required_answer v mode rule q st)
  required_answer-Safe (query_error err) st h =
      (record_rule_error-NoOutput _ _ rule.path _ st h, abort-ne-panic rule_skip (cc))
  required_answer-Safe (value (bool true)) st h =
      (record_rule_error-NoOutput _ _ rule.path _ st h, abort-ne-panic rule_skip (cc))
  required_answer-Safe (value (bool false)) st h = (h, cc)
  required_answer-Safe (value null) st h = (h, cc)
  required_answer-Safe (value _) st h = (h, cc)

  required_by-Safe :
      (o : Option Executor) (input : GoMap) (st : LoopState)
      → NoOutput st
      → Safe (required_by v mode rule o input st)
  required_by-Safe none input st h = (h, cc)
  required_by-Safe (some exec) input st h = required_answer-Safe (exec input) st h

  presence_by-Safe :
      (input : GoMap) (empty absent : Bool) (st : LoopState)
      → NoOutput st
      → Safe (presence_by v mode input rule empty absent st)
  unfolding check_required_if
  presence_by-Safe input empty absent st h =
      let drop = empty && rule.meta.omit_empty in
      let emptied = delete_if drop rule.path st in
      let omitted = delete_if rule.meta.omit_empty rule.path emptied in
      let asked = required_by v mode rule rule.meta.required_if input omitted in
      let skips = rule.meta.omit_if_skip || rule.meta.omit_empty in
      let emptied_none = delete_if-NoOutput drop rule.path st h in
      if-case Safe (empty && rule.meta.skip_empty) (delete_if skips rule.path st, rule_skip)
        (if not rule.meta.optional || not absent then (emptied, rule_run) else asked)
        (λ _. (delete_if-NoOutput skips rule.path st h, cc))
        λ _.
          if-case Safe (not rule.meta.optional || not absent) (emptied, rule_run) asked
            (λ _. (emptied_none, cc))
            λ _.
              required_by-Safe rule.meta.required_if input omitted
                (delete_if-NoOutput rule.meta.omit_empty rule.path emptied emptied_none)

  module _ (go : GoLib) {C : Type 0} (rt : Cue S C) where
    abbrev Kept : Result × Bool → Type 0
    Kept (r, fits) = r.output ≡ none

    validated-Kept :
        (val : Value) (f : FieldDescr S) (o : Option (List CueError)) (r : Result)
        → r.output ≡ none
        → Kept (check_validated v mode go rt rule val f o r)
    validated-Kept val f none r h = h
    validated-Kept val f (some errs) r h = h

    by_cue-Kept :
        (val : Value) (o : Option (FieldDescr S)) (r : Result)
        → r.output ≡ none
        → Kept (check_by_cue v mode go rt rule val o r)
    by_cue-Kept val none r h = h
    by_cue-Kept val (some f) r h =
        validated-Kept val f (rt.validate f.schema (rt.encode_value val)) r h

    fit-Kept :
        (val : Value) (o : Option Bool) (r : Result)
        → r.output ≡ none
        → Kept (check_fit v mode go rt rule val o r)
    fit-Kept val (some true) r h = h
    fit-Kept val (some false) r h = h
    fit-Kept val none r h = by_cue-Kept val (find_cue_field v.cue_fields rule.path) r h

    write_to-Safe :
        (val : Value) (o : GoMap) (st : LoopState)
        → o ≡ none
        → NoOutput st
        → Safe (write_to v mode go rt rule.path val o st)
    write_to-Safe val none st e h = (h, cc)
    write_to-Safe val (some m) st e h = absurd (cc)

    store_checked-Safe :
        (val : Value) (st : LoopState) (out : Result × Bool)
        → Kept out
        → Safe (store_checked v mode go rt rule val st out)
    unfolding write_output mark_failed
    store_checked-Safe val st (r, true) h = write_to-Safe val r.output (with_result st r) h h
    store_checked-Safe val st (r, false) h = (h, abort-ne-panic rule_run (cc))

    answer-Safe :
        (q : QueryResult) (st : LoopState)
        → NoOutput st
        → Safe (apply_answer v mode go rt rule q st)
    unfolding apply_answer record_rule_error mark_failed check_blob_result_type
    answer-Safe (query_error err) st h = (h, abort-ne-panic rule_run (cc))
    answer-Safe (value (bool true)) st h = (h, cc)
    answer-Safe (value (bool false)) st h = (h, abort-ne-panic rule_run (cc))
    answer-Safe (value null) st h =
        store_checked-Safe null st _
          (fit-Kept null (scalar_fits v mode rule.result_kind null) st.result h)
    answer-Safe (value val) st h =
        store_checked-Safe val st _
          (fit-Kept val (scalar_fits v mode rule.result_kind val) st.result h)

    exec_by-Safe :
        (o : Option Executor) (input : GoMap) (st : LoopState)
        → NoOutput st
        → Safe (exec_by v mode go rt rule o input st)
    exec_by-Safe none input st h = (h, cc)
    exec_by-Safe (some exec) input st h = answer-Safe (exec input) st h

    then-Safe :
        (out : LoopState × RuleAction) (next : LoopState → LoopState × RuleAction)
        → Safe out
        → ((st : LoopState) → NoOutput st → Safe (next st))
        → Safe (then_stage v mode go rt out next)
    then-Safe (st, rule_run) next (h, _) k = k st h
    then-Safe (st, rule_skip) next h k = h
    then-Safe (st, rule_abort) next h k = h
    then-Safe (st, rule_panic) next h k = h

    guarded-Safe :
        (input : GoMap) (st : LoopState)
        → NoOutput st
        → Safe (guarded_presence v mode go rt input rule st)
    unfolding apply_presence_rules
    guarded-Safe input st h =
        let field_val = get_nested input rule.path in
        if-case Safe (rule.meta.skip_empty || rule.meta.omit_empty || rule.meta.optional)
          (apply_presence_rules v mode input rule st) (st, rule_run)
          (λ _. presence_by-Safe input (is_empty field_val) (is_nil v mode field_val) st h)
          λ _. (h, cc)

    -- Without an output no stage of a rule panics, and there is none afterwards.
    pub run_stages-Safe :
        (input : GoMap) (st : LoopState)
        → NoOutput st
        → Safe (run_stages go rt v mode input rule st)
    unfolding run_stages apply_skip_if exec_blob_rule
    run_stages-Safe input st h =
        let presence = guarded_presence v mode go rt input rule in
        let skipped = apply_skip_if v mode input rule st in
        then-Safe (then_stage v mode go rt skipped presence)
          (exec_blob_rule v mode go rt input rule)
          (then-Safe skipped presence (skip_by-Safe rule.meta.skip_if input st h)
            (guarded-Safe input))
          (exec_by-Safe rule.exec input)
