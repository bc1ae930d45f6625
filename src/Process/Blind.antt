-- ===== src/Process/Blind.antt =====
-- The stages of a rule in process.go on a state with its output and without.
use schemix.Prelude.{
  List, Text, ◌≡◌, refl, sym, ap, subst, Bool, true, false, ◌&&◌, ◌||◌, not, Option, none, some,
  inl, inr, ◌⊎◌, if◌then◌else◌,
}
use schemix.GoLib.{GoLib}
use schemix.Value.{Value, null, bool, GoMap, Entries}
use schemix.Nested.{get_nested, is_empty, set_nested}
use schemix.Errors.{Result}
use schemix.FailMode.{FailMode}
use schemix.Classify.{CueError}
use schemix.CueLayer.Blind.{forget}
use schemix.Schema.{Cue, Validator, FieldDescr, BlobRule, QueryResult, value, query_error, Executor}
use schemix.Process.Priority.{find_cue_field}
use schemix.Process.Rules.{
  LoopState, RuleAction, rule_run, rule_skip, rule_abort, rule_panic, delete_if, record_rule_error,
  mark_failed, with_result, skip_answer, skip_by, apply_skip_if, required_answer, required_by,
  check_required_if, presence_by, apply_presence_rules, is_nil, scalar_fits, check_validated,
  check_by_cue, check_fit, check_blob_result_type, written, write_to, write_output, store_checked,
  apply_answer, exec_by, exec_blob_rule, then_stage, guarded_presence, run_stages,
}

abbrev pub forget_state : LoopState → LoopState
forget_state st = with_result st (forget st.result)

abbrev pub forget_out : LoopState × RuleAction → LoopState × RuleAction
forget_out (st, action) = (forget_state st, action)

-- The stage panics, or it does the same without the output.
abbrev pub SameBut : LoopState × RuleAction → LoopState × RuleAction → Type 0
SameBut out out' = (out.1 ≡ rule_panic) ⊎ (out' ≡ forget_out out)

abbrev pub Blind : (LoopState → LoopState × RuleAction) → Type 0
Blind stage = (st : LoopState) → SameBut (stage st) (stage (forget_state st))

delete_if-forget :
    (b : Bool) (path : Text) (st : LoopState)
    → delete_if b path (forget_state st) ≡ forget_state (delete_if b path st)
delete_if-forget true path st = refl
delete_if-forget false path st = refl

if-SameBut :
    (b : Bool) (x y x' y' : LoopState × RuleAction)
    → SameBut x x'
    → SameBut y y'
    → SameBut (if b then x else y) (if b then x' else y')
if-SameBut true x y x' y' h k = h
if-SameBut false x y x' y' h k = k

module _ {S : Type 0} (v : Validator S) (mode : FailMode) (rule : BlobRule) where
  skip_answer-Blind : (q : QueryResult) → Blind (skip_answer v mode rule q)
  unfolding record_rule_error mark_failed
  skip_answer-Blind (query_error err) st = inr refl
  skip_answer-Blind (value (bool true)) st =
      inr (ap (λ s. (s, rule_skip)) (delete_if-forget rule.meta.omit_if_skip rule.path st))
  skip_answer-Blind (value (bool false)) st = inr refl
  skip_answer-Blind (value null) st = inr refl
  skip_answer-Blind (value _) st = inr refl

  skip_by-Blind : (o : Option Executor) (input : GoMap) → Blind (skip_by v mode rule o input)
  skip_by-Blind none input st = inr refl
  skip_by-Blind (some exec) input st = skip_answer-Blind (exec input) st

  required_answer-Blind : (q : QueryResult) → Blind (required_answer v mode rule q)
  unfolding record_rule_error mark_failed
  required_answer-Blind (query_error err) st = inr refl
  required_answer-Blind (value (bool true)) st = inr refl
  required_answer-Blind (value (bool false)) st = inr refl
  required_answer-Blind (value null) st = inr refl
  required_answer-Blind (value _) st = inr refl

  required_by-Blind :
      (o : Option Executor) (input : GoMap) → Blind (required_by v mode rule o input)
  required_by-Blind none input st = inr refl
  required_by-Blind (some exec) input st = required_answer-Blind (exec input) st

  -- A stage behind a deletion from the output.
  delete_if-SameBut :
      (b : Bool) (stage : LoopState → LoopState × RuleAction) (st : LoopState)
      → Blind stage
      → SameBut (stage (delete_if b rule.path st)) (stage (delete_if b rule.path (forget_state st)))
  delete_if-SameBut true stage st h = h (delete_if true rule.path st)
  delete_if-SameBut false stage st h = h st

  presence_by-Blind :
      (input : GoMap) (empty absent : Bool) → Blind (presence_by v mode input rule empty absent)
  unfolding check_required_if
  presence_by-Blind input empty absent st =
      let drop = empty && rule.meta.omit_empty in
      let skips = rule.meta.omit_if_skip || rule.meta.omit_empty in
      let asked = required_by v mode rule rule.meta.required_if input in
      let after_omit = λ (s : LoopState). asked (delete_if rule.meta.omit_empty rule.path s) in
      if-SameBut (empty && rule.meta.skip_empty) _ _ _ _
        (inr (ap (λ s. (s, rule_skip)) (delete_if-forget skips rule.path st)))
        (if-SameBut (not rule.meta.optional || not absent) _ _ _ _
          (inr (ap (λ s. (s, rule_run)) (delete_if-forget drop rule.path st)))
          (delete_if-SameBut drop after_omit st λ s.
            delete_if-SameBut rule.meta.omit_empty asked s
              (required_by-Blind rule.meta.required_if input)))

  module _ (go : GoLib) {C : Type 0} (rt : Cue S C) where
    abbrev forget_checked : Result × Bool → Result × Bool
    forget_checked (r, fits) = (forget r, fits)

    validated-forget :
        (val : Value) (f : FieldDescr S) (o : Option (List CueError)) (r : Result)
        → check_validated v mode go rt rule val f o (forget r)
          ≡ forget_checked (check_validated v mode go rt rule val f o r)
    validated-forget val f none r = refl
    validated-forget val f (some errs) r = refl

    by_cue-forget :
        (val : Value) (o : Option (FieldDescr S)) (r : Result)
        → check_by_cue v mode go rt rule val o (forget r)
          ≡ forget_checked (check_by_cue v mode go rt rule val o r)
    by_cue-forget val none r = refl
    by_cue-forget val (some f) r =
        validated-forget val f (rt.validate f.schema (rt.encode_value val)) r

    fit-forget :
        (val : Value) (o : Option Bool) (r : Result)
        → check_fit v mode go rt rule val o (forget r)
          ≡ forget_checked (check_fit v mode go rt rule val o r)
    fit-forget val (some true) r = refl
    fit-forget val (some false) r = refl
    fit-forget val none r = by_cue-forget val (find_cue_field v.cue_fields rule.path) r

    written-SameBut :
        (o : Option Entries) (st : LoopState)
        → SameBut (written v mode go rt o st) (forget_state st, rule_run)
    written-SameBut none st = inl refl
    written-SameBut (some m) st = inr refl

    write_to-SameBut :
        (val : Value) (o : GoMap) (st : LoopState)
        → SameBut (write_to v mode go rt rule.path val o st) (forget_state st, rule_run)
    write_to-SameBut val none st = inr refl
    write_to-SameBut val (some m) st = written-SameBut (set_nested m rule.path val) st

    store_checked-SameBut :
        (val : Value) (st : LoopState) (out : Result × Bool)
        → SameBut
            (store_checked v mode go rt rule val st out)
            (store_checked v mode go rt rule val (forget_state st) (forget_checked out))
    unfolding write_output mark_failed
    store_checked-SameBut val st (r, true) = write_to-SameBut val r.output (with_result st r)
    store_checked-SameBut val st (r, false) = inr refl

    answer_fit-SameBut :
        (val : Value) (st : LoopState)
        → SameBut
            (store_checked v mode go rt rule val st
              (check_blob_result_type v mode go rt rule val st.result))
            (store_checked v mode go rt rule val
              (forget_state st)
              (check_blob_result_type v mode go rt rule val (forget st.result)))
    unfolding check_blob_result_type
    answer_fit-SameBut val st =
        let kind = scalar_fits v mode rule.result_kind val in
        let out = check_fit v mode go rt rule val kind st.result in
        subst
          (λ o.
            SameBut (store_checked v mode go rt rule val st out)
              (store_checked v mode go rt rule val (forget_state st) o))
          (sym (fit-forget val kind st.result)) (store_checked-SameBut val st out)

    answer-Blind : (q : QueryResult) → Blind (apply_answer v mode go rt rule q)
    unfolding apply_answer record_rule_error mark_failed
    answer-Blind (query_error err) st = inr refl
    answer-Blind (value (bool true)) st = inr refl
    answer-Blind (value (bool false)) st = inr refl
    answer-Blind (value null) st = answer_fit-SameBut null st
    answer-Blind (value val) st = answer_fit-SameBut val st

    exec_by-Blind :
        (o : Option Executor) (input : GoMap) → Blind (exec_by v mode go rt rule o input)
    exec_by-Blind none input st = inr refl
    exec_by-Blind (some exec) input st = answer-Blind (exec input) st

    then-SameBut :
        (out out' : LoopState × RuleAction) (next : LoopState → LoopState × RuleAction)
        → SameBut out out'
        → Blind next
        → SameBut (then_stage v mode go rt out next) (then_stage v mode go rt out' next)
    then-SameBut (st, rule_run) out' next (inl p) k = absurd (cc)
    then-SameBut (st, rule_run) out' next (inr e) k =
        subst (λ o. SameBut (next st) (then_stage v mode go rt o next)) (sym e) (k st)
    then-SameBut (st, rule_skip) out' next (inl p) k = absurd (cc)
    then-SameBut (st, rule_skip) out' next (inr e) k =
        inr (ap (λ o. then_stage v mode go rt o next) e)
    then-SameBut (st, rule_abort) out' next (inl p) k = absurd (cc)
    then-SameBut (st, rule_abort) out' next (inr e) k =
        inr (ap (λ o. then_stage v mode go rt o next) e)
    then-SameBut (st, rule_panic) out' next h k = inl refl

    -- The stages of a rule panic, or they do the same without the output.
    pub run_stages-Blind : (input : GoMap) → Blind (run_stages go rt v mode input rule)
    unfolding run_stages apply_skip_if exec_blob_rule apply_presence_rules
    run_stages-Blind input st =
        let presence = guarded_presence v mode go rt input rule in
        let field_val = get_nested input rule.path in
        let presence_blind : Blind presence = λ s.
          if-SameBut (rule.meta.skip_empty || rule.meta.omit_empty || rule.meta.optional) _ _ _ _
            (presence_by-Blind input (is_empty field_val) (is_nil v mode field_val) s) (inr refl) in
        then-SameBut _ _ (exec_by v mode go rt rule rule.exec input)
          (then-SameBut _ _ presence (skip_by-Blind rule.meta.skip_if input st) presence_blind)
          (exec_by-Blind rule.exec input)
