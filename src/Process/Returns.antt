-- ===== src/Process/Returns.antt =====
-- processInternal of process.go without an output: whether it returns.
use schemix.Prelude.{
  ℕ, ℤ, negsuc, text_eq, ◌≡◌, refl, ap, Bool, true, false, ◌&&◌, not, Option, none, some, List, [],
  ◌∷◌, any, take, length, if-case, if◌then◌else◌,
}
use schemix.GoLib.{GoLib}
use schemix.Value.{GoMap}
use schemix.Errors.{Result}
use schemix.FailMode.{FailMode, is_fail_fast, is_fail_priority}
use schemix.Schema.{Cue, ReportsErrors, Validator, BlobRule}
use schemix.Process.Outcome.{cue_layer-start}
use schemix.Process.Priority.{max_int, keep_lowest_failed_priority}
use schemix.Process.Rules.{
  LoopState, RuleAction, rule_run, rule_skip, rule_abort, rule_panic, run_stages,
}
use schemix.Process.Total.{NoOutput, Safe, run_stages-Safe}
use schemix.Process.{
  Visit, stop, go_on, after_stages, enters_group, beyond_failed, visit_clean, visit,
  has_validation_error_at_path, then_rules, run_rules, clear_output, first_only, initial_state,
  finish, blob_layer, cue_layer, continue_from, process_internal,
}

abbrev SafeVisit : Visit → Type 0
SafeVisit (stop st panicked) = panicked ≡ false
SafeVisit (go_on c st) = NoOutput st

after_stages-SafeVisit :
    (c : ℤ) (out : LoopState × RuleAction) → Safe out → SafeVisit (after_stages c out)
after_stages-SafeVisit c (st, rule_run) (h, k) = h
after_stages-SafeVisit c (st, rule_skip) (h, k) = h
after_stages-SafeVisit c (st, rule_abort) (h, k) = refl
after_stages-SafeVisit c (st, rule_panic) (h, k) = absurd (k refl)

finish-some : (out : LoopState × Bool) → out.1 ≡ false → (r : Result) × (finish out ≡ some r)
finish-some (st, true) h = absurd (cc)
finish-some (st, false) h = (clear_output st.result, refl)

module _ (go : GoLib) {S C : Type 0} (rt : Cue S C) (v : Validator S) (mode : FailMode) where
  module _ (input : GoMap) where
    visit_clean-SafeVisit :
        (min_failed current : ℤ) (rule : BlobRule) (st : LoopState)
        → NoOutput st
        → SafeVisit (visit_clean go rt v mode input min_failed current rule st)
    unfolding visit_clean
    visit_clean-SafeVisit min_failed current rule st h =
        let enters = enters_group go rt v mode current rule in
        let next = if enters then rule.meta.priority else current in
        let ran = after_stages next (run_stages go rt v mode input rule st) in
        let skipped = rule.meta.fail_fast && any (text_eq rule.path) st.failed_paths in
        let beyond = beyond_failed go rt v mode min_failed rule in
        if-case SafeVisit (enters && st.priority_has_error) (stop st false)
          (if beyond then stop st false else if skipped then go_on next st else ran) (λ _. refl)
          λ _.
            if-case SafeVisit beyond (stop st false) (if skipped then go_on next st else ran)
              (λ _. refl)
              λ _.
                if-case SafeVisit skipped (go_on next st) ran (λ _. h)
                  λ _.
                    after_stages-SafeVisit next (run_stages go rt v mode input rule st)
                      (run_stages-Safe v mode rule go rt input st h)

    visit-SafeVisit :
        (n : ℕ) (min_failed current : ℤ) (rule : BlobRule) (st : LoopState)
        → NoOutput st
        → SafeVisit (visit go rt v mode input n min_failed current rule st)
    unfolding visit
    visit-SafeVisit n min_failed current rule st h =
        if-case SafeVisit (has_validation_error_at_path (take n st.result.errors) rule.path)
          (go_on current (record st { failed_paths = rule.path ∷ st.failed_paths }))
          (visit_clean go rt v mode input min_failed current rule st) (λ _. h)
          λ _. visit_clean-SafeVisit min_failed current rule st h

    then_rules-safe :
        (x : Visit) (next : ℤ → LoopState → LoopState × Bool)
        → SafeVisit x
        → ((c : ℤ) (st : LoopState) → NoOutput st → (next c st).1 ≡ false)
        → (then_rules x next).1 ≡ false
    then_rules-safe (stop st panicked) next h k = h
    then_rules-safe (go_on c st) next h k = k c st h

    run_rules-safe :
        (n : ℕ) (min_failed current : ℤ) (rules : List BlobRule) (st : LoopState)
        → NoOutput st
        → (run_rules go rt v mode input n min_failed current rules st).1 ≡ false
    unfolding run_rules
    run_rules-safe n min_failed current [] st h = refl
    run_rules-safe n min_failed current (rule ∷ rules) st h =
        then_rules-safe (visit go rt v mode input n min_failed current rule st) _
          (visit-SafeVisit n min_failed current rule st h)
          λ c st' h'. run_rules-safe n min_failed c rules st' h'

    abbrev Returns : Option Result → Type 0
    Returns o = (r : Result) × (o ≡ some r)

    blob_layer-Returns :
        (min_failed : ℤ) (r : Result)
        → r.output ≡ none
        → Returns (blob_layer go rt v mode input min_failed r)
    unfolding blob_layer
    blob_layer-Returns min_failed r h =
        finish-some
          (run_rules go rt v mode input (length r.errors) min_failed (negsuc 0) v.blob_rules
            (initial_state r))
          (run_rules-safe (length r.errors) min_failed (negsuc 0) v.blob_rules (initial_state r) h)

    continue-Returns : (r : Result) → r.output ≡ none → Returns (continue_from go rt v mode input r)
    unfolding continue_from keep_lowest_failed_priority
    continue-Returns r h =
        let (kept, lowest) = keep_lowest_failed_priority v.cue_fields r in
        let cut = some (clear_output (record r { errors = first_only r.errors })) in
        let fast = is_fail_fast mode && not r.valid in
        let group = is_fail_priority mode && not r.valid in
        if-case Returns fast cut
          (if group
            then blob_layer go rt v mode input lowest kept
            else blob_layer go rt v mode input max_int r)
          (λ _. (clear_output (record r { errors = first_only r.errors }), refl))
          λ _.
            if-case Returns group (blob_layer go rt v mode input lowest kept)
              (blob_layer go rt v mode input max_int r) (λ _. blob_layer-Returns lowest kept h)
              λ _. blob_layer-Returns max_int r h

    -- If the runtime of CUE reports an error whenever it rejects a value, a validation that keeps
    -- no output returns a result, in every mode, whatever the input and the rules.
    pub process_internal-returns :
        ReportsErrors rt → (r : Result) × (process_internal go rt v mode input false ≡ some r)
    unfolding process_internal
    process_internal-returns reports =
        let (es, e) = cue_layer-start go rt v mode input reports false in
        continue-Returns (cue_layer go rt v mode input false) (ap (λ (r : Result). r.output) e)
