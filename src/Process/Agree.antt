-- ===== src/Process/Agree.antt =====
-- processInternal of process.go with needOutput and without.
use schemix.Prelude.{
  ℕ, ℤ, negsuc, text_eq, ◌≡◌, refl, sym, ap, subst, ◌∙◌, Bool, true, false, ◌&&◌, not, Option, none,
  some, List, [], ◌∷◌, any, take, length, inl, inr, ◌⊎◌, if◌then◌else◌,
}
use schemix.GoLib.{GoLib}
use schemix.Value.{GoMap}
use schemix.Errors.{Result}
use schemix.FailMode.{FailMode, is_fail_fast, is_fail_priority}
use schemix.CueLayer.{deferred}
use schemix.CueLayer.Blind.{forget, if-forget, validate_cue_fields-forget}
use schemix.Schema.{Cue, Validator, BlobRule}
use schemix.Process.Priority.{max_int, keep_lowest_failed_priority}
use schemix.Process.Rules.{LoopState, RuleAction, rule_run, rule_skip, rule_abort, rule_panic}
use schemix.Process.Blind.{forget_state, SameBut, run_stages-Blind}
use schemix.Process.{
  Visit, stop, go_on, after_stages, enters_group, beyond_failed, visit_clean, visit,
  has_validation_error_at_path, then_rules, run_rules, clear_output, first_only, initial_state,
  finish, blob_layer, start, cue_layer, continue_from, process_internal,
}

-- The round panics, or it does the same without the output.
abbrev SameVisit : Visit → Visit → Type 0
SameVisit (stop st panicked) x' = (panicked ≡ true) ⊎ (x' ≡ stop (forget_state st) panicked)
SameVisit (go_on c st) x' = x' ≡ go_on c (forget_state st)

abbrev SameEnd : LoopState × Bool → LoopState × Bool → Type 0
SameEnd out out' = (out.1 ≡ true) ⊎ (out' ≡ (forget_state out.0, out.1))

-- There is no result, or the other is the same without its output.
abbrev Agrees : Option Result → Option Result → Type 0
Agrees none o' = Unit
Agrees (some r) o' = o' ≡ some (forget r)

if-SameVisit :
    (b : Bool) (x y x' y' : Visit)
    → SameVisit x x'
    → SameVisit y y'
    → SameVisit (if b then x else y) (if b then x' else y')
if-SameVisit true x y x' y' h k = h
if-SameVisit false x y x' y' h k = k

if-Agrees :
    (b : Bool) (x y x' y' : Option Result)
    → Agrees x x'
    → Agrees y y'
    → Agrees (if b then x else y) (if b then x' else y')
if-Agrees true x y x' y' h k = h
if-Agrees false x y x' y' h k = k

after_stages-SameVisit :
    (c : ℤ) (out out' : LoopState × RuleAction)
    → SameBut out out'
    → SameVisit (after_stages c out) (after_stages c out')
after_stages-SameVisit c (st, rule_run) out' (inl p) = absurd (cc)
after_stages-SameVisit c (st, rule_run) out' (inr e) = ap (after_stages c) e
after_stages-SameVisit c (st, rule_skip) out' (inl p) = absurd (cc)
after_stages-SameVisit c (st, rule_skip) out' (inr e) = ap (after_stages c) e
after_stages-SameVisit c (st, rule_abort) out' (inl p) = absurd (cc)
after_stages-SameVisit c (st, rule_abort) out' (inr e) = inr (ap (after_stages c) e)
after_stages-SameVisit c (st, rule_panic) out' h = inl refl

then_rules-SameEnd :
    (x x' : Visit) (next : ℤ → LoopState → LoopState × Bool)
    → SameVisit x x'
    → ((c : ℤ) (st : LoopState) → SameEnd (next c st) (next c (forget_state st)))
    → SameEnd (then_rules x next) (then_rules x' next)
then_rules-SameEnd (stop st panicked) x' next (inl p) k = inl p
then_rules-SameEnd (stop st panicked) x' next (inr e) k = inr (ap (λ y. then_rules y next) e)
then_rules-SameEnd (go_on c st) x' next e k =
    subst (λ y. SameEnd (next c st) (then_rules y next)) (sym e) (k c st)

finish-Agrees : (out out' : LoopState × Bool) → SameEnd out out' → Agrees (finish out) (finish out')
finish-Agrees (st, true) out' h = tt
finish-Agrees (st, false) out' (inl p) = absurd (cc)
finish-Agrees (st, false) out' (inr e) =
    ap finish e
    ∙ ap some
        (if-forget st.result.valid (λ r. r) (λ r. record r { output = none }) st.result refl refl)

module _ (go : GoLib) {S C : Type 0} (rt : Cue S C) (v : Validator S) (mode : FailMode) where
  module _ (input : GoMap) where
    visit_clean-SameVisit :
        (min_failed current : ℤ) (rule : BlobRule) (st : LoopState)
        → SameVisit
            (visit_clean go rt v mode input min_failed current rule st)
            (visit_clean go rt v mode input min_failed current rule (forget_state st))
    unfolding visit_clean
    visit_clean-SameVisit min_failed current rule st =
        let enters = enters_group go rt v mode current rule in
        let next = if enters then rule.meta.priority else current in
        if-SameVisit (enters && st.priority_has_error) _ _ _ _ (inr refl) (
          if-SameVisit (beyond_failed go rt v mode min_failed rule) _ _ _ _ (inr refl) (
            if-SameVisit (rule.meta.fail_fast && any (text_eq rule.path) st.failed_paths) _ _ _ _
              refl (after_stages-SameVisit next _ _ (run_stages-Blind v mode rule go rt input st))))

    visit-SameVisit :
        (n : ℕ) (min_failed current : ℤ) (rule : BlobRule) (st : LoopState)
        → SameVisit
            (visit go rt v mode input n min_failed current rule st)
            (visit go rt v mode input n min_failed current rule (forget_state st))
    unfolding visit
    visit-SameVisit n min_failed current rule st =
        if-SameVisit (has_validation_error_at_path (take n st.result.errors) rule.path) _ _ _ _ refl
          (visit_clean-SameVisit min_failed current rule st)

    run_rules-SameEnd :
        (n : ℕ) (min_failed current : ℤ) (rules : List BlobRule) (st : LoopState)
        → SameEnd
            (run_rules go rt v mode input n min_failed current rules st)
            (run_rules go rt v mode input n min_failed current rules (forget_state st))
    unfolding run_rules
    run_rules-SameEnd n min_failed current [] st = inr refl
    run_rules-SameEnd n min_failed current (rule ∷ rules) st =
        then_rules-SameEnd _ _ _ (visit-SameVisit n min_failed current rule st)
          λ c st'. run_rules-SameEnd n min_failed c rules st'

    blob_layer-Agrees :
        (min_failed : ℤ) (r : Result)
        → Agrees
            (blob_layer go rt v mode input min_failed r)
            (blob_layer go rt v mode input min_failed (forget r))
    unfolding blob_layer
    blob_layer-Agrees min_failed r =
        finish-Agrees _ _
          (run_rules-SameEnd (length r.errors) min_failed (negsuc 0) v.blob_rules (initial_state r))

    continue_from-Agrees :
        (r : Result)
        → Agrees (continue_from go rt v mode input r) (continue_from go rt v mode input (forget r))
    unfolding continue_from keep_lowest_failed_priority
    continue_from-Agrees r =
        let (kept, lowest) = keep_lowest_failed_priority v.cue_fields r in
        let cut = λ (s : Result). clear_output (record s { errors = first_only s.errors }) in
        if-Agrees (is_fail_fast mode && not r.valid) _ _ _ _
          (ap some (
            if-forget r.valid (λ s. record s { errors = first_only s.errors })
              (λ s. record s { errors = first_only s.errors; output = none }) r refl refl))
          (if-Agrees (is_fail_priority mode && not r.valid) _ _ _ _ (blob_layer-Agrees lowest kept)
            (blob_layer-Agrees max_int r))

    agreed : (o o' : Option Result) (r : Result) → Agrees o o' → o ≡ some r → o' ≡ some (forget r)
    agreed none o' r h k = absurd (cc)
    agreed (some s) o' r h k = cc

    -- If the validation that keeps an output returns a result, then the one that keeps none
    -- returns the same result but for the output, in every mode.
    pub process_internal-forget :
        (r : Result)
        → process_internal go rt v mode input true ≡ some r
        → process_internal go rt v mode input false ≡ some (forget r)
    unfolding process_internal cue_layer
    process_internal-forget r h =
        let walk =
          validate_cue_fields-forget go v rt (is_fail_fast mode) v.cue_fields (deferred input) input
            (start input true) in
        let same = continue_from-Agrees (cue_layer go rt v mode input true) in
        ap (continue_from go rt v mode input) walk
        ∙ agreed (continue_from go rt v mode input (cue_layer go rt v mode input true)) _ r same h
