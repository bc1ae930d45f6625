-- ===== src/Process/Outcome.antt =====
-- processInternal of process.go: the validity and the output of what it returns.
use schemix.Prelude.{
  ◌≤◌, ℤ, ◌≡◌, refl, sym, ap, subst, ◌∙◌, Bool, true, false, ◌&&◌, not, Option, none, some, List,
  [], ◌∷◌, ◌++◌, length, append-nil, if-case, ◌≢◌, negsuc, arith, ◌⊎◌,
}
use schemix.GoLib.{GoLib}
use schemix.Value.{GoMap}
use schemix.Errors.{ValidationError, Result}
use schemix.FailMode.{FailMode, fail_all, fail_fast, fail_priority, is_fail_fast}
use schemix.CueLayer.{deferred}
use schemix.CueLayer.Growth.{no_errors, extend}
use schemix.CueLayer.Walk.{validate_cue_fields-Grows}
use schemix.Schema.{Cue, ReportsErrors, Validator}
use schemix.Process.Rules.{LoopState}
use schemix.Process.Loop.{Raised, Clean, run_rules-Added}
use schemix.Process.Lowest.{PrioritiesFit, keep_lowest-minimum}
use schemix.Process.Priority.{max_int, keep_lowest_failed_priority}
use schemix.Process.{
  run_rules, clear_output, first_only, initial_state, finish, blob_layer, start, cue_layer,
  continue_from, process_internal,
}

-- The result is valid exactly when it has no errors, and an invalid one has no output.
abbrev pub Consistent : Result → Type 0
Consistent r = (r.valid ≡ no_errors r.errors) × ((r.valid ≡ true) ⊎ (r.output ≡ none))

pub finished :
    (out : LoopState × Bool) (r : Result) → finish out ≡ some r → r ≡ clear_output out.0.result
finished (st, true) r h = absurd (cc)
finished (st, false) r h = cc

pub clear_output-errors : (r : Result) → (clear_output r).errors ≡ r.errors
clear_output-errors r = ground arith

clear_output-valid : (r : Result) → (clear_output r).valid ≡ r.valid
clear_output-valid r = ground arith

clear_output-output :
    (r : Result) → ((clear_output r).valid ≡ true) ⊎ ((clear_output r).output ≡ none)
clear_output-output r = ground arith

no_errors-append :
    (ds es : List ValidationError) → no_errors (ds ++ es) ≡ (no_errors ds && no_errors es)
no_errors-append [] es = refl
no_errors-append (d ∷ ds) es = refl

no_errors-first : (es : List ValidationError) → no_errors es ≡ no_errors (first_only es)
no_errors-first [] = refl
no_errors-first (e ∷ es) = refl

no_errors-false : (es : List ValidationError) → no_errors es ≡ false → es ≢ []
no_errors-false [] h = absurd (cc)
no_errors-false (e ∷ es) h = cc

errors-no_errors : (es : List ValidationError) → es ≢ [] → no_errors es ≡ false
errors-no_errors [] h = absurd (h refl)
errors-no_errors (e ∷ es) h = refl

module _ (go : GoLib) {S C : Type 0} (rt : Cue S C) (v : Validator S) (mode : FailMode) where
  module _ (input : GoMap) where
    -- The result of the rules' layer, given that of the layer before it.
    abbrev pub Extended : ℤ → Result → Result → Type 0
    Extended min_failed r r' =
        (es : List ValidationError) × (r'.errors ≡ r.errors ++ es)
        × (r'.valid ≡ (r.valid && no_errors es))
        × ((r'.valid ≡ true) ⊎ (r'.output ≡ none))
        × (is_fail_fast mode ≡ true → length es ≤ 1)
        × Raised (Clean r.errors) v.blob_rules es

    pub blob_layer-Extended :
        (min_failed : ℤ) (r r' : Result)
        → blob_layer go rt v mode input min_failed r ≡ some r'
        → Extended min_failed r r'
    unfolding blob_layer
    blob_layer-Extended min_failed r r' h =
        let out =
          run_rules go rt v mode input (length r.errors) min_failed (negsuc 0) v.blob_rules
            (initial_state r) in
        let (es, e, w, short, by_rules) =
          run_rules-Added go rt v mode input min_failed r.errors (negsuc 0) v.blob_rules
            (initial_state r) ([], sym (append-nil r.errors)) in
        subst (Extended min_failed r) (sym (finished out r' h)) (
          es,
          clear_output-errors out.0.result ∙ e,
          clear_output-valid out.0.result ∙ w,
          clear_output-output out.0.result,
          short,
          by_rules,
        )

    pub cue_layer-start :
        ReportsErrors rt
        → (need_output : Bool)
        → (es : List ValidationError) × (cue_layer go rt v mode input need_output
            ≡ extend es (start input need_output))
    unfolding cue_layer
    cue_layer-start reports need_output =
        validate_cue_fields-Grows go v rt reports (is_fail_fast mode) v.cue_fields (deferred input)
          input (start input need_output)

    Consistent-Extended :
        (min_failed : ℤ) (r r' : Result)
        → r.valid ≡ no_errors r.errors
        → Extended min_failed r r'
        → Consistent r'
    Consistent-Extended min_failed r r' h (es, e, w, out, _, _) = (
      w ∙ ap (λ b. b && no_errors es) h ∙ sym (no_errors-append r.errors es) ∙ ap no_errors (sym e),
      out,
    )

    Consistent-blob :
        (min_failed : ℤ) (r r' : Result)
        → r.valid ≡ no_errors r.errors
        → blob_layer go rt v mode input min_failed r ≡ some r'
        → Consistent r'
    Consistent-blob min_failed r r' h k =
        Consistent-Extended min_failed r r' h (blob_layer-Extended min_failed r r' k)

module _ (go : GoLib) {S C : Type 0} (rt : Cue S C) (v : Validator S) (input : GoMap) where
  module _ (r r' : Result) (h : r.valid ≡ no_errors r.errors) where
    -- A result that is cut down to its first error.
    first-Consistent :
        r.valid ≡ false
        → r' ≡ clear_output (record r { errors = first_only r.errors })
        → Consistent r'
    first-Consistent w k = subst Consistent (sym k) (
      clear_output-valid cut
          ∙ h
          ∙ no_errors-first r.errors
          ∙ ap no_errors (sym (clear_output-errors cut)),
      clear_output-output cut,
    )
      where
        cut : Result
        cut = record r { errors = first_only r.errors }

    continue_all : continue_from go rt v fail_all input r ≡ some r' → Consistent r'
    unfolding continue_from
    continue_all = Consistent-blob go rt v fail_all input max_int r r' h

    continue_fast : continue_from go rt v fail_fast input r ≡ some r' → Consistent r'
    unfolding continue_from
    continue_fast =
        if-case (λ (o : Option Result). o ≡ some r' → Consistent r') (not r.valid)
          (some (clear_output (record r { errors = first_only r.errors })))
          (blob_layer go rt v fail_fast input max_int r)
          (λ w k. first-Consistent (ground arith) (cc))
          λ w. Consistent-blob go rt v fail_fast input max_int r r' h

    continue_priority :
        PrioritiesFit v.cue_fields
        → continue_from go rt v fail_priority input r ≡ some r'
        → Consistent r'
    unfolding continue_from
    continue_priority fit =
        let (kept, lowest) = keep_lowest_failed_priority v.cue_fields r in
        if-case (λ (o : Option Result). o ≡ some r' → Consistent r') (not r.valid)
          (blob_layer go rt v fail_priority input lowest kept)
          (blob_layer go rt v fail_priority input max_int r)
          (λ w.
            (let invalid : r.valid ≡ false = ground arith in
              let some_error = no_errors-false r.errors (sym h ∙ invalid) in
              Consistent-blob go rt v fail_priority input lowest kept r' (
                invalid
                ∙ sym (
                    errors-no_errors kept.errors
                      (keep_lowest-minimum v.cue_fields r fit some_error).0))))
          λ w. Consistent-blob go rt v fail_priority input max_int r r' h

  extended_start-valid :
      (need_output : Bool) (r : Result)
      → (es : List ValidationError) × (r ≡ extend es (start input need_output))
      → r.valid ≡ no_errors r.errors
  extended_start-valid need_output r (es, e) =
      subst (λ (s : Result). s.valid ≡ no_errors s.errors) (sym e) refl

  module _ (reports : ReportsErrors rt) where
    pub cue_layer-valid :
        (mode : FailMode) (need_output : Bool)
        → (cue_layer go rt v mode input need_output).valid
          ≡ no_errors (cue_layer go rt v mode input need_output).errors
    cue_layer-valid mode need_output =
        extended_start-valid need_output (cue_layer go rt v mode input need_output)
          (cue_layer-start go rt v mode input reports need_output)

    -- If the runtime of CUE reports an error whenever it rejects a value, and the priorities of the
    -- fields are ints of Go, then a validation that returns, in any mode, returns a result that is
    -- valid exactly when it has no errors, and that is valid or has no output.
    pub process_internal-Consistent :
        PrioritiesFit v.cue_fields
        → (mode : FailMode) (need_output : Bool) (r : Result)
        → process_internal go rt v mode input need_output ≡ some r
        → Consistent r
    unfolding process_internal
    process_internal-Consistent fit fail_all need_output r h =
        continue_all (cue_layer go rt v fail_all input need_output) r
          (cue_layer-valid fail_all need_output) h
    process_internal-Consistent fit fail_fast need_output r h =
        continue_fast (cue_layer go rt v fail_fast input need_output) r
          (cue_layer-valid fail_fast need_output) h
    process_internal-Consistent fit fail_priority need_output r h =
        continue_priority (cue_layer go rt v fail_priority input need_output) r
          (cue_layer-valid fail_priority need_output) fit h
