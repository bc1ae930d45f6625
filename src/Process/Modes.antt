-- ===== src/Process/Modes.antt =====
-- processInternal of process.go: the errors of a whole validation in each mode.
use schemix.Prelude.{
  ℤ, negsuc, ◌≤◌, ◌≡◌, refl, sym, subst, ◌∙◌, Bool, true, false, not, Option, some, List, [], ◌∷◌,
  ◌++◌, length, arith, if-case, if◌then◌else◌,
}
use schemix.GoLib.{GoLib}
use schemix.Value.{GoMap}
use schemix.Errors.{ValidationError, Result}
use schemix.FailMode.{fail_all, fail_fast, fail_priority}
use schemix.CueLayer.Growth.{no_errors}
use schemix.Schema.{Cue, ReportsErrors, Validator}
use schemix.Process.Loop.{Raised, Clean}
use schemix.Process.Groups.{SortedFrom, OfGroup, run_rules-OneGroup}
use schemix.Process.Outcome.{blob_layer-Extended, cue_layer-valid, finished, clear_output-errors}
use schemix.Process.Priority.{max_int, keep_lowest_failed_priority}
use schemix.Process.{
  run_rules, clear_output, first_only, initial_state, blob_layer, cue_layer, continue_from,
  process_internal,
}

first_only-short : (es : List ValidationError) → length (first_only es) ≤ 1
first_only-short [] = omega arith
first_only-short (e ∷ es) = omega arith

no_errors-short :
    (ds es : List ValidationError) → no_errors ds ≡ true → length es ≤ 1 → length (ds ++ es) ≤ 1
no_errors-short [] es h k = k
no_errors-short (d ∷ ds) es h k = absurd (cc)

module _ (go : GoLib) {S C : Type 0} (rt : Cue S C) (v : Validator S) (input : GoMap) where
  fast_one :
      (r r' : Result)
      → r.valid ≡ no_errors r.errors
      → continue_from go rt v fail_fast input r ≡ some r'
      → length r'.errors ≤ 1
  unfolding continue_from
  fast_one r r' h =
      let cut = record r { errors = first_only r.errors } in
      if-case (λ (o : Option Result). o ≡ some r' → length r'.errors ≤ 1) (not r.valid)
        (some (clear_output cut)) (blob_layer go rt v fail_fast input max_int r)
        (λ w k.
          (let same : r' ≡ clear_output cut = cc in
            subst (λ (s : Result). length s.errors ≤ 1) (sym same)
              (subst (λ es. length es ≤ 1) (sym (clear_output-errors cut))
                (first_only-short r.errors))))
        λ w k.
          (let (es, e, _, _, short, _) =
              blob_layer-Extended go rt v fail_fast input max_int r r' k in
            subst (λ ds. length ds ≤ 1) (sym e)
              (no_errors-short r.errors es (sym h ∙ ground arith) (short refl)))

  -- FailFast: if the runtime of CUE reports an error whenever it rejects a value, a validation that
  -- returns has at most one error.
  pub process_internal-one_error :
      ReportsErrors rt
      → (need_output : Bool) (r : Result)
      → process_internal go rt v fail_fast input need_output ≡ some r
      → length r.errors ≤ 1
  unfolding process_internal
  process_internal-one_error reports need_output r h =
      fast_one (cue_layer go rt v fail_fast input need_output) r
        (cue_layer-valid go rt v input reports fail_fast need_output) h

  -- FailAll: the errors of a validation that returns are those of the CUE layer, all of them, and
  -- behind them errors of some of the rules, in the order of the rules, at most one for a rule and
  -- at its path, and none for a rule at whose path, or below it, the CUE layer has an error.
  pub process_internal-all_errors :
      (need_output : Bool) (r : Result)
      → process_internal go rt v fail_all input need_output ≡ some r
      → (es : List ValidationError) × (r.errors
          ≡ (cue_layer go rt v fail_all input need_output).errors ++ es)
        × Raised (Clean (cue_layer go rt v fail_all input need_output).errors) v.blob_rules es
  unfolding process_internal continue_from
  process_internal-all_errors need_output r h =
      let (es, e, _, _, _, by_rules) =
        blob_layer-Extended go rt v fail_all input max_int
          (cue_layer go rt v fail_all input need_output) r h in
      (es, e, by_rules)

  -- What the rules start from, and the lowest priority that has failed.
  abbrev pub cut_down : Result → Result × ℤ
  cut_down r = if not r.valid then keep_lowest_failed_priority v.cue_fields r else (r, max_int)

  abbrev pub GroupErrors : Result × ℤ → Result → Type 0
  GroupErrors cut r =
      (q : ℤ) × (es : List ValidationError) × (r.errors ≡ cut.0.errors ++ es)
      × Raised (OfGroup cut.1 q) v.blob_rules es

  blob_layer-OneGroup :
      (lowest : ℤ) (r r' : Result)
      → SortedFrom (negsuc 0) v.blob_rules
      → blob_layer go rt v fail_priority input lowest r ≡ some r'
      → GroupErrors (r, lowest) r'
  unfolding blob_layer
  blob_layer-OneGroup lowest r r' sorted h =
      let out =
        run_rules go rt v fail_priority input (length r.errors) lowest (negsuc 0) v.blob_rules
          (initial_state r) in
      let (q, (es, e, by_rules)) =
        run_rules-OneGroup go rt v input (length r.errors) lowest (negsuc 0) (negsuc 0) v.blob_rules
          (initial_state r) (ground arith) sorted in
      subst (GroupErrors (r, lowest)) (sym (finished out r' h))
        (q, es, clear_output-errors out.0.result ∙ e, by_rules)

  group_errors :
      (cut : Bool) (r r' : Result)
      → SortedFrom (negsuc 0) v.blob_rules
      → (if cut
          then blob_layer go rt v fail_priority input
              (keep_lowest_failed_priority v.cue_fields r).1
              (keep_lowest_failed_priority v.cue_fields r).0
          else blob_layer go rt v fail_priority input max_int r)
        ≡ some r'
      → GroupErrors (if cut then keep_lowest_failed_priority v.cue_fields r else (r, max_int)) r'
  group_errors true r r' sorted h =
      let (kept, lowest) = keep_lowest_failed_priority v.cue_fields r in
      blob_layer-OneGroup lowest kept r' sorted h
  group_errors false r r' sorted h = blob_layer-OneGroup max_int r r' sorted h

  -- FailPriority: if the rules stand in the order of their priorities, from -1, then the errors of
  -- a validation that returns are those of the CUE layer, cut down to the lowest priority, and
  -- behind them errors of rules that all have one priority, which is not higher than the lowest at
  -- which the CUE layer has failed.
  pub process_internal-one_group :
      SortedFrom (negsuc 0) v.blob_rules
      → (need_output : Bool) (r : Result)
      → process_internal go rt v fail_priority input need_output ≡ some r
      → GroupErrors (cut_down (cue_layer go rt v fail_priority input need_output)) r
  unfolding process_internal continue_from
  process_internal-one_group sorted need_output r h =
      let cue = cue_layer go rt v fail_priority input need_output in
      group_errors (not cue.valid) cue r sorted h
