-- ===== src/Process/Verdicts.antt =====
-- The error that a caller gets from a validation: Result.Err and Result.FirstError.
use schemix.Prelude.{◌≡◌, ◌↔◌, refl, Bool, true, false, none, some, List, [], ◌∷◌}
use schemix.GoLib.{GoLib}
use schemix.Value.{GoMap}
use schemix.Errors.{ValidationError, Result, err, first_error}
use schemix.FailMode.{FailMode}
use schemix.CueLayer.Growth.{no_errors}
use schemix.Schema.{Cue, ReportsErrors, Validator}
use schemix.Process.Lowest.{PrioritiesFit}
use schemix.Process.Outcome.{process_internal-Consistent}
use schemix.Process.{process_internal}

abbrev made : Bool → List ValidationError → GoMap → Result
made b es o = record { valid = b; errors = es; output = o }

err-none_iff :
    (b : Bool) (es : List ValidationError) (o : GoMap)
    → b ≡ no_errors es
    → (err (made b es o) ≡ none) ↔ (b ≡ true)
unfolding err
err-none_iff true es o h = (λ _. refl, λ _. refl)
err-none_iff false [] o h = absurd (cc)
err-none_iff false (e ∷ es) o h = (λ k. cc, λ k. cc)

first_error-none_iff :
    (b : Bool) (es : List ValidationError) (o : GoMap)
    → b ≡ no_errors es
    → (first_error (made b es o) ≡ none) ↔ (b ≡ true)
unfolding first_error
first_error-none_iff b [] o h = (λ _. h, λ _. refl)
first_error-none_iff b (e ∷ es) o h = (λ k. cc, λ k. cc)

-- If the runtime of CUE reports an error whenever it rejects a value, and the priorities of the
-- fields are ints of Go, then of a validation that returns, in any mode, both Err and FirstError
-- are nil exactly when the result is valid.
pub err-process_internal :
    (go : GoLib) {S C : Type 0} (rt : Cue S C) (v : Validator S) (input : GoMap)
    → ReportsErrors rt
    → PrioritiesFit v.cue_fields
    → (mode : FailMode) (need_output : Bool) (r : Result)
    → process_internal go rt v mode input need_output ≡ some r
    → ((err r ≡ none) ↔ (r.valid ≡ true)) × ((first_error r ≡ none) ↔ (r.valid ≡ true))
err-process_internal go rt v input reports fit mode need_output r h =
    let (same, _) = process_internal-Consistent go rt v input reports fit mode need_output r h in
    (
      err-none_iff r.valid r.errors r.output same,
      first_error-none_iff r.valid r.errors r.output same,
    )
