-- ===== src/Api.antt =====
-- api.go: the public calls. What the caller passes becomes a map, or the call reports a
-- configuration error; then validation runs in the mode that the options choose. The calls that
-- take a context, and the metrics that every call is wrapped in, change no result.
use schemix.Prelude.{Text, ◌≡◌, refl, ap, ◌∙◌, Bool, true, false, Option, none, some, List, [], ◌∷◌}
use schemix.GoLib.{GoLib}
use schemix.Value.{GoMap}
use schemix.Errors.{ValidationError, Result, plain_error, config_error, config}
use schemix.FailMode.{FailMode, fail_all}
use schemix.Convert.{JsonLib, Input, Conversion, converted, refused, to_map_any}
use schemix.Schema.{Cue, ReportsErrors, Validator}
use schemix.Process.{process_internal}
use schemix.Process.Lowest.{PrioritiesFit}
use schemix.CueLayer.Growth.{no_errors}
use schemix.Process.Outcome.{process_internal-Consistent}
use schemix.Process.Returns.{process_internal-returns}
use schemix.Process.Agree.{process_internal-forget}

-- A call option is a mode; `applyCall` sets it.
abbrev pub apply_call : FailMode → FailMode → FailMode
apply_call m c = m

abbrev pub resolve_from : FailMode → List FailMode → FailMode
resolve_from c [] = c
resolve_from c (o ∷ opts) = resolve_from (apply_call o c) opts

unfoldable pub resolve_call : List FailMode → FailMode
resolve_call opts = resolve_from fail_all opts

abbrev pub config_errors : Text → List ValidationError
config_errors message = plain_error config_error [] config message ∷ []

abbrev pub config_error_result : Text → Result
config_error_result message = record {
  valid = false;
  errors = config_errors message;
  output = none;
}

abbrev pub verdict_of : Option Result → Option (Bool × List ValidationError)
verdict_of none = none
verdict_of (some r) = some (r.valid, r.errors)

module _ (go : GoLib) {S C : Type 0} (rt : Cue S C) (v : Validator S) where
  unfoldable pub process_map : GoMap → FailMode → Option Result
  unfolding process_internal
  process_map input mode = process_internal go rt v mode input true

  unfoldable pub validate_map : GoMap → FailMode → Option (Bool × List ValidationError)
  unfolding process_internal
  validate_map input mode = verdict_of (process_internal go rt v mode input false)

  abbrev process_converted : Conversion → FailMode → Option Result
  process_converted (refused e) mode = some (config_error_result e)
  process_converted (converted m) mode = process_map m mode

  abbrev validate_converted : Conversion → FailMode → Option (Bool × List ValidationError)
  validate_converted (refused e) mode = some (false, config_errors e)
  validate_converted (converted m) mode = validate_map m mode

  -- A panic is `none`.
  unfoldable pub process : JsonLib → Input → List FailMode → Option Result
  unfolding process_map to_map_any resolve_call
  process json input opts = process_converted (to_map_any json input) (resolve_call opts)

  unfoldable pub validate : JsonLib → Input → List FailMode → Option (Bool × List ValidationError)
  unfolding validate_map to_map_any resolve_call
  validate json input opts = validate_converted (to_map_any json input) (resolve_call opts)

  validate_converted-process :
      (c : Conversion) (mode : FailMode) (r : Result)
      → process_converted c mode ≡ some r
      → validate_converted c mode ≡ some (r.valid, r.errors)
  unfolding process_map validate_map
  validate_converted-process (refused e) mode r h = ap verdict_of h
  validate_converted-process (converted m) mode r h =
      ap verdict_of (process_internal-forget go rt v mode m r h)

  -- If Process returns a result, whatever the data and the options, then Validate returns the
  -- validity and the errors of that result.
  pub validate-process :
      (json : JsonLib) (input : Input) (opts : List FailMode) (r : Result)
      → process json input opts ≡ some r
      → validate json input opts ≡ some (r.valid, r.errors)
  unfolding process validate
  validate-process json input opts r h =
      validate_converted-process (to_map_any json input) (resolve_call opts) r h

  module _ (reports : ReportsErrors rt) (fit : PrioritiesFit v.cue_fields) where
    validate_converted-returns :
        (c : Conversion) (mode : FailMode)
        → (es : List ValidationError) × (validate_converted c mode ≡ some (no_errors es, es))
    unfolding validate_map
    validate_converted-returns (refused e) mode = (config_errors e, refl)
    validate_converted-returns (converted m) mode =
        let (r, h) = process_internal-returns go rt v mode m reports in
        let (valid, rest) = process_internal-Consistent go rt v m reports fit mode false r h in
        (r.errors, ap verdict_of h ∙ ap (λ b. some (b, r.errors)) valid)

    -- If the runtime of CUE reports an error whenever it rejects a value, and the priorities of the
    -- fields are ints of Go, then Validate returns on every data and with every options, and the
    -- data is valid exactly when no error is reported.
    pub validate-returns :
        (json : JsonLib) (input : Input) (opts : List FailMode)
        → (es : List ValidationError) × (validate json input opts ≡ some (no_errors es, es))
    unfolding validate
    validate-returns json input opts =
        validate_converted-returns (to_map_any json input) (resolve_call opts)
