-- ===== src/Registry/Answers.antt =====
-- The plugins of registry.go against the registry and the calls of api.go.
use schemix.Prelude.{Text, ◌≡◌, ◌↔◌, sym, ap, ◌∙◌, Bool, Option, none, some, List}
use schemix.GoLib.{GoLib}
use schemix.Fallible.{Fallible, ok}
use schemix.Value.{GoMap, Entries}
use schemix.Errors.{ValidationError, Result}
use schemix.FailMode.{FailMode, parse_fail_mode, fail_mode_string, parse_fail_mode-string}
use schemix.Schema.{Cue, Validator}
use schemix.Process.Agree.{process_internal-forget}
use schemix.Api.{process_map, validate_map, verdict_of}
use schemix.Registry.{Registry, get}
use schemix.Registry.Plugins.{
  validate_method, result_to_map, open_plugin, run_on, with_validator, with_mode, answer_with,
}

-- The answer of validate_schema for a verdict.
abbrev pub verdict_map : Option (Bool × List ValidationError) → Option (Fallible Entries)
verdict_map none = none
verdict_map (some (valid, errs)) = some (ok (result_to_map valid errs none))

module _ (go : GoLib) {S C : Type 0} (rt : Cue S C) (r : Registry (Validator S)) where
  opened-mode :
      (w v : Validator S) (mode : Text) (o : Option FailMode) (m : FailMode)
      → with_mode go rt r w mode o ≡ ok (v, m)
      → (w ≡ v) × (o ≡ some m)
  opened-mode w v mode none m h = absurd (cc)
  opened-mode w v mode (some n) m h = (cc, cc)

  opened-validator :
      (name mode : Text) (o : Option (Validator S)) (v : Validator S) (m : FailMode)
      → with_validator go rt r name mode o ≡ ok (v, m)
      → (o ≡ some v) × (parse_fail_mode mode ≡ some m)
  opened-validator name mode none v m h = absurd (cc)
  opened-validator name mode (some w) v m h =
      let (same, parsed) = opened-mode w v mode (parse_fail_mode mode) m h in (ap some same, parsed)

  -- A plugin opens with a validator and a mode exactly when the registry has that validator under
  -- the name and the mode's argument is the name of that mode.
  pub open_plugin_iff :
      (name mode : Text) (v : Validator S) (m : FailMode)
      → (open_plugin go rt r (ok name) (ok mode) ≡ ok (v, m))
        ↔ ((get r name ≡ some v) × (mode ≡ fail_mode_string m))
  unfolding open_plugin
  open_plugin_iff name mode v m = (
    λ h.
        (let (found, parsed) = opened-validator name mode (get r name) v m h in
          (found, (parse_fail_mode-string mode m).0 parsed)),
    λ h.
        ap (with_validator go rt r name mode) h.0
        ∙ ap (with_mode go rt r v mode) ((parse_fail_mode-string mode m).1 h.1),
  )

  -- If Process returns on the object, then validate_schema answers with the verdict of Validate,
  -- though it has built an output.
  pub run_on-validate_map :
      (v : Validator S) (m : FailMode) (obj : GoMap) (result : Result)
      → process_map go rt v obj m ≡ some result
      → run_on go rt r validate_method (ok (v, m)) obj ≡ verdict_map (validate_map go rt v obj m)
  unfolding run_on process_map validate_map
  run_on-validate_map v m obj result h =
      ap (answer_with go rt r validate_method) h
      ∙ sym (ap (λ o. verdict_map (verdict_of o)) (process_internal-forget go rt v m obj result h))
