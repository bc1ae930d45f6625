-- ===== src/Registry/Plugins.antt =====
-- registry.go: the plugins of Bloblang, validate_schema and process_schema, each as a method and as
-- a function. Bloblang's environment, the parsing of arguments and the evaluation of a query are
-- parameters: what they answer is an argument here.
use schemix.Prelude.{Text, text, Bool, true, false, Option, none, some, List, [], ◌∷◌, ◌++◌, ℕ}
use schemix.Fallible.{Fallible, ok, fail}
use schemix.GoLib.{GoLib, type_name}
use schemix.Value.{
  Value, bool, str, list, object, nil_map, other, GoMap, Entries, end, entry, Items, nil, cons,
}
use schemix.Errors.{ValidationError, Result}
use schemix.FailMode.{FailMode, parse_fail_mode, mode_all, mode_fast, mode_priority}
use schemix.Schema.{Cue, Validator}
use schemix.Api.{process_map}
use schemix.Registry.{Registry, get}
use schemix.Registry.Claims.{OwnerMap, claim_component}

-- What stands under `type` is of the named type ErrorType, not of type string; of such a value the
-- model keeps the name of the type.
abbrev error_entry : ValidationError → Value
error_entry e = object (
    entry (text "code") (str e.code) (
      entry (text "path") (str e.path) (
        entry (text "type") (other (text "schemix.ErrorType"))
          (entry (text "message") (str e.message) end))))

abbrev error_entries : List ValidationError → Items
error_entries [] = nil
error_entries (e ∷ es) = cons (error_entry e) (error_entries es)

abbrev output_entry : GoMap → Entries
output_entry none = end
output_entry (some m) = entry (text "output") (object m) end

unfoldable pub result_to_map : Bool → List ValidationError → GoMap → Entries
result_to_map valid errs output =
    entry (text "valid") (bool valid)
      (entry (text "errors") (list (error_entries errs)) (output_entry output))

abbrev plugin_validate_schema : Text
plugin_validate_schema = text "validate_schema"

abbrev plugin_process_schema : Text
plugin_process_schema = text "process_schema"

pub data Plugin : Type 0 where
  validate_method process_method validate_function process_function : Plugin

abbrev plugin_name : Plugin → Text
plugin_name validate_method = plugin_validate_schema
plugin_name process_method = plugin_process_schema
plugin_name validate_function = plugin_validate_schema
plugin_name process_function = plugin_process_schema

abbrev form_name : Plugin → Text
form_name validate_method = text " method: "
form_name process_method = text " method: "
form_name validate_function = text " function: "
form_name process_function = text " function: "

-- `add` is RegisterMethodV2 or RegisterAdvancedFunction on the environment, whose state is of type
-- E: the error, if there is one, and the state behind the call.
module _ {ℓ} {E : Type ℓ} (add : Plugin → E → Option Text × E) where
  abbrev added_or : Plugin → Option Text × E → (E → Option Text × E) → Option Text × E
  added_or p (some e, env) next =
      (some (text "register " ++ plugin_name p ++ form_name p ++ e), env)
  added_or p (none, env) next = next env

  abbrev add_both : Plugin → Plugin → E → Option Text × E
  add_both p q env = added_or p (add p env) λ env'. added_or q (add q env') λ env''. (none, env'')

  unfoldable register_methods : E → Option Text × E
  register_methods env = add_both validate_method process_method env

  unfoldable register_functions : E → Option Text × E
  register_functions env = add_both validate_function process_function env

  abbrev and_then : Option Text × E → (E → Option Text × E) → Option Text × E
  and_then (some e, env) next = (some e, env)
  and_then (none, env) next = next env

  abbrev claimed : Option Text × OwnerMap → E → (E → Option Text × E) → Option Text × OwnerMap × E
  claimed (some e, owners) env next = (some e, owners, env)
  claimed (none, owners) env next = let (answer, env') = next env in (answer, owners, env')

  -- The environment's pointer, the registry's, the owners, and the environment's state.
  unfoldable pub register_methods_to : Option ℕ → ℕ → OwnerMap → E → Option Text × OwnerMap × E
  unfolding claim_component register_methods
  register_methods_to id reg owners env =
      claimed (claim_component id reg true false owners) env register_methods

  unfoldable pub register_functions_to : Option ℕ → ℕ → OwnerMap → E → Option Text × OwnerMap × E
  unfolding claim_component register_functions
  register_functions_to id reg owners env =
      claimed (claim_component id reg false true owners) env register_functions

  unfoldable pub register_all_to : Option ℕ → ℕ → OwnerMap → E → Option Text × OwnerMap × E
  unfolding claim_component register_methods register_functions
  register_all_to id reg owners env =
      claimed (claim_component id reg true true owners) env
        λ env'. and_then (register_methods env') register_functions

abbrev not_registered : GoLib → Text → Text
not_registered go name = text "validator " ++ go.quote name ++ text " not registered"

abbrev invalid_mode : GoLib → Text → Text
invalid_mode go mode =
    text "invalid mode "
    ++ go.quote mode
    ++ text ": must be "
    ++ go.quote mode_all
    ++ text ", "
    ++ go.quote mode_fast
    ++ text ", or "
    ++ go.quote mode_priority

module _ (go : GoLib) {S C : Type 0} (rt : Cue S C) (r : Registry (Validator S)) where
  abbrev pub with_mode : Validator S → Text → Option FailMode → Fallible (Validator S × FailMode)
  with_mode v mode none = fail (invalid_mode go mode)
  with_mode v mode (some m) = ok (v, m)

  abbrev pub with_validator : Text → Text → Option (Validator S) → Fallible (Validator S × FailMode)
  with_validator name mode none = fail (not_registered go name)
  with_validator name mode (some v) = with_mode v mode (parse_fail_mode mode)

  -- The constructor of a plugin, on the parsed arguments `name` and `mode`.
  unfoldable pub open_plugin : Fallible Text → Fallible Text → Fallible (Validator S × FailMode)
  unfolding get parse_fail_mode
  open_plugin (fail e) mode = fail e
  open_plugin (ok name) (fail e) = fail e
  open_plugin (ok name) (ok mode) = with_validator name mode (get r name)

  -- The constructor of a function, which takes the query `data` first; what the query answers
  -- is not looked at yet.
  abbrev pub open_function :
      Fallible Value → Fallible Text → Fallible Text → Fallible (Validator S × FailMode)
  open_function (fail e) name mode = fail e
  open_function (ok q) name mode = open_plugin name mode

  abbrev pub kept_output : Plugin → GoMap → GoMap
  kept_output validate_method output = none
  kept_output process_method output = output
  kept_output validate_function output = none
  kept_output process_function output = output

  abbrev pub answer_with : Plugin → Option Result → Option (Fallible Entries)
  answer_with p none = none
  answer_with p (some result) =
      some (ok (result_to_map result.valid result.errors (kept_output p result.output)))

  -- The method that the constructor returns, on an object; a panic is `none`.
  unfoldable pub run_on :
      Plugin → Fallible (Validator S × FailMode) → GoMap → Option (Fallible Entries)
  unfolding process_map result_to_map
  run_on p (fail e) obj = some (fail e)
  run_on p (ok (v, mode)) obj = answer_with p (process_map go rt v obj mode)

  abbrev not_an_object : Plugin → Value → Text
  unfolding type_name
  not_an_object p v = plugin_name p ++ text ": data param must be an object, got " ++ type_name v

  abbrev on_value : Plugin → Validator S × FailMode → Value → Option (Fallible Entries)
  on_value p vm (object m) = run_on p (ok vm) (some m)
  on_value p vm nil_map = run_on p (ok vm) none
  on_value p vm v = some (fail (not_an_object p v))

  -- The function that the constructor returns, on what the query answers.
  unfoldable pub run_on_query :
      Plugin → Fallible (Validator S × FailMode) → Fallible Value → Option (Fallible Entries)
  unfolding run_on type_name
  run_on_query p (fail e) answer = some (fail e)
  run_on_query p (ok vm) (fail e) =
      some (fail (plugin_name p ++ text ": failed to evaluate data param: " ++ e))
  run_on_query p (ok vm) (ok v) = on_value p vm v
