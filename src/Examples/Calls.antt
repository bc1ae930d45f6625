-- ===== src/Examples/Calls.antt =====
-- The public calls, the registry and its plugins on concrete inputs.
use schemix.Prelude.{
  ℕ, ◌+◌, ◌≡◌, ◌↔◌, refl, Text, text, Bool, true, false, Option, none, some, List, [], ◌∷◌, all,
  length,
}
use schemix.Fallible.{Fallible, ok, fail}
use schemix.Errors.{ValidationError, Result}
use schemix.FailMode.{fail_all, fail_fast, fail_priority, fail_mode_string}
use schemix.CueLayer.Growth.{no_errors}
use schemix.Convert.{JsonLib, map_input, json_bytes}
use schemix.Schema.{Validator, CueKind}
use schemix.Api.{process, validate, process_map, validate_map, validate-process, validate-returns}
use schemix.Registry.{Registry, get, has, list_names, len}
use schemix.Registry.Runs.{Call, register_call, put_call, unregister_call, run, replay, replay-run}
use schemix.Registry.Listing.{Ascending, is_in, list_names-run}
use schemix.Registry.Claims.{Claim}
use schemix.Registry.Granted.{Peaceful, run_claims, submit, granted, compatible, run_claims-granted}
use schemix.Registry.Plugins.{validate_method, open_plugin, run_on}
use schemix.Registry.Answers.{verdict_map, open_plugin_iff, run_on-validate_map}
use schemix.Examples.{ascii, kinds, kinds-ReportsErrors, two_groups, person}

-- A decoder that knows no JSON.
abbrev no_json : JsonLib
no_json = record {
  decode = λ s. none;
  decode_error = λ s. text "unexpected end";
  parse_int = λ s. none;
  parse_float = λ s. 0;
}

abbrev result_of : Option Result → Result
result_of none = record { valid = true; errors = []; output = none }
result_of (some r) = r

abbrev fast_result : Result
fast_result =
    result_of
      (process ascii kinds two_groups no_json (map_input (some person)) (fail_all ∷ fail_fast ∷ []))

-- The last option wins.
last_wins : length fast_result.errors ≡ 1
unfolding process schemix.Prelude.text_eq schemix.Nested.index
last_wins = refl

process_returned :
    process ascii kinds two_groups no_json (map_input (some person)) (fail_all ∷ fail_fast ∷ [])
    ≡ some fast_result
unfolding process schemix.Prelude.text_eq schemix.Nested.index
process_returned = refl

validate-process_example :
    validate ascii kinds two_groups no_json (map_input (some person)) (fail_all ∷ fail_fast ∷ [])
    ≡ some (fast_result.valid, fast_result.errors)
validate-process_example =
    validate-process ascii kinds two_groups no_json (map_input (some person))
      (fail_all ∷ fail_fast ∷ []) fast_result process_returned

validate-returns_example :
    (es : List ValidationError) × (validate ascii kinds two_groups no_json
        (json_bytes (text "{"))
        []
      ≡ some (no_errors es, es))
validate-returns_example =
    validate-returns ascii kinds two_groups kinds-ReportsErrors (refl, tt, (refl, tt, tt)) no_json
      (json_bytes (text "{")) []

-- A validator is the number of its options; an empty source does not compile.
abbrev build_count : Text → List Text → Fallible ℕ
build_count [] opts = fail (text "no schema")
build_count (c ∷ src) opts = ok (length opts)

abbrev calls : List (Call ℕ Text)
calls =
    register_call (text "pay") (text "{}") (text "x" ∷ [])
    ∷ register_call (text "bad") [] []
    ∷ put_call (text "nil") none
    ∷ put_call (text "age") (some 7)
    ∷ put_call (text "pay") (some 9)
    ∷ unregister_call (text "none")
    ∷ []

replay-run_example : replay ascii build_count (λ name. name) calls (get []) ≡ (
  (run ascii build_count (λ name. name) calls []).0,
  get (run ascii build_count (λ name. name) calls []).1,
)
replay-run_example = replay-run ascii build_count (λ name. name) calls []

abbrev filled_registry : Registry ℕ
filled_registry = (run ascii build_count (λ name. name) calls []).1

two_names : list_names filled_registry ≡ text "age" ∷ text "pay" ∷ []
unfolding run list_names schemix.Prelude.text_eq
two_names = refl

list_names-run_example :
    Ascending (list_names filled_registry)
    × (is_in (text "pay") (list_names filled_registry) ≡ has filled_registry (text "pay"))
    × (length (list_names filled_registry) ≡ len filled_registry)
list_names-run_example = list_names-run ascii build_count (λ name. name) calls (text "pay")

abbrev claim_for : ℕ → Bool → Bool → Claim
claim_for reg m f = record { env = 1; reg = reg; want_methods = m; want_functions = f }

-- The first registry takes the methods, then the functions; the second takes nothing.
abbrev claims : List Claim
claims = claim_for 1 true false ∷ claim_for 2 false true ∷ claim_for 1 false true ∷ []

two_granted : length (run_claims claims [] []).1 ≡ 2
unfolding run_claims
two_granted = refl

run_claims-granted_example :
    Peaceful (run_claims claims [] []).1
    × (granted (submit (claim_for 1 true false) (run_claims claims [] []).0).0
        ≡ all (compatible (claim_for 1 true false)) (run_claims claims [] []).1)
run_claims-granted_example = run_claims-granted claims (claim_for 1 true false)

abbrev one_validator : Registry (Validator CueKind)
one_validator = (text "pay", two_groups) ∷ []

open_plugin_iff_example :
    (open_plugin ascii kinds one_validator (ok (text "pay")) (ok (text "priority"))
      ≡ ok (two_groups, fail_priority))
    ↔ ((get one_validator (text "pay") ≡ some two_groups)
        × (text "priority" ≡ fail_mode_string fail_priority))
open_plugin_iff_example =
    open_plugin_iff ascii kinds one_validator (text "pay") (text "priority") two_groups
      fail_priority

abbrev mapped : Result
mapped = result_of (process_map ascii kinds two_groups (some person) fail_all)

mapped_returned : process_map ascii kinds two_groups (some person) fail_all ≡ some mapped
unfolding process_map schemix.Prelude.text_eq schemix.Nested.index
mapped_returned = refl

run_on-validate_map_example :
    run_on ascii kinds one_validator validate_method (ok (two_groups, fail_all)) (some person)
    ≡ verdict_map (validate_map ascii kinds two_groups (some person) fail_all)
run_on-validate_map_example =
    run_on-validate_map ascii kinds one_validator two_groups fail_all (some person) mapped
      mapped_returned
