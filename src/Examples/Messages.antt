-- ===== src/Examples/Messages.antt =====
-- Labels, templates, catalogs, checksums and options on concrete inputs.
use schemix.Prelude.{
  ℕ, pos, ◌≡◌, ◌≢◌, refl, ◌⊎◌, inl, inr, Text, text, Bool, true, false, not, Option, none, some,
  List, [], ◌∷◌, ◌++◌, all, All, arith,
}
use schemix.Fallible.{Fallible, ok}
use schemix.Errors.{ValidationError, plain_error, range_violation, cue}
use schemix.GoLib.{GoLib}
use schemix.Localize.Indices.{is_all_digits, normalize_path, normalize_path-index}
use schemix.Localize.Templates.{is_empty_text, expand, placeholder_names}
use schemix.Localize.Holes.{Quotes, has_value, is_empty_text-expand}
use schemix.Localize.Catalogs.{
  Catalog, Heap, catalog, localize, resolve, wording, max_fallback_depth,
}
use schemix.Localize.Wording.{localize_text}
use schemix.Localize.Tables.{en_us}
use schemix.Localize.Coverage.{resolve_built_in}
use schemix.Localize.Entries.{en_us-labelled}
use schemix.Localize.Problems.{validate}
use schemix.Localize.Soundness.{validate-resolve}
use schemix.Builtin.Luhn.{luhn_valid, luhn_valid-single}
use schemix.Options.{
  CustomFuncKind, kind_method_v1, kind_func_v1, CustomFuncEntry, BuildOption, with_custom,
  with_override_method, ValidatorConfig, config_of, entry_of,
}
use schemix.Options.Names.{no_error, error_of, all_entries, config_of-entries}
use schemix.Options.Builds.{build_blob_env, Permitted, build_blob_env-Permitted}
use schemix.Examples.{ascii}

-- The path of an element; its one label is that of every element.
digits_17 : is_all_digits (text "17") ≡ true
unfolding is_all_digits
digits_17 = refl

normalize_path-index_example :
    normalize_path (text "items" ++ b'[' ∷ (text "17" ++ b']' ∷ text ".parts[2]"))
    ≡ text "items" ++ b'[' ∷ b']' ∷ normalize_path (text ".parts[2]")
normalize_path-index_example =
    normalize_path-index (text "items") (text ".parts[2]") b'1' (text "7") refl digits_17

normalized : normalize_path (text "items[17].parts[2]") ≡ text "items[].parts[]"
unfolding normalize_path
normalized = refl

abbrev beyond : ValidationError
beyond = plain_error range_violation (text "age") cue (text "value 200")

ascii-Quotes : Quotes ascii
ascii-Quotes s = refl

is_empty_text-expand_example :
    is_empty_text (expand ascii (text "{field} must be {bound}") beyond)
    ≡ not (all (has_value ascii beyond) (placeholder_names (text "{field} must be {bound}")))
is_empty_text-expand_example =
    is_empty_text-expand ascii beyond ascii-Quotes b'{' (text "field} must be {bound}")

-- A catalog that is its own fallback.
abbrev looping : Catalog
looping = record en_us {
  messages = [];
  default = record { template = []; fallback = [] };
  fallback = catalog (some 0);
}

abbrev loop_heap : Heap
loop_heap id = looping

localize_text_example :
    (b : ℕ) × (s : Text) × (localize ascii loop_heap (some 0) beyond ≡ some (b ∷ s))
localize_text_example = localize_text ascii loop_heap (λ id. tt) (some 0) beyond

abbrev english : Heap
english id = en_us

resolve_built_in_example :
    (b : ℕ) × (s : Text) × (resolve ascii english max_fallback_depth (some 0) beyond
      ≡ wording (b ∷ s))
resolve_built_in_example = resolve_built_in ascii english 0 beyond (inl refl)

english_passes : validate ascii english 2 (some 0) ≡ some []
unfolding validate schemix.Prelude.text_eq
english_passes = refl

validate-resolve_example :
    (b : ℕ) × (s : Text) × (resolve ascii english max_fallback_depth (some 0) beyond
      ≡ wording (b ∷ s))
unfolding schemix.Prelude.text_eq
validate-resolve_example =
    validate-resolve ascii english ascii-Quotes (λ id. tt) (λ id path h. en_us-labelled path)
      (λ id. tt) 2 0 english_passes beyond refl refl

-- The check digit of this number is 3.
passes : luhn_valid (text "79927398713") ≡ true
unfolding luhn_valid
passes = refl

luhn_valid-single_example : luhn_valid (text "7992739871" ++ b'0' ∷ []) ≡ false
luhn_valid-single_example =
    luhn_valid-single (text "7992739871") [] b'3' b'0' passes (λ h. absurd (ground arith))

-- Every name is valid but the empty one.
abbrev any_name : GoLib
any_name = record ascii { match_string = λ pattern s. not (is_empty_text s) }

abbrev options : List (BuildOption ℕ)
options =
    with_custom kind_method_v1 (text "is_email") 1
    ∷ with_custom kind_func_v1 [] 2
    ∷ with_override_method (text "is_email" ∷ [])
    ∷ with_custom kind_func_v1 (text "fee") 3
    ∷ []

config_of-entries_example :
    (no_error (config_of any_name options).func_map_err
      ≡ all (λ o. no_error (error_of any_name o)) options)
    × ((config_of any_name options).custom_funcs ≡ all_entries any_name options)
config_of-entries_example = config_of-entries any_name options

abbrev overriding : ValidatorConfig ℕ
overriding = config_of any_name (
    with_custom kind_method_v1 (text "is_email") 1
    ∷ with_override_method (text "is_email" ∷ [])
    ∷ [])

-- An environment is the list of what is registered.
abbrev register_plugin : CustomFuncEntry ℕ → List ℕ → Fallible (List ℕ)
register_plugin e env = ok (e.plugin ∷ env)

not_all : overriding.override_all ≡ false
unfolding schemix.Options.apply_options
not_all = refl

env_built : build_blob_env any_name (ok []) (λ env. env) register_plugin overriding ≡ ok (1 ∷ [])
unfolding build_blob_env schemix.Options.apply_options schemix.Prelude.text_eq
env_built = refl

build_blob_env-Permitted_example :
    All
      (λ (e : CustomFuncEntry ℕ).
        Permitted overriding.allow_method_overrides overriding.allow_func_overrides e.kind e.name)
      overriding.custom_funcs
build_blob_env-Permitted_example =
    build_blob_env-Permitted any_name (ok []) (λ env. env) register_plugin overriding (1 ∷ [])
      not_all env_built
