-- ===== src/Localize/Problems.antt =====
-- Catalog.Validate of localize.go: the problems of a catalog and of the chain behind it.
use schemix.Prelude.{
  ℕ, zero, suc, Text, text, text_eq, Bool, true, false, ◌||◌, Option, none, some, List, [], ◌∷◌,
  ◌++◌, map, any, ◌==◌, if◌then◌else◌,
}
use schemix.GoLib.{GoLib}
use schemix.Errors.{
  ErrorCode, ValidationError, format_mismatch, type_mismatch, enum_invalid, range_violation,
  required_missing, array_element, cue_other, biz_rule_failed, expr_exec_error, blob_type_mismatch,
  cond_required, meta_runtime_error, config_error,
}
use schemix.Registry.{sort_names}
use schemix.Localize.Templates.{placeholder_names}
use schemix.Localize.Catalogs.{
  Message, Localizer, catalog, Catalog, Heap, Wording, panicked, no_wording, wording, at_key,
  resolve, max_fallback_depth,
}

abbrev pub builtin_error_codes : List ErrorCode
builtin_error_codes =
    format_mismatch ∷ type_mismatch ∷ enum_invalid ∷ range_violation ∷ required_missing
    ∷ array_element ∷ cue_other ∷ biz_rule_failed ∷ expr_exec_error ∷ blob_type_mismatch
    ∷ cond_required ∷ meta_runtime_error ∷ config_error ∷ []

unfoldable pub known_placeholder_name : Text → Bool
known_placeholder_name name =
    text_eq name (text "field")
    || text_eq name (text "type")
    || text_eq name (text "bound")
    || text_eq name (text "options")
    || text_eq name (text "suggestion")

abbrev unknown_placeholder : Text → Text → Text
unknown_placeholder place name =
    text "schemix: " ++ place ++ text " uses unknown placeholder {" ++ name ++ text "}"

abbrev pub unknown_among : Text → List Text → List Text
unknown_among place [] = []
unknown_among place (name ∷ names) =
    let rest = unknown_among place names in
    if known_placeholder_name name then rest else unknown_placeholder place name ∷ rest

abbrev pub check_template : Text → Text → List Text
check_template place tmpl = unknown_among place (placeholder_names tmpl)

abbrev check_message : Text → Option Message → List Text
check_message code none = []
check_message code (some msg) =
    check_template (text "template for " ++ code) msg.template
    ++ check_template (text "fallback for " ++ code) msg.fallback

abbrev check_messages : List (Text × Message) → List Text → List Text
check_messages messages [] = []
check_messages messages (code ∷ codes) =
    check_message code (at_key code messages) ++ check_messages messages codes

-- The texts of the problems, in their order.
unfoldable pub check_placeholders : Catalog → List Text
unfolding placeholder_names sort_names known_placeholder_name at_key
check_placeholders c =
    check_messages c.messages (sort_names (map (λ m. m.0) c.messages))
    ++ check_template (text "default template") c.default.template
    ++ check_template (text "default fallback") c.default.fallback
    ++ check_template (text "suggestion suffix") c.suggestion_suffix

abbrev next_catalog : Localizer → Option ℕ
next_catalog (catalog c) = c
next_catalog _ = none

-- `seen` holds the catalogs already met; the fuel is at least the number of catalogs and one.
unfoldable pub has_cycle : Heap → ℕ → List ℕ → Option ℕ → Bool
has_cycle heap fuel seen none = false
has_cycle heap zero seen (some id) = true
has_cycle heap (suc fuel) seen (some id) =
    let rest = has_cycle heap fuel (id ∷ seen) (next_catalog (heap id).fallback) in
    if any (λ other. other == id) seen then true else rest

abbrev pub field_path : Text
field_path = text "field"

abbrev pub bare : ErrorCode → Text → ValidationError
bare code p = record {
  code = code;
  path = p;
  error_type = [];
  field_type = [];
  message = [];
  suggestion = [];
  enum_options = [];
  bound = [];
}

abbrev furnished : ErrorCode → ValidationError
furnished code = record {
  code = code;
  path = field_path;
  error_type = [];
  field_type = text "int";
  message = [];
  suggestion = text "a";
  enum_options = text "a" ∷ [];
  bound = text ">0";
}

abbrev uncovered : ErrorCode → Text
uncovered code = text "schemix: no message covers " ++ code

abbrev needs_fallback : ErrorCode → Text
needs_fallback code =
    text "schemix: "
    ++ code
    ++ text " renders only when its placeholders have values; "
    ++ text "add Message.Fallback so an error missing them still reads as a sentence"

-- The problem of a code, by what the two errors resolve to.
abbrev pub problem_of : ErrorCode → Wording → Wording → Option (List Text)
problem_of code panicked w = none
problem_of code no_wording w = some (uncovered code ∷ [])
problem_of code (wording s) panicked = none
problem_of code (wording s) no_wording = some (needs_fallback code ∷ [])
problem_of code (wording s) (wording t) = some []

abbrev pub join_problems : Option (List Text) → Option (List Text) → Option (List Text)
join_problems none rest = none
join_problems (some ps) none = none
join_problems (some ps) (some rest) = some (ps ++ rest)

module _ (go : GoLib) (heap : Heap) where
  unfoldable pub check_codes : Option ℕ → List ErrorCode → Option (List Text)
  unfolding resolve
  check_codes c [] = some []
  check_codes c (code ∷ codes) =
      join_problems
        (problem_of code (resolve go heap max_fallback_depth c (furnished code))
          (resolve go heap max_fallback_depth c (bare code field_path)))
        (check_codes c codes)

  -- The problems that are reported; a panic is `none`. The fuel is that of has_cycle.
  unfoldable pub validate : ℕ → Option ℕ → Option (List Text)
  unfolding has_cycle check_placeholders check_codes
  validate fuel none = some (text "schemix: catalog is nil" ∷ [])
  validate fuel (some id) =
      let problems =
        join_problems (some (check_placeholders (heap id)))
          (check_codes (some id) builtin_error_codes) in
      if has_cycle heap fuel [] (some id)
      then some (text "schemix: catalog fallback chain contains a cycle" ∷ [])
      else problems
