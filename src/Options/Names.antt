-- ===== src/Options/Names.antt =====
-- options.go, funcmap.go: what the options leave of custom names and entries.
use schemix.Prelude.{
  Text, ◌≡◌, refl, sym, ap, ◌∙◌, Bool, true, false, ◌&&◌, Option, none, some, List, [], ◌∷◌, ◌++◌,
  all, append_assoc, append-nil, arith,
}
use schemix.GoLib.{GoLib}
use schemix.Options.{
  CustomFuncEntry, ValidatorConfig, BuildOption, with_error_formatter, with_localizer,
  with_override_method, with_override_func, with_override_all, with_custom, with_func_map,
  with_name, with_max_schema_depth, validate_name, entry_of, add_custom, apply_option,
  apply_options, config_of, empty_config,
}

abbrev pub no_error : Option Text → Bool
no_error none = true
no_error (some e) = false

and_swap : (a b c d : Bool) → b ≡ (c && d) → (a && b) ≡ ((c && a) && d)
and_swap a b c d h = ground arith

and_true : (b : Bool) → (b && true) ≡ b
and_true b = ground arith

module _ {P : Type 0} (go : GoLib) where
  -- The error of an option: an invalid name, or the error of a map of functions.
  abbrev pub error_of : BuildOption P → Option Text
  error_of (with_custom k name p) = validate_name go name
  error_of (with_func_map m) = m.err
  error_of _ = none

  abbrev unless_error : Option Text → List (CustomFuncEntry P) → List (CustomFuncEntry P)
  unless_error none entries = entries
  unless_error (some e) entries = []

  -- The entries of an option, without one where it has an error.
  abbrev pub entries_of : BuildOption P → List (CustomFuncEntry P)
  entries_of (with_custom k name p) =
      unless_error (validate_name go name) (entry_of go k name p ∷ [])
  entries_of (with_func_map m) = unless_error m.err m.entries
  entries_of _ = []

  abbrev pub all_entries : List (BuildOption P) → List (CustomFuncEntry P)
  all_entries [] = []
  all_entries (o ∷ opts) = entries_of o ++ all_entries opts

  -- How an option changes the error and the entries.
  Adds : Option Text → List (CustomFuncEntry P) → ValidatorConfig P → ValidatorConfig P → Type 0
  Adds e entries cfg cfg' =
      (no_error cfg'.func_map_err ≡ (no_error e && no_error cfg.func_map_err))
      × (cfg'.custom_funcs ≡ cfg.custom_funcs ++ entries)

  add_custom-Adds :
      (e : Option Text) (entries : List (CustomFuncEntry P)) (cfg : ValidatorConfig P)
      → Adds e (unless_error e entries) cfg (add_custom go e entries cfg)
  unfolding Adds
  add_custom-Adds none entries cfg = (refl, refl)
  add_custom-Adds (some e) entries cfg = (refl, sym (append-nil cfg.custom_funcs))

  apply_option-Adds :
      (o : BuildOption P) (cfg : ValidatorConfig P)
      → Adds (error_of o) (entries_of o) cfg (apply_option go o cfg)
  unfolding apply_option Adds
  apply_option-Adds (with_error_formatter f) cfg = (refl, sym (append-nil cfg.custom_funcs))
  apply_option-Adds (with_localizer l) cfg = (refl, sym (append-nil cfg.custom_funcs))
  apply_option-Adds (with_override_method ns) cfg = (refl, sym (append-nil cfg.custom_funcs))
  apply_option-Adds (with_override_func ns) cfg = (refl, sym (append-nil cfg.custom_funcs))
  apply_option-Adds with_override_all cfg = (refl, sym (append-nil cfg.custom_funcs))
  apply_option-Adds (with_custom k name p) cfg =
      add_custom-Adds (validate_name go name) (entry_of go k name p ∷ []) cfg
  apply_option-Adds (with_func_map m) cfg = add_custom-Adds m.err m.entries cfg
  apply_option-Adds (with_name name) cfg = (refl, sym (append-nil cfg.custom_funcs))
  apply_option-Adds (with_max_schema_depth n) cfg = (refl, sym (append-nil cfg.custom_funcs))

  apply_options-Adds :
      (opts : List (BuildOption P)) (cfg : ValidatorConfig P)
      → (no_error (apply_options go opts cfg).func_map_err
          ≡ (all (λ o. no_error (error_of o)) opts && no_error cfg.func_map_err))
        × ((apply_options go opts cfg).custom_funcs ≡ cfg.custom_funcs ++ all_entries opts)
  unfolding apply_options Adds
  apply_options-Adds [] cfg = (refl, sym (append-nil cfg.custom_funcs))
  apply_options-Adds (o ∷ opts) cfg =
      let (first, added) = apply_option-Adds o cfg in
      let (errors, entries) = apply_options-Adds opts (apply_option go o cfg) in
      (
        errors
            ∙ and_swap (all (λ x. no_error (error_of x)) opts)
                (no_error (apply_option go o cfg).func_map_err) (no_error (error_of o))
                (no_error cfg.func_map_err) first,
        entries
            ∙ ap (λ es. es ++ all_entries opts) added
            ∙ append_assoc cfg.custom_funcs (entries_of o) (all_entries opts),
      )

  -- The configuration has no error exactly when each custom name is valid and each map of functions
  -- is without an error, wherever the faulty option stands; and its custom entries are those of the
  -- options without an error, in the order of the options.
  pub config_of-entries :
      (opts : List (BuildOption P))
      → (no_error (config_of go opts).func_map_err ≡ all (λ o. no_error (error_of o)) opts)
        × ((config_of go opts).custom_funcs ≡ all_entries opts)
  config_of-entries opts =
      let (errors, entries) = apply_options-Adds opts (empty_config go) in
      (errors ∙ and_true (all (λ o. no_error (error_of o)) opts), entries)
