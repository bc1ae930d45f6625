-- ===== src/Options.antt =====
-- options.go, funcmap.go: the options of a validator's construction and the maps of custom
-- functions. What an entry registers (a constructor of Bloblang with its plugin's specification) is
-- of a type P. The recorder of metrics and the provider of traces are left out.
pub mod Builds
pub mod Names
use schemix.Prelude.{
  ℤ, pos, Text, text, Bool, true, false, not, Option, none, some, List, [], ◌∷◌, ◌++◌, ltb_ℤ,
  if◌then◌else◌,
}
use schemix.GoLib.{GoLib, print_int}
use schemix.Errors.{ErrorCode}
use schemix.Fallible.{Fallible, ok, fail}
use schemix.Localize.Catalogs.{Localizer, no_localizer}

pub data CustomFuncKind : Type 0 where
  kind_func_v1 kind_func_v2 kind_method_v1 kind_method_v2 : CustomFuncKind

pub record CustomFuncEntry (P : Type 0) : Type 0 where
  pub name : Text
  pub kind : CustomFuncKind
  pub plugin : P

pub record FuncMap (P : Type 0) : Type 0 where
  pub entries : List (CustomFuncEntry P)
  pub err : Option Text

-- An option of NewFuncMap, by what it registers.
pub record FuncMapOption (P : Type 0) : Type 0 where
  pub name : Text
  pub kind : CustomFuncKind
  pub plugin : P

pub record ValidatorConfig (P : Type 0) : Type 0 where
  pub error_formatter : Option (ErrorCode → Text → Text → Text)
  pub localizer : Localizer
  pub custom_funcs : List (CustomFuncEntry P)
  pub func_map_err : Option Text
  pub allow_method_overrides : List Text
  pub allow_func_overrides : List Text
  pub override_all : Bool
  pub schema_name : Text
  pub max_schema_depth : ℤ
  pub max_schema_depth_set : Bool

-- An option, by what it sets; `with_custom` is what the four options of a custom entry have in
-- common.
pub data BuildOption (P : Type 0) : Type 0 where
  with_error_formatter : Option (ErrorCode → Text → Text → Text) → BuildOption P
  with_localizer : Localizer → BuildOption P
  with_override_method : List Text → BuildOption P
  with_override_func : List Text → BuildOption P
  with_override_all : BuildOption P
  with_custom : CustomFuncKind → Text → P → BuildOption P
  with_func_map : FuncMap P → BuildOption P
  with_name : Text → BuildOption P
  with_max_schema_depth : ℤ → BuildOption P

abbrev pub name_regex : Text
name_regex = text "^[a-z0-9]+(_[a-z0-9]+)*$"

abbrev pub invalid_name : GoLib → Text → Text
invalid_name go name =
    text "invalid name "
    ++ go.quote name
    ++ text ": must match /^[a-z0-9]+(_[a-z0-9]+)*$/ (snake_case)"

-- An error, if there is one.
unfoldable pub validate_name : GoLib → Text → Option Text
validate_name go name =
    if go.match_string name_regex name then none else some (invalid_name go name)

abbrev pub default_max_schema_depth : ℤ
default_max_schema_depth = pos 32

unfoldable pub resolve_max_schema_depth : ℤ → Bool → Fallible ℤ
unfolding print_int
resolve_max_schema_depth configured set =
    if not set
    then ok default_max_schema_depth
    else if ltb_ℤ configured (pos 1)
    then fail (text "WithMaxSchemaDepth: depth must be positive, got " ++ print_int configured)
    else ok configured

module _ {P : Type 0} where
  abbrev pub func : Text → P → FuncMapOption P
  func n p = record { name = n; kind = kind_func_v1; plugin = p }

  abbrev pub func_v2 : Text → P → FuncMapOption P
  func_v2 n p = record { name = n; kind = kind_func_v2; plugin = p }

  abbrev pub method : Text → P → FuncMapOption P
  method n p = record { name = n; kind = kind_method_v1; plugin = p }

  abbrev pub method_v2 : Text → P → FuncMapOption P
  method_v2 n p = record { name = n; kind = kind_method_v2; plugin = p }

  abbrev pub with_function : Text → P → BuildOption P
  with_function n p = with_custom kind_func_v1 n p

  abbrev pub with_function_v2 : Text → P → BuildOption P
  with_function_v2 n p = with_custom kind_func_v2 n p

  abbrev pub with_method : Text → P → BuildOption P
  with_method n p = with_custom kind_method_v1 n p

  abbrev pub with_method_v2 : Text → P → BuildOption P
  with_method_v2 n p = with_custom kind_method_v2 n p

module _ {P : Type 0} (go : GoLib) where
  abbrev pub empty_config : ValidatorConfig P
  empty_config = record {
    error_formatter = none;
    localizer = no_localizer;
    custom_funcs = [];
    func_map_err = none;
    allow_method_overrides = [];
    allow_func_overrides = [];
    override_all = false;
    schema_name = [];
    max_schema_depth = pos 0;
    max_schema_depth_set = false;
  }

  abbrev pub entry_of : CustomFuncKind → Text → P → CustomFuncEntry P
  entry_of k n p = record { name = n; kind = k; plugin = p }

  abbrev pub add_entry : Option Text → CustomFuncEntry P → FuncMap P → FuncMap P
  add_entry (some e) x m = record m { err = some e }
  add_entry none x m = record m { entries = m.entries ++ x ∷ [] }

  -- Func, FuncV2, Method, MethodV2 on a map
  unfoldable pub apply_entry : FuncMapOption P → FuncMap P → FuncMap P
  unfolding validate_name
  apply_entry o m = add_entry (validate_name go o.name) (entry_of o.kind o.name o.plugin) m

  abbrev pub unless_failed : Option Text → FuncMap P → FuncMap P → FuncMap P
  unless_failed (some e) m rest = m
  unless_failed none m rest = rest

  unfoldable pub func_map_from : List (FuncMapOption P) → FuncMap P → FuncMap P
  unfolding apply_entry
  func_map_from [] m = m
  func_map_from (o ∷ opts) m =
      let rest = func_map_from opts (apply_entry o m) in unless_failed m.err m rest

  unfoldable pub new_func_map : List (FuncMapOption P) → FuncMap P
  unfolding func_map_from
  new_func_map opts = func_map_from opts (record { entries = []; err = none })

  abbrev pub add_custom :
      Option Text → List (CustomFuncEntry P) → ValidatorConfig P → ValidatorConfig P
  add_custom (some e) entries cfg = record cfg { func_map_err = some e }
  add_custom none entries cfg = record cfg { custom_funcs = cfg.custom_funcs ++ entries }

  unfoldable pub apply_option : BuildOption P → ValidatorConfig P → ValidatorConfig P
  unfolding validate_name
  apply_option (with_error_formatter f) cfg = record cfg { error_formatter = f }
  apply_option (with_localizer l) cfg = record cfg { localizer = l }
  apply_option (with_override_method names) cfg = record cfg {
    allow_method_overrides = cfg.allow_method_overrides ++ names;
  }
  apply_option (with_override_func names) cfg = record cfg {
    allow_func_overrides = cfg.allow_func_overrides ++ names;
  }
  apply_option with_override_all cfg = record cfg { override_all = true }
  apply_option (with_custom k name p) cfg =
      add_custom (validate_name go name) (entry_of k name p ∷ []) cfg
  apply_option (with_func_map m) cfg = add_custom m.err m.entries cfg
  apply_option (with_name name) cfg = record cfg { schema_name = name }
  apply_option (with_max_schema_depth n) cfg = record cfg {
    max_schema_depth = n;
    max_schema_depth_set = true;
  }

  unfoldable pub apply_options : List (BuildOption P) → ValidatorConfig P → ValidatorConfig P
  unfolding apply_option
  apply_options [] cfg = cfg
  apply_options (o ∷ opts) cfg = apply_options opts (apply_option o cfg)

  -- what buildValidator makes of the options
  abbrev pub config_of : List (BuildOption P) → ValidatorConfig P
  config_of opts = apply_options opts empty_config
