-- ===== src/Options/Builds.antt =====
-- builtin.go: the environment of Bloblang for a configuration. The environment is of a type E; the
-- shared base with the built-in names, its clone, and the registration of an entry are parameters.
use schemix.Prelude.{
  Text, text, text_eq, ◌≡◌, refl, sym, ap, subst, ◌∙◌, Bool, true, false, ◌&&◌, not, Option, none,
  some, List, [], ◌∷◌, ◌++◌, any, All, if◌then◌else◌,
}
use schemix.GoLib.{GoLib}
use schemix.Fallible.{Fallible, ok, fail}
use schemix.Builtin.{builtin_method_names, builtin_func_names}
use schemix.Options.{
  CustomFuncKind, kind_func_v1, kind_func_v2, kind_method_v1, kind_method_v2, CustomFuncEntry,
  ValidatorConfig,
}

abbrev pub is_among : List Text → Text → Bool
is_among names name = any (text_eq name) names

abbrev method_conflict : GoLib → Text → Text
method_conflict go name =
    text "method "
    ++ go.quote name
    ++ text " conflicts with a built-in validator; use WithOverrideMethod("
    ++ go.quote name
    ++ text ") to allow"

abbrev func_conflict : GoLib → Text → Text
func_conflict go name =
    text "function "
    ++ go.quote name
    ++ text " conflicts with a built-in validator; use WithOverrideFunc("
    ++ go.quote name
    ++ text ") to allow"

-- a built-in name that is not allowed
abbrev clashes : List Text → List Text → Text → Bool
clashes built_in allowed name = is_among built_in name && not (is_among allowed name)

abbrev conflict_of : GoLib → List Text → List Text → CustomFuncKind → Text → Option Text
conflict_of go methods funcs kind_method_v1 name =
    if clashes builtin_method_names methods name then some (method_conflict go name) else none
conflict_of go methods funcs kind_method_v2 name =
    if clashes builtin_method_names methods name then some (method_conflict go name) else none
conflict_of go methods funcs kind_func_v1 name =
    if clashes builtin_func_names funcs name then some (func_conflict go name) else none
conflict_of go methods funcs kind_func_v2 name =
    if clashes builtin_func_names funcs name then some (func_conflict go name) else none

abbrev first_of : Option Text → Option Text → Option Text
first_of (some e) rest = some e
first_of none rest = rest

-- The entry's name is no built-in of its namespace, or it is allowed there.
abbrev pub Permitted : List Text → List Text → CustomFuncKind → Text → Type 0
Permitted methods funcs kind_method_v1 name = clashes builtin_method_names methods name ≡ false
Permitted methods funcs kind_method_v2 name = clashes builtin_method_names methods name ≡ false
Permitted methods funcs kind_func_v1 name = clashes builtin_func_names funcs name ≡ false
Permitted methods funcs kind_func_v2 name = clashes builtin_func_names funcs name ≡ false

if-none : (b : Bool) (m : Text) → (if b then some m else none) ≡ none → b ≡ false
if-none true m h = absurd (cc)
if-none false m h = refl

conflict_of-Permitted :
    (go : GoLib) (methods funcs : List Text) (k : CustomFuncKind) (name : Text)
    → conflict_of go methods funcs k name ≡ none
    → Permitted methods funcs k name
conflict_of-Permitted go methods funcs kind_method_v1 name h = if-none _ _ h
conflict_of-Permitted go methods funcs kind_method_v2 name h = if-none _ _ h
conflict_of-Permitted go methods funcs kind_func_v1 name h = if-none _ _ h
conflict_of-Permitted go methods funcs kind_func_v2 name h = if-none _ _ h

first_of-none : (a b : Option Text) → first_of a b ≡ none → (a ≡ none) × (b ≡ none)
first_of-none none b h = (refl, h)
first_of-none (some e) b h = absurd (cc)

module _ {P : Type 0} (go : GoLib) where
  -- An error, if there is one.
  unfoldable pub check_builtin_conflicts :
      List (CustomFuncEntry P) → List Text → List Text → Option Text
  check_builtin_conflicts [] methods funcs = none
  check_builtin_conflicts (e ∷ entries) methods funcs =
      first_of (conflict_of go methods funcs e.kind e.name)
        (check_builtin_conflicts entries methods funcs)

  check-Permitted :
      (entries : List (CustomFuncEntry P)) (methods funcs : List Text)
      → check_builtin_conflicts entries methods funcs ≡ none
      → All (λ e. Permitted methods funcs e.kind e.name) entries
  unfolding check_builtin_conflicts
  check-Permitted [] methods funcs h = tt
  check-Permitted (e ∷ entries) methods funcs h =
      let (first, rest) = first_of-none (conflict_of go methods funcs e.kind e.name) _ h in
      (
        conflict_of-Permitted go methods funcs e.kind e.name first,
        check-Permitted entries methods funcs rest,
      )

  module _ {E : Type 0} (base : Fallible E) (clone : E → E)
      (register : CustomFuncEntry P → E → Fallible E) where
    abbrev registered : CustomFuncEntry P → Fallible E → (E → Fallible E) → Fallible E
    registered e (fail m) next = fail (text "register " ++ go.quote e.name ++ text ": " ++ m)
    registered e (ok env) next = next env

    abbrev register_each : List (CustomFuncEntry P) → E → Fallible E
    register_each [] env = ok env
    register_each (e ∷ entries) env = registered e (register e env) (register_each entries)

    abbrev unless_conflict : Option Text → Fallible E → Fallible E
    unless_conflict (some m) built = fail m
    unless_conflict none built = built

    abbrev conflict_in : ValidatorConfig P → Option Text
    conflict_in cfg =
        let found =
          check_builtin_conflicts cfg.custom_funcs cfg.allow_method_overrides
            cfg.allow_func_overrides in
        if cfg.override_all then none else found

    abbrev build_on : ValidatorConfig P → List (CustomFuncEntry P) → E → Fallible E
    build_on cfg [] env = ok env
    build_on cfg (e ∷ entries) env =
        unless_conflict (conflict_in cfg) (register_each (e ∷ entries) (clone env))

    abbrev build_from : ValidatorConfig P → Fallible E → Fallible E
    build_from cfg (fail m) = fail m
    build_from cfg (ok env) = build_on cfg cfg.custom_funcs env

    unfoldable pub build_blob_env : ValidatorConfig P → Fallible E
    unfolding check_builtin_conflicts
    build_blob_env cfg = build_from cfg base

    unless_conflict-ok :
        (o : Option Text) (built : Fallible E) (env : E)
        → unless_conflict o built ≡ ok env
        → o ≡ none
    unless_conflict-ok none built env h = refl
    unless_conflict-ok (some m) built env h = absurd (cc)

    conflict_in-none :
        (cfg : ValidatorConfig P)
        → cfg.override_all ≡ false
        → conflict_in cfg ≡ none
        → All
            (λ e. Permitted cfg.allow_method_overrides cfg.allow_func_overrides e.kind e.name)
            cfg.custom_funcs
    conflict_in-none cfg off h =
        check-Permitted cfg.custom_funcs cfg.allow_method_overrides cfg.allow_func_overrides (
          sym (
            ap
              (λ (b : Bool).
                if b
                then none
                else check_builtin_conflicts cfg.custom_funcs cfg.allow_method_overrides
                    cfg.allow_func_overrides)
              off)
          ∙ h)

    build_on-Permitted :
        (cfg : ValidatorConfig P) (entries : List (CustomFuncEntry P)) (b env : E)
        → cfg.custom_funcs ≡ entries
        → cfg.override_all ≡ false
        → build_on cfg entries b ≡ ok env
        → All
            (λ e. Permitted cfg.allow_method_overrides cfg.allow_func_overrides e.kind e.name)
            cfg.custom_funcs
    build_on-Permitted cfg [] b env none_given off h =
        subst (All λ e. Permitted cfg.allow_method_overrides cfg.allow_func_overrides e.kind e.name)
          (sym none_given) tt
    build_on-Permitted cfg (e ∷ entries) b env given off h =
        conflict_in-none cfg off (unless_conflict-ok (conflict_in cfg) _ env h)

    build_from-Permitted :
        (cfg : ValidatorConfig P) (o : Fallible E) (env : E)
        → cfg.override_all ≡ false
        → build_from cfg o ≡ ok env
        → All
            (λ e. Permitted cfg.allow_method_overrides cfg.allow_func_overrides e.kind e.name)
            cfg.custom_funcs
    build_from-Permitted cfg (fail m) env off h = absurd (cc)
    build_from-Permitted cfg (ok b) env off h =
        build_on-Permitted cfg cfg.custom_funcs b env refl off h

    -- If the override of everything is off and an environment is built, then no custom method has
    -- the name of a built-in method that is not allowed as a method, and no custom function that of
    -- a built-in function that is not allowed as a function.
    pub build_blob_env-Permitted :
        (cfg : ValidatorConfig P) (env : E)
        → cfg.override_all ≡ false
        → build_blob_env cfg ≡ ok env
        → All
            (λ e. Permitted cfg.allow_method_overrides cfg.allow_func_overrides e.kind e.name)
            cfg.custom_funcs
    unfolding build_blob_env
    build_blob_env-Permitted cfg env off h = build_from-Permitted cfg base env off h
