-- ===== src/Builtin/Base.antt =====
-- builtin.go: the shared environment with the built-in names. An environment is of a type E;
-- `add_method` and `add_function` register the built-in of a name in it.
use schemix.Prelude.{Text, List, [], ◌∷◌}
use schemix.Fallible.{Fallible, ok, fail}
use schemix.Builtin.{builtin_method_names, builtin_func_names}

module _ {E : Type 0} (add_method add_function : Text → E → Fallible E) where
  abbrev and_env : Fallible E → (E → Fallible E) → Fallible E
  and_env (fail e) next = fail e
  and_env (ok env) next = next env

  abbrev add_names : (Text → E → Fallible E) → List Text → E → Fallible E
  add_names add [] env = ok env
  add_names add (name ∷ names) env = and_env (add name env) (add_names add names)

  unfoldable pub register_builtins : E → Fallible E
  register_builtins env =
      and_env (add_names add_method builtin_method_names env)
        (add_names add_function builtin_func_names)

  -- What the one run of the initialization leaves, on a new environment.
  unfoldable pub get_base_env : E → Fallible E
  unfolding register_builtins
  get_base_env new_environment = register_builtins new_environment
