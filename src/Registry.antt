-- ===== src/Registry.antt =====
-- registry.go: validators filed under names. The Go map is a list of entries without repeated
-- names; the lock makes every call one step. How a validator is made of a schema is a parameter.
pub mod Runs
pub mod Listing
pub mod Claims
pub mod Granted
pub mod Plugins
pub mod Answers
use schemix.Prelude.{
  ℕ, Text, text, text_eq, Bool, true, false, ◌||◌, Option, none, some, List, [], ◌∷◌, ◌++◌, map,
  length, if◌then◌else◌, ltb, ◌==◌, ◌&&◌,
}
use schemix.GoLib.{GoLib}
use schemix.Fallible.{Fallible, ok, fail}

-- `map[string]*Validator`
abbrev pub Registry {ℓ} : Type ℓ → Type ℓ
Registry V = List (Text × V)

-- `a < b` on strings
unfoldable pub text_lt : Text → Text → Bool
text_lt [] [] = false
text_lt [] (b ∷ t) = true
text_lt (a ∷ s) [] = false
text_lt (a ∷ s) (b ∷ t) = ltb a b || (a == b && text_lt s t)

unfoldable pub insert_name : Text → List Text → List Text
unfolding text_lt
insert_name x [] = x ∷ []
insert_name x (y ∷ ys) = let rest = insert_name x ys in if text_lt y x then y ∷ rest else x ∷ y ∷ ys

-- `slices.Sort`
unfoldable pub sort_names : List Text → List Text
unfolding insert_name
sort_names [] = []
sort_names (x ∷ xs) = insert_name x (sort_names xs)

abbrev pub put_error : GoLib → Text → Text
put_error go name = text "put " ++ go.quote name ++ text ": nil validator"

abbrev pub register_error : GoLib → Text → Text → Text
register_error go name e = text "register " ++ go.quote name ++ text ": " ++ e

module _ {ℓ} {V : Type ℓ} where
  -- `r.validators[name] = v`
  unfoldable pub file : Text → V → Registry V → Registry V
  file name v [] = (name, v) ∷ []
  file name v ((n, w) ∷ r) = if text_eq n name then (n, v) ∷ r else (n, w) ∷ file name v r

  -- `delete(r.validators, name)`
  unfoldable pub unfile : Text → Registry V → Registry V
  unfile name [] = []
  unfile name ((n, w) ∷ r) =
      let rest = unfile name r in if text_eq n name then rest else (n, w) ∷ rest

  unfoldable pub get : Registry V → Text → Option V
  get [] name = none
  get ((n, v) ∷ r) name = if text_eq n name then some v else get r name

  abbrev pub is_some : Option V → Bool
  is_some none = false
  is_some (some v) = true

  unfoldable pub has : Registry V → Text → Bool
  unfolding get
  has r name = is_some (get r name)

  -- A nil validator is `none`. The first part is the error, if there is one.
  unfoldable pub put : GoLib → Text → Option V → Registry V → Option Text × Registry V
  unfolding file
  put go name none r = (some (put_error go name), r)
  put go name (some v) r = (none, file name v r)

  unfoldable pub unregister : Text → Registry V → Bool × Registry V
  unfolding has unfile
  unregister name r = if has r name then (true, unfile name r) else (false, r)

  abbrev pub names_of : Registry V → List Text
  names_of r = map (λ e. e.0) r

  unfoldable pub list_names : Registry V → List Text
  unfolding sort_names
  list_names r = sort_names (names_of r)

  unfoldable pub len : Registry V → ℕ
  len r = length r

  -- `build` is NewWithContext in the registry's context, `with_name` is WithName.
  module _ {κ} {O : Type κ} (go : GoLib) (build : Text → List O → Fallible V)
      (with_name : Text → O) where
    abbrev pub with_registry_name : Text → List O → List O
    with_registry_name name opts = opts ++ with_name name ∷ []

    abbrev pub register_built : Text → Fallible V → Registry V → Option Text × Registry V
    register_built name (fail e) r = (some (register_error go name e), r)
    register_built name (ok v) r = (none, file name v r)

    unfoldable pub register : Text → Text → List O → Registry V → Option Text × Registry V
    unfolding file
    register name cue_src opts r =
        register_built name (build cue_src (with_registry_name name opts)) r
