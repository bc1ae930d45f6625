-- ===== src/Compile/Meta.antt =====
-- parsefieldMeta and extractFieldPriority of compile.go: the controls in @meta(…). The arguments of
-- the attribute are those that CUE lists, each a key and a value; strconv.Atoi and Bloblang's
-- parser are parameters.
use schemix.Prelude.{
  ℤ, pos, Text, text, text_eq, has_prefix, Bool, true, false, ◌&&◌, not, Option, none, some, List,
  [], ◌∷◌, ◌++◌, any, if◌then◌else◌,
}
use schemix.GoLib.{GoLib, up_to, trim_space, drop_prefix}
use schemix.Fallible.{Fallible, ok, fail}
use schemix.Schema.{Executor, FieldMeta}

abbrev pub known_meta_params : List Text
known_meta_params =
    text "priority"
    ∷ text "optional"
    ∷ text "conditional"
    ∷ text "skip_empty"
    ∷ text "fail_fast"
    ∷ text "omit_if_skip"
    ∷ text "omit_empty"
    ∷ text "required_if"
    ∷ text "skip_if"
    ∷ []

abbrev pub no_meta : FieldMeta
no_meta = record {
  priority = pos 0;
  optional = false;
  conditional = false;
  skip_empty = false;
  fail_fast = false;
  omit_if_skip = false;
  omit_empty = false;
  skip_if = none;
  skip_if_expr = [];
  required_if = none;
  required_if_expr = [];
}

-- The key up to an equals sign.
unfoldable pub base_key : Text → Text
unfolding up_to
base_key key = up_to b'=' key

unfoldable pub is_known : Text → Bool
unfolding base_key
is_known key = any (text_eq (base_key key)) known_meta_params

abbrev pub mapping_of : Text → Text
mapping_of expr = text "root = " ++ expr

abbrev pub is_empty_value : Text → Bool
is_empty_value [] = true
is_empty_value (c ∷ s) = false

module _ (go : GoLib) (atoi : Text → Fallible ℤ) (parse : Text → Fallible Executor) where
  abbrev pub with_priority : Text → Fallible ℤ → FieldMeta → Fallible FieldMeta
  with_priority v (fail e) meta = fail (text "@meta priority=" ++ go.quote v ++ text ": " ++ e)
  with_priority v (ok n) meta = ok (record meta { priority = n })

  abbrev pub with_required_if : Text → Fallible Executor → FieldMeta → Fallible FieldMeta
  with_required_if expr (fail e) meta =
      fail (text "@meta required_if=" ++ go.quote expr ++ text ": " ++ e)
  with_required_if expr (ok exec) meta =
      ok (record meta { required_if = some exec; required_if_expr = expr })

  abbrev pub with_skip_if : Text → Fallible Executor → FieldMeta → Fallible FieldMeta
  with_skip_if expr (fail e) meta = fail (text "@meta skip_if=" ++ go.quote expr ++ text ": " ++ e)
  with_skip_if expr (ok exec) meta = ok (record meta { skip_if = some exec; skip_if_expr = expr })

  abbrev pub set_required_if : Text → FieldMeta → Fallible FieldMeta
  set_required_if [] meta = fail (text "@meta required_if expression must not be empty")
  set_required_if (c ∷ e) meta = with_required_if (c ∷ e) (parse (mapping_of (c ∷ e))) meta

  abbrev pub set_skip_if : Text → FieldMeta → Fallible FieldMeta
  set_skip_if [] meta = fail (text "@meta skip_if expression must not be empty")
  set_skip_if (c ∷ e) meta = with_skip_if (c ∷ e) (parse (mapping_of (c ∷ e))) meta

  -- The switch, on a key that is known.
  abbrev pub set_by : Text → Text → FieldMeta → Fallible FieldMeta
  set_by key v meta =
      if text_eq key (text "priority") && not (is_empty_value v)
      then with_priority v (atoi v) meta
      else if text_eq key (text "optional")
      then ok (record meta { optional = true })
      else if text_eq key (text "conditional")
      then ok (record meta { conditional = true; optional = true })
      else if text_eq key (text "skip_empty")
      then ok (record meta { skip_empty = true })
      else if text_eq key (text "fail_fast")
      then ok (record meta { fail_fast = true })
      else if text_eq key (text "omit_if_skip")
      then ok (record meta { omit_if_skip = true })
      else if text_eq key (text "omit_empty")
      then ok (record meta { omit_empty = true })
      else if text_eq key (text "required_if")
      then set_required_if v meta
      else if has_prefix key (text "required_if=")
      then set_required_if (drop_prefix key (text "required_if=")) meta
      else if text_eq key (text "skip_if")
      then set_skip_if v meta
      else if has_prefix key (text "skip_if=")
      then set_skip_if (drop_prefix key (text "skip_if=")) meta
      else ok meta

  abbrev pub unknown_param : Text → Text
  unknown_param key = text "unknown @meta parameter " ++ go.quote key

  abbrev pub set_arg : Text → Text → FieldMeta → Fallible FieldMeta
  set_arg key v meta = if not (is_known key) then fail (unknown_param key) else set_by key v meta

  abbrev pub and_then : Fallible FieldMeta → (FieldMeta → Fallible FieldMeta) → Fallible FieldMeta
  and_then (fail e) next = fail e
  and_then (ok meta) next = next meta

  unfoldable pub parse_args : List (Text × Text) → FieldMeta → Fallible FieldMeta
  unfolding is_known trim_space
  parse_args [] meta = ok meta
  parse_args ((key, v) ∷ args) meta =
      and_then (set_arg (trim_space key) (trim_space v) meta) (parse_args args)

  -- An attribute that is missing is `none`.
  unfoldable pub parse_field_meta : Option (List (Text × Text)) → Fallible FieldMeta
  unfolding parse_args
  parse_field_meta none = ok no_meta
  parse_field_meta (some args) = parse_args args no_meta

  abbrev pub or_priority : Fallible ℤ → ℤ → ℤ
  or_priority (fail e) rest = rest
  or_priority (ok n) rest = n

  abbrev pub priority_of_args : List (Text × Text) → ℤ
  unfolding trim_space
  priority_of_args [] = pos 0
  priority_of_args ((key, v) ∷ args) =
      let rest = priority_of_args args in
      if text_eq (trim_space key) (text "priority") && not (is_empty_value v)
      then or_priority (atoi v) rest
      else rest

  -- The first priority that parses, else 0.
  unfoldable pub extract_field_priority : Option (List (Text × Text)) → ℤ
  unfolding trim_space
  extract_field_priority none = pos 0
  extract_field_priority (some args) = priority_of_args args
