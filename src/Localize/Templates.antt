-- ===== src/Localize/Templates.antt =====
-- expand of localize.go and the placeholders of a template.
use schemix.Prelude.{
  ℕ, zero, suc, Text, text, text_eq, Bool, true, false, ◌||◌, not, Option, none, some, List, [],
  ◌∷◌, ◌++◌, length, ◌==◌, if◌then◌else◌,
}
use schemix.GoLib.{GoLib}
use schemix.Errors.{ValidationError}
use schemix.Localize.Spans.{has_byte, next_span}

abbrev pub is_empty_text : Text → Bool
is_empty_text [] = true
is_empty_text (c ∷ s) = false

unfoldable pub is_numeric_field_type : Text → Bool
is_numeric_field_type t =
    text_eq t (text "int") || text_eq t (text "float") || text_eq t (text "number")

abbrev prefer : Option Text → Option Text → Option Text
prefer none here = here
prefer (some t) here = some t

-- `s[strings.LastIndex(s, c):]`
unfoldable pub from_last : ℕ → Text → Option Text
from_last c [] = none
from_last c (d ∷ s) = prefer (from_last c s) (if d == c then some (d ∷ s) else none)

-- `strings.HasSuffix(s, c)` for a single byte
unfoldable pub ends_with : ℕ → Text → Bool
ends_with c [] = false
ends_with c (d ∷ []) = d == c
ends_with c (d ∷ e ∷ s) = ends_with c (e ∷ s)

abbrev pub or_empty : Option Text → Text
or_empty none = []
or_empty (some t) = t

unfoldable pub enum_options_from_detail : Text → Text
unfolding from_last ends_with
enum_options_from_detail detail =
    if ends_with b']' detail then or_empty (from_last b'[' detail) else []

-- the options with `, ` between them, each as `show` shows it
abbrev join_options : (Text → Text) → List Text → Text
join_options show [] = []
join_options show (o ∷ []) = show o
join_options show (o ∷ p ∷ os) = show o ++ text ", " ++ join_options show (p ∷ os)

module _ (go : GoLib) where
  abbrev shown_by : Bool → Text → Text
  shown_by quoted o = if quoted then go.quote o else o

  abbrev bracketed : Bool → List Text → Text
  bracketed quoted options = b'[' ∷ (join_options (shown_by quoted) options ++ text "]")

  unfoldable pub enum_options_text : ValidationError → Text
  unfolding enum_options_from_detail is_numeric_field_type
  enum_options_text e = elim e.enum_options [
    | [] ↦ enum_options_from_detail e.message
    | o ∷ os ↦ bracketed (not (is_numeric_field_type e.field_type)) (o ∷ os)
  ]

  -- The value, unless what it is made of is empty.
  abbrev pub unless_empty : Text → Text → Option Text
  unless_empty [] shown = none
  unless_empty (c ∷ s) shown = some shown

  unfoldable pub placeholder_value : Text → ValidationError → Option Text
  unfolding enum_options_text
  placeholder_value name e =
      if text_eq name (text "field")
      then unless_empty e.path e.path
      else if text_eq name (text "type")
      then unless_empty e.field_type e.field_type
      else if text_eq name (text "bound")
      then unless_empty e.bound e.bound
      else if text_eq name (text "options")
      then unless_empty (enum_options_text e) (enum_options_text e)
      else if text_eq name (text "suggestion")
      then unless_empty e.suggestion (go.quote e.suggestion)
      else none

  abbrev pub glue : Text → Option Text → Option Text → Option Text
  glue before none rest = none
  glue before (some v) none = none
  glue before (some v) (some rest) = some (before ++ v ++ rest)

  abbrev pub filled :
      ValidationError → Text → Option (Text × Text × Text) → (Text → Option Text) → Option Text
  filled e rest none next = some rest
  filled e rest (some (before, name, behind)) next =
      glue before (placeholder_value name e) (next behind)

  -- The loop, with fuel; `none` is the return of the empty string.
  unfoldable pub expand_from : ValidationError → ℕ → Text → Option Text
  unfolding next_span placeholder_value
  expand_from e zero rest = some rest
  expand_from e (suc f) rest = filled e rest (next_span b'{' b'}' rest) (expand_from e f)

  unfoldable pub expand : Text → ValidationError → Text
  unfolding expand_from
  expand tmpl e =
      let expanded = or_empty (expand_from e (suc (length tmpl)) tmpl) in
      if is_empty_text tmpl then [] else if not (has_byte b'{' tmpl) then tmpl else expanded

abbrev pub named_first : Option (Text × Text × Text) → (Text → List Text) → List Text
named_first none next = []
named_first (some (before, name, behind)) next = name ∷ next behind

-- The loop of placeholderNames, with fuel.
unfoldable pub names_from : ℕ → Text → List Text
unfolding next_span
names_from zero rest = []
names_from (suc f) rest = named_first (next_span b'{' b'}' rest) (names_from f)

unfoldable pub placeholder_names : Text → List Text
unfolding names_from
placeholder_names tmpl =
    let names = names_from (suc (length tmpl)) tmpl in if has_byte b'{' tmpl then names else []
