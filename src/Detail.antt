-- ===== src/Detail.antt =====
-- What localize.go and errors.go lift out of the raw text of a violation.
use schemix.Prelude.{Text, text, Option, none, some, List, [], ◌∷◌, if◌then◌else◌}
use schemix.GoLib.{GoLib, after, up_to, trim_space}
use schemix.Errors.{ValidationError, code_eq, enum_invalid, range_violation}
use schemix.Fast.{Descriptor}
use schemix.Fast.Enum.{enum_options_of}

abbrev pub bound_marker : Text
bound_marker = text "out of bound "

-- boundFromDetail
unfoldable pub bound_from_detail : Text → Text
unfolding after up_to trim_space
bound_from_detail detail = elim (after bound_marker detail) [
  | none ↦ []
  | some bound ↦ trim_space (up_to b')' bound)
]

abbrev options_or : List Text → List Text → List Text
options_or [] default = default
options_or (o ∷ os) default = o ∷ os

module _ (go : GoLib) where
  abbrev options_of : Option Descriptor → List Text
  options_of none = []
  options_of (some fc) = enum_options_of go fc

  -- attachStructuredFields; the nil descriptor is `none`
  unfoldable pub attach_structured_fields :
      ValidationError → Option Descriptor → Text → ValidationError
  unfolding bound_from_detail enum_options_of
  attach_structured_fields e fc detail =
      if code_eq e.code enum_invalid
      then record e { enum_options = options_or e.enum_options (options_of fc) }
      else if code_eq e.code range_violation
      then record e { bound = bound_from_detail detail }
      else e
