-- ===== src/Examples/Controls.antt =====
-- The controls of a field and the rules of a small schema.
use schemix.Prelude.{
  ℕ, zero, suc, ◌-◌, arith, ℤ, pos, ◌≡◌, refl, Text, text, Bool, true, false, Option, none, some,
  List, [], ◌∷◌, all, length,
}
use schemix.GoLib.{trim_space}
use schemix.Fallible.{Fallible, ok, fail}
use schemix.Value.{bool}
use schemix.Schema.{CueKind, string_kind, struct_kind, Executor, FieldMeta, BlobRule, value}
use schemix.Compile.Meta.{no_meta, is_known, parse_field_meta}
use schemix.Compile.Controls.{Coherent, parse_field_meta-Coherent}
use schemix.Compile.Rules.{SchemaApi, schema_too_deep}
use schemix.Compile.Extract.{extract_rules}
use schemix.Compile.Depth.{extract_rules_raised}
use schemix.Examples.{ascii}

abbrev read_two : Text → Fallible ℤ
read_two s = ok (pos 2)

abbrev always : Text → Fallible Executor
always s = ok λ input. value (bool true)

abbrev controls : List (Text × Text)
controls =
    (text "priority", text "2") ∷ (text "skip_if=this.x", []) ∷ (text " conditional", []) ∷ []

abbrev meta_of : Fallible FieldMeta → FieldMeta
meta_of (fail e) = no_meta
meta_of (ok m) = m

abbrev accepted : FieldMeta
accepted = meta_of (parse_field_meta ascii read_two always (some controls))

all_read : parse_field_meta ascii read_two always (some controls) ≡ ok accepted
unfolding parse_field_meta schemix.Prelude.text_eq schemix.Prelude.has_prefix
all_read = refl

parse_field_meta-Coherent_example :
    (all (λ a. is_known (trim_space a.0)) controls ≡ true) × Coherent accepted
parse_field_meta-Coherent_example =
    parse_field_meta-Coherent ascii read_two always controls accepted all_read

-- A schema whose every struct has one field, of its own schema, with a rule: it has no end.
abbrev endless : SchemaApi ℕ
endless = record {
  kind = λ s. struct_kind;
  kind_sans_null = λ s. struct_kind;
  schema_fields = λ s.
      some (
        record { selector = text "a?"; is_optional = true; is_definition = false; schema = s }
        ∷ []);
  fields_with_definitions = λ s. some [];
  blob_args = λ s. some (text "this.a" ∷ []);
  meta_args = λ s. none;
  any_element = λ s. none;
  list_items = λ s. none;
}

-- The limit stops the walk.
refused_at_two :
    extract_rules ascii endless 1 read_two always 2 [] 0 []
    ≡ fail (schema_too_deep ascii 1 (text "a.a"))
unfolding extract_rules schemix.Prelude.text_eq
refused_at_two = refl

-- A schema of this many nested structs, with a rule on each field.
abbrev kind_at : ℕ → CueKind
kind_at zero = string_kind
kind_at (suc n) = struct_kind

abbrev nested : SchemaApi ℕ
nested = record endless {
  kind = kind_at;
  kind_sans_null = kind_at;
  schema_fields = λ s. some (
      record { selector = text "a?"; is_optional = true; is_definition = false; schema = s - 1 }
      ∷ []);
}

abbrev rules_of : Fallible (List BlobRule) → List BlobRule
rules_of (fail e) = []
rules_of (ok rules) = rules

abbrev two_rules : List BlobRule
two_rules = rules_of (extract_rules ascii nested 2 read_two always 3 [] 2 [])

two_found : length two_rules ≡ 2
unfolding extract_rules schemix.Prelude.text_eq
two_found = refl

two_extracted : extract_rules ascii nested 2 read_two always 3 [] 2 [] ≡ ok two_rules
unfolding extract_rules schemix.Prelude.text_eq
two_extracted = refl

extract_rules_raised_example :
    extract_rules ascii nested 32 read_two always 33 [] 2 [] ≡ ok two_rules
extract_rules_raised_example =
    extract_rules_raised ascii nested 2 32 read_two always (omega arith) 2 two_rules two_extracted
