-- ===== src/Compile/Extract.antt =====
-- extractRules of compile.go: the rules of a schema, in the order of its fields.
use schemix.Prelude.{
  ℕ, zero, suc, ℤ, Text, text, Bool, true, ◌||◌, Option, none, some, List, [], ◌∷◌, ◌++◌,
  if◌then◌else◌,
}
use schemix.GoLib.{GoLib, trim_space}
use schemix.Fallible.{Fallible, ok, fail}
use schemix.Schema.{
  CueKind, other_kind, is_struct_kind, is_list_kind, Executor, FieldMeta, BlobRule,
}
use schemix.Compile.Meta.{parse_field_meta, mapping_of}
use schemix.Compile.Controls.{is_present}
use schemix.Compile.Rules.{
  SchemaField, SchemaApi, trim_optional, below, or_empty_list, schema_too_deep,
  find_attr_in_list_elements,
}

abbrev pub Extracted : Type 0
Extracted = Fallible (List BlobRule)

abbrev pub and_rules : Extracted → (List BlobRule → Extracted) → Extracted
and_rules (fail e) next = fail e
and_rules (ok rules) next = next rules

module _ {S : Type 0} (go : GoLib) (api : SchemaApi S) (limit : ℕ) where
  module _ (atoi : Text → Fallible ℤ) (parse_blob : Text → Fallible Executor) where
    -- `rk` in the code is the kind of the field without null.
    abbrev pub blob_rule : Text → Executor → Text → FieldMeta → CueKind → BlobRule
    blob_rule path exec expr meta kind = record {
      path = path;
      exec = some exec;
      expr = expr;
      meta = meta;
      result_kind = kind;
    }

    abbrev add_compiled :
        Text → Text → FieldMeta → CueKind → Fallible Executor → List BlobRule → Extracted
    add_compiled path expr meta kind (fail e) rules =
        fail (
          text "field " ++ go.quote path ++ text " @blob(" ++ expr ++ text ") compile error: " ++ e)
    add_compiled path expr meta kind (ok exec) rules =
        ok (rules ++ blob_rule path exec expr meta kind ∷ [])

    -- An expression that is empty but for white space is passed over.
    abbrev add_expr : Text → FieldMeta → CueKind → Text → List BlobRule → Extracted
    add_expr path meta kind [] rules = ok rules
    add_expr path meta kind (c ∷ expr) rules =
        add_compiled path (c ∷ expr) meta kind (parse_blob (mapping_of (c ∷ expr))) rules

    abbrev add_exprs : Text → FieldMeta → CueKind → List Text → List BlobRule → Extracted
    add_exprs path meta kind [] rules = ok rules
    add_exprs path meta kind (key ∷ keys) rules =
        and_rules (add_expr path meta kind (trim_space key) rules) (add_exprs path meta kind keys)

    -- A node without an expression, for the controls that work on their own.
    abbrev meta_node : Text → FieldMeta → BlobRule
    meta_node path meta = record {
      path = path;
      exec = none;
      expr = [];
      meta = meta;
      result_kind = other_kind;
    }

    abbrev has_controls : FieldMeta → Bool
    has_controls m =
        is_present m.required_if
        || is_present m.skip_if
        || m.skip_empty
        || m.omit_empty
        || m.omit_if_skip

    abbrev pub add_field_rules :
        Text → FieldMeta → CueKind → Option (List Text) → List BlobRule → Extracted
    add_field_rules path meta kind (some keys) rules = add_exprs path meta kind keys rules
    add_field_rules path meta kind none rules =
        if has_controls meta then ok (rules ++ meta_node path meta ∷ []) else ok rules

    abbrev pub optional_too : Bool → FieldMeta → FieldMeta
    optional_too b m = if b then record m { optional = true } else m

    abbrev misplaced_error : Text → Text → Text → Text
    misplaced_error path name bad =
        text "field "
        ++ go.quote path
        ++ text ": @blob/@meta is not supported inside array elements (found at "
        ++ go.quote bad
        ++ text
            ") and would be silently ignored; put the attribute on the array field itself, e.g. "
        ++ name
        ++ text ": [...{...}] @blob(this."
        ++ path
        ++ text ".all(i -> i.field > 0))"

    abbrev pub unless_found : Text → Text → Fallible Text → List BlobRule → Extracted
    unless_found path name (fail e) rules = fail e
    unless_found path name (ok []) rules = ok rules
    unless_found path name (ok (c ∷ bad)) rules = fail (misplaced_error path name (c ∷ bad))

    abbrev pub descend_into :
        (Text → S → List BlobRule → Extracted)
        → (Text → S → Fallible Text)
        → Text
        → Text
        → S
        → List BlobRule
        → Extracted
    descend_into nested in_list path name s rules =
        if is_struct_kind (api.kind s)
        then nested path s rules
        else if is_list_kind (api.kind s)
        then unless_found path name (in_list path s) rules
        else ok rules

    abbrev pub with_meta : Text → Fallible FieldMeta → (FieldMeta → Extracted) → Extracted
    with_meta path (fail e) next = fail (text "field " ++ go.quote path ++ text " @meta: " ++ e)
    with_meta path (ok meta) next = next meta

    abbrev pub extract_field :
        (Text → S → List BlobRule → Extracted)
        → (Text → S → Fallible Text)
        → Text
        → SchemaField S
        → List BlobRule
        → Extracted
    extract_field nested in_list prefix f rules =
        let name = trim_optional f.selector in
        let path = below prefix name in
        with_meta path (parse_field_meta go atoi parse_blob (api.meta_args f.schema)) λ meta.
          and_rules
            (add_field_rules path (optional_too f.is_optional meta) (api.kind_sans_null f.schema)
              (api.blob_args f.schema) rules)
            (descend_into nested in_list path name f.schema)

    abbrev pub extract_fields :
        (SchemaField S → List BlobRule → Extracted)
        → List (SchemaField S)
        → List BlobRule
        → Extracted
    extract_fields visit [] rules = ok rules
    extract_fields visit (f ∷ fields) rules =
        and_rules (visit f rules) (extract_fields visit fields)

    unfoldable pub extract_rules : ℕ → Text → S → List BlobRule → Extracted
    unfolding parse_field_meta find_attr_in_list_elements trim_space
    extract_rules zero prefix s rules = fail (schema_too_deep go limit prefix)
    extract_rules (suc left) prefix s rules =
        let extracted =
          extract_fields
            (extract_field (extract_rules left) (find_attr_in_list_elements go api limit left)
              prefix)
            (or_empty_list (api.schema_fields s)) rules in
        if is_struct_kind (api.kind s) then extracted else ok rules
